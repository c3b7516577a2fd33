-- ===== src/Odoo/Poll/Trace.antt =====
-- What the life of the label source is made of: polls, deaths of the process while a document prints,
-- and starts (odoo_source/mod.rs of crates/devbridge-client/src).
use devbridge.Common.{ℕ, ◌+◌, String, Bool, false, ◌||◌, List, [], ◌∷◌}
use devbridge.Common.Int.{ℤ, int_eq}
use devbridge.Common.Result.{Result, ok, err}
use devbridge.Common.Table.{find, passes}
use devbridge.Odoo.Ledger.{Ledger, LedgerEntry, mark_sending, recover_interrupted, is_prunable}
use devbridge.Odoo.Size.{LabelGeometry, Floats}
use devbridge.Odoo.Batch.{NextBatch, PrintableLine, sort_lines}
use devbridge.Odoo.Poll.{AckReply, OdooSource, batch_geometry, flush_acks, ids_of, poll_once, start}
use devbridge.Odoo.Poll.Sent.{count}

pub data Event (F : Type 0) : Type 0 where
  poll :
      ℕ
      → (LedgerEntry → AckReply)
      → (LedgerEntry → AckReply)
      → Result (NextBatch F)
      → Result String
      → Event F
  killed : ℕ → (LedgerEntry → AckReply) → ℤ → NextBatch F → Event F
  started : ℕ → Event F

module _ {F L : Type 0} (floats : Floats F) (show_int : ℤ → String) (show_nat : ℕ → String)
    (decode : LabelGeometry F → String → Result L) (config : LabelGeometry F) where
  -- The bytes are with the spooler, and the process is gone before it learns of them.
  abbrev pub killed_sending : List ℤ → OdooSource F → Result Ledger → OdooSource F × List ℤ
  killed_sending ids q (ok s) = (record q { ledger = s }, ids)
  killed_sending ids q (err e) = (q, [])

  abbrev pub killed_or_not :
      ℕ
      → ℤ
      → Result (LabelGeometry F)
      → List (PrintableLine L)
      → OdooSource F
      → OdooSource F × List ℤ
  killed_or_not now b geometry [] q = (q, [])
  killed_or_not now b (err reason) (l ∷ ls) q = (q, [])
  killed_or_not now b (ok geometry) (l ∷ ls) q =
      killed_sending (ids_of (l ∷ ls)) q (mark_sending now b (ids_of (l ∷ ls)) q.ledger)

  abbrev pub killed_after :
      ℕ → ℤ → NextBatch F → OdooSource F → Ledger × Result ℕ → OdooSource F × List ℤ
  killed_after now b batch q (s, err e) = (record q { ledger = s }, [])
  killed_after now b batch q (s, ok owed) =
      let geometry = batch_geometry floats show_int show_nat decode config batch in
      let p = sort_lines show_int decode now b batch geometry s in
      killed_or_not now b geometry p.printable (record q { ledger = p.ledger })

  -- The state after an event, and the lines whose bytes went to the spooler in it.
  unfoldable pub event : Event F → OdooSource F → OdooSource F × List ℤ
  unfolding flush_acks
  event (poll now before after next result) q =
      let polled =
        poll_once floats show_int show_nat decode config now before after next result q in
      (polled.source, polled.sent)
  event (killed now before b batch) q = killed_after now b batch q (flush_acks now before q.ledger)
  event (started now) q = (start now q, [])

  -- How often the bytes of line `k` went to the spooler.
  unfoldable pub submissions : ℤ → List (Event F) → OdooSource F → ℕ
  unfolding event
  submissions k [] q = 0
  submissions k (e ∷ es) q = count k (event e q).1 + submissions k es (event e q).0

  abbrev pub drops : ℤ → Event F → OdooSource F → Bool
  drops k (poll now before after next result) q = false
  drops k (killed now before b batch) q = false
  drops k (started now) q = passes (is_prunable now) (find k (recover_interrupted now q.ledger).0)

  -- Whether some start drops the row of line `k` as an old one.
  unfoldable pub forgets : ℤ → List (Event F) → OdooSource F → Bool
  unfolding event
  forgets k [] q = false
  forgets k (e ∷ es) q = drops k e q || forgets k es (event e q).0
