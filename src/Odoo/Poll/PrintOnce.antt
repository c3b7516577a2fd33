-- ===== src/Odoo/Poll/PrintOnce.antt =====
-- A poll hands the bytes of a line to the spooler only if the ledger does not hold it as sent, and then
-- it does (odoo_source/mod.rs of crates/devbridge-client/src).
use devbridge.Common.{
  ℕ, nat_eq, one_if, ◌+◌, String, ◌≡◌, refl, sym, ap, ◌∙◌, Bool, true, false, Option, none, some,
  List, [], ◌∷◌, arith, ◌==◌, inl, inr, Bool-cases,
}
use devbridge.Common.Int.{ℤ, int_eq}
use devbridge.Common.Result.{Result, ok, err}
use devbridge.Odoo.Ledger.{Ledger, LedgerEntry, mark_sending}
use devbridge.Odoo.Size.{LabelGeometry, Floats}
use devbridge.Odoo.Batch.{NextBatch, PrintableLine, Progress, sort_lines}
use devbridge.Odoo.Poll.{
  AckReply, PollOutcome, OdooSource, Polled, flush_acks, ids_of, spooled, print_or_not, handle_next,
  has_lines, flush_after, flushed, polled_next, after_flush, nothing_printable, batch_geometry,
  print_batch, handle_batch, poll_once,
}
use devbridge.Odoo.Poll.Sent.{sent, count, sent-mark_sending}
use devbridge.Odoo.Poll.Keeps.{sent-flush_each, sent-record_all, sent-sort_lines}
use devbridge.Odoo.Poll.Trace.{
  Event, poll, killed, started, killed_sending, killed_or_not, killed_after, drops, event,
  submissions, forgets,
}
use devbridge.Odoo.Poll.{start}
use devbridge.Odoo.Poll.Sent.{sent-recover_interrupted}
use devbridge.Odoo.Ledger.{recover_interrupted, prune, is_prunable, Line}
use devbridge.Common.Table.{find, delete, passes}
use devbridge.Common.{◌≤◌, ◌||◌}

-- The lines that the spooler was given by then, and those that the ledger held as sent before.
abbrev pub Sends : {F : Type 0} → ℤ → Ledger → Polled F → Type 0
Sends k s polled = count k polled.sent + one_if (sent k s) ≡ one_if (sent k polled.source.ledger)

from_before : {b c : Bool} {u : ℕ} (n : ℕ) → b ≡ c → n + one_if b ≡ u → n + one_if c ≡ u
from_before n e h = ap (λ c. n + one_if c) (sym e) ∙ h

-- The same of a state and the lines that went to the spooler on the way there.
abbrev Accounts : {F : Type 0} → ℤ → OdooSource F → OdooSource F × List ℤ → Type 0
Accounts k q x = count k x.1 + one_if (sent k q.ledger) ≡ one_if (sent k x.0.ledger)

or-false : (a b : Bool) → (a || b) ≡ false → (a ≡ false) × (b ≡ false)
or-false false b h = (refl, h)
or-false true b h = ground (arith, h)

kept-delete :
    (k : ℤ) (test : Line → Bool) (s : Ledger)
    → passes test (find k s) ≡ false
    → sent k (delete test s) ≡ sent k s
unfolding sent find delete
kept-delete k test [] h = refl
kept-delete k test ((i, r) ∷ s) h = ground (arith, kept-delete k test s)

module _ {F L : Type 0} (floats : Floats F) (show_int : ℤ → String) (show_nat : ℕ → String)
    (decode : LabelGeometry F → String → Result L) (config : LabelGeometry F) (k : ℤ) where
  unsent-Sends :
      (s : Ledger) (polled : Polled F)
      → polled.sent ≡ []
      → sent k polled.source.ledger ≡ sent k s
      → Sends k s polled
  unsent-Sends s polled e h = rw (e, h) (ground arith)

  print_batch-Sends :
      (now : ℕ) (b : ℤ) (result : Result String) (ls : List (PrintableLine L))
      (geometry : LabelGeometry F) (o : PollOutcome) (q : OdooSource F)
      → Sends k q.ledger
          (print_batch floats show_int show_nat decode config now b result ls geometry o q)
  unfolding print_batch
  print_batch-Sends now b result ls geometry o q =
      by_mark (mark_sending now b (ids_of ls) q.ledger) refl
    where
      by_mark :
          (r : Result Ledger)
          → mark_sending now b (ids_of ls) q.ledger ≡ r
          → Sends k q.ledger
              (spooled floats show_int show_nat decode config now b result ls geometry o q r)
      by_mark (err e) h = ground arith
      by_mark (ok s) h =
          sent-mark_sending now k b (ids_of ls) q.ledger s h
          ∙ ap one_if (sym (sent-record_all now k b result ls s))

  nothing_printable-Sends :
      (b : ℤ) (p : Progress L) (q : OdooSource F)
      → Sends k q.ledger (nothing_printable floats show_int show_nat decode config b p q)
  nothing_printable-Sends b p q = elim (Bool-cases (p.rejected == 0)) [
    | inl e ↦ rw e (ground arith)
    | inr e ↦ rw e (ground arith)
  ]

  print_or_not-Sends :
      (now : ℕ) (b : ℤ) (result : Result String) (geometry : Result (LabelGeometry F))
      (p : Progress L) (ls : List (PrintableLine L)) (q : OdooSource F)
      → Sends k q.ledger
          (print_or_not floats show_int show_nat decode config now b result geometry p ls q)
  print_or_not-Sends now b result geometry p [] q = nothing_printable-Sends b p q
  print_or_not-Sends now b result (err reason) p (l ∷ ls) q = nothing_printable-Sends b p q
  print_or_not-Sends now b result (ok geometry) p (l ∷ ls) q =
      print_batch-Sends now b result (l ∷ ls) geometry _ q

  handle_batch-Sends :
      (now : ℕ) (b : ℤ) (result : Result String) (batch : NextBatch F) (q : OdooSource F)
      → Sends k q.ledger (handle_batch floats show_int show_nat decode config now b result batch q)
  unfolding handle_batch batch_geometry
  handle_batch-Sends now b result batch q =
      let p =
        sort_lines show_int decode now b batch
          (batch_geometry floats show_int show_nat decode config batch) q.ledger in
      from_before _ (sent-sort_lines show_int decode now k b batch _ q.ledger)
        (print_or_not-Sends now b result _ p p.printable (record q { ledger = p.ledger }))

  handle_next-Sends :
      (now : ℕ) (result : Result String) (batch : NextBatch F) (i : Option ℤ) (q : OdooSource F)
      → Sends k q.ledger (handle_next floats show_int show_nat decode config now result batch i q)
  handle_next-Sends now result batch none q = ground arith
  handle_next-Sends now result batch (some b) q =
      elim (Bool-cases (has_lines floats show_int show_nat decode config batch)) [
        | inl e ↦ rw e (handle_batch-Sends now b result batch q)
        | inr e ↦ rw e (ground arith)
      ]

  flush_after-Sends :
      (now : ℕ) (answer : LedgerEntry → AckReply) (s : Ledger) (ids : List ℤ)
      (o : Result PollOutcome) (q : OdooSource F)
      → count k ids + one_if (sent k s) ≡ one_if (sent k q.ledger)
      → Sends k s (flush_after floats show_int show_nat decode config now answer ids o q)
  unfolding flush_acks
  flush_after-Sends now answer s ids (err e) q h = h
  flush_after-Sends now answer s ids (ok o) q h =
      flushed-Sends (flush_acks now answer q.ledger) (sent-flush_each now k answer _ 0 q.ledger)
    where
      flushed-Sends :
          (f : Ledger × Result ℕ)
          → sent k f.0 ≡ sent k q.ledger
          → Sends k s (flushed floats show_int show_nat decode config ids o q f)
      flushed-Sends (t, ok owed) e = h ∙ ap one_if (sym e)
      flushed-Sends (t, err text) e = h ∙ ap one_if (sym e)

  polled_next-Sends :
      (now : ℕ) (answer : LedgerEntry → AckReply) (result : Result String)
      (next : Result (NextBatch F)) (q : OdooSource F)
      → Sends k q.ledger
          (polled_next floats show_int show_nat decode config now answer result next q)
  polled_next-Sends now answer result (err e) q = ground arith
  polled_next-Sends now answer result (ok batch) q =
      flush_after-Sends now answer q.ledger _ _ _
        (handle_next-Sends now result batch batch.batch_id q)

  pub poll_once-Sends :
      (now : ℕ) (before after : LedgerEntry → AckReply) (next : Result (NextBatch F))
      (result : Result String) (q : OdooSource F)
      → Sends k q.ledger
          (poll_once floats show_int show_nat decode config now before after next result q)
  unfolding poll_once flush_acks
  poll_once-Sends now before after next result q =
      flushed-first (flush_acks now before q.ledger) (sent-flush_each now k before _ 0 q.ledger)
    where
      flushed-first :
          (f : Ledger × Result ℕ)
          → sent k f.0 ≡ sent k q.ledger
          → Sends k q.ledger
              (after_flush floats show_int show_nat decode config now after result next q f)
      flushed-first (s, ok owed) e =
          from_before _ e (polled_next-Sends now after result next (record q { ledger = s }))
      flushed-first (s, err text) e = ground (arith, e)

  killed_sending-Sends :
      (now : ℕ) (b : ℤ) (ids : List ℤ) (q : OdooSource F)
      → Accounts k q (
          killed_sending floats show_int show_nat decode config ids q
            (mark_sending now b ids q.ledger))
  killed_sending-Sends now b ids q = by_mark (mark_sending now b ids q.ledger) refl
    where
      by_mark :
          (r : Result Ledger)
          → mark_sending now b ids q.ledger ≡ r
          → Accounts k q (killed_sending floats show_int show_nat decode config ids q r)
      by_mark (err e) h = ground arith
      by_mark (ok s) h = sent-mark_sending now k b ids q.ledger s h

  killed_or_not-Sends :
      (now : ℕ) (b : ℤ) (geometry : Result (LabelGeometry F)) (ls : List (PrintableLine L))
      (q : OdooSource F)
      → Accounts k q (killed_or_not floats show_int show_nat decode config now b geometry ls q)
  killed_or_not-Sends now b geometry [] q = ground arith
  killed_or_not-Sends now b (err reason) (l ∷ ls) q = ground arith
  killed_or_not-Sends now b (ok geometry) (l ∷ ls) q =
      killed_sending-Sends now b (ids_of (l ∷ ls)) q

  killed_after-Sends :
      (now : ℕ) (b : ℤ) (batch : NextBatch F) (q : OdooSource F) (f : Ledger × Result ℕ)
      → sent k f.0 ≡ sent k q.ledger
      → Accounts k q (killed_after floats show_int show_nat decode config now b batch q f)
  killed_after-Sends now b batch q (s, err text) e = ground (arith, e)
  killed_after-Sends now b batch q (s, ok owed) e =
      let geometry = batch_geometry floats show_int show_nat decode config batch in
      let p = sort_lines show_int decode now b batch geometry s in
      from_before _ (sent-sort_lines show_int decode now k b batch geometry s ∙ e)
        (killed_or_not-Sends now b geometry p.printable (record q { ledger = p.ledger }))

  kept-start :
      (now : ℕ) (q : OdooSource F)
      → passes (is_prunable now) (find k (recover_interrupted now q.ledger).0) ≡ false
      → sent k (start now q).ledger ≡ sent k q.ledger
  unfolding start prune
  kept-start now q h =
      kept-delete k (is_prunable now) (recover_interrupted now q.ledger).0 h
      ∙ sent-recover_interrupted now k q.ledger

  event-Accounts :
      (e : Event F) (q : OdooSource F)
      → drops floats show_int show_nat decode config k e q ≡ false
      → Accounts k q (event floats show_int show_nat decode config e q)
  unfolding event flush_acks
  event-Accounts (poll now before after next result) q h =
      poll_once-Sends now before after next result q
  event-Accounts (killed now before b batch) q h =
      killed_after-Sends now b batch q (flush_acks now before q.ledger)
        (sent-flush_each now k before _ 0 q.ledger)
  event-Accounts (started now) q h = ground (arith, kept-start now q h)

  -- Whatever happens, the bytes of a line that the ledger holds as sent are not handed over, and those of
  -- another line are handed over once at most, if no start drops the line's row.
  pub submitted_once :
      (es : List (Event F)) (q : OdooSource F)
      → forgets floats show_int show_nat decode config k es q ≡ false
      → submissions floats show_int show_nat decode config k es q + one_if (sent k q.ledger) ≤ 1
  unfolding submissions forgets
  submitted_once [] q h = elim (Bool-cases (sent k q.ledger)) [
    | inl e ↦ ground (arith, e)
    | inr e ↦ ground (arith, e)
  ]
  submitted_once (e ∷ es) q h = ground (
    arith,
    event-Accounts e q (or-false (drops floats show_int show_nat decode config k e q) _ h).0,
    submitted_once es (event floats show_int show_nat decode config e q).0
        (or-false (drops floats show_int show_nat decode config k e q) _ h).1,
  )
