-- ===== src/Odoo/Poll.antt =====
-- One poll of the source: the acks that are owed, the next batch, its print, and the acks again
-- (odoo_source/mod.rs of crates/devbridge-client/src). What Odoo answers and what the spooler says are
-- arguments; texts of numbers are too.
pub mod Trace
pub mod Sent
pub mod Keeps
pub mod PrintOnce
pub mod Acked
use Prim.Native.String.{◌++◌ as ◌⧺◌}
use devbridge.Common.{
  ℕ, ◌+◌, ◌*◌, min, max, String, Bool, true, false, not, ◌&&◌, ◌||◌, Option, none, some, List, [],
  ◌∷◌, ◌==◌, nat_eq, if◌then◌else◌, length, ltb,
}
use devbridge.Common.Int.{ℤ, pos, negsuc}
use devbridge.Common.Result.{Result, ok, err}
use devbridge.Odoo.Ledger.{
  Ledger, LedgerEntry, mark_sending, record_result, mark_acked, pending_acks, recover_interrupted,
  prune, ack_note_ok, ack_note_duplicate, ack_note_refused_prefix,
}
use devbridge.Odoo.Size.{LabelGeometry, BatchGeometry, Roll, Floats, geometry_for, roll_of}
use devbridge.Odoo.Batch.{NextBatch, PrintableLine, Progress, sort_lines, truncate_ack_error}

-- What one poll achieved.
pub data PollOutcome : Type 0 where
  idle : PollOutcome
  batch : ℤ → ℕ → ℕ → ℕ → PollOutcome
  only_known_lines : ℤ → ℕ → PollOutcome
  acks_owed : ℕ → PollOutcome

-- Odoo's answer to an ack: accepted, perhaps as a duplicate; refused; no answer; a broken answer.
pub data AckReply : Type 0 where
  accepted : Bool → AckReply
  business transport other : String → AckReply

pub record OdooSource (F : Type 0) : Type 0 where
  pub ledger : Ledger
  pub roll : Roll F
  pub last_job_id : Option ℤ
  pub last_result : String

-- Delays are in milliseconds.
abbrev max_backoff : ℕ
max_backoff = 60000

abbrev after_batch_delay : ℕ
after_batch_delay = 1000

unfoldable pub backoff : ℕ → ℕ → ℕ
backoff current base = min (max (current * 2) base) (max max_backoff base)

unfoldable pub next_delay : Result PollOutcome → ℕ → ℕ → ℕ
unfolding backoff
next_delay (ok PollOutcome.idle) current base = base
next_delay (ok (PollOutcome.batch b p r a)) current base = min after_batch_delay base
next_delay (ok (PollOutcome.only_known_lines b a)) current base = backoff current base
next_delay (ok (PollOutcome.acks_owed n)) current base = backoff current base
next_delay (err e) current base = backoff current base

abbrev note_of : Bool → String
note_of duplicate = if duplicate then ack_note_duplicate else ack_note_ok

-- What the answer to an ack makes of the ledger, and of the rest of the flush.
abbrev pub flush_reply :
    ℕ → (ℕ → Ledger → Ledger × Result ℕ) → LedgerEntry → AckReply → ℕ → Ledger → Ledger × Result ℕ
flush_reply now rest e (accepted duplicate) owed s =
    rest owed (mark_acked now e.line_id (note_of duplicate) s)
flush_reply now rest e (business text) owed s =
    rest owed (mark_acked now e.line_id (ack_note_refused_prefix ⧺ text) s)
flush_reply now rest e (transport text) owed s = (s, err text)
flush_reply now rest e (other text) owed s = rest (owed + 1) s

-- An owed ack is sent; a line whose answer is broken stays owed, and no answer at all stops the flush.
unfoldable pub flush_each :
    ℕ → (LedgerEntry → AckReply) → List LedgerEntry → ℕ → Ledger → Ledger × Result ℕ
flush_each now answer [] owed s = (s, ok owed)
flush_each now answer (e ∷ es) owed s =
    flush_reply now (flush_each now answer es) e (answer e) owed s

unfoldable pub flush_acks : ℕ → (LedgerEntry → AckReply) → Ledger → Ledger × Result ℕ
unfolding flush_each
flush_acks now answer s = flush_each now answer (pending_acks s) 0 s

abbrev pub ids_of : {L : Type 0} → List (PrintableLine L) → List ℤ
ids_of [] = []
ids_of (l ∷ ls) = l.line_id ∷ ids_of ls

-- A printable quantity is above zero.
abbrev qty_of : ℤ → ℕ
qty_of (pos n) = n
qty_of (negsuc n) = 0

abbrev copies : {L : Type 0} → List (PrintableLine L) → ℕ
copies [] = 0
copies (l ∷ ls) = qty_of l.qty + copies ls

-- The outcome of every line of a document that was printed, or that was not.
unfoldable pub record_all :
    {L : Type 0} → ℕ → ℤ → Result String → List (PrintableLine L) → Ledger → Ledger
record_all now batch_id result [] s = s
record_all now batch_id (ok evidence) (l ∷ ls) s =
    record_all now batch_id (ok evidence) ls (record_result now batch_id l.line_id l.qty none s)
record_all now batch_id (err reason) (l ∷ ls) s =
    record_all now batch_id (err reason) ls
      (record_result now batch_id l.line_id (pos 0) (some (truncate_ack_error reason)) s)

abbrev set_status : {F : Type 0} → ℤ → String → OdooSource F → OdooSource F
set_status batch_id result q = record q { last_job_id = some batch_id; last_result = result }

-- What came of a poll: the source, the lines whose bytes the spooler may have taken, and the outcome.
pub record Polled (F : Type 0) : Type 0 where
  pub source : OdooSource F
  pub sent : List ℤ
  pub outcome : Result PollOutcome

module _ {F L : Type 0} (floats : Floats F) (show_int : ℤ → String) (show_nat : ℕ → String)
    (decode : LabelGeometry F → String → Result L) (config : LabelGeometry F) where
  abbrev summary : List (PrintableLine L) → Result String → String
  summary lines (ok evidence) =
      "printed "
      ⧺ (show_nat (length lines)
          ⧺ (" labels (" ⧺ (show_nat (copies lines) ⧺ (" copies), " ⧺ evidence))))
  summary lines (err reason) = "error: " ⧺ truncate_ack_error reason

  -- The lines are recorded before the spooler sees a byte.
  abbrev pub spooled :
      ℕ
      → ℤ
      → Result String
      → List (PrintableLine L)
      → LabelGeometry F
      → PollOutcome
      → OdooSource F
      → Result Ledger
      → Polled F
  spooled now batch_id result lines geometry o q (err e) = record {
    source = q;
    sent = [];
    outcome = err e;
  }
  spooled now batch_id result lines geometry o q (ok s) = record {
    source =
        set_status batch_id (summary lines result)
          (record q { ledger = record_all now batch_id result lines s; roll = roll_of geometry });
    sent = ids_of lines;
    outcome = ok o;
  }

  unfoldable pub print_batch :
      ℕ
      → ℤ
      → Result String
      → List (PrintableLine L)
      → LabelGeometry F
      → PollOutcome
      → OdooSource F
      → Polled F
  unfolding record_all
  print_batch now batch_id result lines geometry o q =
      spooled now batch_id result lines geometry o q
        (mark_sending now batch_id (ids_of lines) q.ledger)

  abbrev pub nothing_printable : ℤ → Progress L → OdooSource F → Polled F
  nothing_printable batch_id p q =
      if p.rejected == 0
      then record {
        source =
            set_status batch_id
              (if ltb 0 p.unackable
                then show_nat p.unackable
                  ⧺ (" lines without line_id - cannot ack, the Odoo batch is blocked ("
                      ⧺ (show_nat p.reacked ⧺ " lines re-acked)"))
                else "already handled (" ⧺ (show_nat p.reacked ⧺ " lines re-acked)"))
              q;
        sent = [];
        outcome = ok (PollOutcome.only_known_lines batch_id p.reacked);
      }
      else record {
        source =
            set_status batch_id ("nothing printable (" ⧺ (show_nat p.rejected ⧺ " lines rejected)"))
              q;
        sent = [];
        outcome = ok (PollOutcome.batch batch_id (length p.printable) p.rejected p.reacked);
      }

  abbrev geometry_of : Result (BatchGeometry F) → Result (LabelGeometry F)
  geometry_of (ok g) = ok g.geometry
  geometry_of (err reason) = err reason

  unfoldable pub batch_geometry : NextBatch F → Result (LabelGeometry F)
  batch_geometry b = geometry_of (geometry_for floats config b.label_size)

  abbrev pub print_or_not :
      ℕ
      → ℤ
      → Result String
      → Result (LabelGeometry F)
      → Progress L
      → List (PrintableLine L)
      → OdooSource F
      → Polled F
  print_or_not now batch_id result geometry p [] q = nothing_printable batch_id p q
  print_or_not now batch_id result (err reason) p (l ∷ ls) q = nothing_printable batch_id p q
  print_or_not now batch_id result (ok geometry) p (l ∷ ls) q =
      print_batch now batch_id result (l ∷ ls) geometry
        (PollOutcome.batch batch_id (length (l ∷ ls)) p.rejected p.reacked) q

  -- `result` is what the spooler says of the document, if there is one.
  unfoldable pub handle_batch : ℕ → ℤ → Result String → NextBatch F → OdooSource F → Polled F
  unfolding print_batch batch_geometry
  handle_batch now batch_id result b q =
      let p = sort_lines show_int decode now batch_id b (batch_geometry b) q.ledger in
      print_or_not now batch_id result (batch_geometry b) p p.printable
        (record q { ledger = p.ledger })

  abbrev pub has_lines : NextBatch F → Bool
  has_lines b = ltb 0 (length b.lines) || ltb 0 (length b.invalid)

  abbrev pub handle_next : ℕ → Result String → NextBatch F → Option ℤ → OdooSource F → Polled F
  handle_next now result b none q = record { source = q; sent = []; outcome = ok PollOutcome.idle }
  handle_next now result b (some batch_id) q =
      if has_lines b
      then handle_batch now batch_id result b q
      else record { source = q; sent = []; outcome = ok PollOutcome.idle }

  abbrev still_owed : ℕ → PollOutcome → PollOutcome
  still_owed owed PollOutcome.idle =
      if ltb 0 owed then PollOutcome.acks_owed owed else PollOutcome.idle
  still_owed owed o = o

  -- The acks of what was just decided.
  abbrev pub flushed : List ℤ → PollOutcome → OdooSource F → Ledger × Result ℕ → Polled F
  flushed sent o q (s, err e) = record {
    source = record q { ledger = s };
    sent = sent;
    outcome = err e;
  }
  flushed sent o q (s, ok owed) = record {
    source = record q { ledger = s };
    sent = sent;
    outcome = ok (still_owed owed o);
  }

  abbrev pub flush_after :
      ℕ → (LedgerEntry → AckReply) → List ℤ → Result PollOutcome → OdooSource F → Polled F
  flush_after now answer sent (err e) q = record { source = q; sent = sent; outcome = err e }
  flush_after now answer sent (ok o) q = flushed sent o q (flush_acks now answer q.ledger)

  abbrev pub polled_next :
      ℕ → (LedgerEntry → AckReply) → Result String → Result (NextBatch F) → OdooSource F → Polled F
  polled_next now answer result (err e) q = record { source = q; sent = []; outcome = err e }
  polled_next now answer result (ok b) q =
      let handled = handle_next now result b b.batch_id q in
      flush_after now answer handled.sent handled.outcome handled.source

  abbrev pub after_flush :
      ℕ
      → (LedgerEntry → AckReply)
      → Result String
      → Result (NextBatch F)
      → OdooSource F
      → Ledger × Result ℕ
      → Polled F
  after_flush now answer result next q (s, err e) = record {
    source = record q { ledger = s };
    sent = [];
    outcome = err e;
  }
  after_flush now answer result next q (s, ok owed) =
      polled_next now answer result next (record q { ledger = s })

  -- `before` and `after` are Odoo's answers to the acks before and after the batch.
  unfoldable pub poll_once :
      ℕ
      → (LedgerEntry → AckReply)
      → (LedgerEntry → AckReply)
      → Result (NextBatch F)
      → Result String
      → OdooSource F
      → Polled F
  unfolding handle_batch flush_acks
  poll_once now before after next result q =
      after_flush now after result next q (flush_acks now before q.ledger)

-- The start of the source: what a process before it left mid-print is closed, old rows are dropped.
unfoldable pub start : {F : Type 0} → ℕ → OdooSource F → OdooSource F
start now q = record q { ledger = (prune now (recover_interrupted now q.ledger).0).0 }
