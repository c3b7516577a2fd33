-- ===== src/Odoo/Examples.antt =====
-- The label source on a batch of two lines: a poll in which the process dies while the document prints,
-- a start, and the poll in which Odoo offers the batch again.
use devbridge.Common.{
  ℕ, ◌+◌, ◌≤◌, String, ◌≡◌, refl, false, none, some, List, [], ◌∷◌, ◌==◌, nat_eq, leb, one_if,
}
use devbridge.Common.Int.{int_eq, ℤ, pos}
use devbridge.Common.Table.{HasUniqueKeys, find, insert, update, update_all, delete}
use devbridge.Common.Text.{starts_with}
use devbridge.Common.Result.{Result, ok}
use devbridge.Odoo.Ledger.{
  closed, sending_row, Ledger, LedgerEntry, get, row_to_entry, ack_state, mark_sending,
  record_result, mark_acked, reopen_ack, forget, pending_acks, recover_interrupted, is_prunable,
  prune,
}
use devbridge.Odoo.Size.{
  Floats, LabelGeometry, absent, number, roll_of, given, named_pair, within, supported_dpi, dpi_or,
  sized, geometry_for,
}
use devbridge.Odoo.Batch.{
  NextLine, NextBatch, lines_in_order, decide_known, handle_known_line, handle_invalid, decide_line,
  handle_line, each, encode_line, sort_lines, take_chars, truncate_ack_error,
}
use devbridge.Odoo.Poll.{
  AckReply, OdooSource, flush_each, flush_acks, record_all, print_batch, batch_geometry,
  handle_batch, poll_once, start,
}
use devbridge.Odoo.Poll.Sent.{sent}
use devbridge.Odoo.Poll.Trace.{Event, poll, killed, started, event, submissions, forgets}
use devbridge.Odoo.Poll.Acked.{is_owed, flush_acks_settles}
use devbridge.Odoo.Poll.PrintOnce.{submitted_once}

abbrev numbers : Floats ℕ
numbers = record { le = leb; eq = λ a b. a == b; whole = λ n. n; show = λ n. "n" }

abbrev roll : LabelGeometry ℕ
roll = record {
  width_mm = 50;
  height_mm = 30;
  dpi = 203;
  rotate_180 = false;
  x_offset_dots = pos 0;
  y_offset_dots = pos 0;
}

abbrev show_int : ℤ → String
show_int i = "i"

abbrev show_nat : ℕ → String
show_nat n = "n"

abbrev decode : LabelGeometry ℕ → String → Result ℕ
decode geometry png = ok 1

abbrev line : ℤ → NextLine
line id = record {
  line_id = id;
  sequence = pos 1;
  product_name = "Bread";
  print_qty = pos 2;
  best_before = "2026-01-01";
  label_png_base64 = "";
  line_type = "label";
}

abbrev two_lines : NextBatch ℕ
two_lines = record {
  batch_id = some (pos 5);
  production_date = "2026-01-01";
  lines = line (pos 1) ∷ line (pos 2) ∷ [];
  invalid = [];
  label_size = record { width_mm = number 60; height_mm = number 40; dpi = absent };
}

abbrev fresh : OdooSource ℕ
fresh = record { ledger = []; roll = roll_of roll; last_job_id = none; last_result = "" }

abbrev unreachable : LedgerEntry → AckReply
unreachable e = AckReply.transport "no route"

abbrev agreed : LedgerEntry → AckReply
agreed e = AckReply.accepted false

abbrev events : List (Event ℕ)
events =
    killed 1 agreed (pos 5) two_lines
    ∷ started 2
    ∷ poll 3 agreed unreachable (ok two_lines) (ok "spooled")
    ∷ poll 4 agreed agreed (ok two_lines) (ok "spooled")
    ∷ []

odoo_runs : Unit {0}
unfolding find insert update update_all delete starts_with get row_to_entry ack_state mark_sending
    record_result mark_acked reopen_ack forget pending_acks recover_interrupted is_prunable prune
    given named_pair within supported_dpi dpi_or sized geometry_for roll_of lines_in_order
    decide_known handle_known_line handle_invalid decide_line handle_line each encode_line
    sort_lines take_chars truncate_ack_error flush_each flush_acks record_all print_batch
    batch_geometry handle_batch poll_once start sent event submissions forgets
odoo_runs = tt

-- The bytes of the first line went out once in all, in the print that the process did not survive.
submitted : submissions numbers show_int show_nat decode roll (pos 1) events fresh ≡ 1
unfolding odoo_runs
submitted = refl

not_forgotten : forgets numbers show_int show_nat decode roll (pos 1) events fresh ≡ false
unfolding odoo_runs
not_forgotten = refl

submitted_once_example :
    submissions numbers show_int show_nat decode roll (pos 1) events fresh
      + one_if (sent (pos 1) fresh.ledger)
    ≤ 1
submitted_once_example =
    submitted_once numbers show_int show_nat decode roll (pos 1) events fresh not_forgotten

abbrev two_owed : Ledger
two_owed =
    (pos 1, closed 2 (pos 2) none (sending_row 1 (pos 5)))
    ∷ (pos 2, closed 2 (pos 0) (some "jam") (sending_row 1 (pos 5)))
    ∷ []

different_lines : HasUniqueKeys two_owed
unfolding find
different_lines = (refl, (refl, tt))

flush_acks_settles_example :
    ((flush_acks 3 agreed two_owed).1 ≡ ok 0)
    × ((k : ℤ) → is_owed k (flush_acks 3 agreed two_owed).0 ≡ false)
flush_acks_settles_example = flush_acks_settles 3 agreed two_owed different_lines (λ e. refl)
