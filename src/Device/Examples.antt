-- ===== src/Device/Examples.antt =====
-- Runs of the journal, the workers and the intake on concrete jobs, and each theorem at one of them.
use devbridge.Common.{
  any, ◌==◌, ◌≤◌, ◌≡◌, refl, true, false, none, some, List, [], ◌∷◌, arith, inr, is_some,
}
use devbridge.Common.Int.{ℤ, int_eq, pos}
use devbridge.Common.Table.{find, insert, update, update_all}
use devbridge.Device.Entry.{
  Timestamp, DeviceJob, JournalEntry, Outcome, AckRequest, owed_ack, as_str,
}
use devbridge.Device.Journal.Store.{Journal, odoo_table, empty, get, is_lan_job, locate, update_row}
use devbridge.Device.Journal.Operations.{
  insert_received, record_outcome, start_execution, insert_job, new_entry, store_outcome,
  mark_acked, reopen_ack, update_device,
}
use devbridge.Device.Journal.Sweeps.{recover_after_restart, restarted}
use devbridge.Device.Pending.{PendingJob, AckReply, ack_not_received, pending_each, pending_pass}
use devbridge.Device.Pending.Answered.{is_over, is_ok, owes_final, owes_listed, never_denied}
use devbridge.Common.Result.{ok}
use devbridge.Device.Journal.Machine.{Moves, state_of}
use devbridge.Device.Journal.Implements.{run-Moves}
use devbridge.Device.Journal.Trace.{Op, apply, run, grants, executions}
use devbridge.Device.Journal.Evolution.{SameVerdict}
use devbridge.Device.Journal.ExactlyOnce.{at_most_once, never_after_restart, first_outcome_wins}
use devbridge.Device.Journal.Acks.{owed, owed-record_outcome}
use devbridge.Device.Tasks.{Answer, in_time, late, returned, panicked, execute_job}
use devbridge.Device.Tasks.Once.{execute_job_twice}
use devbridge.Device.Intake.{fiscal, accept_job, owed-accept_job}

abbrev receipt : DeviceJob
receipt = record {
  id = pos 7;
  job_type = "fiscal.cash_register";
  client_uuid = "u-7";
  kasa_id = some (pos 3);
  kasa_name = "Kasa 3";
  pos_order = "null";
  payload = "{}";
  created_at = Timestamp.text "2026-01-01 10:00:00";
  claimed_at = Timestamp.text "2026-01-01 10:00:01";
}

abbrev day : List Op
day =
    Op.insert_received 1 receipt
    ∷ Op.start_execution 2 (pos 7)
    ∷ Op.start_execution 3 (pos 7)
    ∷ Op.recover_after_restart 4
    ∷ Op.start_execution 5 (pos 7)
    ∷ Op.record_outcome 6 (pos 7) (Outcome.done "{\"uid\":1}")
    ∷ Op.record_outcome 7 (pos 7) (Outcome.failed "declined" "no")
    ∷ []

-- What a run computes through.
journal_runs : Unit {0}
unfolding executions run apply grants insert_received insert_job insert start_execution
    record_outcome recover_after_restart mark_acked reopen_ack update_row update_device locate
    update find get update_all owed_ack
journal_runs = tt

-- The restart comes between the execution and the outcome, and the job ran once.
day-executions : executions (pos 7) day empty ≡ 1
unfolding journal_runs
day-executions = refl

at_most_once_example : executions (pos 7) day empty ≤ 1
at_most_once_example = at_most_once (pos 7) day empty (omega arith)

abbrev journaled : Journal
journaled = (insert_received 1 receipt empty).0

abbrev received_row : JournalEntry
received_row = new_entry 1 receipt none

journaled_row : get (pos 7) journaled ≡ some received_row
unfolding journal_runs
journaled_row = refl

never_after_restart_example : executions (pos 7) day (recover_after_restart 4 journaled).0 ≡ 0
never_after_restart_example =
    never_after_restart (pos 7) 4 day journaled {e = received_row} journaled_row (omega arith)

abbrev finished : Journal
finished = (record_outcome 6 (pos 7) (Outcome.done "{}") journaled).0

abbrev done_row : JournalEntry
done_row = store_outcome 6 (Outcome.done "{}") odoo_table received_row

finished_row : get (pos 7) finished ≡ some done_row
unfolding journal_runs
finished_row = refl

first_outcome_wins_example : SameVerdict (get (pos 7) finished) (get (pos 7) (run day finished))
first_outcome_wins_example =
    first_outcome_wins (pos 7) day finished {e = done_row} finished_row refl (omega arith)

owed-record_outcome_example : owed (get (pos 7) finished) ≡ some (AckRequest.done (pos 7) "{}")
owed-record_outcome_example =
    owed-record_outcome 6 (pos 7) (Outcome.done "{}") journaled {e = received_row}
      (unfold is_lan_job in refl) journaled_row refl

abbrev printer : DeviceJob → Answer
printer job =
    late [] (Op.mark_reported 11 (pos 7) ∷ Op.mark_device_contact 11 (pos 7) ∷ [])
      (returned (Outcome.done "{}"))

abbrev broken : DeviceJob → Answer
broken job = in_time [] (panicked "executor failed mid-job")

-- The acks and a restart come between the two workers.
abbrev between : List Op
between =
    Op.mark_acked 12 (pos 7) "ok" ∷ Op.recover_after_restart 13 ∷ Op.reopen_ack 14 (pos 7) ∷ []

execute_job_twice_example :
    (execute_job broken 120 15
      (pos 7)
      9
      "expired"
      "no answer"
      (run between (execute_job printer 120 10 (pos 7) 9 "expired" "no answer" journaled).0)).1
    ≡ none
execute_job_twice_example =
    execute_job_twice printer broken 120 10 15 (pos 7) 9 9 "expired" "no answer" between journaled
      (rw journaled_row refl) (λ job. (tt, (tt, (tt, tt)))) (tt, (tt, (tt, tt)))

abbrev lost : Journal
lost = (recover_after_restart 4 journaled).0

abbrev lost_row : JournalEntry
lost_row = restarted 4 received_row

lost_found : get (pos 7) lost ≡ some lost_row
unfolding journal_runs as_str
lost_found = refl

owed-accept_job_example :
    owed (get (pos 7) (accept_job 1 receipt (inr fiscal) false "worker gone" empty).0)
    ≡ some (AckRequest.failed (pos 7) "bridge_error" "worker gone")
owed-accept_job_example =
    owed-accept_job 1 receipt (inr fiscal) false "worker gone" empty (unfold is_lan_job in refl)
      (unfold journal_runs in refl) (unfold accept_job journal_runs in refl)

run-Moves_example : Moves (state_of (get (pos 7) empty)) (state_of (get (pos 7) (run day empty)))
run-Moves_example = run-Moves day (pos 7) empty (omega arith)

-- Odoo lists a job that the journal has, done and acked, and one that it never saw.
abbrev listed_as : ℤ → PendingJob
listed_as k = record {
  id = k;
  job_type = "receipt";
  state = "claimed";
  client_uuid = "u";
  claimed_at = "2026-11-04";
}

abbrev listing : List PendingJob
listing = listed_as (pos 7) ∷ listed_as (pos 8) ∷ []

abbrev agrees : PendingJob → AckReply
agrees p = AckReply.accepted false "not_received"

settled : Journal
settled = run day empty

day_over : is_over (get (pos 7) settled) ≡ true
unfolding journal_runs settled
day_over = refl

round_succeeds : is_ok (pending_pass 20 agrees (ok listing) settled).result ≡ true
unfolding journal_runs settled pending_pass pending_each ack_not_received
round_succeeds = refl

owes_listed_example :
    owes_final (get (pos 7) (pending_pass 20 agrees (ok listing) settled).journal) ≡ true
owes_listed_example = owes_listed 20 agrees listing settled 7 round_succeeds refl day_over

day_known : is_some (get (pos 7) settled) ≡ true
unfolding journal_runs settled
day_known = refl

never_denied_example :
    (any (λ i. i == pos 7) (pending_pass 20 agrees (ok listing) settled).not_received ≡ false)
    × (is_over (get (pos 7) (pending_pass 20 agrees (ok listing) settled).journal)
        ≡ is_over (get (pos 7) settled))
never_denied_example = never_denied 20 agrees listing settled 7 day_known
