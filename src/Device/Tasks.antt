-- ===== src/Device/Tasks.antt =====
-- The workers that run a job on its device and that ask the device about a job whose outcome is
-- unknown (device_jobs/tasks.rs of crates/devbridge-client/src). The device is an argument: what it
-- answers, in time or late. Texts that the code formats from numbers are arguments too.
pub mod Once
pub mod Open
pub mod Answers
use devbridge.Common.{
  List, ℕ, String, Bool, true, false, ◌&&◌, Option, none, some, if◌then◌else◌, ◌==◌, ltb, nat_eq,
}
use devbridge.Common.Int.{ℤ}
use devbridge.Device.Entry.{
  DeviceJob, JobState, is_indeterminate, JournalEntry, Outcome, Report, is_owed,
}
use devbridge.Device.Backoff.{queue_wait_exceeded}
use devbridge.Device.Journal.Store.{Journal, get, is_lan_job}
use devbridge.Device.Journal.Trace.{Op, run}
use devbridge.Device.Journal.Operations.{
  start_execution, record_outcome, fail_unstarted, record_still_unknown,
}

-- A task that ran to its end, or that panicked.
pub data Joined {ℓ} (A : Type ℓ) : Type ℓ where
  returned : A → Joined A
  panicked : String → Joined A

-- The device's answer to a job, before the guard's time ran out, or after it, and what the other tasks
-- made of the journal while the worker waited: `late` has it before the guard and after it.
pub data Answer : Type 0 where
  in_time : List Op → Joined Outcome → Answer
  late : List Op → List Op → Joined Outcome → Answer

unfoldable pub outcome_of : Joined Outcome → Outcome
outcome_of (returned o) = o
outcome_of (panicked text) = Outcome.indeterminate text

abbrev pub code_expired_local : String
code_expired_local = "expired_local"

-- The job that the device was called with, if it was.
abbrev pub Call : Type 0
Call = Option DeviceJob

-- The journal as the write of the device's answer finds it. The guard's write comes first if the answer
-- is late.
unfoldable pub at_answer : ℕ → ℤ → String → Answer → Journal → Journal
unfolding run record_outcome
at_answer now job_id reason (in_time meanwhile joined) s = run meanwhile s
at_answer now job_id reason (late before meanwhile joined) s =
    run meanwhile (record_outcome now job_id (Outcome.indeterminate reason) (run before s)).0

abbrev pub joined_of : Answer → Joined Outcome
joined_of (in_time meanwhile o) = o
joined_of (late before meanwhile o) = o

unfoldable pub store_answer : ℕ → ℤ → String → Answer → Journal → Journal
unfolding outcome_of at_answer record_outcome
store_answer now job_id reason a s =
    (record_outcome now job_id (outcome_of (joined_of a)) (at_answer now job_id reason a s)).0

unfoldable pub begin_entry : ℕ → ℤ → Bool → String → JournalEntry → Journal → Journal × Call
unfolding fail_unstarted start_execution
begin_entry now job_id expired text entry s =
    if expired
    then ((fail_unstarted now job_id code_expired_local text s).0, none)
    else if (start_execution now job_id s).1
    then ((start_execution now job_id s).0, some entry.job)
    else (s, none)

unfoldable pub begin_found : ℕ → ℤ → Bool → String → Option JournalEntry → Journal → Journal × Call
unfolding begin_entry
begin_found now job_id expired text none s = (s, none)
begin_found now job_id expired text (some entry) s = begin_entry now job_id expired text entry s

-- What a worker does before it calls the device: the job starts, unless it waited longer than `max_wait`
-- since `queued_at` or is not `received`.
unfoldable pub begin_job : ℕ → ℕ → ℤ → ℕ → String → Journal → Journal × Call
unfolding begin_found queue_wait_exceeded get
begin_job max_wait now job_id queued_at text s =
    begin_found now job_id (queue_wait_exceeded queued_at now max_wait) text (get job_id s) s

unfoldable pub executed : (DeviceJob → Answer) → ℕ → ℤ → String → Journal × Call → Journal × Call
unfolding store_answer
executed device now job_id reason (s, none) = (s, none)
executed device now job_id reason (s, some job) =
    (store_answer now job_id reason (device job) s, some job)

-- Run one `received` job on its device.
unfoldable pub execute_job :
    (DeviceJob → Answer) → ℕ → ℕ → ℤ → ℕ → String → String → Journal → Journal × Call
unfolding begin_job executed
execute_job device max_wait now job_id queued_at text reason s =
    executed device now job_id reason (begin_job max_wait now job_id queued_at text s)

pub data Reconciliation : Type 0 where
  done : String → Reconciliation
  failed : String → String → Reconciliation
  still_unknown : String → Reconciliation

reconciliation_of : Joined Reconciliation → Reconciliation
reconciliation_of (returned r) = r
reconciliation_of (panicked text) = still_unknown text

store_reconciliation : ℕ → ℤ → Reconciliation → Journal → Journal
store_reconciliation now job_id (done r) s = (record_outcome now job_id (Outcome.done r) s).0
store_reconciliation now job_id (failed code text) s =
    (record_outcome now job_id (Outcome.failed code text) s).0
store_reconciliation now job_id (still_unknown reason) s =
    (record_still_unknown now job_id reason s).0

reconcile_found :
    (JournalEntry → Joined Reconciliation) → ℕ → ℤ → Option JournalEntry → Journal → Journal
unfolding reconciliation_of store_reconciliation
reconcile_found ask now job_id none s = s
reconcile_found ask now job_id (some entry) s =
    if is_indeterminate entry.state
    then store_reconciliation now job_id (reconciliation_of (ask entry)) s
    else s

-- Ask the device about one `indeterminate` job and journal the answer.
unfoldable pub reconcile_job : (JournalEntry → Joined Reconciliation) → ℕ → ℤ → Journal → Journal
unfolding reconcile_found
reconcile_job ask now job_id s = reconcile_found ask now job_id (get job_id s) s

abbrev is_unowed : Report → Bool
is_unowed Report.unowed = true
is_unowed _ = false

-- A job that no executor can ask about is noted once for a person.
unfoldable pub unreconcilable_notice_due : JournalEntry → Bool
unreconcilable_notice_due e =
    if is_lan_job e.job.id then e.reconcile_attempts == 0 else is_unowed e.report
