-- ===== src/Server/Dispatch/Completion.antt =====
-- How the service hears that a job ended (`complete_job` of crates/devbridge-server/src/dispatch.rs).
use Prim.Native.String.{◌++◌ as str_append}
use devbridge.Common.{
  ℕ, ◌*◌, ◌^◌, min, ◌-◌, String, Bool, true, false, not, ◌&&◌, Option, none, some, List, [], ◌∷◌,
  ◌++◌, ◌==◌, if◌then◌else◌, ltb, string_eq,
}
use devbridge.Common.Result.{Result, ok, err}
use devbridge.Server.Job.{JobState, JobMetadata, PrintJobEvent, PrintStage, event_new}
use devbridge.Server.Storage.Jobs.{insert_job_event, get_job}
use devbridge.Server.Queue
use devbridge.Server.Dispatch.Messages.{JobCompletion, DelayedRequeue, RetryConfig, DispatchService}

abbrev pub record_event : PrintJobEvent → Queue.JobQueue → Queue.JobQueue
record_event event q = record q { storage = insert_job_event event q.storage }

-- The event of a job's end, with its evidence.
abbrev pub end_event : ℕ → JobCompletion → PrintStage → Bool → String → PrintJobEvent
end_event now c stage success detail = record {
  job_id = c.job_id;
  requesting_user = none;
  stage = stage;
  success = success;
  detail = detail;
  verification_method = c.verification_method;
  verification_evidence = c.verification_evidence;
  timestamp = now;
}

abbrev pub mismatch_event : ℕ → JobCompletion → String → PrintJobEvent
mismatch_event now c expected = record {
  job_id = c.job_id;
  requesting_user = none;
  stage = PrintStage.completed;
  success = true;
  detail =
      str_append "Completed by "
        (str_append c.client_id (str_append " (originally routed to " (str_append expected ")")));
  verification_method = "client_mismatch";
  verification_evidence =
      str_append "expected=" (str_append expected (str_append ", actual=" c.client_id));
  timestamp = now;
}

abbrev pub record_mismatch : ℕ → JobCompletion → Option String → Queue.JobQueue → Queue.JobQueue
record_mismatch now c none q = q
record_mismatch now c (some expected) q =
    if not (c.client_id == "") && not (c.client_id == expected)
    then record_event (mismatch_event now c expected) q
    else q

-- A paired job that another client ends is noted.
unfoldable pub note_mismatch : ℕ → JobCompletion → Queue.JobQueue → Queue.JobQueue
note_mismatch now c q = record_mismatch now c (Queue.target_of (get_job c.job_id q.storage)) q

abbrev completed_detail : JobCompletion → String
completed_detail c = str_append "Completed (" (
    str_append (if c.verification_method == "" then "no verification" else c.verification_method)
      ")")

abbrev pub internal :
    String → Queue.JobQueue × Result (Unit {0}) → Queue.JobQueue × Result (Unit {0})
internal context (q, ok u) = (q, ok u)
internal context (q, err e) = (q, err (str_append context e))

unfoldable pub complete_succeeded :
    ℕ → JobCompletion → Queue.JobQueue → Queue.JobQueue × Result (Unit {0})
complete_succeeded now c q = internal "failed to complete job: " (
    Queue.update_state now c.job_id JobState.completed
      (record_event (end_event now c PrintStage.completed true (completed_detail c)) q))

unfoldable pub complete_unconfirmed :
    ℕ → JobCompletion → Queue.JobQueue → Queue.JobQueue × Result (Unit {0})
complete_unconfirmed now c q = internal "failed to mark job unconfirmed: " (
    Queue.update_state now c.job_id JobState.unconfirmed
      (record_event (end_event now c PrintStage.unconfirmed false c.error_detail) q))

abbrev pub late_failure_event : ℕ → JobCompletion → PrintJobEvent
late_failure_event now c = event_new now c.job_id PrintStage.unconfirmed false (
    str_append "failed after it was reported completed - maybe partly printed, not resent: "
      c.error_detail)

-- The failure of a job that was already finished.
abbrev pub noted_late :
    ℕ → JobCompletion → Queue.JobQueue × Result Bool → Queue.JobQueue × Result (Unit {0})
noted_late now c (q, ok true) = (record_event (late_failure_event now c) q, ok tt)
noted_late now c (q, ok false) = (q, ok tt)
noted_late now c (q, err e) = (q, err (str_append "failed to mark job unconfirmed: " e))

-- `saturating_mul` on 64 bits.
unfoldable pub retry_delay : RetryConfig → ℕ → ℕ
retry_delay config current_retry =
    min (config.retry_delay_secs * 2 ^ min current_retry 6) (2 ^ 64 - 1)

abbrev pub retry_of : RetryConfig → JobCompletion → Option JobMetadata → List DelayedRequeue
retry_of config c none = []
retry_of config c (some job) =
    if ltb job.retry_count config.max_retries
    then (record {
      delay_secs = retry_delay config job.retry_count;
      job_id = c.job_id;
      error_detail = c.error_detail;
    })
      ∷ []
    else []

-- The answer, and the requeues that are scheduled.
abbrev pub Completed : Type 0
Completed = Queue.JobQueue × (Result (Unit {0}) × List DelayedRequeue)

abbrev pub unscheduled : Queue.JobQueue × Result (Unit {0}) → Completed
unscheduled (q, answer) = (q, (answer, []))

-- The failure that was recorded: a retry, if there is one left.
abbrev pub failed_or_late :
    ℕ → RetryConfig → JobCompletion → Queue.JobQueue × Result Bool → Completed
failed_or_late now config c (q, ok true) =
    (q, (ok tt, retry_of config c (get_job c.job_id q.storage)))
failed_or_late now config c (q, ok false) =
    unscheduled (noted_late now c (Queue.unconfirm_completed now c.job_id q))
failed_or_late now config c (q, err e) = (q, (err (str_append "failed to mark job failed: " e), []))

unfoldable pub complete_failed : ℕ → RetryConfig → JobCompletion → Queue.JobQueue → Completed
complete_failed now config c q = failed_or_late now config c (
    Queue.update_state_unless_terminal now c.job_id JobState.failed
      (record_event (end_event now c PrintStage.failed false c.error_detail) q))

unfoldable pub complete : ℕ → RetryConfig → JobCompletion → Queue.JobQueue → Completed
complete now config c q =
    let noted = note_mismatch now c q in
    if c.success
    then unscheduled (complete_succeeded now c noted)
    else if c.unconfirmed
    then unscheduled (complete_unconfirmed now c noted)
    else complete_failed now config c noted

unfoldable pub complete_job :
    ℕ → RetryConfig → JobCompletion → DispatchService → DispatchService × Result (Unit {0})
complete_job now config c d =
    let (q, (answer, requeues)) = complete now config c d.queue in
    (record d { queue = q; delayed = d.delayed ++ requeues }, answer)
