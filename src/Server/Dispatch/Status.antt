-- ===== src/Server/Dispatch/Status.antt =====
-- A client's status stream and heartbeat (`report_status`, `heartbeat` of
-- crates/devbridge-server/src/dispatch.rs), and the reaper of stuck jobs
-- (crates/devbridge-service/src/runtime.rs).
use Prim.Native.String.{◌++◌ as str_append}
use devbridge.Common.{
  ℕ, ◌*◌, ◌-◌, String, Bool, Option, none, some, List, [], ◌∷◌, ◌==◌, if◌then◌else◌, ltb, string_eq,
}
use devbridge.Common.Result.{Result, ok, err}
use devbridge.Server.Job.{JobState, JobMetadata, PrintJobEvent, PrintStage}
use devbridge.Server.Storage.Lists.{get_stale_jobs}
use devbridge.Server.Clients.{touch_client}
use devbridge.Server.Queue
use devbridge.Server.Dispatch.Messages.{JobStatusUpdate, WireState, RetryConfig}
use devbridge.Server.Dispatch.Completion.{record_event}

unfoldable pub proto_state_to_core : WireState → JobState
proto_state_to_core WireState.unspecified = JobState.queued
proto_state_to_core WireState.queued = JobState.queued
proto_state_to_core WireState.downloading = JobState.downloading
proto_state_to_core WireState.printing = JobState.printing
proto_state_to_core WireState.completed = JobState.completed
proto_state_to_core WireState.failed = JobState.failed
proto_state_to_core WireState.cancelled = JobState.cancelled
proto_state_to_core WireState.rendering = JobState.printing
proto_state_to_core WireState.sending = JobState.printing

abbrev pub stage_of : Option PrintJobEvent → Option PrintStage
stage_of none = none
stage_of (some event) = some event.stage

unfoldable pub status_update_state : JobState → Option PrintStage → JobState
status_update_state wire (some PrintStage.unconfirmed) = JobState.unconfirmed
status_update_state wire stage = wire

-- The event is stored after the state, whether or not the state was applied.
abbrev pub store_event :
    Option PrintJobEvent → Queue.JobQueue × Result Bool → Queue.JobQueue × Result (Unit {0})
store_event event (q, err e) = (q, err e)
store_event none (q, ok applied) = (q, ok tt)
store_event (some event) (q, ok applied) = (record_event event q, ok tt)

-- `parse_event` is the reading of an event from JSON.
module _ (parse_event : String → Option PrintJobEvent) where
  abbrev pub event_of : JobStatusUpdate → Option PrintJobEvent
  event_of u = if u.message == "" then none else parse_event u.message

  unfoldable pub apply_status_update :
      ℕ → JobStatusUpdate → Queue.JobQueue → Queue.JobQueue × Result (Unit {0})
  apply_status_update now u q = store_event (event_of u) (
      Queue.update_state_unless_terminal now u.job_id
        (status_update_state (proto_state_to_core u.state) (stage_of (event_of u))) q)

  abbrev continue_with :
      (Queue.JobQueue → Queue.JobQueue × Result (Unit {0}))
      → Queue.JobQueue × Result (Unit {0})
      → Queue.JobQueue × Result (Unit {0})
  continue_with rest (q, ok u) = rest q
  continue_with rest (q, err e) = (q, err (str_append "failed to update state: " e))

  -- The updates of one stream, until the first error.
  unfoldable pub report_status :
      ℕ → List JobStatusUpdate → Queue.JobQueue → Queue.JobQueue × Result (Unit {0})
  unfolding apply_status_update
  report_status now [] q = (q, ok tt)
  report_status now (u ∷ updates) q =
      continue_with (report_status now updates) (apply_status_update now u q)

-- A ping keeps its client online; the answer is its time.
unfoldable pub heartbeat : ℕ → String → ℕ → Queue.JobQueue → Queue.JobQueue × ℕ
heartbeat now machine_id timestamp q =
    if machine_id == ""
    then (q, timestamp)
    else (record q { registry = touch_client now machine_id q.registry }, timestamp)

unfoldable pub requeue_stale_jobs : ℕ → ℕ → List JobMetadata → Queue.JobQueue → Queue.JobQueue
requeue_stale_jobs now max_retries [] q = q
requeue_stale_jobs now max_retries (job ∷ jobs) q = requeue_stale_jobs now max_retries jobs (
    if ltb job.retry_count max_retries
    then (Queue.requeue_job now job.job_id "stale: stuck in progress" q).0
    else q)

-- One round of the reaper: the jobs in progress that nobody updated for ten retry delays.
unfoldable pub requeue_round : ℕ → RetryConfig → Queue.JobQueue → Queue.JobQueue
requeue_round now config q =
    requeue_stale_jobs now config.max_retries
      (get_stale_jobs (now - config.retry_delay_secs * 10) q.storage) q
