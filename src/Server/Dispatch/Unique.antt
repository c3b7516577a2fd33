-- ===== src/Server/Dispatch/Unique.antt =====
-- The steps of the service keep the ids of the stored jobs unique
-- (crates/devbridge-server/src/dispatch.rs).
use devbridge.Common.{
  ℕ, String, Bool, true, false, Option, none, some, List, [], ◌∷◌, if◌then◌else◌, ltb,
}
use devbridge.Common.Result.{Result, ok, err}
use devbridge.Server.Job.{
  JobState, PrintStage, PrintJobEvent, JobMetadata, completed, unconfirmed, failed,
}
use devbridge.Server.Storage.Jobs.{insert_job_event, get_job}
use devbridge.Server.Queue
use devbridge.Server.Queue.Unique.{
  IsUnique, same_storage, update_state-IsUnique, update_unless_terminal-IsUnique,
  unconfirm_completed-IsUnique, requeue_job-IsUnique, push-IsUnique,
}
use devbridge.Server.Dispatch.Messages.{
  JobStatusUpdate, JobCompletion, RetryConfig, DispatchService,
}
use devbridge.Server.Dispatch.Completion.{
  record_event, record_mismatch, mismatch_event, note_mismatch, internal, noted_late,
  failed_or_late, complete_succeeded, complete_unconfirmed, complete_failed, complete, complete_job,
  unscheduled, late_failure_event, end_event,
}
use devbridge.Server.Dispatch.Status.{
  apply_status_update, store_event, requeue_stale_jobs, requeue_round, event_of,
  status_update_state, proto_state_to_core, stage_of,
}
use devbridge.Server.Dispatch.Untouched.{
  storage-subscribe, storage-poll, storage-wake, storage-disconnect, storage-heartbeat,
}
use devbridge.Server.Dispatch.Trace.{Event, step, run}

event-IsUnique :
    (e : PrintJobEvent) (q : Queue.JobQueue)
    → IsUnique q.storage
    → IsUnique (record_event e q).storage
unfolding insert_job_event
event-IsUnique e q h = h

event_if-IsUnique :
    (b : Bool) (e : PrintJobEvent) (q : Queue.JobQueue)
    → IsUnique q.storage
    → IsUnique (if b then record_event e q else q).storage
event_if-IsUnique true e q h = event-IsUnique e q h
event_if-IsUnique false e q h = h

note_mismatch-IsUnique :
    (now : ℕ) (c : JobCompletion) (q : Queue.JobQueue)
    → IsUnique q.storage
    → IsUnique (note_mismatch now c q).storage
unfolding note_mismatch
note_mismatch-IsUnique now c q h = noted (Queue.target_of (get_job c.job_id q.storage))
  where
    noted : (target : Option String) → IsUnique (record_mismatch now c target q).storage
    noted none = h
    noted (some expected) = event_if-IsUnique _ (mismatch_event now c expected) q h

ended-IsUnique :
    (now : ℕ) (k context : String) (st : JobState) (e : PrintJobEvent) (q : Queue.JobQueue)
    → IsUnique q.storage
    → IsUnique (internal context (Queue.update_state now k st (record_event e q))).0.storage
ended-IsUnique now k context st e q h =
    kept (Queue.update_state now k st (record_event e q))
      (update_state-IsUnique now k st (record_event e q) (event-IsUnique e q h))
  where
    kept :
        (p : Queue.JobQueue × Result (Unit {0}))
        → IsUnique p.0.storage
        → IsUnique (internal context p).0.storage
    kept (q, ok u) h = h
    kept (q, err e) h = h

failed_or_late-IsUnique :
    (now : ℕ) (config : RetryConfig) (c : JobCompletion) (p : Queue.JobQueue × Result Bool)
    → IsUnique p.0.storage
    → IsUnique (failed_or_late now config c p).0.storage
failed_or_late-IsUnique now config c (q, ok true) h = h
failed_or_late-IsUnique now config c (q, ok false) h =
    noted (Queue.unconfirm_completed now c.job_id q) (unconfirm_completed-IsUnique now c.job_id q h)
  where
    noted :
        (p : Queue.JobQueue × Result Bool)
        → IsUnique p.0.storage
        → IsUnique (noted_late now c p).0.storage
    noted (q, ok true) h = event-IsUnique (late_failure_event now c) q h
    noted (q, ok false) h = h
    noted (q, err e) h = h
failed_or_late-IsUnique now config c (q, err e) h = h

complete-IsUnique :
    (now : ℕ) (config : RetryConfig) (c : JobCompletion) (q : Queue.JobQueue)
    → IsUnique q.storage
    → IsUnique (complete now config c q).0.storage
unfolding complete complete_succeeded complete_unconfirmed complete_failed
complete-IsUnique now config c q h = branches c.success c.unconfirmed
  where
    noted : Queue.JobQueue
    noted = note_mismatch now c q

    kept : IsUnique noted.storage
    kept = note_mismatch-IsUnique now c q h

    branches :
        (s u : Bool)
        → IsUnique
            (if s
              then unscheduled (complete_succeeded now c noted)
              else if u
              then unscheduled (complete_unconfirmed now c noted)
              else complete_failed now config c noted).0.storage
    branches true u = ended-IsUnique now c.job_id _ completed _ noted kept
    branches false true = ended-IsUnique now c.job_id _ unconfirmed _ noted kept
    branches false false = failed_or_late-IsUnique now config c _ (
        update_unless_terminal-IsUnique now c.job_id failed _
          (event-IsUnique (end_event now c PrintStage.failed false c.error_detail) noted kept))

status-IsUnique :
    (parse_event : String → Option PrintJobEvent) (now : ℕ) (u : JobStatusUpdate)
    (q : Queue.JobQueue)
    → IsUnique q.storage
    → IsUnique (apply_status_update parse_event now u q).0.storage
unfolding apply_status_update
status-IsUnique parse_event now u q h =
    kept (event_of parse_event u) (Queue.update_state_unless_terminal now u.job_id st q)
      (update_unless_terminal-IsUnique now u.job_id st q h)
  where
    st : JobState
    st = status_update_state (proto_state_to_core u.state) (stage_of (event_of parse_event u))

    kept :
        (event : Option PrintJobEvent) (p : Queue.JobQueue × Result Bool)
        → IsUnique p.0.storage
        → IsUnique (store_event event p).0.storage
    kept event (q, err e) h = h
    kept none (q, ok applied) h = h
    kept (some event) (q, ok applied) h = event-IsUnique event q h

stale-IsUnique :
    (now max_retries : ℕ) (jobs : List JobMetadata) (q : Queue.JobQueue)
    → IsUnique q.storage
    → IsUnique (requeue_stale_jobs now max_retries jobs q).storage
unfolding requeue_stale_jobs
stale-IsUnique now max_retries [] q h = h
stale-IsUnique now max_retries (job ∷ jobs) q h =
    stale-IsUnique now max_retries jobs _ (either (ltb job.retry_count max_retries))
  where
    requeued : Queue.JobQueue
    requeued = (Queue.requeue_job now job.job_id "stale: stuck in progress" q).0

    either : (b : Bool) → IsUnique (if b then requeued else q).storage
    either true = requeue_job-IsUnique now job.job_id "stale: stuck in progress" q h
    either false = h

module _ (trim : String → String) (parse_event : String → Option PrintJobEvent)
    (config : RetryConfig) where
  step-IsUnique :
      (now : ℕ) (event : Event) (d : DispatchService)
      → IsUnique d.queue.storage
      → IsUnique (step trim parse_event config now event d).0.queue.storage
  unfolding step
  step-IsUnique now (Event.push m sp) d h = push-IsUnique now m sp d.queue h
  step-IsUnique now (Event.subscribe identity c peer) d h =
      same_storage (storage-subscribe now identity c peer d) h
  step-IsUnique now (Event.pass m c) d h = same_storage (storage-poll trim m c d) h
  step-IsUnique now (Event.wait_over m c) d h = same_storage (storage-wake c d) h
  step-IsUnique now (Event.ended m c) d h = same_storage (storage-disconnect now m c d) h
  step-IsUnique now (Event.ping m time) d h = same_storage (storage-heartbeat now time m d.queue) h
  step-IsUnique now (Event.status u) d h = status-IsUnique parse_event now u d.queue h
  step-IsUnique now (Event.complete c) d h =
      unfold complete_job in complete-IsUnique now config c d.queue h
  step-IsUnique now (Event.requeue k detail) d h = requeue_job-IsUnique now k detail d.queue h
  step-IsUnique now Event.reap d h =
      unfold requeue_round in stale-IsUnique now config.max_retries _ d.queue h

-- Where the ids of the stored jobs are unique, they are so after any steps of the service, the retries
-- and the reaper.
pub run-IsUnique :
    (trim : String → String) (parse_event : String → Option PrintJobEvent) (config : RetryConfig)
    (events : List (ℕ × Event)) (d : DispatchService)
    → IsUnique d.queue.storage
    → IsUnique (run trim parse_event config events d).queue.storage
unfolding run
run-IsUnique trim parse_event config [] d h = h
run-IsUnique trim parse_event config ((now, event) ∷ events) d h =
    run-IsUnique trim parse_event config events (step trim parse_event config now event d).0
      (step-IsUnique trim parse_event config now event d h)
