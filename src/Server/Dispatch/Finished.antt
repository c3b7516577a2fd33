-- ===== src/Server/Dispatch/Finished.antt =====
-- A finished job stays finished and is never streamed again, whatever comes after its end
-- (crates/devbridge-server/src/dispatch.rs, queue.rs; crates/devbridge-service/src/runtime.rs).
use devbridge.Common.{
  ℕ, String, ◌≡◌, refl, ap, ◌∙◌, Bool, true, false, not, Option, none, some, List, [], ◌∷◌, arith,
  if◌then◌else◌, string_eq, Option-cases, inl, inr, ltb, All,
}
use devbridge.Common.Result.{Result, ok, err}
use devbridge.Common.Table.{find}
use devbridge.Server.Job.{JobState, JobMetadata, PrintJobEvent, is_finished, is_requeuable, queued}
use devbridge.Server.Storage.Jobs.{get_job, row_to_job}
use devbridge.Server.Storage.States.{state_of, moved, holds}
use devbridge.Server.Queue
use devbridge.Server.Dispatch.Messages.{
  JobStatusUpdate, JobCompletion, RetryConfig, DispatchService,
}
use devbridge.Server.Dispatch.Completion.{complete_job}
use devbridge.Server.Dispatch.Status.{
  apply_status_update, store_event, requeue_round, requeue_stale_jobs, event_of,
  status_update_state, proto_state_to_core, stage_of,
}
use devbridge.Server.Dispatch.Subscription.{poll, wake, take_job, receive, send_job, sent_for}
use devbridge.Server.Dispatch.Effects.{
  job_state, at_job, state-update_unless_terminal, state-requeue_job, state-record_event,
}
use devbridge.Server.Dispatch.Ends.{complete_job-state, after_completion, mapped}
use devbridge.Server.Dispatch.Trace.{Event, step, streams, stores_any, is_job}
use devbridge.Server.Dispatch.Untouched.{
  state-push, storage-subscribe, storage-poll, storage-wake, storage-disconnect, storage-heartbeat,
}

-- The job is there and finished.
abbrev pub IsFinished : String → Queue.JobQueue → Type 0
IsFinished j q = holds is_finished (job_state j q) ≡ true

finished-moved :
    (test : JobState → Bool) (to : JobState) (j k : String) (o : Option JobState)
    → ((st : JobState) → is_finished st ≡ true → test st ≡ false)
    → holds is_finished o ≡ true
    → holds is_finished (at_job k j (moved test to) o) ≡ true
finished-moved test to j k none spares h = absurd (cc h)
finished-moved test to j k (some st) spares h = ground (arith, spares st h)

apply_status_update-IsFinished :
    (parse_event : String → Option PrintJobEvent) (now : ℕ) (j : String) (u : JobStatusUpdate)
    (q : Queue.JobQueue)
    → IsFinished j q
    → IsFinished j (apply_status_update parse_event now u q).0
unfolding apply_status_update
apply_status_update-IsFinished parse_event now j u q h =
    ap (holds is_finished) (
      stored (event_of parse_event u) (Queue.update_state_unless_terminal now u.job_id st q)
      ∙ state-update_unless_terminal now j u.job_id st q)
    ∙ finished-moved (λ x. not (is_finished x)) st j u.job_id (job_state j q) (λ x e. ap not e) h
  where
    st : JobState
    st = status_update_state (proto_state_to_core u.state) (stage_of (event_of parse_event u))

    stored :
        (event : Option PrintJobEvent) (p : Queue.JobQueue × Result Bool)
        → job_state j (store_event event p).0 ≡ job_state j p.0
    stored event (q, err e) = refl
    stored none (q, ok applied) = refl
    stored (some event) (q, ok applied) = state-record_event j event q

finished-not-requeuable : (st : JobState) → is_finished st ≡ true → is_requeuable st ≡ false
finished-not-requeuable st h = ground arith

requeue_job-IsFinished :
    (now : ℕ) (j k detail : String) (q : Queue.JobQueue)
    → IsFinished j q
    → IsFinished j (Queue.requeue_job now k detail q).0
requeue_job-IsFinished now j k detail q h =
    ap (holds is_finished) (state-requeue_job now j k detail q)
    ∙ finished-moved is_requeuable queued j k (job_state j q) finished-not-requeuable h

if-IsFinished :
    (j : String) (b : Bool) (q' q : Queue.JobQueue)
    → IsFinished j q'
    → IsFinished j q
    → IsFinished j (if b then q' else q)
if-IsFinished j true q' q h' h = h'
if-IsFinished j false q' q h' h = h

requeue_stale_jobs-IsFinished :
    (now max_retries : ℕ) (j : String) (jobs : List JobMetadata) (q : Queue.JobQueue)
    → IsFinished j q
    → IsFinished j (requeue_stale_jobs now max_retries jobs q)
unfolding requeue_stale_jobs
requeue_stale_jobs-IsFinished now max_retries j [] q h = h
requeue_stale_jobs-IsFinished now max_retries j (job ∷ jobs) q h =
    requeue_stale_jobs-IsFinished now max_retries j jobs _ (
      if-IsFinished j (ltb job.retry_count max_retries) _ q
        (requeue_job-IsFinished now j job.job_id "stale: stuck in progress" q h) h)

complete_job-IsFinished :
    (now : ℕ) (j : String) (config : RetryConfig) (c : JobCompletion) (d : DispatchService)
    → IsFinished j d.queue
    → IsFinished j (complete_job now config c d).0.queue
complete_job-IsFinished now j config c d h =
    ap (holds is_finished) (complete_job-state now j config c d) ∙ ended (job_state j d.queue) h
  where
    ended :
        (o : Option JobState)
        → holds is_finished o ≡ true
        → holds is_finished (at_job c.job_id j (mapped (after_completion c)) o) ≡ true
    ended none h = absurd (cc h)
    ended (some st) h = ground (arith, h)

-- What is streamed for any id is not a finished job.
finished-sent_for :
    (j : String) (o : Option String) (q : Queue.JobQueue)
    → IsFinished j q
    → is_job j (sent_for o q) ≡ false
unfolding send_job get_job row_to_job state_of
finished-sent_for j none q h = refl
finished-sent_for j (some k) q h = elim (Option-cases (find k q.storage.jobs)) [
  | inl e ↦ rw e refl
  | inr (r, e) ↦ ground (arith, e, h, string_eq.beq_iff k j)
]

module _ (trim : String → String) (parse_event : String → Option PrintJobEvent)
    (config : RetryConfig) (j : String) where
  step-IsFinished :
      (now : ℕ) (event : Event) (d : DispatchService)
      → stores_any j ((now, event) ∷ []) ≡ false
      → IsFinished j d.queue
      → IsFinished j (step trim parse_event config now event d).0.queue
  unfolding step
  step-IsFinished now (Event.push m sp) d new h =
      ap (holds is_finished) (state-push now j m sp d.queue (ground (arith, new))) ∙ h
  step-IsFinished now (Event.subscribe identity c peer) d new h =
      ap (λ s. holds is_finished (state_of j s)) (storage-subscribe now identity c peer d) ∙ h
  step-IsFinished now (Event.pass m c) d new h =
      ap (λ s. holds is_finished (state_of j s)) (storage-poll trim m c d) ∙ h
  step-IsFinished now (Event.wait_over m c) d new h =
      ap (λ s. holds is_finished (state_of j s)) (storage-wake c d) ∙ h
  step-IsFinished now (Event.ended m c) d new h =
      ap (λ s. holds is_finished (state_of j s)) (storage-disconnect now m c d) ∙ h
  step-IsFinished now (Event.ping m time) d new h =
      ap (λ s. holds is_finished (state_of j s)) (storage-heartbeat now time m d.queue) ∙ h
  step-IsFinished now (Event.status u) d new h =
      apply_status_update-IsFinished parse_event now j u d.queue h
  step-IsFinished now (Event.complete c) d new h = complete_job-IsFinished now j config c d h
  step-IsFinished now (Event.requeue k detail) d new h =
      requeue_job-IsFinished now j k detail d.queue h
  step-IsFinished now Event.reap d new h =
      unfold requeue_round in requeue_stale_jobs-IsFinished now config.max_retries j _ d.queue h

  finished-streamed :
      (now : ℕ) (event : Event) (d : DispatchService)
      → IsFinished j d.queue
      → is_job j (step trim parse_event config now event d).1 ≡ false
  unfolding step
  finished-streamed now (Event.push m sp) d h = refl
  finished-streamed now (Event.subscribe identity c peer) d h = refl
  finished-streamed now (Event.pass m c) d h =
      unfold poll in
      finished-sent_for j _ (take_job trim m c d.queue).0
        (ap (λ s. holds is_finished (state_of j s)) (unfold poll in storage-poll trim m c d) ∙ h)
  finished-streamed now (Event.wait_over m c) d h =
      unfold wake in finished-sent_for j _ (receive c d.queue).0 (unfold receive in h)
  finished-streamed now (Event.ended m c) d h = refl
  finished-streamed now (Event.ping m time) d h = refl
  finished-streamed now (Event.status u) d h = refl
  finished-streamed now (Event.complete c) d h = refl
  finished-streamed now (Event.requeue k detail) d h = refl
  finished-streamed now Event.reap d h = refl

-- Once a job is completed, cancelled or unconfirmed, no sequence of connections, deliveries, status
-- messages, completions, retries and reaper rounds streams it to a client again, as long as no new
-- job is stored under its id.
pub finished_never_streamed :
    (trim : String → String) (parse_event : String → Option PrintJobEvent) (config : RetryConfig)
    (j : String) (events : List (ℕ × Event)) (d : DispatchService)
    → stores_any j events ≡ false
    → IsFinished j d.queue
    → All (λ p. is_job j p ≡ false) (streams trim parse_event config events d)
unfolding streams
finished_never_streamed trim parse_event config j [] d new h = tt
finished_never_streamed trim parse_event config j ((now, event) ∷ events) d new h = (
  finished-streamed trim parse_event config j now event d h,
  finished_never_streamed trim parse_event config j events
      (step trim parse_event config now event d).0 (ground (arith, new))
      (step-IsFinished trim parse_event config j now event d (ground (arith, new)) h),
)
