-- ===== src/Server/Dispatch/Ends.antt =====
-- How a completion ends its job, and when a retry is scheduled (`complete_job` of
-- crates/devbridge-server/src/dispatch.rs).
use devbridge.Common.{
  ℕ, String, ◌≡◌, refl, ap, ◌∙◌, Bool, true, false, not, Option, none, some, ◌==◌, arith, ==_refl,
  if◌then◌else◌, string_eq, Bool-cases, inl, inr,
}
use devbridge.Common.Result.{Result, ok, err}
use devbridge.Server.Job.{
  JobState, PrintJobEvent, PrintStage, is_finished, is_completed, failed, completed, unconfirmed,
  queued, downloading, printing, cancelled,
}
use devbridge.Server.Storage.States.{moved, reported}
use devbridge.Server.Queue
use devbridge.Server.Dispatch.Messages.{JobCompletion, RetryConfig, DispatchService}
use devbridge.Server.Dispatch.Completion.{
  record_event, note_mismatch, complete_succeeded, complete_unconfirmed, complete_failed, complete,
  complete_job, noted_late, failed_or_late, unscheduled, internal, late_failure_event, end_event,
}
use devbridge.Server.Dispatch.Effects.{
  job_state, at_job, state-update_state, state-update_unless_terminal,
  answer-update_unless_terminal, state-unconfirm_completed, state-record_event, state-note_mismatch,
}

-- What a failure makes of the state of its job.
abbrev after_failure : JobState → JobState
after_failure st = if is_completed st then unconfirmed else if is_finished st then st else failed

-- What a completion makes of the state of its job.
abbrev pub after_completion : JobCompletion → JobState → JobState
after_completion c st =
    if c.success then completed else if c.unconfirmed then unconfirmed else after_failure st

abbrev pub mapped : (JobState → JobState) → Option JobState → Option JobState
mapped f none = none
mapped f (some st) = some (f st)

abbrev is_skipped : Result Bool → Bool
is_skipped (ok true) = false
is_skipped (ok false) = true
is_skipped (err e) = false

state-internal :
    (j context : String) (p : Queue.JobQueue × Result (Unit {0}))
    → job_state j (internal context p).0 ≡ job_state j p.0
state-internal j context (q, ok u) = refl
state-internal j context (q, err e) = refl

state-noted_late :
    (now : ℕ) (j : String) (c : JobCompletion) (p : Queue.JobQueue × Result Bool)
    → job_state j (noted_late now c p).0 ≡ job_state j p.0
state-noted_late now j c (q, ok true) = state-record_event j (late_failure_event now c) q
state-noted_late now j c (q, ok false) = refl
state-noted_late now j c (q, err e) = refl

state-failed_or_late :
    (now : ℕ) (j : String) (config : RetryConfig) (c : JobCompletion)
    (p : Queue.JobQueue × Result Bool)
    → job_state j (failed_or_late now config c p).0 ≡ (
        if is_skipped p.1
        then at_job c.job_id j (moved is_completed unconfirmed) (job_state j p.0)
        else job_state j p.0)
state-failed_or_late now j config c (q, ok true) = refl
state-failed_or_late now j config c (q, ok false) =
    state-noted_late now j c (Queue.unconfirm_completed now c.job_id q)
    ∙ state-unconfirm_completed now j c.job_id q
state-failed_or_late now j config c (q, err e) = refl

-- The two writes of a failure, one after the other.
failure_writes :
    (o : Option JobState)
    → (if is_skipped (reported (λ x. not (is_finished x)) o)
        then moved is_completed unconfirmed (moved (λ x. not (is_finished x)) failed o)
        else moved (λ x. not (is_finished x)) failed o)
      ≡ mapped after_failure o
failure_writes none = refl
failure_writes (some queued) = refl
failure_writes (some downloading) = refl
failure_writes (some printing) = refl
failure_writes (some completed) = refl
failure_writes (some failed) = refl
failure_writes (some cancelled) = refl
failure_writes (some unconfirmed) = refl

failure_at :
    (j k : String) (q : Queue.JobQueue)
    → (if is_skipped (reported (λ x. not (is_finished x)) (job_state k q))
        then at_job k j
            (moved is_completed unconfirmed)
            (at_job k j (moved (λ x. not (is_finished x)) failed) (job_state j q))
        else at_job k j (moved (λ x. not (is_finished x)) failed) (job_state j q))
      ≡ at_job k j (mapped after_failure) (job_state j q)
failure_at j k q = elim (Bool-cases (k == j)) [
  | inl e ↦
      let same = (string_eq.beq_iff k j).0 e in
      rw same rw (==_refl j) (failure_writes (job_state j q))
  | inr e ↦ ground (arith, e)
]

state-complete_failed :
    (now : ℕ) (j : String) (config : RetryConfig) (c : JobCompletion) (q : Queue.JobQueue)
    → job_state j (complete_failed now config c q).0
      ≡ at_job c.job_id j (mapped after_failure) (job_state j q)
unfolding complete_failed
state-complete_failed now j config c q =
    state-failed_or_late now j config c (Queue.update_state_unless_terminal now c.job_id failed q1)
    ∙ rw (answer-update_unless_terminal now c.job_id failed q1) rw
        (state-update_unless_terminal now j c.job_id failed q1) (failure_at j c.job_id q1)
    ∙ ap (at_job c.job_id j (mapped after_failure))
        (state-record_event j (end_event now c PrintStage.failed false c.error_detail) q)
  where
    q1 : Queue.JobQueue
    q1 = record_event (end_event now c PrintStage.failed false c.error_detail) q

state-ended :
    (now : ℕ) (j k context : String) (st : JobState) (e : PrintJobEvent) (q : Queue.JobQueue)
    → job_state j (internal context (Queue.update_state now k st (record_event e q))).0
      ≡ at_job k j (moved (λ x. true) st) (job_state j q)
state-ended now j k context st e q =
    state-internal j context (Queue.update_state now k st (record_event e q))
    ∙ state-update_state now j k st (record_event e q)
    ∙ ap (at_job k j (moved (λ x. true) st)) (state-record_event j e q)

state-complete_succeeded :
    (now : ℕ) (j : String) (c : JobCompletion) (q : Queue.JobQueue)
    → job_state j (complete_succeeded now c q).0
      ≡ at_job c.job_id j (moved (λ x. true) completed) (job_state j q)
unfolding complete_succeeded
state-complete_succeeded now j c q = state-ended now j c.job_id _ completed _ q

state-complete_unconfirmed :
    (now : ℕ) (j : String) (c : JobCompletion) (q : Queue.JobQueue)
    → job_state j (complete_unconfirmed now c q).0
      ≡ at_job c.job_id j (moved (λ x. true) unconfirmed) (job_state j q)
unfolding complete_unconfirmed
state-complete_unconfirmed now j c q = state-ended now j c.job_id _ unconfirmed _ q

state-complete :
    (now : ℕ) (j : String) (config : RetryConfig) (c : JobCompletion) (q : Queue.JobQueue)
    → job_state j (complete now config c q).0
      ≡ at_job c.job_id j (mapped (after_completion c)) (job_state j q)
unfolding complete
state-complete now j config c q =
    branches c.success refl c.unconfirmed refl
    ∙ ap (at_job c.job_id j (mapped (after_completion c))) (state-note_mismatch now j c q)
  where
    noted : Queue.JobQueue
    noted = note_mismatch now c q

    branches :
        (s : Bool)
        → c.success ≡ s
        → (u : Bool) → c.unconfirmed ≡ u
        → job_state j
            (if s
              then unscheduled (complete_succeeded now c noted)
              else if u
              then unscheduled (complete_unconfirmed now c noted)
              else complete_failed now config c noted).0
          ≡ at_job c.job_id j (mapped (after_completion c)) (job_state j noted)
    branches true h u k = state-complete_succeeded now j c noted ∙ ground (arith, h)
    branches false h true k = state-complete_unconfirmed now j c noted ∙ ground (arith, h, k)
    branches false h false k = state-complete_failed now j config c noted ∙ ground (arith, h, k)

-- A completion changes the state of its own job alone: to `completed` on success, to `unconfirmed`
-- where the client says so; a failure makes a job that was completed `unconfirmed`, leaves any other
-- finished job, and fails the rest. A job that is not stored stays so.
pub complete_job-state :
    (now : ℕ) (j : String) (config : RetryConfig) (c : JobCompletion) (d : DispatchService)
    → job_state j (complete_job now config c d).0.queue
      ≡ at_job c.job_id j (mapped (after_completion c)) (job_state j d.queue)
unfolding complete_job
complete_job-state now j config c d = state-complete now j config c d.queue
