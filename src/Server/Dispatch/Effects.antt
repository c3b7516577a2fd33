-- ===== src/Server/Dispatch/Effects.antt =====
-- What each operation of the queue and of the service makes of the states of the jobs
-- (crates/devbridge-server/src/queue.rs, dispatch.rs).
use devbridge.Common.{
  ℕ, String, ◌≡◌, refl, ap, ◌∙◌, Bool, true, false, not, Option, none, some, ◌==◌, if◌then◌else◌,
  string_eq,
}
use devbridge.Common.Result.{Result, ok, err}
use devbridge.Server.Job.{
  JobState, PrintJobEvent, is_finished, is_requeuable, is_completed, queued, unconfirmed,
}
use devbridge.Server.Storage.Jobs.{
  Storage, update_job_state, update_job_state_unless_terminal, unconfirm_completed_job, requeue_job,
  get_job,
}
use devbridge.Server.Storage.States.{
  state_of, moved, reported, update_unless_terminal_lem, requeue_job_lem, unconfirm_completed_lem,
  update_job_state_lem, state-insert_job_event,
}
use devbridge.Server.Queue
use devbridge.Server.Queue.Unpaired.{storage-route}
use devbridge.Server.Dispatch.Messages.{JobCompletion}
use devbridge.Server.Dispatch.Completion.{
  record_event, record_mismatch, mismatch_event, note_mismatch,
}

-- The state of a job in the queue's storage.
abbrev pub job_state : String → Queue.JobQueue → Option JobState
job_state j q = state_of j q.storage

-- A write to one job by its id.
abbrev pub at_job :
    String → String → (Option JobState → Option JobState) → Option JobState → Option JobState
at_job k j f o = if k == j then f o else o

state-announced :
    (j k : String) (st : JobState) (p : Storage × Result Bool) (q : Queue.JobQueue)
    → job_state j (Queue.announced k st p q).0 ≡ state_of j p.0
state-announced j k st (s, ok true) q = refl
state-announced j k st (s, ok false) q = refl
state-announced j k st (s, err e) q = refl

answer-announced :
    (k : String) (st : JobState) (p : Storage × Result Bool) (q : Queue.JobQueue)
    → (Queue.announced k st p q).1 ≡ p.1
answer-announced k st (s, ok true) q = refl
answer-announced k st (s, ok false) q = refl
answer-announced k st (s, err e) q = refl

pub state-update_state :
    (now : ℕ) (j k : String) (st : JobState) (q : Queue.JobQueue)
    → job_state j (Queue.update_state now k st q).0
      ≡ at_job k j (moved (λ x. true) st) (job_state j q)
unfolding Queue.update_state
state-update_state now j k st q =
    same (update_job_state now k st q.storage) ∙ update_job_state_lem now k st q.storage j
  where
    same :
        (p : Storage × Result (Unit {0}))
        → job_state j (Queue.announced_or_failed k st p q).0 ≡ state_of j p.0
    same (s, ok u) = refl
    same (s, err e) = refl

pub state-update_unless_terminal :
    (now : ℕ) (j k : String) (st : JobState) (q : Queue.JobQueue)
    → job_state j (Queue.update_state_unless_terminal now k st q).0
      ≡ at_job k j (moved (λ x. not (is_finished x)) st) (job_state j q)
unfolding Queue.update_state_unless_terminal
state-update_unless_terminal now j k st q =
    state-announced j k st (update_job_state_unless_terminal now k st q.storage) q
    ∙ (update_unless_terminal_lem now k st q.storage).0 j

pub answer-update_unless_terminal :
    (now : ℕ) (k : String) (st : JobState) (q : Queue.JobQueue)
    → (Queue.update_state_unless_terminal now k st q).1
      ≡ reported (λ x. not (is_finished x)) (job_state k q)
unfolding Queue.update_state_unless_terminal
answer-update_unless_terminal now k st q =
    answer-announced k st (update_job_state_unless_terminal now k st q.storage) q
    ∙ (update_unless_terminal_lem now k st q.storage).1

pub state-unconfirm_completed :
    (now : ℕ) (j k : String) (q : Queue.JobQueue)
    → job_state j (Queue.unconfirm_completed now k q).0
      ≡ at_job k j (moved is_completed unconfirmed) (job_state j q)
unfolding Queue.unconfirm_completed
state-unconfirm_completed now j k q =
    state-announced j k unconfirmed (unconfirm_completed_job now k q.storage) q
    ∙ (unconfirm_completed_lem now k q.storage).0 j

pub state-requeue_job :
    (now : ℕ) (j k detail : String) (q : Queue.JobQueue)
    → job_state j (Queue.requeue_job now k detail q).0
      ≡ at_job k j (moved is_requeuable queued) (job_state j q)
unfolding Queue.requeue_job
state-requeue_job now j k detail q =
    same (requeue_job now k detail q.storage) ∙ (requeue_job_lem now k detail q.storage).0 j
  where
    same : (p : Storage × Result Bool) → job_state j (Queue.rerouted k p q).0 ≡ state_of j p.0
    same (s, ok true) =
        ap (state_of j) (storage-route k (Queue.target_of (get_job k s)) (record q { storage = s }))
    same (s, ok false) = refl
    same (s, err e) = refl

pub state-record_event :
    (j : String) (e : PrintJobEvent) (q : Queue.JobQueue)
    → job_state j (record_event e q) ≡ job_state j q
state-record_event j e q = state-insert_job_event j e q.storage

state-record_event_if :
    (j : String) (b : Bool) (e : PrintJobEvent) (q : Queue.JobQueue)
    → job_state j (if b then record_event e q else q) ≡ job_state j q
state-record_event_if j true e q = state-record_event j e q
state-record_event_if j false e q = refl

pub state-note_mismatch :
    (now : ℕ) (j : String) (c : JobCompletion) (q : Queue.JobQueue)
    → job_state j (note_mismatch now c q) ≡ job_state j q
unfolding note_mismatch
state-note_mismatch now j c q = noted (Queue.target_of (get_job c.job_id q.storage))
  where
    noted : (target : Option String) → job_state j (record_mismatch now c target q) ≡ job_state j q
    noted none = refl
    noted (some expected) = state-record_event_if j _ (mismatch_event now c expected) q
