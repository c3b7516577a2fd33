-- ===== src/Server/Dispatch/Retries.antt =====
-- Which completions schedule a retry (`complete_job` of crates/devbridge-server/src/dispatch.rs).
use devbridge.Common.{
  ℕ, String, ◌≡◌, refl, ap, ◌∙◌, Bool, true, false, not, ◌&&◌, Option, none, some, List, [], ◌∷◌,
  ◌++◌, arith, ==_refl, if◌then◌else◌, string_eq, Option-cases, inl, inr, ltb, min, zero, suc, ◌*◌,
  ◌^◌, nat_eq, ◌==◌,
}
use devbridge.Common.Result.{Result, ok, err}
use devbridge.Common.Table.{find, find-update}
use devbridge.Server.Job.{
  JobState, PrintJobEvent, PrintStage, JobMetadata, is_finished, failed, text_unfinished,
}
use devbridge.Server.Storage.Jobs.{
  Storage, JobRow, row_to_job, get_job, update_job, changed_or_skipped,
  update_job_state_unless_terminal, insert_job_event, with_state,
}
use devbridge.Server.Storage.States.{holds, reported}
use devbridge.Server.Queue
use devbridge.Server.Dispatch.Messages.{JobCompletion, RetryConfig, DispatchService, DelayedRequeue}
use devbridge.Server.Dispatch.Completion.{
  record_event, record_mismatch, mismatch_event, note_mismatch, complete_succeeded,
  complete_unconfirmed, complete_failed, complete, complete_job, failed_or_late, unscheduled,
  retry_of, retry_delay, end_event,
}
use devbridge.Server.Dispatch.Effects.{
  job_state, answer-update_unless_terminal, state-record_event, state-note_mismatch,
}

abbrev count_of : Option JobMetadata → Option ℕ
count_of none = none
count_of (some m) = some m.retry_count

-- How often the job was retried.
unfoldable pub retries_of : String → Storage → Option ℕ
retries_of k s = count_of (get_job k s)

-- How many times the configured delay a retry waits after so many retries.
unfoldable pub backoff_factor : ℕ → ℕ
backoff_factor n =
    if n == 0
    then 1
    else if n == 1
    then 2
    else if n == 2
    then 4
    else if n == 3
    then 8
    else if n == 4
    then 16
    else if n == 5
    then 32
    else 64

backoff_factor-power : (n : ℕ) → 2 ^ min n 6 ≡ backoff_factor n
unfolding backoff_factor
backoff_factor-power zero = refl
backoff_factor-power (suc zero) = refl
backoff_factor-power (suc (suc zero)) = refl
backoff_factor-power (suc (suc (suc zero))) = refl
backoff_factor-power (suc (suc (suc (suc zero)))) = refl
backoff_factor-power (suc (suc (suc (suc (suc zero))))) = refl
backoff_factor-power (suc (suc (suc (suc (suc (suc n)))))) = rw capped (ground arith)
  where
    capped : min (suc (suc (suc (suc (suc (suc n)))))) 6 ≡ 6
    capped = ground arith

retry_delay-backoff :
    (config : RetryConfig) (n : ℕ)
    → retry_delay config n ≡ min (config.retry_delay_secs * backoff_factor n) 18446744073709551615
unfolding retry_delay backoff_factor
retry_delay-backoff config n = rw (backoff_factor-power n) refl

-- The retry after so many retries, if there is one left: the configured delay, doubled with every retry
-- so far up to six times, and at most what 64 bits hold.
abbrev pub retry_after : RetryConfig → JobCompletion → Option ℕ → List DelayedRequeue
retry_after config c none = []
retry_after config c (some n) =
    if ltb n config.max_retries
    then (record {
      delay_secs = min (config.retry_delay_secs * backoff_factor n) 18446744073709551615;
      job_id = c.job_id;
      error_detail = c.error_detail;
    })
      ∷ []
    else []

retry_of-count :
    (config : RetryConfig) (c : JobCompletion) (o : Option JobMetadata)
    → retry_of config c o ≡ retry_after config c (count_of o)
retry_of-count config c none = refl
retry_of-count config c (some m) = rw (retry_delay-backoff config m.retry_count) refl

retries-record_event :
    (k : String) (b : Bool) (e : PrintJobEvent) (q : Queue.JobQueue)
    → retries_of k (if b then record_event e q else q).storage ≡ retries_of k q.storage
unfolding retries_of get_job insert_job_event
retries-record_event k true e q = refl
retries-record_event k false e q = refl

retries-note_mismatch :
    (now : ℕ) (k : String) (c : JobCompletion) (q : Queue.JobQueue)
    → retries_of k (note_mismatch now c q).storage ≡ retries_of k q.storage
unfolding note_mismatch
retries-note_mismatch now k c q = noted (Queue.target_of (get_job c.job_id q.storage))
  where
    noted :
        (target : Option String)
        → retries_of k (record_mismatch now c target q).storage ≡ retries_of k q.storage
    noted none = refl
    noted (some expected) = retries-record_event k _ (mismatch_event now c expected) q

retries-update_job :
    (k : String) (test : JobRow → Bool) (set : JobRow → JobRow) (s : Storage)
    → ((r : JobRow) → (set r).retry_count ≡ r.retry_count)
    → retries_of k (update_job k test set s).0 ≡ retries_of k s
unfolding retries_of get_job row_to_job update_job
retries-update_job k test set s same = elim (Option-cases (find k s.jobs)) [
  | inl e ↦ ground (arith, e, find-update k k test set s.jobs, ==_refl k)
  | inr (r, e) ↦ ground (arith, e, find-update k k test set s.jobs, ==_refl k, same r)
]

retries-update_unless_terminal :
    (now : ℕ) (k : String) (st : JobState) (q : Queue.JobQueue)
    → retries_of k (Queue.update_state_unless_terminal now k st q).0.storage
      ≡ retries_of k q.storage
unfolding Queue.update_state_unless_terminal update_job_state_unless_terminal
retries-update_unless_terminal now k st q =
    announced (changed_or_skipped k written)
    ∙ skipped written
    ∙ retries-update_job k (λ r. text_unfinished r.state) (with_state now st) q.storage (λ r. refl)
  where
    written : Storage × Bool
    written = update_job k (λ r. text_unfinished r.state) (with_state now st) q.storage

    announced :
        (p : Storage × Result Bool)
        → retries_of k (Queue.announced k st p q).0.storage ≡ retries_of k p.0
    announced (s, ok true) = refl
    announced (s, ok false) = refl
    announced (s, err e) = refl

    skipped : (p : Storage × Bool) → retries_of k (changed_or_skipped k p).0 ≡ retries_of k p.0
    skipped (s, true) = refl
    skipped (s, false) = refl

abbrev is_applied : Result Bool → Bool
is_applied (ok b) = b
is_applied (err e) = false

applied-reported :
    (test : JobState → Bool) (o : Option JobState) → is_applied (reported test o) ≡ holds test o
applied-reported test none = refl
applied-reported test (some st) = refl

scheduled :
    (now : ℕ) (config : RetryConfig) (c : JobCompletion) (p : Queue.JobQueue × Result Bool)
    → (failed_or_late now config c p).1.1
      ≡ (if is_applied p.1 then retry_after config c (retries_of c.job_id p.0.storage) else [])
unfolding retries_of
scheduled now config c (q, ok true) = retry_of-count config c (get_job c.job_id q.storage)
scheduled now config c (q, ok false) = refl
scheduled now config c (q, err e) = refl

-- A failure of a job that is there and not finished.
abbrev pub is_retriable : JobCompletion → Option JobState → Bool
is_retriable c o = not c.success && (not c.unconfirmed && holds (λ st. not (is_finished st)) o)

scheduled-complete_failed :
    (now : ℕ) (config : RetryConfig) (c : JobCompletion) (q : Queue.JobQueue)
    → (complete_failed now config c q).1.1 ≡ (
        if holds (λ st. not (is_finished st)) (job_state c.job_id q)
        then retry_after config c (retries_of c.job_id q.storage)
        else [])
unfolding complete_failed
scheduled-complete_failed now config c q =
    scheduled now config c (Queue.update_state_unless_terminal now c.job_id failed q1)
    ∙ rw (answer-update_unless_terminal now c.job_id failed q1) rw
        (applied-reported (λ st. not (is_finished st)) (job_state c.job_id q1)) rw
        (retries-update_unless_terminal now c.job_id failed q1)
        (ap
          (λ n.
            if holds (λ st. not (is_finished st)) (job_state c.job_id q1)
            then retry_after config c n
            else [])
          (retries-record_event c.job_id true event q))
    ∙ ap
        (λ o.
          if holds (λ st. not (is_finished st)) o
          then retry_after config c (retries_of c.job_id q.storage)
          else [])
        (state-record_event c.job_id event q)
  where
    event : PrintJobEvent
    event = end_event now c PrintStage.failed false c.error_detail

    q1 : Queue.JobQueue
    q1 = record_event event q

-- A completion schedules a requeue exactly where it is a failure, not an unconfirmed end, of a stored
-- job that is not finished and has retries left: one, of that job, after the configured delay times 1,
-- 2, 4, 8, 16, 32 after no retry to five, times 64 after more, and at most the greatest 64-bit number.
pub complete_job-delayed :
    (now : ℕ) (config : RetryConfig) (c : JobCompletion) (d : DispatchService)
    → (complete_job now config c d).0.delayed
      ≡ d.delayed
        ++ (if is_retriable c (job_state c.job_id d.queue)
            then retry_after config c (retries_of c.job_id d.queue.storage)
            else [])
unfolding complete_job complete
complete_job-delayed now config c d =
    ap (λ rs. d.delayed ++ rs) (branches c.success refl c.unconfirmed refl)
  where
    noted : Queue.JobQueue
    noted = note_mismatch now c d.queue

    branches :
        (s : Bool)
        → c.success ≡ s
        → (u : Bool) → c.unconfirmed ≡ u
        → (if s
            then unscheduled (complete_succeeded now c noted)
            else if u
            then unscheduled (complete_unconfirmed now c noted)
            else complete_failed now config c noted).1.1
          ≡ (if is_retriable c (job_state c.job_id d.queue)
              then retry_after config c (retries_of c.job_id d.queue.storage)
              else [])
    branches true h u k = ground (arith, h)
    branches false h true k = ground (arith, h, k)
    branches false h false k =
        scheduled-complete_failed now config c noted
        ∙ rw (state-note_mismatch now c.job_id c d.queue) rw
            (retries-note_mismatch now c.job_id c d.queue) (ground (arith, h, k))
