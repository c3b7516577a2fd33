-- ===== src/Server/Storage/States.antt =====
-- What each statement makes of the state of every job (crates/devbridge-server/src/storage.rs): the
-- storage as a map from job ids to states.
use devbridge.Common.{
  ℕ, String, ◌≡◌, refl, ap, ◌∙◌, Bool, true, false, not, Option, none, some, arith, ◌==◌, ==_refl,
  if◌then◌else◌, string_eq, List, [], ◌∷◌, Option-cases, inl, inr,
}
use devbridge.Common.Result.{Result, ok, err}
use devbridge.Common.Table.{find, find-update, passes, after}
use devbridge.Server.Job.{
  JobState, PrintJobEvent, failed, queued, unconfirmed, str_to_state, is_finished, is_requeuable,
  is_completed, str_to_state-state_to_str, sql_conditions,
}
use devbridge.Server.Storage.Jobs.{
  JobRow, Storage, update_job, update_job_state, update_job_state_unless_terminal,
  unconfirm_completed_job, requeue_job, existing_state_text, changed_or_skipped, found_or_error,
  with_state, insert_job_event, found_or_error, with_state, insert_job_event,
}
use devbridge.Server.Storage.Lists.{insert_failures}

abbrev pub row_state : Option JobRow → Option JobState
row_state none = none
row_state (some r) = some (str_to_state r.state)

unfoldable pub state_of : String → Storage → Option JobState
state_of job_id s = row_state (find job_id s.jobs)

-- How a conditional write changes the state of a job.
abbrev pub moved : (JobState → Bool) → JobState → Option JobState → Option JobState
moved test to none = none
moved test to (some st) = if test st then some to else some st

-- The job is there and passes the test.
abbrev pub holds : (JobState → Bool) → Option JobState → Bool
holds test none = false
holds test (some st) = test st

-- What a conditional write reports: an error for no such job.
abbrev pub reported : (JobState → Bool) → Option JobState → Result Bool
reported test none = err "not found"
reported test (some st) = ok (test st)

state-update :
    (j k : String) (test : JobRow → Bool) (set : JobRow → JobRow) (s : Storage)
    → state_of j (update_job k test set s).0
      ≡ (if k == j then row_state (after test set (find j s.jobs)) else state_of j s)
unfolding state_of update_job
state-update j k test set s = rw find-update (ground arith)

module _ (test : JobRow → Bool) (set : JobRow → JobRow) (on_state : JobState → Bool) (to : JobState)
    (agrees : (r : JobRow) → test r ≡ on_state (str_to_state r.state))
    (sets : (r : JobRow) → str_to_state (set r).state ≡ to) where
  moved-after : (o : Option JobRow) → row_state (after test set o) ≡ moved on_state to (row_state o)
  moved-after none = refl
  moved-after (some r) = ground (arith, agrees r, sets r)

  holds-passes : (o : Option JobRow) → passes test o ≡ holds on_state (row_state o)
  holds-passes none = refl
  holds-passes (some r) = agrees r

  -- A conditional write moves the state of its job where the condition holds, and of no other job.
  write-state :
      (j k : String) (s : Storage)
      → state_of j (update_job k test set s).0
        ≡ (if k == j then moved on_state to (state_of j s) else state_of j s)
  unfolding state_of
  write-state j k s =
      state-update j k test set s
      ∙ unfold state_of in
        ap (λ o. if k == j then o else state_of j s) (moved-after (find j s.jobs))

  write_reports :
      (k : String) (s : Storage) → (update_job k test set s).1 ≡ holds on_state (state_of k s)
  unfolding update_job state_of
  write_reports k s = holds-passes (find k s.jobs)

  write-changed_or_skipped :
      (j k : String) (s : Storage)
      → state_of j (changed_or_skipped k (update_job k test set s)).0
        ≡ (if k == j then moved on_state to (state_of j s) else state_of j s)
  write-changed_or_skipped j k s = same (update_job k test set s) ∙ write-state j k s
    where
      same : (p : Storage × Bool) → state_of j (changed_or_skipped k p).0 ≡ state_of j p.0
      same (s', true) = refl
      same (s', false) = refl

  write_reports_or_skips :
      (k : String) (s : Storage)
      → (changed_or_skipped k (update_job k test set s)).1 ≡ reported on_state (state_of k s)
  unfolding update_job existing_state_text state_of
  write_reports_or_skips k s = elim (Option-cases (find k s.jobs)) [
    | inl e ↦ ground (arith, find-update k k test set s.jobs, ==_refl k, e)
    | inr (r, e) ↦ ground (arith, find-update k k test set s.jobs, ==_refl k, e, agrees r)
  ]

-- A status write that spares finished jobs moves exactly an unfinished job, and says whether it did.
pub update_unless_terminal_lem :
    (now : ℕ) (k : String) (st : JobState) (s : Storage)
    → ((j : String)
        → state_of j (update_job_state_unless_terminal now k st s).0
          ≡ (if k == j then moved (λ x. not (is_finished x)) st (state_of j s) else state_of j s))
      × ((update_job_state_unless_terminal now k st s).1
          ≡ reported (λ x. not (is_finished x)) (state_of k s))
unfolding update_job_state_unless_terminal
update_unless_terminal_lem now k st s = (
  λ j.
      write-changed_or_skipped _ _ (λ x. not (is_finished x)) st (λ r. (sql_conditions r.state).0)
        (λ r. str_to_state-state_to_str st) j k s,
  write_reports_or_skips _ _ (λ x. not (is_finished x)) st (λ r. (sql_conditions r.state).0)
      (λ r. str_to_state-state_to_str st) k s,
)

queued_text : str_to_state "queued" ≡ queued
unfolding str_to_state
queued_text = refl

unconfirmed_text : str_to_state "unconfirmed" ≡ unconfirmed
unfolding str_to_state
unconfirmed_text = refl

pub failed_text : str_to_state "failed" ≡ failed
unfolding str_to_state
failed_text = refl

-- A requeue moves exactly a failed job, or one in progress, back to `queued`, and says whether it did.
pub requeue_job_lem :
    (now : ℕ) (k detail : String) (s : Storage)
    → ((j : String)
        → state_of j (requeue_job now k detail s).0
          ≡ (if k == j then moved is_requeuable queued (state_of j s) else state_of j s))
      × ((requeue_job now k detail s).1 ≡ reported is_requeuable (state_of k s))
unfolding requeue_job
requeue_job_lem now k detail s = (
  λ j.
      write-changed_or_skipped _ _ is_requeuable queued (λ r. (sql_conditions r.state).1)
        (λ r. queued_text) j k s,
  write_reports_or_skips _ _ is_requeuable queued (λ r. (sql_conditions r.state).1)
      (λ r. queued_text) k s,
)

-- A late failure makes exactly a completed job `unconfirmed`, and says whether it did.
pub unconfirm_completed_lem :
    (now : ℕ) (k : String) (s : Storage)
    → ((j : String)
        → state_of j (unconfirm_completed_job now k s).0
          ≡ (if k == j then moved is_completed unconfirmed (state_of j s) else state_of j s))
      × ((unconfirm_completed_job now k s).1 ≡ ok (holds is_completed (state_of k s)))
unfolding unconfirm_completed_job
unconfirm_completed_lem now k s = (
  λ j.
      write-state _ _ is_completed unconfirmed (λ r. (sql_conditions r.state).4)
        (λ r. unconfirmed_text) j k s,
  ap ok (
      write_reports _ (λ r. record r { state = "unconfirmed"; updated_at = now }) is_completed
        unconfirmed (λ r. (sql_conditions r.state).4) (λ r. unconfirmed_text) k s),
)

-- An unconditional status write moves a job from any state, and fails only where there is none.
pub update_job_state_lem :
    (now : ℕ) (k : String) (st : JobState) (s : Storage)
    → (j : String)
    → state_of j (update_job_state now k st s).0
      ≡ (if k == j then moved (λ x. true) st (state_of j s) else state_of j s)
unfolding update_job_state
update_job_state_lem now k st s j =
    same (update_job k (λ r. true) (with_state now st) s)
    ∙ write-state _ _ (λ x. true) st (λ r. refl) (λ r. str_to_state-state_to_str st) j k s
  where
    same : (p : Storage × Bool) → state_of j (found_or_error p).0 ≡ state_of j p.0
    same (s', true) = refl
    same (s', false) = refl

-- Recording an event touches no job.
pub state-insert_job_event :
    (j : String) (e : PrintJobEvent) (s : Storage)
    → state_of j (insert_job_event e s) ≡ state_of j s
unfolding insert_job_event state_of
state-insert_job_event j e s = refl

pub state-insert_failures :
    (j : String) (now : ℕ) (reason : String) (ids : List String) (s : Storage)
    → state_of j (insert_failures now reason ids s) ≡ state_of j s
unfolding insert_failures
state-insert_failures j now reason [] s = refl
state-insert_failures j now reason (i ∷ ids) s =
    state-insert_failures j now reason ids _ ∙ state-insert_job_event j _ s
