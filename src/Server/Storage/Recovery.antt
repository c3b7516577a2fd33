-- ===== src/Server/Storage/Recovery.antt =====
-- The crash recovery of a client's job history (`fail_interrupted_jobs` of
-- crates/devbridge-server/src/storage.rs).
use devbridge.Common.{
  ℕ, suc, ◌+◌, String, ◌≡◌, refl, ap, sym, ◌∙◌, false, Option, none, some, List, [], ◌∷◌, arith,
  length, filter, sort_by, length-sort_by, length-append, string_eq, Bool-cases, Option-cases, inl,
  inr,
}
use devbridge.Common.Table.{find, update_all, find-update_all, passes, after}
use devbridge.Server.Job.{failed, is_active, sql_conditions, text_active}
use devbridge.Server.Storage.Jobs.{JobRow, Storage, insert_job_event}
use devbridge.Server.Storage.Lists.{
  on_row, by_created, ids_of, row_active, interrupted, insert_failures, fail_rows,
  fail_interrupted_jobs, count_active_jobs,
}
use devbridge.Server.Storage.States.{state_of, row_state, moved, state-insert_failures, failed_text}

length-ids_of : (rows : List (String × JobRow)) → length (ids_of rows) ≡ length rows
length-ids_of [] = refl
length-ids_of ((i, r) ∷ rows) = ap suc (length-ids_of rows)

active_ids : Storage → List String
active_ids s = ids_of (sort_by by_created (filter (on_row row_active) s.jobs))

length-active_ids :
    (s : Storage) → length (active_ids s) ≡ length (filter (on_row row_active) s.jobs)
unfolding active_ids
length-active_ids s =
    length-ids_of (sort_by by_created (filter (on_row row_active) s.jobs))
    ∙ length-sort_by by_created (filter (on_row row_active) s.jobs)

none_active :
    (j : String) (rows : List (String × JobRow))
    → length (filter (on_row row_active) rows) ≡ 0
    → passes row_active (find j rows) ≡ false
unfolding find
none_active j [] h = refl
none_active j ((i, r) ∷ rows) h = ground (arith, none_active j rows)

-- The rows of the recovered table: the jobs in progress are failed.
recovered : ℕ → String → List (String × JobRow) → List (String × JobRow)
recovered now reason rows = update_all row_active (interrupted now reason) rows

none_left :
    (now : ℕ) (reason : String) (rows : List (String × JobRow))
    → length (filter (on_row row_active) (recovered now reason rows)) ≡ 0
unfolding recovered update_all text_active
none_left now reason [] = refl
none_left now reason ((i, r) ∷ rows) = elim (Bool-cases (row_active r)) [
  | inl a ↦ rw a (none_left now reason rows)
  | inr a ↦ rw a (rw a (none_left now reason rows))
]

jobs-insert_failures :
    (now : ℕ) (reason : String) (ids : List String) (s : Storage)
    → (insert_failures now reason ids s).jobs ≡ s.jobs
unfolding insert_failures insert_job_event
jobs-insert_failures now reason [] s = refl
jobs-insert_failures now reason (i ∷ ids) s = jobs-insert_failures now reason ids _

events-insert_failures :
    (now : ℕ) (reason : String) (ids : List String) (s : Storage)
    → length (insert_failures now reason ids s).job_events ≡ length s.job_events + length ids
unfolding insert_failures insert_job_event
events-insert_failures now reason [] s = omega arith
events-insert_failures now reason (i ∷ ids) s =
    events-insert_failures now reason ids _ ∙ omega (arith, length-append {0} s.job_events (_ ∷ []))

moved-interrupted :
    (now : ℕ) (reason : String) (o : Option JobRow)
    → row_state (after row_active (interrupted now reason) o) ≡ moved is_active failed (row_state o)
moved-interrupted now reason none = refl
moved-interrupted now reason (some r) = ground (arith, failed_text, sql_conditions r.state)

passes-active :
    (j : String) (s : Storage)
    → passes row_active (find j s.jobs) ≡ false
    → state_of j s ≡ moved is_active failed (state_of j s)
unfolding state_of
passes-active j s h = elim (Option-cases (find j s.jobs)) [
  | inl e ↦ rw e refl
  | inr (r, e) ↦ ground (arith, e, h, sql_conditions r.state)
]

-- What the recovery leaves: nothing in progress, the count of the failed jobs, the states, one event
-- for each.
abbrev pub Recovers : Storage → Storage × ℕ → Type 0
Recovers s (s', n) =
    (n ≡ count_active_jobs s)
    × (count_active_jobs s' ≡ 0)
    × ((j : String) → state_of j s' ≡ moved is_active failed (state_of j s))
    × (length s'.job_events ≡ length s.job_events + n)

fail_rows-Recovers :
    (now : ℕ) (reason : String) (s : Storage) (ids : List String)
    → length ids ≡ count_active_jobs s
    → Recovers s (fail_rows now reason ids s)
unfolding fail_rows
fail_rows-Recovers now reason s [] h = (
  h,
  sym h,
  λ j. passes-active j s (none_active j s.jobs (unfold count_active_jobs in sym h)),
  omega arith,
)
fail_rows-Recovers now reason s (i ∷ ids) h = (
  unfold count_active_jobs in refl,
  unfold count_active_jobs in
      (rw (jobs-insert_failures now reason (i ∷ ids) s')
        (unfold recovered in none_left now reason s.jobs)),
  λ j.
      state-insert_failures j now reason (i ∷ ids) s'
      ∙ (unfold state_of in
          (ap row_state (find-update_all j row_active (interrupted now reason) s.jobs)
            ∙ moved-interrupted now reason (find j s.jobs))),
  events-insert_failures now reason (i ∷ ids) s'
      ∙ (unfold count_active_jobs in ap (λ n. length s.job_events + n) h),
)
  where
    s' : Storage
    s' = record s { jobs = update_all row_active (interrupted now reason) s.jobs }

-- After an unclean stop no job stays in progress: exactly the jobs in progress are failed, the answer
-- is how many there were, and as many events are recorded.
pub fail_interrupted_jobs_lem :
    (now : ℕ) (reason : String) (s : Storage) → Recovers s (fail_interrupted_jobs now reason s)
unfolding fail_interrupted_jobs active_ids
fail_interrupted_jobs_lem now reason s =
    fail_rows-Recovers now reason s (active_ids s)
      (length-active_ids s ∙ (unfold count_active_jobs in refl))
