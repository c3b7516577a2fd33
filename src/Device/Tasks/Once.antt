-- ===== src/Device/Tasks/Once.antt =====
-- A device sees each job at most once, and the journal holds what it answered
-- (device_jobs/tasks.rs of crates/devbridge-client/src).
use devbridge.Common.{
  ℕ, ◌≤◌, String, ◌≡◌, refl, Bool, true, false, ◌&&◌, not, Option, none, some, arith, ==_refl,
  Bool-cases, Option-cases, is_some, inl, inr, All, List,
}
use devbridge.Common.Int.{ℤ, int_eq}
use devbridge.Common.Table.{passes}
use devbridge.Device.Entry.{DeviceJob, is_received, JournalEntry, Outcome}
use devbridge.Device.Backoff.{queue_wait_exceeded}
use devbridge.Device.Journal.Store.{Journal, get}
use devbridge.Device.Journal.Operations.{start_execution, fail_unstarted}
use devbridge.Device.Journal.Evolution.{rank, Evolves, Evolves-trans, Evolves-record_outcome}
use devbridge.Device.Journal.ExactlyOnce.{start_execution_lem, start_changes, run-Evolves}
use devbridge.Device.Journal.Rows.{get-update_row}
use devbridge.Device.Journal.Trace.{Op, Keeps, run}
use devbridge.Device.Tasks.{
  code_expired_local, Answer, in_time, late, outcome_of, execute_job, executed, begin_job,
  begin_found, begin_entry, at_answer, store_answer, Call, joined_of,
}

-- No other task prunes the journal while the worker waits.
abbrev pub KeepsMeanwhile : Answer → Type 0
KeepsMeanwhile (in_time meanwhile joined) = All Keeps meanwhile
KeepsMeanwhile (late before meanwhile joined) = All Keeps before × All Keeps meanwhile

at_answer-Evolves :
    (j k : ℤ) (now : ℕ) (reason : String) (a : Answer) (s : Journal)
    → KeepsMeanwhile a
    → Evolves (get j s) (get j (at_answer now k reason a s))
unfolding at_answer
at_answer-Evolves j k now reason (in_time meanwhile o) s h = run-Evolves j meanwhile s h
at_answer-Evolves j k now reason (late before meanwhile o) s h =
    Evolves-trans (run-Evolves j before s h.0) (
      Evolves-trans (Evolves-record_outcome j k now (Outcome.indeterminate reason) _)
        (run-Evolves j meanwhile _ h.1))

store_answer-Evolves :
    (j k : ℤ) (now : ℕ) (reason : String) (a : Answer) (s : Journal)
    → KeepsMeanwhile a
    → Evolves (get j s) (get j (store_answer now k reason a s))
unfolding store_answer
store_answer-Evolves j k now reason a s h =
    Evolves-trans (at_answer-Evolves j k now reason a s h)
      (Evolves-record_outcome j k now (outcome_of (joined_of a)) _)

fail_unstarted-rank :
    (now : ℕ) (k : ℤ) (code text : String) (s : Journal) {e : JournalEntry}
    → get k s ≡ some e
    → 2 ≤ rank (get k (fail_unstarted now k code text s).0)
unfolding fail_unstarted
fail_unstarted-rank now k code text s {e} p = rw (get-update_row, ==_refl k, p) (ground arith)

module _ (max_wait now : ℕ) (k : ℤ) (queued_at : ℕ) (text : String) where
  pub begin_job-calls :
      (s : Journal)
      → is_some (begin_job max_wait now k queued_at text s).1 ≡ (
          passes (λ e. is_received e.state) (get k s)
          && not (queue_wait_exceeded queued_at now max_wait))
  unfolding begin_job begin_found
  begin_job-calls s = elim (Option-cases (get k s)) [
    | inl p ↦ rw p
    | inr (e, p) ↦ rw p (unfold begin_entry in ground (arith, start_changes now k s, p))
  ]

  begin_entry-rank :
      (expired : Bool) (e : JournalEntry) (s : Journal)
      → get k s ≡ some e
      → 2 ≤ rank (get k (begin_entry now k expired text e s).0)
  unfolding begin_entry
  begin_entry-rank true e s p = fail_unstarted-rank now k code_expired_local text s p
  begin_entry-rank false e s p = elim (Bool-cases (start_execution now k s).1) [
    | inl won ↦ rw won (omega (arith, (start_execution_lem now k s).1 won))
    | inr lost ↦ rw lost (ground (arith, start_changes now k s, lost, p))
  ]

  -- A job that the journal has is no longer `received` once a worker began with it.
  pub begin_job-rank :
      (s : Journal)
      → is_some (get k s) ≡ true
      → 2 ≤ rank (get k (begin_job max_wait now k queued_at text s).0)
  unfolding begin_job begin_found
  begin_job-rank s h = elim (Option-cases (get k s)) [
    | inl p ↦ ground (arith, p, h)
    | inr (e, p) ↦ rw p (begin_entry-rank _ e s p)
  ]

module _ (device : DeviceJob → Answer) (now : ℕ) (k : ℤ) (reason : String) where
  executed-calls : (p : Journal × Call) → (executed device now k reason p).1 ≡ p.1
  unfolding executed
  executed-calls (s, none) = refl
  executed-calls (s, some job) = refl

  executed-rank :
      (p : Journal × Call)
      → ((job : DeviceJob) → KeepsMeanwhile (device job))
      → rank (get k p.0) ≤ rank (get k (executed device now k reason p).0)
  unfolding executed
  executed-rank (s, none) h = omega arith
  executed-rank (s, some job) h =
      (store_answer-Evolves k k now reason (device job) s (h job)).forward

-- The device is called exactly for a job that is `received` and has not waited too long.
pub execute_job-calls :
    (device : DeviceJob → Answer) (max_wait now : ℕ) (k : ℤ) (queued_at : ℕ) (text reason : String)
    (s : Journal)
    → is_some (execute_job device max_wait now k queued_at text reason s).1 ≡ (
        passes (λ e. is_received e.state) (get k s)
        && not (queue_wait_exceeded queued_at now max_wait))
unfolding execute_job
execute_job-calls device max_wait now k queued_at text reason s =
    rw executed-calls (begin_job-calls max_wait now k queued_at text s)

rank-not_received :
    (o : Option JournalEntry) → 2 ≤ rank o → passes (λ e. is_received e.state) o ≡ false
rank-not_received none h = refl
rank-not_received (some e) h = ground arith

-- After a worker took a job that the journal has, whatever the device answered and whatever became of
-- the job, and after any operations of the journal but pruning, while the worker waited and since, no
-- worker calls a device for it.
pub execute_job_twice :
    (first second : DeviceJob → Answer) (max_wait now later : ℕ) (k : ℤ)
    (queued_at queued_again : ℕ) (text reason : String) (ops : List Op) (s : Journal)
    → is_some (get k s) ≡ true
    → ((job : DeviceJob) → KeepsMeanwhile (first job))
    → All Keeps ops
    → (execute_job second max_wait later k queued_again text reason
        (run ops (execute_job first max_wait now k queued_at text reason s).0)).1
      ≡ none
execute_job_twice first second max_wait now later k queued_at queued_again text reason ops s h m o =
    let s' = (execute_job first max_wait now k queued_at text reason s).0 in
    let began = begin_job-rank max_wait now k queued_at text s h in
    let waited = executed-rank first now k reason (begin_job max_wait now k queued_at text s) m in
    let taken : 2 ≤ rank (get k (run ops s')) =
      unfold execute_job in omega (arith, began, waited, (run-Evolves k ops s' o).forward) in
    ground (
      arith,
      execute_job-calls second max_wait later k queued_again text reason (run ops s'),
      rank-not_received (get k (run ops s')) taken,
    )
