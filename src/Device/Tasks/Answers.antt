-- ===== src/Device/Tasks/Answers.antt =====
-- What the journal holds after the device answered a job or a question about one
-- (device_jobs/tasks.rs of crates/devbridge-client/src).
use devbridge.Common.{
  Option, ℕ, ◌+◌, String, ◌≡◌, refl, ◌∙◌, true, false, none, some, arith, ==_refl,
}
use devbridge.Common.Int.{ℤ, int_eq}
use devbridge.Common.Table.{passes}
use devbridge.Device.Entry.{
  Timestamp, JobState, Report, is_open, is_indeterminate, JournalEntry, Outcome,
}
use devbridge.Device.Journal.Store.{Journal, get, owe_unknown}
use devbridge.Device.Journal.Operations.{record_outcome, record_still_unknown, store_outcome}
use devbridge.Device.Journal.Rows.{get-update_row, table_of}
use devbridge.Device.Journal.ExactlyOnce.{record_outcome_lem}
use devbridge.Device.Tasks.{
  Joined, returned, panicked, reconcile_job, store_reconciliation, reconciliation_of,
  Reconciliation,
}

get-record_outcome :
    (now : ℕ) (k : ℤ) (o : Outcome) (s : Journal) {e : JournalEntry}
    → get k s ≡ some e
    → is_open e.state ≡ true
    → get k (record_outcome now k o s).0 ≡ some (store_outcome now o (table_of k) e)
get-record_outcome now k o s {e} p q = (record_outcome_lem now k o s).1 k ∙ rw (==_refl k, p, q)

abbrev pub told_report : Option JournalEntry → Report
told_report none = Report.unowed
told_report (some e) = e.report

-- Where a device's answer about an unknown job leaves it, and how many attempts it adds.
abbrev pub settled : Joined Reconciliation → JobState
settled (returned (Reconciliation.done r)) = JobState.done
settled (returned (Reconciliation.failed code text)) = JobState.failed
settled _ = JobState.indeterminate

abbrev pub more_attempts : Joined Reconciliation → ℕ
more_attempts (returned (Reconciliation.done r)) = 0
more_attempts (returned (Reconciliation.failed code text)) = 0
more_attempts _ = 1

get-still_unknown :
    (now : ℕ) (k : ℤ) (reason : String) (s : Journal) {e : JournalEntry}
    → get k s ≡ some e
    → e.state ≡ JobState.indeterminate
    → (f : JournalEntry) × (get k (record_still_unknown now k reason s).0 ≡ some f)
      × (f.state ≡ JobState.indeterminate)
      × (f.reconcile_attempts ≡ e.reconcile_attempts + 1)
unfolding record_still_unknown
get-still_unknown now k reason s {e} p q = (
  record (owe_unknown (table_of k) e) {
    reconcile_attempts = e.reconcile_attempts + 1;
    error_text = some reason;
    updated_at = Timestamp.at now;
  },
  rw (get-update_row, ==_refl k, p, q),
  ground arith,
  refl,
)

-- A definite answer about an `indeterminate` job makes it final, and any other, a panic included,
-- leaves it open with one more attempt counted.
pub get-reconcile_job :
    (ask : JournalEntry → Joined Reconciliation) (now : ℕ) (k : ℤ) (s : Journal) {e : JournalEntry}
    → get k s ≡ some e
    → e.state ≡ JobState.indeterminate
    → (f : JournalEntry) × (get k (reconcile_job ask now k s) ≡ some f)
      × (f.state ≡ settled (ask e))
      × (f.reconcile_attempts ≡ e.reconcile_attempts + more_attempts (ask e))
unfolding reconcile_job
get-reconcile_job ask now k s {e} p q = rw p (simp q (go (ask e)))
  where
    go :
        (a : Joined Reconciliation)
        → (f : JournalEntry) × (get k (store_reconciliation now k (reconciliation_of a) s) ≡ some f)
          × (f.state ≡ settled a)
          × (f.reconcile_attempts ≡ e.reconcile_attempts + more_attempts a)
    go (returned (Reconciliation.done r)) = (
      store_outcome now (Outcome.done r) (table_of k) e,
      get-record_outcome now k _ s p (rw q),
      refl,
      omega arith,
    )
    go (returned (Reconciliation.failed code text)) = (
      store_outcome now (Outcome.failed code text) (table_of k) e,
      get-record_outcome now k _ s p (rw q),
      refl,
      omega arith,
    )
    go (returned (Reconciliation.still_unknown reason)) = get-still_unknown now k reason s p q
    go (panicked text) = get-still_unknown now k text s p q

-- A job that is not `indeterminate` is not asked about: nothing changes.
pub reconcile_job-idle :
    (ask : JournalEntry → Joined Reconciliation) (now : ℕ) (k : ℤ) (s : Journal)
    → passes (λ e. is_indeterminate e.state) (get k s) ≡ false
    → reconcile_job ask now k s ≡ s
unfolding reconcile_job
reconcile_job-idle ask now k s h = ground arith
