-- ===== src/Device/Journal/ExactlyOnce.antt =====
-- The guarantee of the journal (device_jobs/journal.rs of crates/devbridge-client/src): the
-- execution of a job is given out at most once, across restarts, and its first final outcome stays.
use devbridge.Common.{
  ℕ, ◌+◌, ◌≤◌, ◌≡◌, true, Option, none, some, List, [], ◌∷◌, arith, ◌==◌, if◌then◌else◌, ==_refl,
  All,
}
use devbridge.Common.Int.{ℤ, int_eq, int_beq_iff}
use devbridge.Common.Table.{passes, after}
use devbridge.Device.Entry.{
  Timestamp, JournalEntry, is_received, is_open, is_final, executing, Outcome,
}
use devbridge.Device.Journal.Store.{Journal, get}
use devbridge.Device.Journal.Operations
use devbridge.Device.Journal.Operations.{store_outcome}
use devbridge.Device.Journal.Sweeps
use devbridge.Device.Journal.Rows.{
  get-update_row, update_row_changes, get-recover_after_restart, table_of,
}
use devbridge.Device.Journal.Trace.{Op, apply, run, grants, executions, Keeps}
use devbridge.Device.Journal.Evolution.{
  rank, SameVerdict, Evolves, Evolves-refl, Evolves-trans, apply-Evolves,
}

pub start_changes :
    (now : ℕ) (k : ℤ) (s : Journal)
    → (Operations.start_execution now k s).1 ≡ passes (λ e. is_received e.state) (get k s)
unfolding Operations.start_execution
start_changes now k s = update_row_changes k _ _ s

pub get-start :
    (now : ℕ) (k : ℤ) (s : Journal)
    → get k (Operations.start_execution now k s).0
      ≡ after
          (λ e. is_received e.state)
          (λ e. record e { state = executing; updated_at = Timestamp.at now })
          (get k s)
unfolding Operations.start_execution
get-start now k s = rw (get-update_row, ==_refl k)

-- `start_execution` succeeds exactly on a row that is `received`, which it makes `executing`.
pub start_execution_lem :
    (now : ℕ) (k : ℤ) (s : Journal)
    → ((Operations.start_execution now k s).1 ≡ passes (λ e. is_received e.state) (get k s))
      × ((Operations.start_execution now k s).1 ≡ true
          → (rank (get k s) ≡ 1) × (rank (get k (Operations.start_execution now k s).0) ≡ 2))
start_execution_lem now k s =
    (start_changes now k s, λ h. ground (arith, start_changes now k s, get-start now k s))

pub grants-rank :
    (k : ℤ) (op : Op) (s : Journal)
    → grants k op s ≡ true
    → (rank (get k s) ≡ 1) × (2 ≤ rank (get k (apply op s)))
unfolding grants apply
grants-rank k (Op.start_execution now j) s h =
    ground (arith, start_execution_lem now j s, int_beq_iff j k)
grants-rank k _ s h = cc

-- What one more operation leaves of the single execution.
unfoldable pub spent : Option JournalEntry → ℕ
spent none = 0
spent (some e) = if is_received e.state then 0 else 1

pub spent-rank : (o : Option JournalEntry) → (2 ≤ rank o → spent o ≡ 1) × (rank o ≤ 1 → spent o ≡ 0)
unfolding spent
spent-rank none = ground arith
spent-rank (some e) = ground arith

pub spent-le : (o : Option JournalEntry) → spent o ≤ 1
unfolding spent
spent-le none = ground arith
spent-le (some e) = ground arith

executions-spent :
    (k : ℤ) (ops : List Op) (s : Journal) → All Keeps ops → executions k ops s + spent (get k s) ≤ 1
unfolding executions
executions-spent k [] s h = ground (arith, spent-le (get k s))
executions-spent k (op ∷ ops) s h = ground (
  arith,
  grants-rank k op s,
  (apply-Evolves op k s h.0).forward,
  spent-rank (get k s),
  spent-rank (get k (apply op s)),
  executions-spent k ops (apply op s) h.1,
  spent-le (get k s),
)

-- Over any operations but pruning, whatever their order, job `k` is given to an executor at most
-- once.
pub at_most_once : (k : ℤ) (ops : List Op) (s : Journal) → All Keeps ops → executions k ops s ≤ 1
at_most_once k ops s h = omega (arith, executions-spent k ops s h)

-- A job that the journal holds when the program restarts is never given to an executor again.
pub never_after_restart :
    (k : ℤ) (now : ℕ) (ops : List Op) (s : Journal) {e : JournalEntry}
    → get k s ≡ some e
    → All Keeps ops
    → executions k ops (Sweeps.recover_after_restart now s).0 ≡ 0
never_after_restart k now ops s {e} p h = ground (
  arith,
  executions-spent k ops (Sweeps.recover_after_restart now s).0 h,
  get-recover_after_restart k now s,
  spent-rank (get k (Sweeps.recover_after_restart now s).0),
)

pub run-Evolves :
    (k : ℤ) (ops : List Op) (s : Journal) → All Keeps ops → Evolves (get k s) (get k (run ops s))
unfolding run
run-Evolves k [] s h = Evolves-refl (get k s)
run-Evolves k (op ∷ ops) s h =
    Evolves-trans (apply-Evolves op k s h.0) (run-Evolves k ops (apply op s) h.1)

-- Once a job is `done` or `failed`, its state, result and error stay as they are under any
-- operations but pruning.
pub first_outcome_wins :
    (k : ℤ) (ops : List Op) (s : Journal) {e : JournalEntry}
    → get k s ≡ some e
    → is_final e.state ≡ true
    → All Keeps ops
    → SameVerdict (get k s) (get k (run ops s))
first_outcome_wins k ops s {e} p f h = (run-Evolves k ops s h).frozen (ground arith)

-- A recorded outcome is refused exactly when the job is absent or final; a recorded one is what the
-- row then holds, and no other job's row changes.
pub record_outcome_lem :
    (now : ℕ) (k : ℤ) (o : Outcome) (s : Journal)
    → ((Operations.record_outcome now k o s).1 ≡ passes (λ e. is_open e.state) (get k s))
      × ((j : ℤ)
          → get j (Operations.record_outcome now k o s).0 ≡ (
              if k == j
              then after (λ e. is_open e.state) (store_outcome now o (table_of k)) (get j s)
              else get j s))
unfolding Operations.record_outcome
record_outcome_lem now k o s = (update_row_changes k _ _ s, λ j. get-update_row j k _ _ s)
