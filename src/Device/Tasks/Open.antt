-- ===== src/Device/Tasks/Open.antt =====
-- A job that runs stays open while its worker waits for the device (device_jobs/tasks.rs, journal.rs of
-- crates/devbridge-client/src), as long as nobody else records an outcome of it.
use devbridge.Common.{
  ℕ, ◌≡◌, Bool, true, false, Option, none, some, List, [], ◌∷◌, arith, ◌==◌, All, String,
}
use devbridge.Common.Int.{ℤ, pos, negsuc, int_eq}
use devbridge.Common.Table.{passes}
use devbridge.Device.Entry.{DeviceJob, JobState, executing, indeterminate, JournalEntry}
use devbridge.Device.Journal.Store.{Journal, get, is_lan_job}
use devbridge.Device.Journal.Operations
use devbridge.Device.Journal.Operations.{insert_job}
use devbridge.Device.Journal.Lan
use devbridge.Device.Journal.Evolution.{device_jobs-insert_at}
use devbridge.Device.Journal.Rows.{
  get-update_row, get-insert_job, get-recover_after_restart, get-update_device,
}
use devbridge.Device.Journal.Trace.{Op, apply, run}
use devbridge.Device.Tasks.{Answer, in_time, late}

abbrev is_under_way : JobState → Bool
is_under_way executing = true
is_under_way indeterminate = true
is_under_way _ = false

abbrev pub job_of : Option JournalEntry → Option DeviceJob
job_of none = none
job_of (some e) = some e.job

-- The row is of job `job`, which runs, or whose outcome is unknown.
abbrev pub IsRunning : DeviceJob → Option JournalEntry → Type 0
IsRunning job o = (passes (λ e. is_under_way e.state) o ≡ true) × (job_of o ≡ some job)

-- Any operation but pruning and an outcome of job `k`.
abbrev pub Spares : ℤ → Op → Type 0
Spares k (Op.prune now) = ⊥
Spares k (Op.record_outcome now j o) = (j == k) ≡ false
Spares k _ = Unit

abbrev pub SparesMeanwhile : ℤ → Answer → Type 0
SparesMeanwhile k (in_time meanwhile joined) = All (Spares k) meanwhile
SparesMeanwhile k (late before meanwhile joined) = All (Spares k) before × All (Spares k) meanwhile

lan_insert :
    (k : ℤ) (job : DeviceJob) (now : ℕ) (j : DeviceJob) (s : Journal)
    → is_lan_job k ≡ false
    → IsRunning job (get k s)
    → IsRunning job (get k (Lan.insert_lan_received now j s).0)
unfolding Lan.insert_lan_received get is_lan_job
lan_insert (pos k) job now j s l r = rw (device_jobs-insert_at now j.kasa_id j s) r
lan_insert (negsuc k) job now j s l r = cc

lan_reported :
    (k : ℤ) (job : DeviceJob) (j : ℤ) (odoo : Option ℤ) (note : String) (s : Journal)
    → is_lan_job k ≡ false
    → IsRunning job (get k s)
    → IsRunning job (get k (Lan.mark_lan_reported j odoo note s).0)
unfolding Lan.mark_lan_reported get is_lan_job
lan_reported (pos k) job j odoo note s l r = r
lan_reported (negsuc k) job j odoo note s l r = cc

module _ (k : ℤ) (job : DeviceJob) where
  apply-IsRunning :
      (op : Op) (s : Journal)
      → is_lan_job k ≡ false
      → Spares k op
      → IsRunning job (get k s)
      → IsRunning job (get k (apply op s))
  unfolding apply Operations.start_execution Operations.record_outcome Operations.fail_unstarted
      Operations.mark_device_contact Operations.record_still_unknown Operations.mark_acked
      Operations.mark_reported Operations.reopen_ack Operations.insert_received
      Operations.insert_refused
  apply-IsRunning (Op.insert_received now j) s l h r = rw get-insert_job (ground (arith, r))
  apply-IsRunning (Op.insert_refused now j code text) s l h r =
      rw get-insert_job (ground (arith, r))
  apply-IsRunning (Op.insert_lan_received now j) s l h r = lan_insert k job now j s l r
  apply-IsRunning (Op.start_execution now j) s l h r = rw get-update_row (ground (arith, r))
  apply-IsRunning (Op.record_outcome now j o) s l h r = rw (get-update_row, h) r
  apply-IsRunning (Op.fail_unstarted now j code text) s l h r =
      rw get-update_row (ground (arith, r))
  apply-IsRunning (Op.mark_device_contact now j) s l h r = rw get-update_row (ground (arith, r))
  apply-IsRunning (Op.record_still_unknown now j reason) s l h r =
      rw get-update_row (ground (arith, r))
  apply-IsRunning (Op.recover_after_restart now) s l h r =
      rw get-recover_after_restart (ground (arith, r))
  apply-IsRunning (Op.mark_acked now j note) s l h r = rw get-update_device (ground (arith, r))
  apply-IsRunning (Op.mark_reported now j) s l h r = rw get-update_device (ground (arith, r))
  apply-IsRunning (Op.reopen_ack now j) s l h r = rw get-update_device (ground (arith, r))
  apply-IsRunning (Op.mark_lan_reported j odoo note) s l h r = lan_reported k job j odoo note s l r
  apply-IsRunning (Op.prune now) s l h r = absurd h

  pub run-IsRunning :
      (ops : List Op) (s : Journal)
      → is_lan_job k ≡ false
      → All (Spares k) ops
      → IsRunning job (get k s)
      → IsRunning job (get k (run ops s))
  unfolding run
  run-IsRunning [] s l h r = r
  run-IsRunning (op ∷ ops) s l h r =
      run-IsRunning ops (apply op s) l h.1 (apply-IsRunning op s l h.0 r)
