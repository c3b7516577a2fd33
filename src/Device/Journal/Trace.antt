-- ===== src/Device/Journal/Trace.antt =====
-- The journal under any sequence of its operations (device_jobs/journal.rs, journal_lan.rs of
-- crates/devbridge-client/src): the workers, the control loop, the ack sender, the reconciler and
-- the LAN API take turns under the journal's lock, so a run is a list of operations.
use devbridge.Common.{ℕ, suc, String, Bool, false, ◌&&◌, Option, List, [], ◌∷◌, ◌==◌, if◌then◌else◌}
use devbridge.Common.Int.{ℤ, int_eq}
use devbridge.Device.Entry.{DeviceJob, Outcome}
use devbridge.Device.Journal.Store.{Journal}
use devbridge.Device.Journal.Operations
use devbridge.Device.Journal.Sweeps
use devbridge.Device.Journal.Lan

pub data Op : Type 0 where
  insert_received : ℕ → DeviceJob → Op
  insert_refused : ℕ → DeviceJob → String → String → Op
  insert_lan_received : ℕ → DeviceJob → Op
  start_execution : ℕ → ℤ → Op
  record_outcome : ℕ → ℤ → Outcome → Op
  fail_unstarted : ℕ → ℤ → String → String → Op
  mark_device_contact : ℕ → ℤ → Op
  record_still_unknown : ℕ → ℤ → String → Op
  recover_after_restart : ℕ → Op
  mark_acked : ℕ → ℤ → String → Op
  mark_reported : ℕ → ℤ → Op
  reopen_ack : ℕ → ℤ → Op
  mark_lan_reported : ℤ → Option ℤ → String → Op
  prune : ℕ → Op

unfoldable pub apply : Op → Journal → Journal
apply (insert_received now job) s = (Operations.insert_received now job s).0
apply (insert_refused now job code text) s = (Operations.insert_refused now job code text s).0
apply (insert_lan_received now job) s = (Lan.insert_lan_received now job s).0
apply (start_execution now k) s = (Operations.start_execution now k s).0
apply (record_outcome now k o) s = (Operations.record_outcome now k o s).0
apply (fail_unstarted now k code text) s = (Operations.fail_unstarted now k code text s).0
apply (mark_device_contact now k) s = (Operations.mark_device_contact now k s).0
apply (record_still_unknown now k reason) s = (Operations.record_still_unknown now k reason s).0
apply (recover_after_restart now) s = (Sweeps.recover_after_restart now s).0
apply (mark_acked now k note) s = (Operations.mark_acked now k note s).0
apply (mark_reported now k) s = (Operations.mark_reported now k s).0
apply (reopen_ack now k) s = (Operations.reopen_ack now k s).0
apply (mark_lan_reported k odoo note) s = (Lan.mark_lan_reported k odoo note s).0
apply (prune now) s = (Sweeps.prune now s).0

unfoldable pub run : List Op → Journal → Journal
run [] s = s
run (op ∷ ops) s = run ops (apply op s)

-- Whether the operation gives its caller the execution of job `k`.
unfoldable pub grants : ℤ → Op → Journal → Bool
grants k (start_execution now j) s = j == k && (Operations.start_execution now j s).1
grants k _ s = false

-- How often the execution of job `k` was given out.
unfoldable pub executions : ℤ → List Op → Journal → ℕ
executions k [] s = 0
executions k (op ∷ ops) s =
    let rest = executions k ops (apply op s) in if grants k op s then suc rest else rest

-- Anything but pruning, which forgets jobs that Odoo has long accepted.
abbrev pub Keeps : Op → Type 0
Keeps (prune now) = ⊥
Keeps _ = Unit
