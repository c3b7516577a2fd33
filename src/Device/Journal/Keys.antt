-- ===== src/Device/Journal/Keys.antt =====
-- The keys of both tables (device_jobs/journal.rs, journal_lan.rs of crates/devbridge-client/src):
-- they stay unique, LAN row ids are never given out twice, and a replayed LAN request finds the row
-- of the first one.
use devbridge.Common.{ℕ, suc, inl, inr, Bool, Option, none, some, List, [], ◌∷◌, Option-cases}
use devbridge.Common.Int.{ℤ, pos, negsuc, int_eq}
use devbridge.Common.Table.{
  update-HasUniqueKeys, insert-HasUniqueKeys, update_all-HasUniqueKeys, delete-HasUniqueKeys,
}
use devbridge.Device.Entry.{DeviceJob, JournalEntry}
use devbridge.Device.Journal.Store.{Journal, Table, update_row}
use devbridge.Device.Journal.Operations
use devbridge.Device.Journal.Operations.{insert_job, update_device}
use devbridge.Device.Journal.Sweeps
use devbridge.Device.Journal.Sweeps.{in_flight, restarted, is_prunable}
use devbridge.Device.Journal.Lan
use devbridge.Device.Journal.Lan.{insert_new, insert_at, lan_job}
use devbridge.Device.Journal.Rows.{HasKeys}
use devbridge.Device.Journal.Trace.{Op, apply, run}

update_row-HasKeys :
    (k : ℤ) (test : JournalEntry → Bool) (set : Table → JournalEntry → JournalEntry) (s : Journal)
    → HasKeys s
    → HasKeys (update_row k test set s).0
unfolding update_row
update_row-HasKeys (pos k) test set s h = (update-HasUniqueKeys (pos k) _ _ s.device_jobs h.0, h.1)
update_row-HasKeys (negsuc k) test set s h =
    (h.0, update-HasUniqueKeys (pos (suc k)) _ _ s.lan_jobs h.1)

update_device-HasKeys :
    (k : ℤ) (test : JournalEntry → Bool) (set : JournalEntry → JournalEntry) (s : Journal)
    → HasKeys s
    → HasKeys (update_device k test set s).0
unfolding update_device
update_device-HasKeys k test set s h = (update-HasUniqueKeys k test set s.device_jobs h.0, h.1)

insert_at-HasKeys :
    (now : ℕ) (kasa : Option ℤ) (job : DeviceJob) (s : Journal)
    → HasKeys s
    → HasKeys (insert_at now kasa job s).0
unfolding insert_at insert_new
insert_at-HasKeys now none job s h = h
insert_at-HasKeys now (some kasa) job s h = elim (Option-cases (lan_job kasa job.client_uuid s)) [
  | inl e ↦ rw e (h.0, insert-HasUniqueKeys _ _ s.lan_jobs h.1)
  | inr (l, e) ↦ rw e h
]

-- Every operation keeps the ids of both tables unique.
pub apply-HasKeys : (op : Op) (s : Journal) → HasKeys s → HasKeys (apply op s)
unfolding apply
apply-HasKeys (Op.insert_received now job) s h =
    unfold Operations.insert_received insert_job in
    (insert-HasUniqueKeys job.id _ s.device_jobs h.0, h.1)
apply-HasKeys (Op.insert_refused now job code text) s h =
    unfold Operations.insert_refused insert_job in
    (insert-HasUniqueKeys job.id _ s.device_jobs h.0, h.1)
apply-HasKeys (Op.insert_lan_received now job) s h =
    unfold Lan.insert_lan_received in insert_at-HasKeys now job.kasa_id job s h
apply-HasKeys (Op.start_execution now k) s h =
    unfold Operations.start_execution in update_row-HasKeys k _ _ s h
apply-HasKeys (Op.record_outcome now k o) s h =
    unfold Operations.record_outcome in update_row-HasKeys k _ _ s h
apply-HasKeys (Op.fail_unstarted now k code text) s h =
    unfold Operations.fail_unstarted in update_row-HasKeys k _ _ s h
apply-HasKeys (Op.mark_device_contact now k) s h =
    unfold Operations.mark_device_contact in update_row-HasKeys k _ _ s h
apply-HasKeys (Op.record_still_unknown now k reason) s h =
    unfold Operations.record_still_unknown in update_row-HasKeys k _ _ s h
apply-HasKeys (Op.recover_after_restart now) s h =
    unfold Sweeps.recover_after_restart in
    (update_all-HasUniqueKeys _ _ s.device_jobs h.0, update_all-HasUniqueKeys _ _ s.lan_jobs h.1)
apply-HasKeys (Op.mark_acked now k note) s h =
    unfold Operations.mark_acked in update_device-HasKeys k _ _ s h
apply-HasKeys (Op.mark_reported now k) s h =
    unfold Operations.mark_reported in update_device-HasKeys k _ _ s h
apply-HasKeys (Op.reopen_ack now k) s h =
    unfold Operations.reopen_ack in update_device-HasKeys k _ _ s h
apply-HasKeys (Op.mark_lan_reported k odoo note) s h =
    unfold Lan.mark_lan_reported in (h.0, update-HasUniqueKeys _ _ _ s.lan_jobs h.1)
apply-HasKeys (Op.prune now) s h =
    unfold Sweeps.prune in
    (delete-HasUniqueKeys _ s.device_jobs h.0, delete-HasUniqueKeys _ s.lan_jobs h.1)

-- Over any sequence of operations the ids of both tables stay unique.
pub run-HasKeys : (ops : List Op) (s : Journal) → HasKeys s → HasKeys (run ops s)
unfolding run
run-HasKeys [] s h = h
run-HasKeys (op ∷ ops) s h = run-HasKeys ops (apply op s) (apply-HasKeys op s h)
