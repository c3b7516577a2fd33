-- ===== src/Device/Journal/Rows.antt =====
-- What each statement makes of the row of each job, Odoo's or a LAN job: the journal as a map from
-- ids to entries (device_jobs/journal.rs of crates/devbridge-client/src).
use devbridge.Common.{
  ℕ, suc, String, ◌≡◌, refl, Bool, false, not, ◌&&◌, Option, none, some, ◌==◌, if◌then◌else◌, arith,
  is_some,
}
use devbridge.Common.Int.{ℤ, pos, negsuc, int_eq}
use devbridge.Common.Table.{
  find, passes, after, find-update, find-insert, find-update_all, find-delete, HasUniqueKeys,
}
use devbridge.Device.Entry.{JournalEntry, DeviceJob}
use devbridge.Device.Journal.Operations.{new_entry, insert_job, update_device}
use devbridge.Device.Journal.Sweeps.{
  recover_after_restart, restarted, in_flight, prune, is_prunable,
}
use devbridge.Device.Journal.Store.{
  Journal, LanJob, Table, odoo_table, lan_table, get, is_lan_job, entry_of, on_entry, update_row,
}

-- The table of an id.
abbrev pub table_of : ℤ → Table
table_of (pos n) = odoo_table
table_of (negsuc n) = lan_table

after-entry_of :
    (test : JournalEntry → Bool) (set : JournalEntry → JournalEntry) (o : Option LanJob)
    → entry_of (after (on_entry test) (λ l. record l { entry = set l.entry }) o)
      ≡ after test set (entry_of o)
after-entry_of test set none = refl
after-entry_of test set (some l) = ground arith

-- An update by id changes the row of that id where it passes the test, and no other row.
pub get-update_row :
    (j k : ℤ) (test : JournalEntry → Bool) (set : Table → JournalEntry → JournalEntry) (s : Journal)
    → get j (update_row k test set s).0
      ≡ (if k == j then after test (set (table_of k)) (get j s) else get j s)
unfolding get update_row
get-update_row (pos j) (pos k) test set s =
    find-update (pos j) (pos k) test (set odoo_table) s.device_jobs
get-update_row (negsuc j) (pos k) test set s = refl
get-update_row (pos j) (negsuc k) test set s = refl
get-update_row (negsuc j) (negsuc k) test set s =
    rw find-update
      (ground (arith, after-entry_of test (set lan_table) (find (pos (suc j)) s.lan_jobs)))

passes-entry_of :
    (test : JournalEntry → Bool) (o : Option LanJob)
    → passes (on_entry test) o ≡ passes test (entry_of o)
passes-entry_of test none = refl
passes-entry_of test (some l) = refl

-- Whether the update changed a row: the row of that id is there and passes the test.
pub update_row_changes :
    (k : ℤ) (test : JournalEntry → Bool) (set : Table → JournalEntry → JournalEntry) (s : Journal)
    → (update_row k test set s).1 ≡ passes test (get k s)
unfolding get update_row
update_row_changes (pos k) test set s = refl
update_row_changes (negsuc k) test set s = passes-entry_of test (find (pos (suc k)) s.lan_jobs)

-- The row that an insert of an Odoo job leaves under each id: the one that was there, or the new one.
pub get-insert_job :
    (j : ℤ) (now : ℕ) (job : DeviceJob) (refused : Option (String × String)) (s : Journal)
    → get j (insert_job now job refused s).0 ≡ (
        if is_some (get j s)
        then get j s
        else if job.id == j && not (is_lan_job j)
        then some (new_entry now job refused)
        else none)
unfolding get insert_job is_lan_job
get-insert_job (pos j) now job refused s = rw find-insert (ground arith)
get-insert_job (negsuc j) now job refused s = ground arith

-- A restart leaves every job in flight `indeterminate`, and no other row changes.
pub get-recover_after_restart :
    (j : ℤ) (now : ℕ) (s : Journal)
    → get j (recover_after_restart now s).0 ≡ after in_flight (restarted now) (get j s)
unfolding get recover_after_restart
get-recover_after_restart (pos j) now s =
    find-update_all (pos j) in_flight (restarted now) s.device_jobs
get-recover_after_restart (negsuc j) now s =
    rw find-update_all (after-entry_of in_flight (restarted now) (find (pos (suc j)) s.lan_jobs))

-- The row that `update_device` leaves under each id.
pub get-update_device :
    (j k : ℤ) (test : JournalEntry → Bool) (set : JournalEntry → JournalEntry) (s : Journal)
    → get j (update_device k test set s).0
      ≡ (if k == j && not (is_lan_job j) then after test set (get j s) else get j s)
unfolding get update_device is_lan_job
get-update_device (pos j) k test set s = rw find-update (ground arith)
get-update_device (negsuc j) k test set s = ground arith

-- Whether it changed a row.
pub update_device_changes :
    (k : ℤ) (test : JournalEntry → Bool) (set : JournalEntry → JournalEntry) (s : Journal)
    → is_lan_job k ≡ false
    → (update_device k test set s).1 ≡ passes test (get k s)
unfolding get update_device is_lan_job
update_device_changes (pos k) test set s h = refl
update_device_changes (negsuc k) test set s h = cc

abbrev pub HasKeys : Journal → Type 0
HasKeys s = HasUniqueKeys s.device_jobs × HasUniqueKeys s.lan_jobs

delete-entry_of :
    (test : JournalEntry → Bool) (o : Option LanJob)
    → entry_of (if passes (on_entry test) o then none else o)
      ≡ (if passes test (entry_of o) then none else entry_of o)
delete-entry_of test none = refl
delete-entry_of test (some l) = ground arith

-- Pruning removes the rows that it may, and leaves every other row.
pub get-prune :
    (j : ℤ) (now : ℕ) (s : Journal)
    → HasKeys s
    → get j (prune now s).0 ≡ (if passes (is_prunable now) (get j s) then none else get j s)
unfolding get prune
get-prune (pos j) now s h = find-delete (pos j) (is_prunable now) s.device_jobs h.0
get-prune (negsuc j) now s h =
    rw (find-delete (pos (suc j)) (on_entry (is_prunable now)) s.lan_jobs h.1)
      (delete-entry_of (is_prunable now) (find (pos (suc j)) s.lan_jobs))
