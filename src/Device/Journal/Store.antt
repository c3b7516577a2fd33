-- ===== src/Device/Journal/Store.antt =====
-- The two tables of the journal behind one space of ids, and the update that every operation on one
-- job makes (device_jobs/journal.rs, journal_lan.rs of crates/devbridge-client/src). A failing
-- database is not modelled.
use devbridge.Common.{ℕ, Bool, true, false, Option, none, some, List, [], if◌then◌else◌}
use devbridge.Common.Int.{ℤ, pos, negsuc, neg, int_eq}
use devbridge.Common.Table.{find, update, passes}
use devbridge.Device.Entry.{Report, owed, sent, JournalEntry}

-- Where a job's row lives.
pub data Table : Type 0 where
  odoo_table lan_table : Table

unfoldable pub lan_job_id : ℤ → ℤ
lan_job_id row = neg row

unfoldable pub is_lan_job : ℤ → Bool
is_lan_job (pos _) = false
is_lan_job (negsuc _) = true

unfoldable pub locate : ℤ → Table × ℤ
unfolding is_lan_job
locate job_id = if is_lan_job job_id then (lan_table, neg job_id) else (odoo_table, job_id)

-- A final outcome is owed to Odoo: the columns of both tables that say that it was told.
abbrev pub owe_outcome : JournalEntry → JournalEntry
owe_outcome e = record e { acked = false; ack_note = none }

abbrev owe_report : Report → Report
owe_report sent = sent
owe_report _ = owed

-- An unknown outcome: only an Odoo job owes the `indeterminate` ack, once.
abbrev pub owe_unknown : Table → JournalEntry → JournalEntry
owe_unknown odoo_table e = record e { report = owe_report e.report }
owe_unknown lan_table e = e

-- A row of `lan_jobs`; its `reported` and `report_note` are the entry's `acked` and `ack_note`.
pub record LanJob : Type 0 where
  pub entry : JournalEntry
  pub odoo_job_id : Option ℤ

-- `lan_seq` is the last row id that AUTOINCREMENT gave out.
pub record Journal : Type 0 where
  pub device_jobs : List (ℤ × JournalEntry)
  pub lan_jobs : List (ℤ × LanJob)
  pub lan_seq : ℕ

abbrev pub empty : Journal
empty = record { device_jobs = []; lan_jobs = []; lan_seq = 0 }

abbrev pub entry_of : Option LanJob → Option JournalEntry
entry_of none = none
entry_of (some l) = some l.entry

unfoldable pub lan_job_by_id : ℤ → Journal → Option LanJob
unfolding lan_job_id
lan_job_by_id job_id s = find (lan_job_id job_id) s.lan_jobs

unfoldable pub get : ℤ → Journal → Option JournalEntry
unfolding lan_job_by_id is_lan_job
get job_id s =
    if is_lan_job job_id then entry_of (lan_job_by_id job_id s) else find job_id s.device_jobs

abbrev pub on_entry {ℓ} : {A : Type ℓ} → (JournalEntry → A) → LanJob → A
on_entry f l = f l.entry

-- `UPDATE {table} SET … WHERE {id} = ?1 AND …`; whether one row changed.
update_in :
    Table → ℤ → (JournalEntry → Bool) → (JournalEntry → JournalEntry) → Journal → Journal × Bool
update_in odoo_table row test set s = (
  record s { device_jobs = update row test set s.device_jobs },
  passes test (find row s.device_jobs),
)
update_in lan_table row test set s = (
  record s {
    lan_jobs = update row (on_entry test) (λ l. record l { entry = set l.entry }) s.lan_jobs;
  },
  passes (on_entry test) (find row s.lan_jobs),
)

abbrev update_at :
    Table × ℤ
    → (JournalEntry → Bool)
    → (Table → JournalEntry → JournalEntry)
    → Journal
    → Journal × Bool
update_at (t, row) test set s = update_in t row test (set t) s

unfoldable pub update_row :
    ℤ → (JournalEntry → Bool) → (Table → JournalEntry → JournalEntry) → Journal → Journal × Bool
unfolding update_in locate
update_row job_id test set s = update_at (locate job_id) test set s
