-- ===== src/Device/Journal/Operations.antt =====
-- The operations on one job (device_jobs/journal.rs of crates/devbridge-client/src). `now` is the
-- moment that the code takes from the clock.
use devbridge.Common.{ℕ, ◌+◌, String, Bool, true, false, Option, none, some, ◌&&◌}
use devbridge.Common.Int.{ℤ, int_eq}
use devbridge.Common.Table.{find, insert, update, passes}
use devbridge.Device.Entry.{
  Timestamp, at, DeviceJob, JobState, received, executing, is_open, is_received, is_indeterminate,
  unowed, JournalEntry, Outcome, is_final, sent,
}
use devbridge.Device.Journal.Store.{Journal, Table, owe_outcome, owe_unknown, update_row}

pub data Inserted : Type 0 where
  new : Inserted
  known : JournalEntry → Inserted

abbrev pub new_entry : ℕ → DeviceJob → Option (String × String) → JournalEntry
new_entry now job none = record {
  job = job;
  state = received;
  result = none;
  error_code = none;
  error_text = none;
  acked = false;
  ack_note = none;
  report = unowed;
  reconcile_attempts = 0;
  received_at = at now;
  updated_at = at now;
  device_contact_at = none;
}
new_entry now job (some (code, text)) = record {
  job = job;
  state = JobState.failed;
  result = none;
  error_code = some code;
  error_text = some text;
  acked = false;
  ack_note = none;
  report = unowed;
  reconcile_attempts = 0;
  received_at = at now;
  updated_at = at now;
  device_contact_at = none;
}

abbrev pub inserted : Option JournalEntry → Inserted
inserted none = new
inserted (some e) = known e

-- `INSERT OR IGNORE INTO device_jobs`; a row that is there comes back untouched.
unfoldable pub insert_job : ℕ → DeviceJob → Option (String × String) → Journal → Journal × Inserted
insert_job now job refused s = (
  record s { device_jobs = insert job.id (new_entry now job refused) s.device_jobs },
  inserted (find job.id s.device_jobs),
)

unfoldable pub insert_received : ℕ → DeviceJob → Journal → Journal × Inserted
unfolding insert_job
insert_received now job s = insert_job now job none s

unfoldable pub insert_refused : ℕ → DeviceJob → String → String → Journal → Journal × Inserted
unfolding insert_job
insert_refused now job code text s = insert_job now job (some (code, text)) s

unfoldable pub start_execution : ℕ → ℤ → Journal → Journal × Bool
start_execution now job_id =
    update_row job_id (λ e. is_received e.state)
      (λ t e. record e { state = executing; updated_at = at now })

abbrev pub store_outcome : ℕ → Outcome → Table → JournalEntry → JournalEntry
store_outcome now (Outcome.done r) t e = record (owe_outcome e) {
  state = JobState.done;
  result = some r;
  error_code = none;
  error_text = none;
  updated_at = at now;
}
store_outcome now (Outcome.failed code text) t e = record (owe_outcome e) {
  state = JobState.failed;
  result = none;
  error_code = some code;
  error_text = some text;
  updated_at = at now;
}
store_outcome now (Outcome.indeterminate reason) t e = record (owe_unknown t e) {
  state = JobState.indeterminate;
  error_text = some reason;
  updated_at = at now;
}

unfoldable pub record_outcome : ℕ → ℤ → Outcome → Journal → Journal × Bool
record_outcome now job_id outcome =
    update_row job_id (λ e. is_open e.state) (store_outcome now outcome)

unfoldable pub fail_unstarted : ℕ → ℤ → String → String → Journal → Journal × Bool
fail_unstarted now job_id code text =
    update_row job_id (λ e. is_received e.state)
      (λ t e. record (owe_outcome e) {
        state = JobState.failed;
        error_code = some code;
        error_text = some text;
        updated_at = at now;
      })

abbrev pub is_uncontacted : Option Timestamp → Bool
is_uncontacted none = true
is_uncontacted (some t) = false

unfoldable pub mark_device_contact : ℕ → ℤ → Journal → Journal × Bool
mark_device_contact now job_id =
    update_row job_id (λ e. is_uncontacted e.device_contact_at)
      (λ t e. record e { device_contact_at = some (at now); updated_at = at now })

unfoldable pub record_still_unknown : ℕ → ℤ → String → Journal → Journal × Bool
record_still_unknown now job_id reason =
    update_row job_id (λ e. is_indeterminate e.state)
      (λ t e. record (owe_unknown t e) {
        reconcile_attempts = e.reconcile_attempts + 1;
        error_text = some reason;
        updated_at = at now;
      })

-- Odoo answered the final ack; only an Odoo job has one.
unfoldable pub update_device :
    ℤ → (JournalEntry → Bool) → (JournalEntry → JournalEntry) → Journal → Journal × Bool
update_device job_id test set s = (
  record s { device_jobs = update job_id test set s.device_jobs },
  passes test (find job_id s.device_jobs),
)

unfoldable pub mark_acked : ℕ → ℤ → String → Journal → Journal × Bool
mark_acked now job_id note =
    update_device job_id (λ e. is_final e.state)
      (λ e. record e { acked = true; ack_note = some note; updated_at = at now })

-- Odoo accepted the `indeterminate` report.
unfoldable pub mark_reported : ℕ → ℤ → Journal → Journal × Bool
mark_reported now job_id =
    update_device job_id (λ e. is_indeterminate e.state)
      (λ e. record e { report = sent; updated_at = at now })

-- Odoo still lists the job: its final ack is owed again.
unfoldable pub reopen_ack : ℕ → ℤ → Journal → Journal × Bool
reopen_ack now job_id =
    update_device job_id (λ e. is_final e.state && e.acked)
      (λ e. record e { acked = false; updated_at = at now })
