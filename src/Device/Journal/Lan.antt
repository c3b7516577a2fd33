-- ===== src/Device/Journal/Lan.antt =====
-- The jobs that a till sent to the store's LAN API (device_jobs/journal_lan.rs of
-- crates/devbridge-client/src): the insert under the till and its uuid, and the report to Odoo.
use devbridge.Common.{
  ℕ, ◌+◌, String, Bool, false, true, ◌&&◌, Option, none, some, List, [], ◌∷◌, ◌==◌, if◌then◌else◌,
  string_eq,
}
use devbridge.Common.Int.{ℤ, pos, neg, int_eq}
use devbridge.Common.Table.{find, insert, update, passes}
use devbridge.Device.Entry.{at, text, DeviceJob, received, is_final, unowed, JournalEntry}
use devbridge.Device.Journal.Store.{Journal, LanJob, lan_job_id, on_entry}

pub data LanInserted : Type 0 where
  new : ℤ → LanInserted
  known : LanJob → LanInserted
  no_till : LanInserted

abbrev names_till : ℤ → Option ℤ → Bool
names_till kasa none = false
names_till kasa (some k) = k == kasa

abbrev pub is_lan_request : ℤ → String → LanJob → Bool
is_lan_request kasa uuid l = names_till kasa l.entry.job.kasa_id && l.entry.job.client_uuid == uuid

abbrev pub find_lan : ℤ → String → List (ℤ × LanJob) → Option LanJob
find_lan kasa uuid [] = none
find_lan kasa uuid ((row, l) ∷ rows) =
    if is_lan_request kasa uuid l then some l else find_lan kasa uuid rows

unfoldable pub lan_job : ℤ → String → Journal → Option LanJob
lan_job kasa uuid s = find_lan kasa uuid s.lan_jobs

abbrev pub lan_entry : ℕ → ℤ → ℤ → DeviceJob → JournalEntry
lan_entry now row kasa job = record {
  job = record {
    id = neg row;
    job_type = job.job_type;
    client_uuid = job.client_uuid;
    kasa_id = some kasa;
    kasa_name = "";
    pos_order = job.pos_order;
    payload = job.payload;
    created_at = at now;
    claimed_at = text "";
  };
  state = received;
  result = none;
  error_code = none;
  error_text = none;
  acked = false;
  ack_note = none;
  report = unowed;
  reconcile_attempts = 0;
  received_at = at now;
  updated_at = at now;
  device_contact_at = none;
}

unfoldable pub insert_new : ℕ → ℤ → DeviceJob → Journal → Journal × LanInserted
unfolding lan_job_id
insert_new now kasa job s =
    let seq = s.lan_seq + 1 in
    (
      record s {
        lan_jobs =
            insert (pos seq)
              (record { entry = lan_entry now (pos seq) kasa job; odoo_job_id = none }) s.lan_jobs;
        lan_seq = seq;
      },
      new (lan_job_id (pos seq)),
    )

unfoldable pub insert_for : ℕ → ℤ → DeviceJob → Option LanJob → Journal → Journal × LanInserted
unfolding insert_new
insert_for now kasa job none s = insert_new now kasa job s
insert_for now kasa job (some l) s = (s, known l)

unfoldable pub insert_at : ℕ → Option ℤ → DeviceJob → Journal → Journal × LanInserted
unfolding insert_for
insert_at now none job s = (s, no_till)
insert_at now (some kasa) job s = insert_for now kasa job (lan_job kasa job.client_uuid s) s

-- UNIQUE (kasa_id, client_uuid): a replay finds the row of the first request, untouched.
unfoldable pub insert_lan_received : ℕ → DeviceJob → Journal → Journal × LanInserted
unfolding insert_at
insert_lan_received now job s = insert_at now job.kasa_id job s

abbrev pub coalesce {ℓ} : {A : Type ℓ} → Option A → Option A → Option A
coalesce none b = b
coalesce (some a) b = some a

-- Odoo answered the report; `updated_at` stays the time of the outcome.
unfoldable pub mark_lan_reported : ℤ → Option ℤ → String → Journal → Journal × Bool
unfolding lan_job_id
mark_lan_reported job_id odoo_job_id note s = (
  record s {
    lan_jobs =
        update (lan_job_id job_id) (on_entry (λ e. is_final e.state))
          (λ l. record l {
            entry = record l.entry { acked = true; ack_note = some note };
            odoo_job_id = coalesce odoo_job_id l.odoo_job_id;
          })
          s.lan_jobs;
  },
  passes (on_entry (λ e. is_final e.state)) (find (lan_job_id job_id) s.lan_jobs),
)
