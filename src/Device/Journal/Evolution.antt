-- ===== src/Device/Journal/Evolution.antt =====
-- How the row of one job may change: its state only moves forward, and a final outcome stays
-- (device_jobs/journal.rs of crates/devbridge-client/src).
use devbridge.Common.{
  ℕ, Bool, true, is_some, ◌≤◌, String, ◌≡◌, refl, inl, inr, Option, none, some, arith, Option-cases,
}
use devbridge.Common.Int.{ℤ, pos, negsuc, int_eq}
use devbridge.Common.Table.{find-insert, find-update, find, passes}
use devbridge.Device.Entry.{
  DeviceJob, JobState, received, executing, done, failed, indeterminate, JournalEntry, Outcome,
}
use devbridge.Device.Journal.Store.{Journal, get}
use devbridge.Device.Journal.Operations
use devbridge.Device.Journal.Operations.{insert_job}
use devbridge.Device.Journal.Sweeps
use devbridge.Device.Journal.Lan
use devbridge.Device.Journal.Lan.{lan_job, insert_new, insert_at}
use devbridge.Device.Journal.Rows.{
  get-update_row, get-insert_job, get-recover_after_restart, get-update_device,
}
use devbridge.Device.Journal.Trace.{Op, apply, Keeps}

-- received, executing, indeterminate, final; 0 stands for no row.
abbrev pub rank_of : JobState → ℕ
rank_of received = 1
rank_of executing = 2
rank_of indeterminate = 3
rank_of done = 4
rank_of failed = 4

abbrev pub rank : Option JournalEntry → ℕ
rank none = 0
rank (some e) = rank_of e.state

abbrev pub SameVerdict : Option JournalEntry → Option JournalEntry → Type 0
SameVerdict (some e) (some f) =
    (f.state ≡ e.state)
    × (f.result ≡ e.result)
    × (f.error_code ≡ e.error_code)
    × (f.error_text ≡ e.error_text)
SameVerdict _ _ = ⊥

-- The device of the job was contacted.
abbrev pub contacted : Option JournalEntry → Bool
contacted o = passes (λ e. is_some e.device_contact_at) o

pub record Evolves (o o' : Option JournalEntry) : Type 0 where
  pub contact : contacted o ≡ true → contacted o' ≡ true
  pub forward : rank o ≤ rank o'
  pub frozen : 4 ≤ rank o → SameVerdict o o'

pub Evolves-refl : (o : Option JournalEntry) → Evolves o o
Evolves-refl none = record { contact = λ h. h; forward = omega arith; frozen = λ h. elim h [ ] }
Evolves-refl (some e) = record {
  contact = λ h. h;
  forward = omega arith;
  frozen = λ h. (refl, refl, refl, refl);
}

SameVerdict-trans :
    (o p q : Option JournalEntry) → SameVerdict o p → SameVerdict p q → SameVerdict o q
SameVerdict-trans (some a) (some b) (some c) h k = ground arith
SameVerdict-trans (some a) (some b) none h k = k
SameVerdict-trans (some a) none q h k = absurd h
SameVerdict-trans none p q h k = absurd h

pub Evolves-trans : {o p q : Option JournalEntry} → Evolves o p → Evolves p q → Evolves o q
Evolves-trans {o} {p} {q} h k = record {
  contact = λ c. k.contact (h.contact c);
  forward = omega arith;
  frozen = λ f. SameVerdict-trans o p q (h.frozen f) (k.frozen (omega arith));
}

Evolves-insert_job :
    (j : ℤ) (now : ℕ) (job : DeviceJob) (refused : Option (String × String)) (s : Journal)
    → Evolves (get j s) (get j (insert_job now job refused s).0)
Evolves-insert_job j now job refused s = rw get-insert_job (ground arith)

Evolves-insert_refused :
    (j : ℤ) (now : ℕ) (job : DeviceJob) (code text : String) (s : Journal)
    → Evolves (get j s) (get j (Operations.insert_refused now job code text s).0)
unfolding Operations.insert_refused
Evolves-insert_refused j now job code text s = Evolves-insert_job j now job (some (code, text)) s

Evolves-insert_received :
    (j : ℤ) (now : ℕ) (job : DeviceJob) (s : Journal)
    → Evolves (get j s) (get j (Operations.insert_received now job s).0)
unfolding Operations.insert_received
Evolves-insert_received j now job s = Evolves-insert_job j now job none s

pub Evolves-start :
    (j k : ℤ) (now : ℕ) (s : Journal)
    → Evolves (get j s) (get j (Operations.start_execution now k s).0)
unfolding Operations.start_execution
Evolves-start j k now s = rw get-update_row (ground arith)

pub Evolves-record_outcome :
    (j k : ℤ) (now : ℕ) (o : Outcome) (s : Journal)
    → Evolves (get j s) (get j (Operations.record_outcome now k o s).0)
unfolding Operations.record_outcome
Evolves-record_outcome j k now o s = rw get-update_row (ground arith)

pub Evolves-fail_unstarted :
    (j k : ℤ) (now : ℕ) (code text : String) (s : Journal)
    → Evolves (get j s) (get j (Operations.fail_unstarted now k code text s).0)
unfolding Operations.fail_unstarted
Evolves-fail_unstarted j k now code text s = rw get-update_row (ground arith)

Evolves-mark_device_contact :
    (j k : ℤ) (now : ℕ) (s : Journal)
    → Evolves (get j s) (get j (Operations.mark_device_contact now k s).0)
unfolding Operations.mark_device_contact
Evolves-mark_device_contact j k now s = rw get-update_row (ground arith)

pub Evolves-record_still_unknown :
    (j k : ℤ) (now : ℕ) (reason : String) (s : Journal)
    → Evolves (get j s) (get j (Operations.record_still_unknown now k reason s).0)
unfolding Operations.record_still_unknown
Evolves-record_still_unknown j k now reason s = rw get-update_row (ground arith)

Evolves-recover :
    (j : ℤ) (now : ℕ) (s : Journal)
    → Evolves (get j s) (get j (Sweeps.recover_after_restart now s).0)
Evolves-recover j now s = rw get-recover_after_restart (ground arith)

Evolves-mark_acked :
    (j k : ℤ) (now : ℕ) (note : String) (s : Journal)
    → Evolves (get j s) (get j (Operations.mark_acked now k note s).0)
unfolding Operations.mark_acked
Evolves-mark_acked j k now note s = rw get-update_device (ground arith)

Evolves-mark_reported :
    (j k : ℤ) (now : ℕ) (s : Journal)
    → Evolves (get j s) (get j (Operations.mark_reported now k s).0)
unfolding Operations.mark_reported
Evolves-mark_reported j k now s = rw get-update_device (ground arith)

Evolves-reopen_ack :
    (j k : ℤ) (now : ℕ) (s : Journal) → Evolves (get j s) (get j (Operations.reopen_ack now k s).0)
unfolding Operations.reopen_ack
Evolves-reopen_ack j k now s = rw get-update_device (ground arith)

Evolves-mark_lan_reported :
    (j k : ℤ) (odoo : Option ℤ) (note : String) (s : Journal)
    → Evolves (get j s) (get j (Lan.mark_lan_reported k odoo note s).0)
unfolding Lan.mark_lan_reported get
Evolves-mark_lan_reported (pos j) k odoo note s = Evolves-refl (find (pos j) s.device_jobs)
Evolves-mark_lan_reported (negsuc j) k odoo note s = rw find-update (ground arith)

Evolves-insert_new :
    (j now : ℕ) (kasa : ℤ) (job : DeviceJob) (s : Journal)
    → Evolves (get (negsuc j) s) (get (negsuc j) (insert_new now kasa job s).0)
unfolding insert_new get
Evolves-insert_new j now kasa job s = rw find-insert (ground arith)

Evolves-insert_at :
    (j now : ℕ) (kasa : Option ℤ) (job : DeviceJob) (s : Journal)
    → Evolves (get (negsuc j) s) (get (negsuc j) (insert_at now kasa job s).0)
unfolding insert_at
Evolves-insert_at j now none job s = Evolves-refl (get (negsuc j) s)
Evolves-insert_at j now (some kasa) job s = elim (Option-cases (lan_job kasa job.client_uuid s)) [
  | inl e ↦ rw e (Evolves-insert_new j now kasa job s)
  | inr (l, e) ↦ rw e (Evolves-refl (get (negsuc j) s))
]

pub device_jobs-insert_at :
    (now : ℕ) (kasa : Option ℤ) (job : DeviceJob) (s : Journal)
    → (insert_at now kasa job s).0.device_jobs ≡ s.device_jobs
unfolding insert_at insert_new
device_jobs-insert_at now kasa job s = ground arith

Evolves-insert_lan_received :
    (j : ℤ) (now : ℕ) (job : DeviceJob) (s : Journal)
    → Evolves (get j s) (get j (Lan.insert_lan_received now job s).0)
unfolding Lan.insert_lan_received
Evolves-insert_lan_received (pos j) now job s =
    unfold get in
    rw (device_jobs-insert_at now job.kasa_id job s) (Evolves-refl (find (pos j) s.device_jobs))
Evolves-insert_lan_received (negsuc j) now job s = Evolves-insert_at j now job.kasa_id job s

-- Every operation but pruning moves the row of every job forward, and keeps a final outcome.
pub apply-Evolves :
    (op : Op) (j : ℤ) (s : Journal) → Keeps op → Evolves (get j s) (get j (apply op s))
unfolding apply
apply-Evolves (Op.insert_received now job) j s h = Evolves-insert_received j now job s
apply-Evolves (Op.insert_refused now job code text) j s h =
    Evolves-insert_refused j now job code text s
apply-Evolves (Op.insert_lan_received now job) j s h = Evolves-insert_lan_received j now job s
apply-Evolves (Op.start_execution now k) j s h = Evolves-start j k now s
apply-Evolves (Op.record_outcome now k o) j s h = Evolves-record_outcome j k now o s
apply-Evolves (Op.fail_unstarted now k code text) j s h = Evolves-fail_unstarted j k now code text s
apply-Evolves (Op.mark_device_contact now k) j s h = Evolves-mark_device_contact j k now s
apply-Evolves (Op.record_still_unknown now k reason) j s h =
    Evolves-record_still_unknown j k now reason s
apply-Evolves (Op.recover_after_restart now) j s h = Evolves-recover j now s
apply-Evolves (Op.mark_acked now k note) j s h = Evolves-mark_acked j k now note s
apply-Evolves (Op.mark_reported now k) j s h = Evolves-mark_reported j k now s
apply-Evolves (Op.reopen_ack now k) j s h = Evolves-reopen_ack j k now s
apply-Evolves (Op.mark_lan_reported k odoo note) j s h = Evolves-mark_lan_reported j k odoo note s
apply-Evolves (Op.prune now) j s h = absurd h
