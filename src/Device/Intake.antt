-- ===== src/Device/Intake.antt =====
-- What becomes of a job that Odoo hands out (device_jobs/mod.rs `accept_job` and
-- device_jobs/executor.rs `validate` of crates/devbridge-client/src). The configured executors, the
-- JSON of a payload and the queues are arguments.
use text.Mathlib.Text.{starts_with}
use devbridge.Common.{
  ℕ, String, ◌≡◌, refl, ap, ◌∙◌, ◌⊎◌, inl, inr, Bool, true, false, not, ◌&&◌, Option, none, some,
  arith, if◌then◌else◌, ==_refl, ◌==◌, string_eq, is_some,
}
use devbridge.Common.Int.{ℤ, int_eq}
use devbridge.Device.Entry.{DeviceJob, Outcome, owed_ack}
use devbridge.Device.Journal.Store.{Journal, get, is_lan_job}
use devbridge.Device.Journal.Operations.{
  Inserted, new, known, insert_received, insert_refused, insert_job, new_entry, inserted,
  record_outcome, reopen_ack,
}
use devbridge.Device.Journal.Rows.{get-insert_job}
use devbridge.Device.Journal.Acks.{owed, ack_for, owed-record_outcome}

pub data DeviceKind : Type 0 where
  fiscal card : DeviceKind

unfoldable pub for_job_type : String → Option DeviceKind
for_job_type job_type =
    if starts_with job_type "fiscal."
    then some fiscal
    else if starts_with job_type "card."
    then some card
    else none

pub record Rejection : Type 0 where
  pub code : String
  pub text : String

-- A registered executor's own check of a job, if it refuses it.
abbrev pub Registry : Type 0
Registry = DeviceKind → Option (DeviceJob → Option Rejection)

abbrev pub Verdict : Type 0
Verdict = Rejection ⊎ DeviceKind

abbrev bad_amount : Rejection
bad_amount = record {
  code = "bad_amount";
  text =
      "card.purchase amount must be a finite number > 0 - the terminal was not contacted, nothing ran";
}

abbrev checked : DeviceKind → Option Rejection → Verdict
checked kind none = inr kind
checked kind (some r) = inl r

abbrev checked_by :
    DeviceKind → DeviceJob → Rejection → Option (DeviceJob → Option Rejection) → Verdict
checked_by kind job unsupported none = inl unsupported
checked_by kind job unsupported (some check) = checked kind (check job)

abbrev checked_for : Option DeviceKind → Registry → DeviceJob → Rejection → Verdict
checked_for none registry job unsupported = inl unsupported
checked_for (some kind) registry job unsupported = checked_by kind job unsupported (registry kind)

-- `amount_ok` reads a payload's `amount`; `unsupported` is the refusal of a type without executor.
unfoldable pub validate : (String → Bool) → Rejection → Registry → DeviceJob → Verdict
unfolding for_job_type
validate amount_ok unsupported registry job =
    if job.job_type == "card.purchase" && not (amount_ok job.payload)
    then inl bad_amount
    else checked_for (for_job_type job.job_type) registry job unsupported

-- The job goes on its device's queue; else, with its worker gone, it is failed at once.
queue_job : ℕ → ℤ → Bool → String → Journal → Journal × Bool
queue_job now job_id sent text s =
    if sent
    then (s, true)
    else ((record_outcome now job_id (Outcome.failed "bridge_error" text) s).0, false)

accept_inserted : ℕ → DeviceJob → Verdict → Bool → String → Journal × Inserted → Journal × Bool
unfolding queue_job
accept_inserted now job verdict sent text (s, known e) = ((reopen_ack now job.id s).0, false)
accept_inserted now job (inr kind) sent text (s, new) = queue_job now job.id sent text s
accept_inserted now job (inl r) sent text (s, new) = (s, false)

insert_judged : ℕ → DeviceJob → Verdict → Journal → Journal × Inserted
insert_judged now job (inr kind) s = insert_received now job s
insert_judged now job (inl r) s = insert_refused now job r.code r.text s

-- The journal after the job was accepted, and whether it was queued for its device; `sent` is
-- whether its device's queue takes work.
unfoldable pub accept_job : ℕ → DeviceJob → Verdict → Bool → String → Journal → Journal × Bool
unfolding accept_inserted insert_judged
accept_job now job verdict sent text s =
    accept_inserted now job verdict sent text (insert_judged now job verdict s)

insert_judged-says :
    (now : ℕ) (job : DeviceJob) (verdict : Verdict) (s : Journal)
    → is_lan_job job.id ≡ false
    → (insert_judged now job verdict s).1 ≡ inserted (get job.id s)
unfolding insert_judged insert_received insert_refused insert_job get
insert_judged-says now job (inl r) s h = rw h
insert_judged-says now job (inr kind) s h = rw h

-- A job is queued for its device only when the journal had no row of it, and it was accepted.
pub accept_job-queues :
    (now : ℕ) (job : DeviceJob) (verdict : Verdict) (sent : Bool) (text : String) (s : Journal)
    → is_lan_job job.id ≡ false
    → (accept_job now job verdict sent text s).1
      ≡ (not (is_some (get job.id s)) && elim verdict [ inl r ↦ false | inr kind ↦ sent ])
unfolding accept_job
accept_job-queues now job verdict sent text s h =
    ground (arith, insert_judged-says now job verdict s h)

-- The refusal of a job that was not queued though the journal had no row of it.
abbrev pub refusal : Verdict → String → Outcome
refusal (inl r) text = Outcome.failed r.code r.text
refusal (inr kind) text = Outcome.failed "bridge_error" text

get-insert_judged :
    (now : ℕ) (job : DeviceJob) (kind : DeviceKind) (s : Journal)
    → is_lan_job job.id ≡ false
    → get job.id s ≡ none
    → get job.id (insert_judged now job (inr kind) s).0 ≡ some (new_entry now job none)
unfolding insert_judged insert_received
get-insert_judged now job kind s h n = rw (get-insert_job, ==_refl job.id, h, n)

get-insert_rejected :
    (now : ℕ) (job : DeviceJob) (r : Rejection) (s : Journal)
    → is_lan_job job.id ≡ false
    → get job.id s ≡ none
    → get job.id (insert_judged now job (inl r) s).0
      ≡ some (new_entry now job (some (r.code, r.text)))
unfolding insert_judged insert_refused
get-insert_rejected now job r s h n = rw (get-insert_job, ==_refl job.id, h, n)

-- A new job that is not queued, refused or with its worker gone, owes Odoo at once the ack that
-- nothing ran.
pub owed-accept_job :
    (now : ℕ) (job : DeviceJob) (verdict : Verdict) (sent : Bool) (text : String) (s : Journal)
    → is_lan_job job.id ≡ false
    → get job.id s ≡ none
    → (accept_job now job verdict sent text s).1 ≡ false
    → owed (get job.id (accept_job now job verdict sent text s).0)
      ≡ some (ack_for job.id (refusal verdict text))
unfolding accept_job
owed-accept_job now job (inl r) sent text s h n q =
    rw (insert_judged-says now job (inl r) s h, n)
      (ap owed (get-insert_rejected now job r s h n) ∙ unfold owed_ack in refl)
owed-accept_job now job (inr kind) true text s h n q =
    ground (arith, accept_job-queues now job (inr kind) true text s h)
owed-accept_job now job (inr kind) false text s h n q =
    rw (insert_judged-says now job (inr kind) s h, n)
      (owed-record_outcome now job.id (Outcome.failed "bridge_error" text) _ h
        (get-insert_judged now job kind s h n) refl)
