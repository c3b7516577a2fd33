-- ===== src/Device/Portos/Examples.antt =====
-- A Portos that registers what it is sent, and the witnesses over it.
use devbridge.Common.{
  ℕ, ◌+◌, ◌≤◌, ◌≡◌, refl, true, false, Option, none, some, String, List, [], ◌∷◌, arith,
  if◌then◌else◌, ◌==◌, string_eq, nat_eq, Bool-cases, inl, inr, All, length, zero, suc,
}
use devbridge.Common.Int.{pos}
use devbridge.Common.Json
use devbridge.Common.Json.{Json, Fields, Items}
use devbridge.Device.Entry.{JobState, JournalEntry, at, Report, as_str}
use devbridge.Device.Journal.Store.{Journal, empty, get, update_row}
use devbridge.Device.Journal.Trace.{Op, run, apply}
use devbridge.Device.Portos.Operation.{cash_register}
use devbridge.Device.Portos.Reply.{Reply, answer, Texts, classify_lookup}
use devbridge.Device.Portos.Executor.{Portos, Receipt, register, reconcile_receipt, register_body}
use devbridge.Device.Portos.Executor.Documented.{IsRefusal, SaysNone}
use devbridge.Device.Portos.Executor.Once.{RefusesCleanly, is_failed, failed_registers_nothing}
use devbridge.Device.Portos.Executor.Posted.{Act, act, run_worker, posts, posted_for, posted_once}
use devbridge.Device.Tasks.{begin_job, begin_found, begin_entry}
use devbridge.Device.Backoff.{queue_wait_exceeded}
use mathlib.Core.Bool.{true≢false}
use devbridge.Device.Portos.Executor.Sent.{denies, posted_never_denied}
use devbridge.Device.Portos.Payload.Rules.{Std}
use devbridge.Device.Portos.Payload.Print.{rows}
use devbridge.Device.Portos.Payload.Check.{check_payload}
use devbridge.Device.Portos.Payload.Printed.{IsPrintable, check_payload-rows}
use devbridge.Device.Journal.Operations.{
  mark_device_contact, start_execution, mark_reported, update_device,
}
use devbridge.Device.Journal.Sweeps.{recover_after_restart}
use devbridge.Common.Table.{find, update_all, update}

abbrev words : Texts
words = record { show = λ z. "n"; json = λ v. "v" }

abbrev text_in : Option Json → String
text_in (some (Json.text s)) = s
text_in _ = ""

abbrev member_of : String → Option Json → Option Json
member_of key none = none
member_of key (some v) = Json.member key v

-- The key of a request's body.
key_of : Json → String
unfolding Json.member
key_of body = text_in (member_of "externalId" (Json.member "request" body))

abbrev count : String → List String → ℕ
count key [] = 0
count key (k ∷ ks) = if k == key then 1 + count key ks else count key ks

abbrev receipt_reply : ℕ → Reply
receipt_reply zero = answer 204 Json.null
receipt_reply (suc n) = answer 200 (Json.object Fields.end)

abbrev refused_key : String
refused_key = "dbj-refused"

-- A service whose state is the keys that it registered. It refuses one key as invalid; every other it
-- registers, and then fails to print.
abbrev answer_to : String → List String → Reply × List String
answer_to key p =
    if key == refused_key then (answer 400 Json.null, p) else (answer 500 Json.null, key ∷ p)

abbrev service : Portos (List String)
service = record {
  receipt = λ p code key. receipt_reply (count key p);
  unprocessed = λ p code key. answer 204 Json.null;
  post = λ p target body. answer_to (key_of body) p;
}

abbrev registered : List String → String → ℕ
registered p key = count key p

abbrev status_of : Reply → ℕ
status_of (answer status body) = status
status_of _ = 0

-- A failed print is no refusal.
refused_status : (reply : Reply) → IsRefusal reply → (status_of reply == 500) ≡ false
refused_status _ (IsRefusal.no_connection e) = refl
refused_status _ (IsRefusal.invalid status body h c) = ground (arith, h)
refused_status _ (IsRefusal.unauthenticated status body h) = ground (arith, h)
refused_status _ (IsRefusal.no_endpoint status body h c) = ground (arith, h)

refused_unchanged :
    (sent key : String) (p : List String)
    → IsRefusal (answer_to sent p).0
    → count key (answer_to sent p).1 ≡ count key p
refused_unchanged sent key p h = elim (Bool-cases (sent == refused_key)) [
  | inl e ↦ rw e refl
  | inr e ↦ absurd (true≢false (refused_status (answer 500 Json.null) (rw e at h)))
]

service-RefusesCleanly : RefusesCleanly service registered
service-RefusesCleanly = record {
  refuses = λ p target external_id key payload h.
      refused_unchanged (key_of (register_body payload external_id)) key p h;
}

abbrev sale : Receipt
sale = record {
  job_id = pos 7;
  kind = cash_register;
  external_id = "dbj-1";
  code = "1234567890123456";
  payload = Json.object (Fields.field "data" (Json.object Fields.end) Fields.end);
}

-- The refused receipt changes nothing, whatever is registered.
failed_registers_nothing_example :
    registered
      (register words service 5
        (record sale { external_id = refused_key })
        ("dbj-1" ∷ [])
        empty).portos
      refused_key
    ≡ 0
unfolding is_failed register classify_lookup key_of
failed_registers_nothing_example =
    failed_registers_nothing words service registered service-RefusesCleanly 5
      (record sale { external_id = refused_key }) refused_key ("dbj-1" ∷ []) empty refl

abbrev job_row : JournalEntry
job_row = record {
  job = record {
    id = pos 7;
    job_type = "fiscal.cash_register";
    client_uuid = "u";
    kasa_id = some (pos 3);
    kasa_name = "till";
    pos_order = "null";
    payload = "{}";
    created_at = at 0;
    claimed_at = at 0;
  };
  state = JobState.executing;
  result = none;
  error_code = none;
  error_text = none;
  acked = false;
  ack_note = none;
  report = Report.unowed;
  reconcile_attempts = 0;
  received_at = at 0;
  updated_at = at 0;
  device_contact_at = none;
}

abbrev executing : Journal
executing = record empty { device_jobs = (pos 7, job_row) ∷ [] }

abbrev recovered : JournalEntry
recovered = record job_row {
  state = JobState.indeterminate;
  error_text = some "devbridge restarted while the job was executing";
  updated_at = at 9;
  device_contact_at = some (at 5);
}

abbrev waiting : Journal
waiting = record empty { device_jobs = (pos 7, record job_row { state = JobState.received }) ∷ [] }

-- The worker, a restart in which Portos loses its receipts, and the worker again.
abbrev twice : List (Act (List String))
twice =
    Act.execute 120 0 5 "expired" (Op.mark_reported 4 (pos 7) ∷ []) sale
    ∷ Act.others (λ p. [])
    ∷ Act.journal (Op.recover_after_restart 9)
    ∷ Act.execute 120 0 10 "expired" [] sale
    ∷ []

once_posted : posted_for (pos 7) (posts words service twice [] waiting) ≡ 1
unfolding posts posted_for begin_job register classify_lookup get find update_row update
    recover_after_restart update_all run apply mark_device_contact start_execution mark_reported
    update_device queue_wait_exceeded begin_found begin_entry act run_worker key_of
once_posted = refl

posted_once_example :
    (posted_for (pos 7) (posts words service twice [] waiting) ≤ 1)
    × All (λ q. SaysNone q.looked_up) (posts words service twice [] waiting)
posted_once_example =
    posted_once words service (pos 7) twice [] waiting ((tt, tt), (tt, (tt, (tt, tt))))

-- The answer is lost and the program restarts: the receipt is not denied while Portos has none.
posted_never_denied_example : denies (reconcile_receipt words service sale recovered []) ≡ false
unfolding register classify_lookup mark_device_contact run apply recover_after_restart get find
    update_all update_row update as_str
posted_never_denied_example =
    posted_never_denied words service 5 sale [] [] executing (Op.recover_after_restart 9 ∷ [])
      recovered refl refl (tt, tt) refl

abbrev std : Std
std = record {
  has_at_most_decimals = λ n places. true;
  too_large = λ n. false;
  negative = λ n. false;
  show = λ n. "n";
  parse_time = λ s. none;
}

abbrev slip : Json
slip = Json.object (
    Json.entries
      (("title", Json.text "Slip")
        ∷ ("lines", Json.array (Items.cons (Json.text "total 12.50") Items.nil))
        ∷ ("cut", Json.bool true)
        ∷ [])
      Fields.end)

check_payload-rows_example :
    All IsPrintable (rows slip) × (2 ≤ length (rows slip)) × (length (rows slip) ≤ 81)
unfolding check_payload Json.entries
check_payload-rows_example = check_payload-rows std 0 slip refl
