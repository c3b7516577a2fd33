-- ===== src/Device/Entry.antt =====
-- One journal row and the acknowledgement that it owes (device_jobs/journal.rs, api.rs,
-- executor.rs of crates/devbridge-client/src). A JSON value is its text, as the columns hold it.
use devbridge.Common.{
  ℕ, zero, suc, String, ◌≡◌, refl, Bool, true, false, Option, none, some, ◌==◌, if◌then◌else◌,
  string_eq,
}
use devbridge.Common.Int.{ℤ, pos}

-- A time column: a moment that this program wrote, or a text that came from elsewhere.
pub data Timestamp : Type 0 where
  at : ℕ → Timestamp
  text : String → Timestamp

pub record DeviceJob : Type 0 where
  pub id : ℤ
  pub job_type : String
  pub client_uuid : String
  pub kasa_id : Option ℤ
  pub kasa_name : String
  pub pos_order : String
  pub payload : String
  pub created_at : Timestamp
  pub claimed_at : Timestamp

pub data JobState : Type 0 where
  received executing done failed indeterminate : JobState

unfoldable pub as_str : JobState → String
as_str received = "received"
as_str executing = "executing"
as_str done = "done"
as_str failed = "failed"
as_str indeterminate = "indeterminate"

unfoldable pub parse : String → Option JobState
parse s =
    if s == "received"
    then some received
    else if s == "executing"
    then some executing
    else if s == "done"
    then some done
    else if s == "failed"
    then some failed
    else if s == "indeterminate"
    then some indeterminate
    else none

abbrev pub is_final : JobState → Bool
is_final done = true
is_final failed = true
is_final _ = false

-- The SQL set `OPEN_STATES`.
abbrev pub is_open : JobState → Bool
is_open received = true
is_open executing = true
is_open indeterminate = true
is_open _ = false

abbrev pub is_received : JobState → Bool
is_received received = true
is_received _ = false

abbrev pub is_indeterminate : JobState → Bool
is_indeterminate indeterminate = true
is_indeterminate _ = false

-- `state IN ('received', 'executing')`
abbrev pub is_in_flight : JobState → Bool
is_in_flight received = true
is_in_flight executing = true
is_in_flight _ = false

pub data Report : Type 0 where
  unowed owed sent : Report

unfoldable pub report_code : Report → ℤ
report_code unowed = pos 0
report_code owed = pos 1
report_code sent = pos 2

unfoldable pub from_code : ℤ → Report
from_code (pos (suc zero)) = owed
from_code (pos (suc (suc zero))) = sent
from_code _ = unowed

abbrev pub is_owed : Report → Bool
is_owed owed = true
is_owed _ = false

pub record JournalEntry : Type 0 where
  pub job : DeviceJob
  pub state : JobState
  pub result : Option String
  pub error_code : Option String
  pub error_text : Option String
  pub acked : Bool
  pub ack_note : Option String
  pub report : Report
  pub reconcile_attempts : ℕ
  pub received_at : Timestamp
  pub updated_at : Timestamp
  pub device_contact_at : Option Timestamp

pub data Outcome : Type 0 where
  done : String → Outcome
  failed : String → String → Outcome
  indeterminate : String → Outcome

pub data AckRequest : Type 0 where
  done : ℤ → String → AckRequest
  failed : ℤ → String → String → AckRequest
  indeterminate : ℤ → String → AckRequest
  not_received : ℤ → AckRequest
  authorized : ℤ → String → AckRequest

abbrev pub ack_job_id : AckRequest → ℤ
ack_job_id (AckRequest.done i r) = i
ack_job_id (AckRequest.failed i c t) = i
ack_job_id (AckRequest.indeterminate i r) = i
ack_job_id (AckRequest.not_received i) = i
ack_job_id (AckRequest.authorized i r) = i

abbrev pub text_or : String → Option String → String
text_or d none = d
text_or d (some s) = s

owed_by : JobState → JournalEntry → Option AckRequest
owed_by done e = if e.acked then none else some (AckRequest.done e.job.id (text_or "null" e.result))
owed_by failed e =
    if e.acked
    then none
    else some (AckRequest.failed e.job.id (text_or "" e.error_code) (text_or "" e.error_text))
owed_by indeterminate e =
    if is_owed e.report
    then some (AckRequest.indeterminate e.job.id (text_or "" e.error_text))
    else none
owed_by _ e = none

-- The ack that the row owes Odoo now.
unfoldable pub owed_ack : JournalEntry → Option AckRequest
unfolding owed_by
owed_ack e = owed_by e.state e

-- The text column `state` reads back as the state that was written, and no other text reads as one.
pub parse-as_str : (s : JobState) → parse (as_str s) ≡ some s
unfolding parse as_str
parse-as_str received = refl
parse-as_str executing = refl
parse-as_str done = refl
parse-as_str failed = refl
parse-as_str indeterminate = refl

-- The `report` column reads back as the value that was written.
pub from_code-report_code : (r : Report) → from_code (report_code r) ≡ r
unfolding from_code report_code
from_code-report_code unowed = refl
from_code-report_code owed = refl
from_code-report_code sent = refl
