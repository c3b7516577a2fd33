-- ===== src/Device/Tim/Terminal.antt =====
-- What a card terminal is asked and what it answers (device_jobs/tim/mod.rs, tim/card.rs of
-- crates/devbridge-client/src). The TIM library itself is not part of the model.
use devbridge.Common.{ℕ, String, Option, none, some, [], ◌∷◌, Bool, if◌then◌else◌, ◌==◌, string_eq}
use devbridge.Common.Int.{ℤ, pos, int_eq}
use devbridge.Common.Text.{concat}

-- A failed call: which function, and its result code.
pub record TimError : Type 0 where
  pub call : String
  pub code : ℤ

unfoldable pub code_name : ℤ → String
code_name code =
    if code == pos 0
    then "undefined"
    else if code == pos 1
    then "ok"
    else if code == pos 2
    then "api_cancel_ecr"
    else if code == pos 3
    then "api_invalid_answer"
    else if code == pos 5
    then "api_function_disallowed"
    else if code == pos 7
    then "api_connect_fail_server"
    else if code == pos 8
    then "api_connect_fail_terminal"
    else if code == pos 9
    then "api_connection_lost_server"
    else if code == pos 10
    then "api_connection_lost_terminal"
    else if code == pos 11
    then "ethernet_disconnected"
    else if code == pos 13
    then "api_timeout_server"
    else if code == pos 14
    then "api_timeout_terminal"
    else if code == pos 139
    then "invalid_argument"
    else if code == pos 140
    then "out_of_memory"
    else "other"

-- Its `Display`; `show` is the decimal text of an integer.
unfoldable pub error_text : (ℤ → String) → TimError → String
unfolding code_name
error_text show e =
    concat (e.call ∷ " failed: rc " ∷ show e.code ∷ " (" ∷ code_name e.code ∷ ")" ∷ [])

-- What a call answers.
pub data TimResult {ℓ} (A : Type ℓ) : Type ℓ where
  ok : A → TimResult A
  err : TimError → TimResult A

-- `check`: the answer of a call without a value.
unfoldable pub check : String → ℤ → TimResult (Unit {0})
check call rc = if rc == pos 1 then ok tt else err (record { call = call; code = rc })

-- The settings of a till's terminal that a session reads.
pub record TerminalSpec : Type 0 where
  pub kasa_id : ℤ
  pub ip : String
  pub expected_tid : Option String
  pub commit_timeout_s : ℕ

-- What a transaction response says.
pub record TxFacts : Type 0 where
  pub transaction_type : Option ℤ
  pub amount_minor : Option ℤ
  pub currency_eur : Option Bool
  pub trans_seq : Option ℤ
  pub trans_ref : Option ℤ
  pub trm_trans_ref : Option String
  pub auth_code : Option String
  pub pos_entry_mode : Option ℤ
  pub cvm : Option ℤ
  pub brand_name : Option String
  pub card_number_printable : Option String
  pub merchant_receipt : Option String
  pub cardholder_receipt : Option String

-- The terminal's latest transaction.
pub record LastTransaction : Type 0 where
  pub transaction_type : ℤ
  pub outcome : ℤ
  pub facts : Option TxFacts

-- A two-phase transaction: authorised, then committed or rolled back.
pub data TwoPhase : Type 0 where
  purchase credit : TwoPhase

unfoldable pub of_job : String → Option TwoPhase
of_job job_type =
    if job_type == "card.purchase"
    then some purchase
    else if job_type == "card.credit"
    then some credit
    else none

unfoldable pub tx_type : TwoPhase → ℤ
tx_type purchase = pos 1
tx_type credit = pos 2
