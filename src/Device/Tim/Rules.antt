-- ===== src/Device/Tim/Rules.antt =====
-- The decisions about a card payment (device_jobs/tim/card.rs of crates/devbridge-client/src): what a
-- result code means for the money, whether an authorisation pays the job, and what the terminal's
-- latest transaction says of a payment whose outcome is unknown.
use devbridge.Common.{
  ℕ, ◌+◌, ◌*◌, String, Bool, false, not, ◌&&◌, ◌||◌, Option, none, some, List, [], ◌∷◌, ◌==◌,
  if◌then◌else◌, is_some, leb, ltb, nat_eq, string_eq, max,
}
use devbridge.Common.Int.{ℤ, pos, negsuc, int_eq, int_leb}
use devbridge.Common.Text.{concat}
use devbridge.Device.Tim.Terminal.{TxFacts, LastTransaction}

-- Whether the terminal says that nothing happened (with the job's code), or says nothing.
pub data TxFailure : Type 0 where
  nothing_charged : String → TxFailure
  unknown : TxFailure

within : ℕ → ℕ → ℕ → Bool
within low high n = leb low n && leb n high

classify_code : ℕ → TxFailure
unfolding within
classify_code n =
    if n == 2 || within 53 55 n
    then nothing_charged "cancelled"
    else if within 32 48 n || n == 74 || n == 76
    then nothing_charged "card_error"
    else if n == 75
        || within 77 88 n
        || within 91 93 n
        || within 97 118 n
        || within 123 138 n
        || n == 152
        || within 154 156 n
        || within 158 161 n
    then nothing_charged "declined"
    else if n == 69 || n == 70 || n == 162
    then nothing_charged "terminal_busy"
    else unknown

unfoldable pub classify_transaction_error : ℤ → TxFailure
unfolding classify_code
classify_transaction_error (pos n) = classify_code n
classify_transaction_error (negsuc n) = unknown

abbrev pub rc_unknown_reference : ℤ
rc_unknown_reference = pos 67

abbrev pub rc_commit_timeout : ℤ
rc_commit_timeout = pos 89

unfoldable pub classify_reversal_error : ℤ → Bool → TxFailure
unfolding classify_transaction_error
classify_reversal_error rc period_closed_proven =
    if rc == rc_unknown_reference
    then nothing_charged (if period_closed_proven then "period_closed" else "unknown_reference")
    else classify_transaction_error rc

abbrev pub same_amount : ℤ → Option ℤ → Bool
same_amount amount none = false
same_amount amount (some a) = a == amount

abbrev is_yes : Option Bool → Bool
is_yes none = false
is_yes (some b) = b

-- Why an authorisation cannot be kept; `debug` is the debug text of an optional amount, `show` the
-- decimal text of one.
unfoldable pub authorisation_problem :
    (Option ℤ → String) → (ℤ → String) → TxFacts → ℤ → Option String
authorisation_problem debug show facts amount_minor =
    if not (is_some facts.trans_seq)
    then some "the terminal answered without a trans_seq"
    else if not (same_amount amount_minor facts.amount_minor)
    then some (
        concat (
          "the terminal authorised "
          ∷ debug facts.amount_minor
          ∷ " cents, the job asked "
          ∷ show amount_minor
          ∷ []))
    else if not (is_yes facts.currency_eur)
    then some "the terminal authorised another currency than EUR"
    else none

abbrev pub or_else {ℓ} : {A : Type ℓ} → Option A → Option A → Option A
or_else none d = d
or_else (some a) d = some a

abbrev int_or : ℤ → Option ℤ → ℤ
int_or d none = d
int_or d (some a) = a

abbrev seq_of : Option TxFacts → Option ℤ
seq_of none = none
seq_of (some f) = f.trans_seq

-- The terminal's last `trans_seq` before a payment, as far as it is known.
unfoldable pub baseline : Option LastTransaction → Option ℤ → Option ℤ
baseline none stored_max = stored_max
baseline (some last) stored_max =
    if last.transaction_type == pos 0 && not (is_some last.facts)
    then some (int_or (pos 0) stored_max)
    else or_else (seq_of last.facts) stored_max

pub data Correlation : Type 0 where
  charged : TxFacts → Correlation
  not_charged : Correlation
  undecidable : String → Correlation

-- What the journal knows about the payment that is reconciled.
pub record Ours : Type 0 where
  pub baseline : Option ℤ
  pub amount_minor : ℤ
  pub trans_seq : Option ℤ
  pub tx_type : ℤ
  pub later_payment : Bool

abbrev int_ltb : ℤ → ℤ → Bool
int_ltb a b = not (int_leb b a)

abbrev pub seq_ok : ℤ → Option ℤ → Option ℤ → Bool
seq_ok baseline expected none = false
seq_ok baseline none (some s) = int_ltb baseline s
seq_ok baseline (some e) (some s) = s == e

-- The texts of `correlate` that show numbers, as its arguments.
pub record Reasons : Type 0 where
  pub no_trans_seq : String
  pub not_this_payment : String
  pub other_outcome : String

unfoldable pub is_this_payment : Ours → ℤ → LastTransaction → TxFacts → Bool
is_this_payment ours base last facts =
    last.transaction_type == ours.tx_type
    && (seq_ok base ours.trans_seq facts.trans_seq
        && same_amount ours.amount_minor facts.amount_minor)

unfoldable pub outcome_of : Reasons → LastTransaction → TxFacts → Correlation
outcome_of why last facts =
    if last.outcome == pos 1
    then charged facts
    else if last.outcome == pos 2
    then not_charged
    else undecidable why.other_outcome

unfoldable pub correlate_facts : Reasons → Ours → ℤ → LastTransaction → TxFacts → Correlation
unfolding is_this_payment outcome_of
correlate_facts why ours base last facts =
    if not (is_this_payment ours base last facts)
    then undecidable why.not_this_payment
    else outcome_of why last facts

unfoldable pub correlate_last : Reasons → Ours → ℤ → LastTransaction → Option TxFacts → Correlation
unfolding correlate_facts
correlate_last why ours base last none = undecidable why.no_trans_seq
correlate_last why ours base last (some facts) = correlate_facts why ours base last facts

unfoldable pub correlate_from : Reasons → Ours → LastTransaction → Option ℤ → Correlation
unfolding correlate_last
correlate_from why ours last none =
    undecidable "the terminal's trans_seq before this payment is unknown"
correlate_from why ours last (some base) = correlate_last why ours base last last.facts

unfoldable pub correlate : Reasons → Ours → LastTransaction → Correlation
unfolding correlate_from
correlate why ours last =
    if ours.later_payment
    then undecidable
        "another payment ran on this terminal after it - its last transaction cannot be proven to be this one"
    else correlate_from why ours last ours.baseline

latest : ℕ → List ℕ → ℕ
latest m [] = m
latest m (n ∷ rest) = latest (max m n) rest

-- When a restart reconcile may ask the terminal; moments are milliseconds.
unfoldable pub settle_after : List ℕ → ℕ → Option ℕ
unfolding latest
settle_after [] commit_timeout_s = none
settle_after (m ∷ moments) commit_timeout_s =
    some (latest m moments + (commit_timeout_s + 10) * 1000)

unfoldable pub settle_pending : ℕ → Option ℕ → Bool
settle_pending now none = false
settle_pending now (some after) = ltb now after
