-- ===== src/Device/Card/Balance.antt =====
-- The day closings of the terminals in the journal (device_jobs/journal_card_balance.rs of
-- crates/devbridge-client/src). A date is its text.
pub mod SafetyOnce
use devbridge.Common.{
  ℕ, zero, suc, ◌+◌, ◌-◌, ◌*◌, String, Bool, true, false, not, ◌&&◌, ◌||◌, Option, none, some, List,
  [], ◌∷◌, ◌++◌, ◌==◌, nat_eq, string_eq, if◌then◌else◌, is_some, any, filter, leb, ltb, length,
}
use devbridge.Common.Int.{ℤ, pos, int_eq, int_leb}
use devbridge.Common.Table.{find, update, passes, delete}
use devbridge.Device.Entry.{Timestamp, at, text, JournalEntry}
use devbridge.Device.Journal.Store.{Journal}
use devbridge.Device.Card.{CardPayment}

abbrev pub source_job : String
source_job = "job"

abbrev pub source_safety : String
source_safety = "safety"

abbrev prune_after_days : ℕ
prune_after_days = 400

pub record CardBalance : Type 0 where
  pub terminal_ip : String
  pub local_date : String
  pub source : String
  pub job_id : Option ℤ
  pub contact_at : ℕ
  pub outcome : Option String
  pub result : Option String

-- `next` counts the ids that AUTOINCREMENT gave out.
pub record Balances : Type 0 where
  pub rows : List (ℤ × CardBalance)
  pub next : ℕ

abbrev pub is_safety_of : String → String → ℤ × CardBalance → Bool
is_safety_of ip date (id, b) =
    b.source == source_safety && (b.terminal_ip == ip && b.local_date == date)

-- The rows of the unique index: one safety balance of a terminal and a day.
unfoldable pub has_safety : String → String → Balances → Bool
has_safety ip date s = any (is_safety_of ip date) s.rows

abbrev pub contact_row : ℕ → String → String → String → Option ℤ → CardBalance
contact_row now ip date source job_id = record {
  terminal_ip = ip;
  local_date = date;
  source = source;
  job_id = job_id;
  contact_at = now;
  outcome = none;
  result = none;
}

unfoldable pub card_balance_contact :
    ℕ → String → String → String → Option ℤ → Balances → Balances × Option ℤ
card_balance_contact now ip date source job_id s =
    if source == source_safety && has_safety ip date s then (s, none) else (
      record {
        rows = s.rows ++ (pos (suc s.next), contact_row now ip date source job_id) ∷ [];
        next = suc s.next;
      },
      some (pos (suc s.next)),
    )

unfoldable pub card_balance_outcome : ℤ → String → String → Balances → Balances × Bool
card_balance_outcome id outcome result s = (
  record s {
    rows =
        update id (λ b. true) (λ b. record b { outcome = some outcome; result = some result })
          s.rows;
  },
  is_some (find id s.rows),
)

-- The terminal was never reached.
unfoldable pub card_balance_forget : ℤ → Balances → Balances × Bool
card_balance_forget id s =
    (record s { rows = filter (λ row. not (row.0 == id)) s.rows }, is_some (find id s.rows))

abbrev is_done : Option String → Bool
is_done none = false
is_done (some outcome) = outcome == "done"

unfoldable pub card_balance_ran : String → String → Balances → Bool
card_balance_ran ip date s =
    any
      (λ row.
        row.1.terminal_ip == ip
        && (row.1.local_date == date && (row.1.source == source_safety || is_done row.1.outcome)))
      s.rows

unfoldable pub card_balances : String → Balances → List (ℤ × CardBalance)
card_balances ip s = filter (λ row. row.1.terminal_ip == ip) s.rows

abbrev is_job : ℤ → Option ℤ → Bool
is_job job_id none = false
is_job job_id (some j) = j == job_id

abbrev first : List (ℤ × CardBalance) → Option CardBalance
first [] = none
first ((id, b) ∷ rows) = some b

unfoldable pub card_balance_of_job : ℤ → Balances → Option CardBalance
card_balance_of_job job_id s = first (filter (λ row. is_job job_id row.1.job_id) s.rows)

abbrev is_shift : ℤ × JournalEntry → Bool
is_shift row = row.1.job.job_type == "card.activate" || row.1.job.job_type == "card.deactivate"

-- `IS`: no till is the same as no till.
abbrev is_till : Option ℤ → Option ℤ → Bool
is_till none none = true
is_till (some a) (some b) = a == b
is_till _ _ = false

unfoldable pub card_later_shift_job : ℤ → Option ℤ → Journal → Bool
card_later_shift_job job_id kasa_id s =
    any (λ row. is_till kasa_id row.1.job.kasa_id && (not (int_leb row.0 job_id) && is_shift row))
      s.device_jobs

unfoldable pub prune_card_balances : ℕ → Balances → Balances × ℕ
prune_card_balances now s = (
  record s { rows = delete (λ b. ltb b.contact_at (now - prune_after_days * 86400)) s.rows },
  length (filter (λ row. ltb row.1.contact_at (now - prune_after_days * 86400)) s.rows),
)

abbrev is_payment_of : String → ℤ → ℤ × CardPayment → Bool
is_payment_of ip seq row =
    row.1.terminal_ip == ip
    && (is_job seq row.1.trans_seq && (row.1.tx_type == pos 1 || row.1.tx_type == pos 2))

-- The row of the greatest id.
abbrev newest : List (ℤ × CardPayment) → Option (ℤ × CardPayment)
newest [] = none
newest (row ∷ rows) = newer row (newest rows)
  where
    newer : ℤ × CardPayment → Option (ℤ × CardPayment) → Option (ℤ × CardPayment)
    newer row none = some row
    newer row (some other) = if int_leb other.0 row.0 then some row else some other

-- Both times are moments that the journal wrote.
abbrev not_before : ℕ → Timestamp → Bool
not_before t (at start) = leb start t
not_before t (text s) = false

abbrev since : Option (ℤ × CardPayment) → List (ℤ × CardBalance) → Bool
since none rows = false
since (some payment) rows =
    any
      (λ row.
        row.1.terminal_ip == payment.1.terminal_ip
        && (is_done row.1.outcome && not_before row.1.contact_at payment.1.contact_at))
      rows

unfoldable pub card_balance_since_payment : String → ℤ → List (ℤ × CardPayment) → Balances → Bool
card_balance_since_payment ip trans_seq payments s =
    since (newest (filter (is_payment_of ip trans_seq) payments)) s.rows
