-- ===== src/Device/Card.antt =====
-- The card payments of the journal (device_jobs/journal_card.rs of crates/devbridge-client/src): one row
-- for every transaction that reached its terminal. A JSON value is its text.
pub mod Balance
pub mod Trace
pub mod AskedOnce
pub mod Stays
pub mod Reversals
pub mod Authorised
mod Examples
use devbridge.Common.{
  ℕ, String, Bool, true, false, not, ◌&&◌, ◌||◌, Option, none, some, List, [], ◌∷◌, ◌==◌, nat_eq,
  string_eq, if◌then◌else◌, is_some, any, filter, sort_by, leb, max,
}
use devbridge.Common.Int.{ℤ, pos, int_eq, int_leb}
use devbridge.Common.Result.{Result, ok, err}
use devbridge.Common.Table.{find, insert, update, passes}
use devbridge.Device.Entry.{Timestamp, at, text, JobState, executing, JournalEntry, AckRequest}
use devbridge.Device.Journal.Store.{Journal, get}
use devbridge.Device.Journal.Operations.{update_device, is_uncontacted}
use devbridge.Device.Journal.Sweeps.{by_key}
use devbridge.Common.Text.{starts_with}

-- The column `auth_ack`.
pub data AuthAck : Type 0 where
  unowed owed accepted refused : AuthAck

pub record CardPayment : Type 0 where
  pub terminal_ip : String
  pub amount_minor : ℤ
  pub baseline_seq : Option ℤ
  pub contact_at : Timestamp
  pub authorized_at : Option Timestamp
  pub trans_seq : Option ℤ
  pub auth_result : Option String
  pub auth_ack : AuthAck
  pub auth_ack_note : Option String
  pub ended_at : Option Timestamp
  pub person_reason : Option String
  pub tx_type : ℤ
  pub target_seq : Option ℤ

-- What the terminal is about to be asked.
pub record Transaction : Type 0 where
  pub terminal_ip : String
  pub amount_minor : ℤ
  pub baseline_seq : Option ℤ
  pub tx_type : ℤ
  pub target_seq : Option ℤ

-- The journal with its table of card payments.
pub record CardJournal : Type 0 where
  pub jobs : Journal
  pub card_payments : List (ℤ × CardPayment)

abbrev pub is_executing : JobState → Bool
is_executing executing = true
is_executing _ = false

abbrev pub may_contact : JournalEntry → Bool
may_contact e = is_uncontacted e.device_contact_at && is_executing e.state

abbrev pub contacted_payment : ℕ → Transaction → CardPayment
contacted_payment now t = record {
  terminal_ip = t.terminal_ip;
  amount_minor = t.amount_minor;
  baseline_seq = t.baseline_seq;
  contact_at = at now;
  authorized_at = none;
  trans_seq = none;
  auth_result = none;
  auth_ack = unowed;
  auth_ack_note = none;
  ended_at = none;
  person_reason = none;
  tx_type = t.tx_type;
  target_seq = t.target_seq;
}

-- The insert fails if the job has a row, and then nothing of the transaction stays.
abbrev pub insert_payment :
    ℤ → CardPayment → Journal × Bool → CardJournal → CardJournal × Result Bool
insert_payment job_id payment (jobs, false) s = (s, ok false)
insert_payment job_id payment (jobs, true) s =
    if is_some (find job_id s.card_payments)
    then (s, err "UNIQUE constraint failed: card_payments.job_id")
    else (record { jobs = jobs; card_payments = insert job_id payment s.card_payments }, ok true)

-- `ok true`: the terminal may be asked.
unfoldable pub card_contact_of : ℕ → ℤ → Transaction → CardJournal → CardJournal × Result Bool
unfolding update_device
card_contact_of now job_id t s =
    insert_payment job_id (contacted_payment now t)
      (update_device job_id may_contact
        (λ e. record e { device_contact_at = some (at now); updated_at = at now }) s.jobs)
      s

-- `UPDATE card_payments SET … WHERE job_id = ?1 AND …`; whether the row changed.
unfoldable pub update_payment :
    ℤ → (CardPayment → Bool) → (CardPayment → CardPayment) → CardJournal → CardJournal × Bool
update_payment job_id test set s = (
  record s { card_payments = update job_id test set s.card_payments },
  passes test (find job_id s.card_payments),
)

abbrev pub unauthorized : CardPayment → Bool
unauthorized p = not (is_some p.authorized_at)

unfoldable pub card_authorized : ℕ → ℤ → ℤ → String → CardJournal → CardJournal × Bool
unfolding update_payment
card_authorized now job_id trans_seq result = update_payment job_id unauthorized (λ p. record p {
  authorized_at = some (at now);
  trans_seq = some trans_seq;
  auth_result = some result;
  auth_ack = owed;
})

unfoldable pub card_transacted : ℤ → ℤ → CardJournal → CardJournal × Bool
unfolding update_payment
card_transacted job_id trans_seq =
    update_payment job_id (λ p. not (is_some p.trans_seq))
      (λ p. record p { trans_seq = some trans_seq })

unfoldable pub card_ended : ℕ → ℤ → CardJournal → CardJournal × Bool
unfolding update_payment
card_ended now job_id =
    update_payment job_id (λ p. true) (λ p. record p { ended_at = some (at now) })

unfoldable pub card_for_person : ℤ → String → CardJournal → CardJournal × Bool
unfolding update_payment
card_for_person job_id reason =
    update_payment job_id (λ p. not (is_some p.person_reason))
      (λ p. record p { person_reason = some reason })

abbrev pub is_owed : AuthAck → Bool
is_owed owed = true
is_owed _ = false

-- Odoo's answer to the `authorized` ack.
unfoldable pub mark_card_auth_acked : ℤ → String → CardJournal → CardJournal × Bool
unfolding starts_with update_payment
mark_card_auth_acked job_id note =
    update_payment job_id (λ p. is_owed p.auth_ack)
      (λ p. record p {
        auth_ack = if starts_with "refused:" note then refused else accepted;
        auth_ack_note = some note;
      })

unfoldable pub card_payment : ℤ → CardJournal → Option CardPayment
card_payment job_id s = find job_id s.card_payments

abbrev auth_ack_of : ℤ → Option String → List AckRequest → List AckRequest
auth_ack_of job_id none rest = rest
auth_ack_of job_id (some result) rest = AckRequest.authorized job_id result ∷ rest

-- The rows of held payments that owe the ack, in order.
abbrev auth_acks : Journal → List (ℤ × CardPayment) → List AckRequest
auth_acks jobs [] = []
auth_acks jobs ((job_id, p) ∷ rows) =
    let rest = auth_acks jobs rows in
    if is_owed p.auth_ack && passes (λ e. is_executing e.state) (find job_id jobs.device_jobs)
    then auth_ack_of job_id p.auth_result rest
    else rest

unfoldable pub owed_card_auth_acks : CardJournal → List AckRequest
owed_card_auth_acks s = auth_acks s.jobs (sort_by by_key s.card_payments)

abbrev pub is_seq : ℤ → Option ℤ → Bool
is_seq target none = false
is_seq target (some seq) = seq == target

abbrev pub is_failed : JobState → Bool
is_failed JobState.failed = true
is_failed _ = false

-- Another reversal of the same transaction whose job did not fail: the first by id.
abbrev pub other_reversal :
    Journal → String → ℤ → ℤ → List (ℤ × CardPayment) → Option (ℤ × JobState)
other_reversal jobs ip target job_id [] = none
other_reversal jobs ip target job_id ((j, p) ∷ rows) =
    let rest = other_reversal jobs ip target job_id rows in
    if p.terminal_ip == ip
      && (p.tx_type == pos 3 && (is_seq target p.target_seq && not (j == job_id)))
    then reversal_state j (find j jobs.device_jobs) rest
    else rest
  where
    reversal_state : ℤ → Option JournalEntry → Option (ℤ × JobState) → Option (ℤ × JobState)
    reversal_state j none rest = rest
    reversal_state j (some e) rest = if is_failed e.state then rest else some (j, e.state)

unfoldable pub card_other_reversal : String → ℤ → ℤ → CardJournal → Option (ℤ × JobState)
card_other_reversal ip target_seq job_id s =
    other_reversal s.jobs ip target_seq job_id (sort_by by_key s.card_payments)

abbrev greater : Option ℤ → Option ℤ → Option ℤ
greater none b = b
greater (some a) none = some a
greater (some a) (some b) = if int_leb a b then some b else some a

-- The greatest `trans_seq` of the terminal; rows without one do not count.
abbrev last_seq : String → List (ℤ × CardPayment) → Option ℤ
last_seq ip [] = none
last_seq ip ((j, p) ∷ rows) =
    let rest = last_seq ip rows in if p.terminal_ip == ip then greater p.trans_seq rest else rest

unfoldable pub card_last_seq : String → CardJournal → Option ℤ
card_last_seq ip s = last_seq ip s.card_payments

-- A text is read as no time; every row's own times are moments.
abbrev is_later : Timestamp → Timestamp → Bool
is_later (at other) (at own) = leb own other
is_later _ _ = true

abbrev later_than : ℤ → Option CardPayment → List (ℤ × CardPayment) → Bool
later_than job_id none rows = false
later_than job_id (some own) rows =
    any
      (λ row.
        row.1.terminal_ip == own.terminal_ip
        && (not (row.0 == job_id) && is_later row.1.contact_at own.contact_at))
      rows

unfoldable pub card_later_on_terminal : ℤ → CardJournal → Bool
card_later_on_terminal job_id s = later_than job_id (find job_id s.card_payments) s.card_payments

abbrev keep_jobs : List (ℤ × JournalEntry) → List (ℤ × CardPayment) → List (ℤ × CardPayment)
keep_jobs jobs rows = filter (λ row. is_some (find row.0 jobs)) rows

unfoldable pub prune_card_payments : CardJournal → CardJournal
prune_card_payments s = record s { card_payments = keep_jobs s.jobs.device_jobs s.card_payments }
