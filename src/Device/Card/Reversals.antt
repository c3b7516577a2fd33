-- ===== src/Device/Card/Reversals.antt =====
-- The reversals that the card rows hold (device_jobs/journal_card.rs of crates/devbridge-client/src).
use devbridge.Common.{
  ◌∙◌, ◌≡◌, Bool, true, false, not, ◌&&◌, String, Option, none, some, is_some, List, [], ◌∷◌, ◌==◌,
  arith, string_eq, Option-cases, inl, inr, any, any-sort_by, ==_refl,
}
use devbridge.Common.Int.{ℤ, pos, int_eq}
use devbridge.Common.Table.{find, find-insert, any-found}
use devbridge.Device.Entry.{JournalEntry}
use devbridge.Device.Journal.Store.{Journal}
use devbridge.Device.Journal.Sweeps.{by_key}
use devbridge.Device.Card
use devbridge.Device.Card.{
  CardJournal, CardPayment, Transaction, is_seq, is_failed, other_reversal, insert_payment,
  contacted_payment,
}
use devbridge.Device.Card.Trace.{is_yes}
use devbridge.Device.Card.Stays.{Holds, IsKept, Holds-found}

-- The row says that a reversal of the transaction was asked on the terminal.
abbrev pub IsReversal : String → ℤ → CardPayment → Type 0
IsReversal ip seq p = (p.terminal_ip ≡ ip) × (p.tx_type ≡ pos 3) × (p.target_seq ≡ some seq)

pub IsReversal-IsKept : (ip : String) (seq : ℤ) → IsKept (IsReversal ip seq)
IsReversal-IsKept ip seq = record {
  authorized = λ now other result p b t. b;
  transacted = λ other p b t. b;
  ended = λ now p b. b;
  for_person = λ reason p b. b;
  auth_acked = λ ack note p b. b;
}

abbrev unfailed : Option JournalEntry → Bool
unfailed none = false
unfailed (some e) = not (is_failed e.state)

-- The rows that a reversal of job `k` has to respect.
abbrev counts : Journal → String → ℤ → ℤ → ℤ × CardPayment → Bool
counts jobs ip seq k row =
    row.1.terminal_ip == ip
    && (row.1.tx_type == pos 3 && (is_seq seq row.1.target_seq && not (row.0 == k)))
    && unfailed (find row.0 jobs.device_jobs)

other_reversal-counts :
    (jobs : Journal) (ip : String) (seq k : ℤ) (rows : List (ℤ × CardPayment))
    → any (counts jobs ip seq k) rows ≡ true
    → is_some (other_reversal jobs ip seq k rows) ≡ true
other_reversal-counts jobs ip seq k [] h = ground (arith, h)
other_reversal-counts jobs ip seq k ((j, p) ∷ rows) h =
    elim (Option-cases (find j jobs.device_jobs)) [
      | inl e ↦ ground (arith, e, h, other_reversal-counts jobs ip seq k rows)
      | inr (r, e) ↦ ground (arith, e, h, other_reversal-counts jobs ip seq k rows)
    ]

-- A reversal whose job did not fail is found by every other job.
pub card_other_reversal-found :
    (ip : String) (seq j k : ℤ) (e : JournalEntry) (s : CardJournal)
    → Holds (IsReversal ip seq) (find j s.card_payments)
    → find j s.jobs.device_jobs ≡ some e
    → is_failed e.state ≡ false
    → (j == k) ≡ false
    → is_some (Card.card_other_reversal ip seq k s) ≡ true
unfolding Card.card_other_reversal
card_other_reversal-found ip seq j k e s a row fine other =
    let (p, q, is) = Holds-found (IsReversal ip seq) (find j s.card_payments) a in
    other_reversal-counts s.jobs ip seq k _ (
      any-sort_by (counts s.jobs ip seq k) by_key s.card_payments
      ∙ any-found j p (counts s.jobs ip seq k) s.card_payments q
          (ground (arith, is, row, fine, other, ==_refl ip, ==_refl seq)))

-- The row of a contact that was granted.
pub find-granted :
    (j : ℤ) (p : CardPayment) (x : Journal × Bool) (s : CardJournal)
    → is_yes (insert_payment j p x s).1 ≡ true
    → find j (insert_payment j p x s).0.card_payments ≡ some p
find-granted j p (jobs, false) s h = ground (arith, h)
find-granted j p (jobs, true) s h = elim (Option-cases (find j s.card_payments)) [
  | inl e ↦ ground (arith, e, h, find-insert j j p s.card_payments, ==_refl j)
  | inr (r, e) ↦ ground (arith, e, h)
]
