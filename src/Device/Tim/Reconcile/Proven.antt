-- ===== src/Device/Tim/Reconcile/Proven.antt =====
-- A reconciliation never guesses (device_jobs/tim/jobs.rs, tim/card.rs of crates/devbridge-client/src).
use devbridge.Common.{
  ◌≡◌, refl, sym, ap, ◌⊎◌, inl, inr, String, Bool, true, false, Option, none, some, arith, is_some,
  Bool-cases, ◌==◌, not, if◌then◌else◌,
}
use devbridge.Common.Int.{ℤ, pos, int_eq, int_beq_iff, int_leb}
use devbridge.Device.Entry.{JournalEntry}
use devbridge.Device.Card.{CardPayment, CardJournal, card_payment, card_later_on_terminal}
use devbridge.Device.Tasks.{Reconciliation}
use devbridge.Device.Tim.Terminal.{TerminalSpec, TxFacts, LastTransaction}
use devbridge.Device.Tim.Rules.{
  Correlation, charged, not_charged, undecidable, Reasons, Ours, correlate, seq_ok, same_amount,
  is_this_payment, outcome_of, correlate_facts, correlate_last, correlate_from,
}
use devbridge.Device.Tim.Jobs.{Texts}
use devbridge.Device.Tim.Reconcile.{
  Read, last, Asking, ours_of, concluded, answered, not_left, reconcile_transaction, asked_terminal,
  must_wait, with_card,
}

-- The latest transaction is the payment: its type and amount, its `trans_seq` if it was stored and
-- else one above the baseline, and no later payment on the terminal.
pub record IsOurs (ours : Ours) (l : LastTransaction) (facts : TxFacts) : Type 0 where
  pub facts_of : l.facts ≡ some facts
  pub type_of : l.transaction_type ≡ ours.tx_type
  pub amount_of : facts.amount_minor ≡ some ours.amount_minor
  pub latest : ours.later_payment ≡ false
  pub seq_of :
      (base : ℤ) × (seq : ℤ) × (ours.baseline ≡ some base)
      × (facts.trans_seq ≡ some seq)
      × ((ours.trans_seq ≡ some seq) ⊎ ((ours.trans_seq ≡ none) × (int_leb seq base ≡ false)))

-- What a verdict rests on: an outcome that the terminal reports of the payment.
abbrev pub RestsOn : Ours → LastTransaction → Correlation → Type 0
RestsOn ours l (charged facts) = IsOurs ours l facts × (l.outcome ≡ pos 1)
RestsOn ours l not_charged = (facts : TxFacts) × IsOurs ours l facts × (l.outcome ≡ pos 2)
RestsOn ours l (undecidable why) = Unit

seq_of-seq_ok :
    (base : ℤ) (expected found : Option ℤ)
    → seq_ok base expected found ≡ true
    → (seq : ℤ) × (found ≡ some seq)
      × ((expected ≡ some seq) ⊎ ((expected ≡ none) × (int_leb seq base ≡ false)))
seq_of-seq_ok base expected none h = cc
seq_of-seq_ok base none (some s) h = (s, refl, inr (refl, ground arith))
seq_of-seq_ok base (some e) (some s) h = (s, refl, inl (ap some (sym ((int_beq_iff s e).0 h))))

amount_of-same_amount :
    (amount : ℤ) (found : Option ℤ) → same_amount amount found ≡ true → found ≡ some amount
amount_of-same_amount amount none h = cc
amount_of-same_amount amount (some a) h = ap some ((int_beq_iff a amount).0 h)

module _ (why : Reasons) (ours : Ours) (l : LastTransaction) where
  is_this_payment-IsOurs :
      (base : ℤ) (facts : TxFacts)
      → ours.later_payment ≡ false
      → ours.baseline ≡ some base
      → l.facts ≡ some facts
      → is_this_payment ours base l facts ≡ true
      → IsOurs ours l facts
  unfolding is_this_payment
  is_this_payment-IsOurs base facts late b f h =
      let seq : seq_ok base ours.trans_seq facts.trans_seq ≡ true = ground arith in
      let (n, found, proven) = seq_of-seq_ok base ours.trans_seq facts.trans_seq seq in
      record {
        facts_of = f;
        type_of = (int_beq_iff l.transaction_type ours.tx_type).0 (ground arith);
        amount_of = amount_of-same_amount ours.amount_minor facts.amount_minor (ground arith);
        latest = late;
        seq_of = (base, n, b, found, proven);
      }

  outcome_of-RestsOn :
      (facts : TxFacts) → IsOurs ours l facts → RestsOn ours l (outcome_of why l facts)
  unfolding outcome_of
  outcome_of-RestsOn facts p = elim (Bool-cases (l.outcome == pos 1)) [
    | inl yes_1 ↦ rw yes_1 (p, (int_beq_iff l.outcome (pos 1)).0 yes_1)
    | inr no_1 ↦ rw no_1 (elim (Bool-cases (l.outcome == pos 2)) [
      | inl yes_2 ↦ rw yes_2 (facts, p, (int_beq_iff l.outcome (pos 2)).0 yes_2)
      | inr no_2 ↦ rw no_2 tt
    ])
  ]

  correlate_facts-RestsOn :
      (base : ℤ) (facts : TxFacts)
      → ours.later_payment ≡ false
      → ours.baseline ≡ some base
      → l.facts ≡ some facts
      → RestsOn ours l (correlate_facts why ours base l facts)
  unfolding correlate_facts
  correlate_facts-RestsOn base facts late b f =
      elim (Bool-cases (is_this_payment ours base l facts)) [
        | inl same ↦
            rw same (outcome_of-RestsOn facts (is_this_payment-IsOurs base facts late b f same))
        | inr other ↦ rw other tt
      ]

  correlate_last-RestsOn :
      (base : ℤ) (facts : Option TxFacts)
      → ours.later_payment ≡ false
      → ours.baseline ≡ some base
      → l.facts ≡ facts
      → RestsOn ours l (correlate_last why ours base l facts)
  unfolding correlate_last
  correlate_last-RestsOn base none late b f = tt
  correlate_last-RestsOn base (some facts) late b f = correlate_facts-RestsOn base facts late b f

  correlate_from-RestsOn :
      (base : Option ℤ)
      → ours.later_payment ≡ false
      → ours.baseline ≡ base
      → RestsOn ours l (correlate_from why ours l base)
  unfolding correlate_from
  correlate_from-RestsOn none late b = tt
  correlate_from-RestsOn (some base) late b = correlate_last-RestsOn base l.facts late b refl

  unless_later :
      (later : Bool) (reason : String)
      → ours.later_payment ≡ later
      → RestsOn ours l
          (if later then undecidable reason else correlate_from why ours l ours.baseline)
  unless_later true reason e = tt
  unless_later false reason e = correlate_from-RestsOn ours.baseline e refl

  correlate-RestsOn : RestsOn ours l (correlate why ours l)
  unfolding correlate
  correlate-RestsOn = unless_later ours.later_payment _ refl

-- What a reconciliation rests on: an answer about a payment that was sent, or that none was.
abbrev pub IsProven : Asking → JournalEntry → CardJournal → Reconciliation → Type 0
IsProven a entry s (Reconciliation.done r) =
    (card : CardPayment) × (tid : Option String) × (l : LastTransaction) × (facts : TxFacts)
    × (card_payment entry.job.id s ≡ some card)
    × (card.person_reason ≡ none)
    × (a.read ≡ last tid l)
    × IsOurs (ours_of card (card_later_on_terminal entry.job.id s)) l facts
    × (l.outcome ≡ pos 1)
IsProven a entry s (Reconciliation.failed code why) =
    (entry.device_contact_at ≡ none)
    ⊎ ((card : CardPayment) × (tid : Option String) × (l : LastTransaction) × (facts : TxFacts)
        × (card_payment entry.job.id s ≡ some card)
        × (card.person_reason ≡ none)
        × (a.read ≡ last tid l)
        × IsOurs (ours_of card (card_later_on_terminal entry.job.id s)) l facts
        × (l.outcome ≡ pos 2))
IsProven a entry s (Reconciliation.still_unknown why) = Unit

none_of {ℓ} : {A : Type ℓ} (o : Option A) → is_some o ≡ false → o ≡ none
none_of none h = refl
none_of (some x) h = cc

module _ (t : Texts) (a : Asking) (entry : JournalEntry) (s : CardJournal) where
  concluded-IsProven :
      (card : CardPayment) (tid : Option String) (l : LastTransaction) (c : Correlation)
      → card_payment entry.job.id s ≡ some card
      → card.person_reason ≡ none
      → a.read ≡ last tid l
      → RestsOn (ours_of card (card_later_on_terminal entry.job.id s)) l c
      → IsProven a entry s (concluded t entry.job.id card tid c s).0
  unfolding concluded
  concluded-IsProven card tid l (charged facts) row free read h =
      (card, tid, l, facts, row, free, read, h.0, h.1)
  concluded-IsProven card tid l not_charged row free read h =
      elim (Bool-cases (card.tx_type == pos 3)) [
        | inl e ↦ rw e (inr (card, tid, l, h.0, row, free, read, h.1, h.2))
        | inr e ↦ rw e (inr (card, tid, l, h.0, row, free, read, h.1, h.2))
      ]
  concluded-IsProven card tid l (undecidable why) row free read h = tt

  answered-IsProven :
      (card : CardPayment) (r : Read)
      → card_payment entry.job.id s ≡ some card
      → card.person_reason ≡ none
      → a.read ≡ r
      → IsProven a entry s (answered t a.why entry.job.id card r s).0
  unfolding answered
  answered-IsProven card Read.not_loaded row free read = tt
  answered-IsProven card (Read.failed e) row free read = tt
  answered-IsProven card (last tid l) row free read =
      concluded-IsProven card tid l _ row free read (correlate-RestsOn a.why _ l)

  asked_terminal-IsProven :
      (card : CardPayment) (spec : Option TerminalSpec)
      → card_payment entry.job.id s ≡ some card
      → card.person_reason ≡ none
      → IsProven a entry s (asked_terminal t a entry.job.id card spec s).0
  unfolding asked_terminal
  asked_terminal-IsProven card none row free = tt
  asked_terminal-IsProven card (some spec) row free = answered-IsProven card a.read row free refl

  not_left-IsProven :
      (card : CardPayment) (reason : Option String)
      → card_payment entry.job.id s ≡ some card
      → card.person_reason ≡ reason
      → IsProven a entry s (not_left t a entry.job.id card reason s).0
  unfolding not_left
  not_left-IsProven card (some reason) row free = tt
  not_left-IsProven card none row free = elim (Bool-cases (must_wait a card)) [
    | inl wait ↦ rw wait tt
    | inr ask ↦ rw ask (asked_terminal-IsProven card a.spec row free)
  ]

  with_card-IsProven :
      (card : Option CardPayment)
      → card_payment entry.job.id s ≡ card
      → IsProven a entry s (with_card t a entry.job.id card s).0
  unfolding with_card
  with_card-IsProven none row = tt
  with_card-IsProven (some card) row = not_left-IsProven card card.person_reason row refl

  unless_unasked :
      (asked : Bool) (code reason : String)
      → is_some entry.device_contact_at ≡ asked
      → IsProven a entry s
          (if not asked
            then (Reconciliation.failed code reason, s)
            else with_card t a entry.job.id (card_payment entry.job.id s) s).0
  unless_unasked false code reason e = inl (none_of entry.device_contact_at e)
  unless_unasked true code reason e = with_card-IsProven _ refl

  -- A payment is reported as taken only on an answer of the terminal whose latest transaction is that
  -- payment and succeeded, and as not taken only on such an answer that it failed, or where the
  -- journal holds that the terminal was never asked. No payment that is left for a person is decided.
  pub reconcile_transaction-IsProven : IsProven a entry s (reconcile_transaction t a entry s).0
  unfolding reconcile_transaction
  reconcile_transaction-IsProven = unless_unasked (is_some entry.device_contact_at) _ _ refl
