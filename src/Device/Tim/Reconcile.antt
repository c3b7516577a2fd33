-- ===== src/Device/Tim/Reconcile.antt =====
-- The reconciliation of a payment whose outcome is unknown (device_jobs/tim/jobs.rs of
-- crates/devbridge-client/src): the terminal's latest transaction decides, or a person does.
pub mod Proven
use devbridge.Common.{
  ℕ, String, Bool, true, false, not, ◌&&◌, Option, none, some, List, [], ◌∷◌, ◌==◌, if◌then◌else◌,
  is_some,
}
use devbridge.Common.Int.{ℤ, pos, int_eq}
use devbridge.Common.Text.{concat}
use devbridge.Device.Entry.{Timestamp, at, text, JournalEntry}
use devbridge.Device.Card.{
  CardPayment, CardJournal, card_payment, card_transacted, card_for_person, card_later_on_terminal,
}
use devbridge.Device.Tasks.{Reconciliation}
use devbridge.Device.Tim.Terminal.{TerminalSpec, TxFacts, LastTransaction}
use devbridge.Device.Tim.Rules.{
  Correlation, charged, not_charged, undecidable, Reasons, Ours, correlate, settle_after,
  settle_pending,
}
use devbridge.Device.Tim.Jobs.{Texts}

-- What a session that reads the terminal's latest transaction comes back with.
pub data Read : Type 0 where
  not_loaded : Read
  failed : String → Read
  last : Option String → LastTransaction → Read

-- The moment of a stored time; `parse` is `DateTime::parse_from_rfc3339`.
moment : (String → Option ℕ) → Timestamp → Option ℕ
moment parse (at n) = some n
moment parse (text s) = parse s

add_moment : (String → Option ℕ) → Option Timestamp → List ℕ → List ℕ
unfolding moment
add_moment parse none rest = rest
add_moment parse (some t) rest = elim (moment parse t) [ none ↦ rest | some n ↦ n ∷ rest ]

-- The moments after which a held payment can no longer be undecided on the terminal.
unfoldable pub settle_moments : (String → Option ℕ) → CardPayment → ℕ → List ℕ
unfolding add_moment
settle_moments parse card started =
    add_moment parse (some card.contact_at)
      (add_moment parse card.authorized_at (add_moment parse card.ended_at (started ∷ [])))

unfoldable pub ours_of : CardPayment → Bool → Ours
ours_of card later_payment = record {
  baseline = card.baseline_seq;
  amount_minor = card.amount_minor;
  trans_seq = card.trans_seq;
  tx_type = card.tx_type;
  later_payment = later_payment;
}

record_seq : ℤ → Option ℤ → CardJournal → CardJournal
record_seq job_id none s = s
record_seq job_id (some seq) s = (card_transacted job_id seq s).0

-- What the verdict on the terminal's latest transaction is to the job.
unfoldable pub concluded :
    Texts
    → ℤ
    → CardPayment
    → Option String
    → Correlation
    → CardJournal
    → Reconciliation × CardJournal
unfolding record_seq
concluded t job_id card tid (charged facts) s = (
  Reconciliation.done
      (t.reconciled_result (if card.tx_type == pos 3 then "reversed" else "successful") tid facts),
  record_seq job_id facts.trans_seq s,
)
concluded t job_id card tid not_charged s = (
  if card.tx_type == pos 3
      then Reconciliation.failed "not_reversed"
          "the terminal reports this reversal failed - the payment is NOT reversed, no money moved"
      else Reconciliation.failed "rolled_back"
          "the terminal reports this payment failed (rolled back / reversed) - no money taken",
  s,
)
concluded t job_id card tid (undecidable why) s = (
  Reconciliation.still_unknown (concat ("left for a person: " ∷ why ∷ [])),
  (card_for_person job_id why s).0,
)

-- The terminal was asked what its latest transaction is.
unfoldable pub answered :
    Texts → Reasons → ℤ → CardPayment → Read → CardJournal → Reconciliation × CardJournal
unfolding concluded ours_of
answered t why job_id card not_loaded s =
    (Reconciliation.still_unknown "the TIM library is not loaded", s)
answered t why job_id card (failed e) s =
    (Reconciliation.still_unknown (concat ("the terminal could not be asked: " ∷ e ∷ [])), s)
answered t why job_id card (last tid l) s =
    concluded t job_id card tid (correlate why (ours_of card (card_later_on_terminal job_id s)) l) s

abbrev default_commit_timeout_s : ℕ
default_commit_timeout_s = 60

abbrev commit_timeout : Option TerminalSpec → ℕ
commit_timeout none = default_commit_timeout_s
commit_timeout (some spec) = spec.commit_timeout_s

-- What the reconciliation is given: the clock, the start of the program, and the terminal.
pub record Asking : Type 0 where
  pub now : ℕ
  pub started_at : ℕ
  pub parse_time : String → Option ℕ
  pub spec : Option TerminalSpec
  pub read : Read
  pub why : Reasons
  -- The text of the moment that is waited for.
  pub waiting : String

unfoldable pub asked_terminal :
    Texts
    → Asking
    → ℤ
    → CardPayment
    → Option TerminalSpec
    → CardJournal
    → Reconciliation × CardJournal
unfolding answered
asked_terminal t a job_id card none s = (
  Reconciliation.still_unknown "the till has no terminal any more - a person must reconcile it",
  s,
)
asked_terminal t a job_id card (some spec) s = answered t a.why job_id card a.read s

-- Whether the terminal may not be asked yet.
unfoldable pub must_wait : Asking → CardPayment → Bool
unfolding settle_moments
must_wait a card =
    settle_pending a.now
      (settle_after (settle_moments a.parse_time card a.started_at) (commit_timeout a.spec))

unfoldable pub not_left :
    Texts → Asking → ℤ → CardPayment → Option String → CardJournal → Reconciliation × CardJournal
unfolding asked_terminal must_wait
not_left t a job_id card (some reason) s =
    (Reconciliation.still_unknown (concat ("left for a person: " ∷ reason ∷ [])), s)
not_left t a job_id card none s =
    if settle_pending a.now
      (settle_after (settle_moments a.parse_time card a.started_at) (commit_timeout a.spec))
    then (
      Reconciliation.still_unknown (
          concat
            ("waiting until the terminal's commit timeout has passed (" ∷ a.waiting ∷ ")" ∷ [])),
      s,
    )
    else asked_terminal t a job_id card a.spec s

unfoldable pub with_card :
    Texts → Asking → ℤ → Option CardPayment → CardJournal → Reconciliation × CardJournal
unfolding not_left
with_card t a job_id none s =
    (Reconciliation.still_unknown "no card row - a person must reconcile it", s)
with_card t a job_id (some card) s = not_left t a job_id card card.person_reason s

-- Reconcile a purchase, a credit or a reversal.
unfoldable pub reconcile_transaction :
    Texts → Asking → JournalEntry → CardJournal → Reconciliation × CardJournal
unfolding with_card
reconcile_transaction t a entry s =
    if not (is_some entry.device_contact_at)
    then (
      Reconciliation.failed "not_executed"
          "the terminal was never asked (no device contact journaled) - nothing charged",
      s,
    )
    else with_card t a entry.job.id (card_payment entry.job.id s) s
