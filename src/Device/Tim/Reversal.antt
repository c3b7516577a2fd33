-- ===== src/Device/Tim/Reversal.antt =====
-- The reversal of a card payment (device_jobs/tim/ops.rs of crates/devbridge-client/src): one session, in
-- which the journal says whether the transaction may be reversed, then the contact is journaled, then the
-- terminal is asked. The death of the session's thread is no part of it.
pub mod Held
pub mod Once
use devbridge.Common.{
  ℕ, String, Bool, true, false, Option, none, some, List, [], ◌∷◌, ◌==◌, if◌then◌else◌, ◌⊎◌, inl,
  inr,
}
use devbridge.Common.Int.{ℤ, pos}
use devbridge.Common.Text.{concat}
use devbridge.Common.Result.{Result}
use devbridge.Device.Entry.{JobState, as_str, Outcome}
use devbridge.Device.Card.{
  CardJournal, Transaction, card_contact_of, card_other_reversal, card_transacted, card_ended,
}
use devbridge.Device.Card.Balance.{Balances, card_balance_since_payment}
use devbridge.Device.Tasks.{Joined, returned}
use devbridge.Device.Tim.Terminal.{
  TimError, error_text, TimResult, ok, err, TerminalSpec, TxFacts, LastTransaction,
}
use devbridge.Device.Tim.Rules.{TxFailure, nothing_charged, classify_reversal_error, baseline}
use devbridge.Device.Tim.Purchase.Run.{wrong_terminal, tid_or, read}
use devbridge.Device.Tim.Session.{Answers, with_session, one_session}

pub data ReversalEnd : Type 0 where
  done : TxFacts → Option String → ReversalEnd
  refused : String → String → ReversalEnd
  unknown : String → ReversalEnd

pub record ReversalRun : Type 0 where
  pub job_id : ℤ
  pub ip : String
  pub trans_seq : ℤ
  pub amount_minor : ℤ
  pub payload_tid : Option String
  pub stored_max_seq : Option ℤ

-- The moment, what the terminal answers, the balances of the journal, and `serde_json`'s texts.
pub record Asked : Type 0 where
  pub now : ℕ
  pub last_transaction : TimResult LastTransaction
  pub reversal : ℤ → TimResult TxFacts
  pub balances : Balances
  pub show : ℤ → String
  pub card_result : String → Option String → TxFacts → String

-- The end, and whether the reversal was sent.
abbrev pub Sent : Type 0
Sent = ReversalEnd × Bool

abbrev failed_reversal : (ℤ → String) → TimError → TxFailure → ReversalEnd
failed_reversal show e (nothing_charged code) = refused code (
    concat ("the terminal refused the reversal: " ∷ error_text show e ∷ " - nothing reversed" ∷ []))
failed_reversal show e TxFailure.unknown = unknown (
    concat (
      "the reversal failed with an unknown outcome: "
      ∷ error_text show e
      ∷ " - reconciled with the terminal"
      ∷ []))

abbrev answered_reversal : (ℤ → String) → Option String → Bool → TimResult TxFacts → ReversalEnd
answered_reversal show tid closed (ok facts) = done facts tid
answered_reversal show tid closed (err e) =
    failed_reversal show e (classify_reversal_error e.code closed)

-- The terminal is asked only if the journal holds the contact.
unfoldable pub contacted_reversal :
    Asked → ReversalRun → Option String → Result Bool → CardJournal → Sent × CardJournal
unfolding classify_reversal_error error_text card_balance_since_payment
contacted_reversal a r tid (Result.ok true) s =
    let closed = card_balance_since_payment r.ip r.trans_seq s.card_payments a.balances in
    ((answered_reversal a.show tid closed (a.reversal r.trans_seq), true), s)
contacted_reversal a r tid (Result.ok false) s = (
  (
    unknown
        "the terminal was already asked for this reversal - no second one, reconciled with the terminal",
    false,
  ),
  s,
)
contacted_reversal a r tid (Result.err e) s = (
  (
    refused "bridge_error" (
        concat (
          "the journal did not record the terminal contact (" ∷ e
          ∷ ") - the reversal was not sent, nothing reversed" ∷ [])),
    false,
  ),
  s,
)

unfoldable pub reversal_contact : Asked → ReversalRun → Transaction
unfolding baseline
reversal_contact a r = record {
  terminal_ip = r.ip;
  amount_minor = r.amount_minor;
  baseline_seq = baseline (read a.last_transaction) r.stored_max_seq;
  tx_type = pos 3;
  target_seq = some r.trans_seq;
}

abbrev unresolved : Asked → ReversalRun → ℤ → JobState → ReversalEnd
unresolved a r other JobState.done = refused "already_reversed" (
    concat (
      "trans_seq "
      ∷ a.show r.trans_seq
      ∷ " was already reversed by job "
      ∷ a.show other
      ∷ " - nothing sent"
      ∷ []))
unresolved a r other state = refused "reversal_unresolved" (
    concat (
      "an earlier reversal of trans_seq "
      ∷ a.show r.trans_seq
      ∷ " (job "
      ∷ a.show other
      ∷ ") is "
      ∷ as_str state
      ∷ " - nothing sent, a person decides"
      ∷ []))

-- No other reversal of the transaction may be done or unresolved.
unfoldable pub unless_reversed :
    Asked → ReversalRun → Option String → Option (ℤ × JobState) → CardJournal → Sent × CardJournal
unfolding contacted_reversal card_contact_of reversal_contact as_str
unless_reversed a r tid (some (other, state)) s = ((unresolved a r other state, false), s)
unless_reversed a r tid none s =
    let contact = card_contact_of a.now r.job_id (reversal_contact a r) s in
    contacted_reversal a r tid contact.1 contact.0

unfoldable pub on_its_terminal :
    Asked → ReversalRun → Option String → Option String → CardJournal → Sent × CardJournal
unfolding unless_reversed card_other_reversal
on_its_terminal a r tid (some wanted) s = (
  (
    refused "wrong_terminal" (
        concat (
          "the payment was charged on terminal "
          ∷ wanted
          ∷ ", this till's terminal is "
          ∷ tid_or "(unknown)" tid
          ∷ " - nothing reversed"
          ∷ [])),
    false,
  ),
  s,
)
on_its_terminal a r tid none s =
    unless_reversed a r tid (card_other_reversal r.ip r.trans_seq r.job_id s) s

-- Inside the session.
unfoldable pub reversal_run : Asked → ReversalRun → Option String → CardJournal → Sent × CardJournal
unfolding on_its_terminal wrong_terminal
reversal_run a r tid s = on_its_terminal a r tid (wrong_terminal r.payload_tid tid) s

-- What the end of the reversal is to its job, and to the card row.
unfoldable pub reversal_outcome : Asked → ℤ → ReversalEnd → CardJournal → Outcome × CardJournal
unfolding card_transacted card_ended
reversal_outcome a job_id (done facts tid) s = (
  Outcome.done (a.card_result "reversed" tid facts),
  elim facts.trans_seq [ none ↦ s | some seq ↦ (card_transacted job_id seq s).0 ],
)
reversal_outcome a job_id (refused code why) s = (Outcome.failed code why, s)
reversal_outcome a job_id (unknown why) s =
    (Outcome.indeterminate why, (card_ended a.now job_id s).0)

abbrev pub reported :
    Asked → ReversalRun → Outcome ⊎ Sent → CardJournal → (Outcome × Bool) × CardJournal
reported a r (inl outcome) s = ((outcome, false), s)
reported a r (inr (end, sent)) s =
    let (outcome, s') = reversal_outcome a r.job_id end s in ((outcome, sent), s')

-- A reversal job with what it names, on its till's terminal: its outcome, and whether the terminal was
-- asked. `none`: the library is not loaded.
unfoldable pub reversal :
    Asked
    → ReversalRun
    → TerminalSpec
    → Option Answers
    → CardJournal
    → (Outcome × Bool) × CardJournal
unfolding with_session one_session reversal_run reversal_outcome
reversal a r spec none s = reported a r (one_session a.show "nothing reversed" none) s
reversal a r spec (some answers) s =
    let ran = with_session answers spec (reversal_run a r) s in
    reported a r (one_session a.show "nothing reversed" (some (returned ran.0))) ran.1
