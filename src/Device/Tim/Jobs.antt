-- ===== src/Device/Tim/Jobs.antt =====
-- The card jobs of the executor (device_jobs/tim/jobs.rs of crates/devbridge-client/src): what the end
-- of a payment is to its job, the settling jobs, and the reconciliation of a payment whose outcome is
-- unknown with the terminal's latest transaction. The executor has a journal.
pub mod Truth
use devbridge.Common.{
  ℕ, ◌-◌, String, Bool, true, false, not, ◌&&◌, ◌||◌, Option, none, some, List, [], ◌∷◌, ◌++◌, ◌==◌,
  if◌then◌else◌, is_some, string_eq, ◌⊎◌, inl, inr,
}
use devbridge.Common.Int.{ℤ, pos, int_eq, int_leb}
use devbridge.Common.Text.{concat}
use devbridge.Common.Json
use devbridge.Common.Json.{Json, Number}
use devbridge.Device.Entry.{
  Timestamp, at, text, DeviceJob, JobState, as_str, JournalEntry, Outcome, text_or,
}
use devbridge.Device.Journal.Store.{get}
use devbridge.Device.Card.{
  CardPayment, CardJournal, card_payment, card_ended, card_transacted, card_for_person,
  card_later_on_terminal,
}
use devbridge.Device.Tasks.{Reconciliation}
use devbridge.Device.Tim.Terminal.{TxFacts, LastTransaction, TwoPhase, of_job}
use devbridge.Device.Tim.Rules.{
  Correlation, charged, not_charged, undecidable, Reasons, Ours, correlate, settle_after,
  settle_pending,
}
use devbridge.Device.Tim.Purchase.Defs.{
  SettleOp, SettleReply, PurchaseEnd, refused, committed, rolled_back,
}

-- What `serde_json` and `format!` make of values: the texts of job results, and of numbers.
pub record Texts : Type 0 where
  pub show : ℤ → String
  -- `{"state": "committed", "card_job_id": id}`
  pub committed_result : ℤ → String
  -- `{"state": "rolled_back", "card_job_id": id, "detail": why}`
  pub rolled_back_result : ℤ → String → String
  -- `card_result`, and with `"reconciled": true`.
  pub card_result : String → Option String → TxFacts → String
  pub reconciled_result : String → Option String → TxFacts → String
  -- A payload or a stored result, read as JSON.
  pub parse : String → Json
  pub json : Json → String
  -- An amount in whole cents, rounded.
  pub cents : Number → ℤ

-- The outcome of a two-phase job whose session ended so; an unknown end is noted in its card row.
unfoldable pub end_outcome : Texts → ℕ → ℤ → PurchaseEnd → CardJournal → Outcome × CardJournal
end_outcome t now job_id (refused code why) s = (Outcome.failed code why, s)
end_outcome t now job_id (committed facts tid) s =
    (Outcome.done (t.card_result "committed" tid facts), s)
end_outcome t now job_id (rolled_back why) s = (Outcome.failed "rolled_back" why, s)
end_outcome t now job_id (PurchaseEnd.unknown why) s =
    (Outcome.indeterminate why, (card_ended now job_id s).0)

-- The answer of a settle job, given the payment's state.
unfoldable pub settle_outcome : Texts → SettleOp → ℤ → SettleReply → Outcome
settle_outcome t SettleOp.commit card_job_id SettleReply.committed =
    Outcome.done (t.committed_result card_job_id)
settle_outcome t SettleOp.commit card_job_id (SettleReply.rolled_back why) =
    Outcome.failed "already_rolled_back" (
      concat (
        "card.purchase "
        ∷ t.show card_job_id
        ∷ " is not charged ("
        ∷ why
        ∷ ") - nothing committed"
        ∷ []))
settle_outcome t SettleOp.rollback card_job_id (SettleReply.rolled_back why) =
    Outcome.done (t.rolled_back_result card_job_id why)
settle_outcome t SettleOp.rollback card_job_id SettleReply.committed =
    Outcome.failed "already_committed" (
      concat (
        "card.purchase "
        ∷ t.show card_job_id
        ∷ " is already committed - nothing rolled back (a storno is card.reversal)"
        ∷ []))
settle_outcome t op card_job_id (SettleReply.unknown why) = Outcome.indeterminate (
    concat
      ("the outcome of card.purchase " ∷ t.show card_job_id ∷ " is not known yet: " ∷ why ∷ []))

state_reply : JournalEntry → JobState → SettleReply
unfolding as_str
state_reply e JobState.done = SettleReply.committed
state_reply e JobState.failed =
    SettleReply.rolled_back
      (concat (text_or "failed" e.error_code ∷ ": " ∷ text_or "" e.error_text ∷ []))
state_reply e other = SettleReply.unknown (concat ("card.purchase is " ∷ as_str other ∷ []))

-- What the journal says of a payment that no session holds.
unfoldable pub purchase_state : JournalEntry → SettleReply
unfolding state_reply
purchase_state e = state_reply e e.state

abbrev positive : Option ℤ → Option ℤ
positive none = none
positive (some id) = if int_leb id (pos 0) then none else some id

abbrev int_of : Option Json → Option ℤ
int_of none = none
int_of (some v) = Json.as_i64 v

-- `card_job_id` of a settling job: a positive integer.
unfoldable pub settle_target : Texts → DeviceJob → Option ℤ
unfolding Json.member Json.as_i64
settle_target t job = positive (int_of (Json.member "card_job_id" (t.parse job.payload)))

abbrev named : Option Json → Option Json
named none = none
named (some v) = if Json.is_null v then none else some v

abbrev same : Option ℤ → Option ℤ → Bool
same none none = true
same (some a) (some b) = a == b
same _ _ = false

abbrev cents_of : Texts → Option Json → Option ℤ
cents_of t (some (Json.number n)) = some (t.cents n)
cents_of t _ = none

-- Whether a value that a settle job names contradicts the authorised one.
abbrev contradicts : (Option Json → Option ℤ) → Option Json → Option Json → Bool
contradicts value none authorised = false
contradicts value (some v) authorised = not (same (value (some v)) (value authorised))

abbrev or_null : Option Json → Json
or_null none = Json.null
or_null (some v) = v

mismatch_text : Texts → String → Option Json → Option Json → String
mismatch_text t what job authorised = concat (
    what
    ∷ " "
    ∷ t.json (or_null job)
    ∷ " is not the authorised "
    ∷ t.json (or_null authorised)
    ∷ [])

mismatch_with : Texts → Json → Option Json → Option String
unfolding Json.member Json.as_i64 Json.is_null mismatch_text
mismatch_with t payload none = none
mismatch_with t payload (some tx) =
    let seq = named (Json.member "trans_seq" payload) in
    let amount = named (Json.member "amount" payload) in
    if contradicts int_of seq (Json.member "trans_seq" tx)
    then some (mismatch_text t "trans_seq" seq (Json.member "trans_seq" tx))
    else if contradicts (cents_of t) amount (Json.member "amount" tx)
    then some (mismatch_text t "amount" amount (Json.member "amount" tx))
    else none

-- What a settle job names that contradicts the stored authorisation.
unfoldable pub settle_mismatch : Texts → DeviceJob → Json → Option String
unfolding mismatch_with Json.member
settle_mismatch t job authorised =
    mismatch_with t (t.parse job.payload) (Json.member "transaction" authorised)

abbrev same_kasa : Option ℤ → Option ℤ → Bool
same_kasa = same

abbrev auth_of : Option CardPayment → Option String
auth_of none = none
auth_of (some c) = c.auth_result

stored_mismatch : Texts → DeviceJob → Option String → Option String
unfolding settle_mismatch
stored_mismatch t job none = none
stored_mismatch t job (some auth) = settle_mismatch t job (t.parse auth)

unknown_purchase : Texts → ℤ → String → Outcome
unknown_purchase t target why =
    Outcome.failed "unknown_purchase"
      (concat ("card_job_id " ∷ t.show target ∷ ": " ∷ why ∷ " - nothing ran" ∷ []))

consistent : JournalEntry → Option String → Outcome ⊎ JournalEntry
consistent e none = inr e
consistent e (some problem) =
    inl (Outcome.failed "settle_mismatch" (concat (problem ∷ " - nothing ran" ∷ [])))

found_purchase : Texts → DeviceJob → ℤ → CardJournal → Option JournalEntry → Outcome ⊎ JournalEntry
unfolding unknown_purchase consistent stored_mismatch of_job
found_purchase t job target s none =
    inl (unknown_purchase t target "this bridge never received that card.purchase")
found_purchase t job target s (some e) =
    if not (is_some (of_job e.job.job_type)) || not (same_kasa e.job.kasa_id job.kasa_id)
    then inl (unknown_purchase t target "not a card.purchase / card.credit of this till")
    else consistent e (stored_mismatch t job (auth_of (card_payment target s)))

-- The payment that a settle job names, or the refusal.
unfoldable pub settle_purchase : Texts → DeviceJob → ℤ → CardJournal → Outcome ⊎ JournalEntry
unfolding found_purchase
settle_purchase t job target s = found_purchase t job target s (get target s.jobs)

journal_outcome : Texts → SettleOp → ℤ → Outcome ⊎ JournalEntry → Outcome
unfolding settle_outcome purchase_state
journal_outcome t op target (inl refusal) = refusal
journal_outcome t op target (inr e) = settle_outcome t op target (purchase_state e)

settle_for :
    Texts
    → SettleOp
    → ℤ
    → Option SettleReply
    → Outcome ⊎ JournalEntry
    → Outcome ⊎ JournalEntry
    → Outcome
unfolding journal_outcome settle_outcome
settle_for t op target held (inl refusal) later = refusal
settle_for t op target (some reply) (inr e) later = settle_outcome t op target reply
settle_for t op target none (inr e) later = journal_outcome t op target later

settle_named :
    Texts
    → DeviceJob
    → SettleOp
    → Option SettleReply
    → CardJournal
    → CardJournal
    → Option ℤ
    → Outcome
unfolding settle_for settle_purchase
settle_named t job op held s later none =
    Outcome.failed "bad_payload" "no card_job_id - nothing ran"
settle_named t job op held s later (some target) =
    settle_for t op target held (settle_purchase t job target s)
      (settle_purchase t job target later)

-- A settle job: `held` is the answer of the session that holds the payment, if one does and answers;
-- else the journal decides, as it is `later`.
unfoldable pub settle :
    Texts → DeviceJob → SettleOp → Option SettleReply → CardJournal → CardJournal → Outcome
unfolding settle_named settle_target
settle t job op held s later = settle_named t job op held s later (settle_target t job)

unfoldable pub as_reconciliation : Outcome → Reconciliation
as_reconciliation (Outcome.done r) = Reconciliation.done r
as_reconciliation (Outcome.failed code why) = Reconciliation.failed code why
as_reconciliation (Outcome.indeterminate why) = Reconciliation.still_unknown why
