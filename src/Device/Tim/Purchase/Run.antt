-- ===== src/Device/Tim/Purchase/Run.antt =====
-- A session from the terminal's object to its disconnect (device_jobs/tim/purchase.rs of
-- crates/devbridge-client/src): `run_purchase`, `logged_in` and their branches.
use devbridge.Common.{
  ℕ, ◌+◌, String, Option, none, some, List, [], ◌∷◌, ◌++◌, ◌==◌, if◌then◌else◌, string_eq,
}
use devbridge.Common.Text.{concat}
use devbridge.Device.Tim.Terminal.{
  TimError, error_text, TimResult, ok, err, TerminalSpec, TxFacts, LastTransaction,
}
use devbridge.Device.Tim.Rules.{
  TxFailure, nothing_charged, classify_transaction_error, authorisation_problem, baseline,
}
use devbridge.Device.Tim.Purchase.Defs.{
  SettleOp, SettleReply, Contact, journaled, already_asked, journal_failed, Entry, released,
  Environment, Session, note, PurchaseRequest, PurchaseEnd, refused, unknown, settle_reply, Ended,
  refusal, roll_back,
}
use devbridge.Device.Tim.Purchase.Hold.{hold, release}

unfoldable pub failed_transaction : Environment → TimError → TxFailure → PurchaseEnd
failed_transaction env e (nothing_charged code) = refused code (
    concat
      ("the terminal refused the payment: " ∷ error_text env.show e ∷ " - nothing charged" ∷ []))
failed_transaction env e TxFailure.unknown = unknown (
    concat (
      "the transaction failed with an unknown outcome: "
      ∷ error_text env.show e
      ∷ " - reconciled with the terminal"
      ∷ []))

-- The authorisation is journaled, or rolled back at once.
unfoldable pub journaled_or_back :
    ℕ
    → Environment
    → PurchaseRequest
    → TxFacts
    → Option String
    → ℕ
    → Option String
    → Session
    → Option Ended
unfolding hold roll_back
journaled_or_back fuel env req facts tid authorised_at none s =
    hold fuel env req facts tid (authorised_at + req.deadline) s
journaled_or_back fuel env req facts tid authorised_at (some why) s =
    some (roll_back env (concat ("rolled back at once: the journal failed (" ∷ why ∷ ")" ∷ [])) s)

unfoldable pub kept_or_back :
    ℕ
    → Environment
    → PurchaseRequest
    → TxFacts
    → Option String
    → Option String
    → Session
    → Option Ended
unfolding journaled_or_back roll_back
kept_or_back fuel env req facts tid (some problem) s =
    some (roll_back env (concat ("rolled back at once: " ∷ problem ∷ [])) s)
kept_or_back fuel env req facts tid none s =
    let answer = env.authorized facts tid s.history in
    journaled_or_back fuel env req facts tid s.now answer
      (note env (Entry.authorized facts tid answer) s)

unfoldable pub transacted :
    ℕ → Environment → PurchaseRequest → Option String → TimResult TxFacts → Session → Option Ended
unfolding kept_or_back failed_transaction
transacted fuel env req tid (err e) s =
    some (failed_transaction env e (classify_transaction_error e.code), s)
transacted fuel env req tid (ok facts) s =
    kept_or_back fuel env req facts tid
      (authorisation_problem env.debug env.show facts req.amount_minor) s

-- The transaction is sent only after its contact is journaled.
unfoldable pub contacted :
    ℕ → Environment → PurchaseRequest → Option String → Contact → Session → Option Ended
unfolding transacted
contacted fuel env req tid journaled s =
    let answer = env.transaction req.kind req.amount_minor s.history in
    transacted fuel env req tid answer
      (note env (Entry.transaction req.kind req.amount_minor answer) s)
contacted fuel env req tid already_asked s = some (
  unknown
      "the terminal was already asked for this job - no second transaction, reconciled with the terminal",
  s,
)
contacted fuel env req tid (journal_failed why) s = some (
  refused "bridge_error" (
      concat (
        "the journal did not record the terminal contact (" ∷ why
        ∷ ") - the transaction was not sent, nothing charged" ∷ [])),
  s,
)

abbrev pub read : TimResult LastTransaction → Option LastTransaction
read (ok last) = some last
read (err e) = none

-- The terminal id that the till expects, if another one answered.
unfoldable pub wrong_terminal : Option String → Option String → Option String
wrong_terminal none tid = none
wrong_terminal (some expected) none = some expected
wrong_terminal (some expected) (some tid) = if tid == expected then none else some expected

abbrev pub tid_or : String → Option String → String
tid_or d none = d
tid_or d (some tid) = tid

unfoldable pub right_terminal :
    ℕ
    → Environment
    → TerminalSpec
    → PurchaseRequest
    → Option String
    → Option String
    → Session
    → Option Ended
unfolding contacted
right_terminal fuel env spec req tid (some expected) s = some (
  refused "wrong_terminal" (
      concat (
        "the terminal at "
        ∷ spec.ip
        ∷ " reported id "
        ∷ tid_or "(none)" tid
        ∷ " but the till expects "
        ∷ expected
        ∷ " - nothing charged"
        ∷ [])),
  s,
)
right_terminal fuel env spec req tid none s =
    let last = env.last_transaction s.history in
    let s' = note env (Entry.last_transaction last) s in
    let base = baseline (read last) req.stored_max_seq in
    let answer = env.contact base s'.history in
    contacted fuel env req tid answer (note env (Entry.contact base answer) s')

unfoldable pub identified :
    ℕ
    → Environment
    → TerminalSpec
    → PurchaseRequest
    → TimResult (Option String)
    → Session
    → Option Ended
unfolding right_terminal wrong_terminal
identified fuel env spec req (err e) s = some (refusal env "terminal_error" "TIM terminal id" e, s)
identified fuel env spec req (ok tid) s =
    right_terminal fuel env spec req tid (wrong_terminal spec.expected_tid tid) s

unfoldable pub logged_in : ℕ → Environment → TerminalSpec → PurchaseRequest → Session → Option Ended
unfolding identified
logged_in fuel env spec req s =
    let tid = env.terminal_id s.history in
    identified fuel env spec req tid (note env (Entry.terminal_id tid) s)

-- An unknown end releases the session first.
unfoldable pub released_session :
    ℕ → Environment → PurchaseRequest → PurchaseEnd → Session → Option Session
unfolding release
released_session fuel env req (unknown why) s = release fuel env (s.now + req.release_within) s
released_session fuel env req end s = some s

unfoldable pub logged_out : Environment → PurchaseEnd → Option Session → Option Ended
logged_out env end none = none
logged_out env end (some s) = some (end, note env (Entry.logout (env.logout s.history)) s)

unfoldable pub left : ℕ → Environment → PurchaseRequest → Option Ended → Option Ended
unfolding released_session logged_out
left fuel env req none = none
left fuel env req (some (end, s)) = logged_out env end (released_session fuel env req end s)

unfoldable pub answer_late : List SettleOp → SettleReply → List (SettleOp × SettleReply)
answer_late [] reply = []
answer_late (op ∷ ops) reply = (op, reply) ∷ answer_late ops reply

-- The payment leaves the holders, and the requests that came after the decision get the decision.
unfoldable pub closed : Environment → Option Ended → Option Ended
unfolding answer_late settle_reply
closed env none = none
closed env (some (end, s)) =
    let s' = note env (Entry.disconnect (env.disconnect s.history)) s in
    let s'' = note env released s' in
    some (
      end,
      record s'' { replies = s''.replies ++ answer_late (env.late s''.history) (settle_reply end) },
    )

unfoldable pub after_login :
    ℕ → Environment → TerminalSpec → PurchaseRequest → TimResult (Unit {0}) → Session → Option Ended
unfolding logged_in left
after_login fuel env spec req (ok u) s = left fuel env req (logged_in fuel env spec req s)
after_login fuel env spec req (err e) s = some (refusal env "terminal_error" "TIM login" e, s)

unfoldable pub after_connect :
    ℕ → Environment → TerminalSpec → PurchaseRequest → TimResult (Unit {0}) → Session → Option Ended
unfolding after_login closed
after_connect fuel env spec req (err e) s =
    some (refusal env "terminal_unreachable" "the terminal could not be reached" e, s)
after_connect fuel env spec req (ok u) s =
    let answer = env.login s.history in
    closed env (after_login fuel env spec req answer (note env (Entry.login answer) s))

unfoldable pub after_object :
    ℕ → Environment → TerminalSpec → PurchaseRequest → TimResult (Unit {0}) → Session → Option Ended
unfolding after_connect
after_object fuel env spec req (err e) s =
    some (refusal env "terminal_error" "TIM terminal object" e, s)
after_object fuel env spec req (ok u) s =
    let answer = env.connect s.history in
    after_connect fuel env spec req answer (note env (Entry.connect answer) s)

-- Run one purchase on the terminal of `spec`.
unfoldable pub run_purchase :
    ℕ → Environment → TerminalSpec → PurchaseRequest → Session → Option Ended
unfolding after_object
run_purchase fuel env spec req s =
    let answer = env.object s.history in
    after_object fuel env spec req answer (note env (Entry.object answer) s)
