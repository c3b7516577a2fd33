-- ===== src/Device/Tim/Purchase/Hold.antt =====
-- The wait for the decision on a held authorisation, and the release of a session whose outcome is
-- unknown (device_jobs/tim/purchase.rs of crates/devbridge-client/src). Both loops take fuel; each
-- round lasts a millisecond at least, so the milliseconds that are left are enough.
use devbridge.Common.{
  ℕ, zero, suc, ◌-◌, ◌/◌, min, String, Bool, true, false, Option, none, some, [], ◌∷◌, ◌++◌, ◌==◌,
  leb,
}
use devbridge.Common.Int.{pos, int_eq}
use devbridge.Common.Text.{concat}
use devbridge.Device.Tim.Terminal.{TimResult, ok, err, TxFacts}
use devbridge.Device.Tim.Purchase.Defs.{
  SettleOp, Arrival, request, disconnected, timeout, Entry, received, refused_by_odoo, slept,
  Environment, Session, note, waited, PurchaseRequest, settle_reply, Ended, roll_back,
  commit_payment,
}

-- A settle request ends the hold, and is answered with the end.
unfoldable pub settle : Environment → SettleOp → TxFacts → Option String → Session → Ended
unfolding commit_payment roll_back settle_reply
settle env SettleOp.commit facts tid s =
    let (end, s') = commit_payment env facts tid s in
    (end, record s' { replies = s'.replies ++ (SettleOp.commit, settle_reply end) ∷ [] })
settle env SettleOp.rollback facts tid s =
    let (end, s') = roll_back env "card.rollback" s in
    (end, record s' { replies = s'.replies ++ (SettleOp.rollback, settle_reply end) ∷ [] })

abbrev no_commit : Environment → PurchaseRequest → String
no_commit env req = concat (
    "no card.commit within "
    ∷ env.show (pos (req.deadline / 1000))
    ∷ " s of the authorisation (devbridge deadline)"
    ∷ [])

-- `REFUSAL_POLL` and `RELEASE_RETRY`.
abbrev refusal_poll : ℕ
refusal_poll = 500

abbrev release_retry : ℕ
release_retry = 2000

-- Whether Odoo refused the authorisation, after a wait that nothing ended; `again` is the next round.
unfoldable pub polled : Environment → (Session → Option Ended) → Bool → Session → Option Ended
unfolding roll_back
polled env again true s =
    some (
      roll_back env "Odoo refused the authorisation (too late)" (note env (refused_by_odoo true) s))
polled env again false s = again (note env (refused_by_odoo false) s)

-- What ended a wait of `duration`.
unfoldable pub arrived :
    Environment
    → TxFacts
    → Option String
    → ℕ
    → (Session → Option Ended)
    → Arrival
    → Session
    → Option Ended
unfolding polled settle roll_back
arrived env facts tid duration again (request op) s =
    some (settle env op facts tid (note env (received (request op)) s))
arrived env facts tid duration again disconnected s =
    some
      (roll_back env "no settle channel for the held payment" (note env (received disconnected) s))
arrived env facts tid duration again timeout s =
    let s' = waited env (received timeout) duration s in
    polled env again (env.authorization_refused s'.history) s'

-- Whether the deadline has passed.
unfoldable pub waiting :
    Environment
    → PurchaseRequest
    → TxFacts
    → Option String
    → ℕ
    → (Session → Option Ended)
    → Bool
    → Session
    → Option Ended
unfolding roll_back arrived
waiting env req facts tid deadline again true s = some (roll_back env (no_commit env req) s)
waiting env req facts tid deadline again false s =
    arrived env facts tid (min (deadline - s.now) refusal_poll) again (env.arrival s.history) s

-- Wait for the decision on a held authorisation, until the moment `deadline`.
unfoldable pub hold :
    ℕ → Environment → PurchaseRequest → TxFacts → Option String → ℕ → Session → Option Ended
unfolding waiting
hold zero env req facts tid deadline s = none
hold (suc fuel) env req facts tid deadline s =
    waiting env req facts tid deadline (hold fuel env req facts tid deadline) (leb deadline s.now) s

-- A rollback that was done, or that had nothing pending.
abbrev is_released : TimResult (Unit {0}) → Bool
is_released (ok u) = true
is_released (err e) = e.code == pos 68

-- The outcome is unknown: roll back until the terminal no longer waits, or until the moment `until`.
unfoldable pub release : ℕ → Environment → ℕ → Session → Option Session
release zero env until s = none
release (suc fuel) env until s =
    let answer = env.rollback s.history in
    let s' = note env (Entry.rollback answer) s in
    elim (is_released answer) [
      | true ↦ some s'
      | false ↦ elim (leb until s'.now) [
        | true ↦ some s'
        | false ↦ release fuel env until (waited env slept (min (until - s'.now) release_retry) s')
      ]
    ]
