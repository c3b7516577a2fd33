-- ===== src/Device/Tim/Purchase/Settles.antt =====
-- A session ends, says where the money is, and keeps the order of calls
-- (device_jobs/tim/purchase.rs of crates/devbridge-client/src).
use devbridge.Common.{
  ℕ, String, zero, suc, ◌+◌, ◌-◌, ◌<◌, ◌≡◌, refl, Bool, true, false, Option, none, some, [], ◌∷◌,
  arith, All, List, min,
}
use devbridge.Device.Tim.Terminal.{TxFacts}
use devbridge.Device.Tim.Purchase.Defs.{
  SettleReply, settle_reply, SettleOp, Arrival, request, disconnected, timeout, received, slept,
  Entry, note, waited, Ended, Environment, Session, PurchaseRequest, PurchaseEnd, roll_back,
  commit_payment,
}
use devbridge.Device.Tim.Purchase.Hold.{polled, arrived, waiting, settle, hold, release}
use devbridge.Device.Tim.Purchase.Money.{
  Money, authorised, money, told, has, is_journaled, obeys, Returns,
}

-- A settle request that got this end as its answer.
abbrev pub IsAnsweredBy : PurchaseEnd → SettleOp × SettleReply → Type 0
IsAnsweredBy end (op, reply) = reply ≡ settle_reply end

pub All-none :
    (end : PurchaseEnd) {l : List (SettleOp × SettleReply)} → l ≡ [] → All (IsAnsweredBy end) l
All-none end e = rw e tt

-- The session kept the order of calls, and its end says where the money is
-- and is what every settle request was answered.
pub record IsTold (end : PurchaseEnd) (s : Session) : Type 0 where
  pub says : told end ≡ money s.history
  pub order : obeys s.history ≡ true
  pub answers : All (IsAnsweredBy end) s.replies

-- A released session, if the fuel sufficed.
abbrev pub ReturnsUnknown : List (SettleOp × SettleReply) → Option Session → Type 0
ReturnsUnknown replies none = ⊥
ReturnsUnknown replies (some s) =
    (money s.history ≡ Money.unknown) × (obeys s.history ≡ true) × (s.replies ≡ replies)

pub record IsHeld (s : Session) : Type 0 where
  pub held : money s.history ≡ authorised
  pub journaled : has is_journaled s.history ≡ true
  pub order : obeys s.history ≡ true
  pub unanswered : s.replies ≡ []

roll_back-says :
    (env : Environment) (why : String) (s : Session)
    → money s.history ≡ authorised
    → obeys s.history ≡ true
    → (told (roll_back env why s).0 ≡ money (roll_back env why s).1.history)
      × (obeys (roll_back env why s).1.history ≡ true)
unfolding roll_back money told obeys
roll_back-says env why s m o = ground arith

pub roll_back-IsTold :
    (env : Environment) (why : String) (s : Session)
    → money s.history ≡ authorised
    → obeys s.history ≡ true
    → s.replies ≡ []
    → IsTold (roll_back env why s).0 (roll_back env why s).1
unfolding roll_back
roll_back-IsTold env why s m o e =
    let k = roll_back-says env why s m o in
    record { says = k.0; order = k.1; answers = All-none _ e }

commit_payment-says :
    (env : Environment) (facts : TxFacts) (tid : Option String) (s : Session)
    → IsHeld s
    → (told (commit_payment env facts tid s).0 ≡ money (commit_payment env facts tid s).1.history)
      × (obeys (commit_payment env facts tid s).1.history ≡ true)
unfolding commit_payment money told obeys
commit_payment-says env facts tid s h = ground arith

settle-IsTold :
    (env : Environment) (op : SettleOp) (facts : TxFacts) (tid : Option String) (s : Session)
    → IsHeld s
    → IsTold (settle env op facts tid s).0 (settle env op facts tid s).1
unfolding settle commit_payment roll_back
settle-IsTold env SettleOp.commit facts tid s h =
    let k = commit_payment-says env facts tid s h in
    record { says = k.0; order = k.1; answers = rw h.unanswered (refl, tt) }
settle-IsTold env SettleOp.rollback facts tid s h =
    let k = roll_back-says env "card.rollback" s h.held h.order in
    record { says = k.0; order = k.1; answers = rw h.unanswered (refl, tt) }

module _ (env : Environment) (again : Session → Option Ended) (limit fuel : ℕ)
    (next : (s : Session) → IsHeld s → limit - s.now < fuel → Returns IsTold (again s)) where
  polled-IsTold :
      (refused : Bool) (s : Session)
      → IsHeld s
      → limit - s.now < fuel
      → Returns IsTold (polled env again refused s)
  unfolding polled money has obeys
  polled-IsTold true s h b = roll_back-IsTold env _ _ h.held h.order h.unanswered
  polled-IsTold false s h b =
      next _
        (record {
          held = h.held;
          journaled = h.journaled;
          order = h.order;
          unanswered = h.unanswered;
        })
        (omega arith)

  arrived-IsTold :
      (facts : TxFacts) (tid : Option String) (duration : ℕ) (a : Arrival) (s : Session)
      → IsHeld s
      → limit - (s.now + duration) < fuel
      → Returns IsTold (arrived env facts tid duration again a s)
  unfolding arrived money has obeys
  arrived-IsTold facts tid duration (request op) s h b = settle-IsTold env op facts tid _ (record {
    held = h.held;
    journaled = h.journaled;
    order = h.order;
    unanswered = h.unanswered;
  })
  arrived-IsTold facts tid duration disconnected s h b =
      roll_back-IsTold env _ _ h.held h.order h.unanswered
  arrived-IsTold facts tid duration timeout s h b =
      polled-IsTold _ (waited env (received timeout) duration s)
        (record {
          held = h.held;
          journaled = h.journaled;
          order = h.order;
          unanswered = h.unanswered;
        })
        (omega arith)

  waiting-IsTold :
      (req : PurchaseRequest) (facts : TxFacts) (tid : Option String) (deadline : ℕ) (late : Bool)
      (s : Session)
      → IsHeld s
      → (late ≡ false → limit - (s.now + min (deadline - s.now) 500) < fuel)
      → Returns IsTold (waiting env req facts tid deadline again late s)
  unfolding waiting
  waiting-IsTold req facts tid deadline true s h b =
      roll_back-IsTold env _ s h.held h.order h.unanswered
  waiting-IsTold req facts tid deadline false s h b = arrived-IsTold facts tid _ _ s h (b refl)

-- The hold ends before its fuel does.
pub hold-IsTold :
    (fuel : ℕ) (env : Environment) (req : PurchaseRequest) (facts : TxFacts) (tid : Option String)
    (deadline : ℕ) (s : Session)
    → deadline - s.now < fuel
    → IsHeld s
    → Returns IsTold (hold fuel env req facts tid deadline s)
unfolding hold
hold-IsTold zero env req facts tid deadline s f h = elim f [ ]
hold-IsTold (suc fuel) env req facts tid deadline s f h =
    waiting-IsTold env (hold fuel env req facts tid deadline) deadline fuel
      (λ s' h' b. hold-IsTold fuel env req facts tid deadline s' b h') req facts tid deadline _ s h
      (λ early. ground arith)

pub release-unknown :
    (fuel : ℕ) (env : Environment) (until : ℕ) (s : Session)
    → until - s.now < fuel
    → money s.history ≡ Money.unknown
    → obeys s.history ≡ true
    → ReturnsUnknown s.replies (release fuel env until s)
unfolding release money obeys
release-unknown zero env until s f m o = elim f [ ]
release-unknown (suc fuel) env until s f m o = ground (
  arith,
  release-unknown fuel env until (
      waited env slept
        (min (until - (s.now + env.took (Entry.rollback (env.rollback s.history) ∷ s.history)))
          2000)
        (note env (Entry.rollback (env.rollback s.history)) s)),
)
