-- ===== src/Device/Tim/Purchase/Sent.antt =====
-- A session from the contact on: the transaction, the authorisation and the hold
-- (device_jobs/tim/purchase.rs of crates/devbridge-client/src).
use devbridge.Common.{
  ℕ, String, ◌<◌, ◌≤◌, ◌≡◌, refl, sym, ap, true, false, Option, none, some, [], arith,
}
use devbridge.Common.Int.{ℤ}
use devbridge.Device.Tim.Terminal.{TimError, TimResult, ok, err, TxFacts}
use devbridge.Device.Tim.Rules.{TxFailure, nothing_charged, classify_transaction_error}
use devbridge.Device.Tim.Purchase.Defs.{
  Environment, Session, note, Entry, Contact, journaled, already_asked, journal_failed,
  PurchaseRequest,
}
use devbridge.Device.Tim.Purchase.Run
use devbridge.Device.Tim.Purchase.Money.{
  after_failure, untouched, authorised, money, told, has, is_journaled, is_contact, is_transaction,
  obeys, Returns,
}
use devbridge.Device.Tim.Purchase.Settles.{IsTold, roll_back-IsTold, hold-IsTold}

-- No transaction was sent yet.
pub record IsReady (s : Session) : Type 0 where
  pub unmoved : money s.history ≡ untouched
  pub unsent : has is_transaction s.history ≡ false
  pub order : obeys s.history ≡ true
  pub unanswered : s.replies ≡ []

module _ (fuel : ℕ) (env : Environment) (req : PurchaseRequest) (waits : req.deadline < fuel)
    (releases : req.release_within < fuel) where
  journaled_or_back-IsTold :
      (facts : TxFacts) (tid : Option String) (authorised_at : ℕ) (answer : Option String)
      (s : Session)
      → authorised_at ≤ s.now
      → money s.history ≡ authorised
      → obeys s.history ≡ true
      → (answer ≡ none → has is_journaled s.history ≡ true)
      → s.replies ≡ []
      → Returns IsTold (Run.journaled_or_back fuel env req facts tid authorised_at answer s)
  unfolding Run.journaled_or_back
  journaled_or_back-IsTold facts tid authorised_at none s t m o j e =
      hold-IsTold fuel env req facts tid _ s (omega arith)
        (record { held = m; journaled = j refl; order = o; unanswered = e })
  journaled_or_back-IsTold facts tid authorised_at (some why) s t m o j e =
      roll_back-IsTold env _ s m o e

  kept_or_back-IsTold :
      (facts : TxFacts) (tid : Option String) (problem : Option String) (s : Session)
      → money s.history ≡ authorised
      → obeys s.history ≡ true
      → s.replies ≡ []
      → Returns IsTold (Run.kept_or_back fuel env req facts tid problem s)
  unfolding Run.kept_or_back money has obeys
  kept_or_back-IsTold facts tid (some problem) s m o e = roll_back-IsTold env _ s m o e
  kept_or_back-IsTold facts tid none s m o e =
      journaled_or_back-IsTold facts tid s.now (env.authorized facts tid s.history) _ (omega arith)
        m o (λ journal. rw journal refl) e

  failed_transaction-IsTold :
      (e : TimError) (f : TxFailure) (s : Session)
      → money s.history ≡ after_failure f untouched
      → obeys s.history ≡ true
      → s.replies ≡ []
      → IsTold (Run.failed_transaction env e f) s
  unfolding Run.failed_transaction told
  failed_transaction-IsTold e (nothing_charged code) s m o u = record {
    says = sym m;
    order = o;
    answers = rw u tt;
  }
  failed_transaction-IsTold e TxFailure.unknown s m o u = record {
    says = sym m;
    order = o;
    answers = rw u tt;
  }

  transacted-IsTold :
      (tid : Option String) (answer : TimResult TxFacts) (s : Session)
      → has is_contact s.history ≡ true
      → IsReady s
      → Returns IsTold (
          Run.transacted fuel env req tid answer
            (note env (Entry.transaction req.kind req.amount_minor answer) s))
  unfolding Run.transacted money has obeys
  transacted-IsTold tid (err e) s c r =
      failed_transaction-IsTold e _ _
        (ap (after_failure (classify_transaction_error e.code)) r.unmoved)
        (ground (arith, c, r.unsent, r.order)) r.unanswered
  transacted-IsTold tid (ok facts) s c r =
      kept_or_back-IsTold facts tid _ _ refl (ground (arith, c, r.unsent, r.order)) r.unanswered

  pub contacted-IsTold :
      (tid : Option String) (answer : Contact) (base : Option ℤ) (s : Session)
      → IsReady s
      → Returns IsTold
          (Run.contacted fuel env req tid answer (note env (Entry.contact base answer) s))
  unfolding Run.contacted money has obeys told
  contacted-IsTold tid journaled base s r =
      transacted-IsTold tid _ (note env (Entry.contact base journaled) s) refl (record {
        unmoved = r.unmoved;
        unsent = r.unsent;
        order = r.order;
        unanswered = r.unanswered;
      })
  contacted-IsTold tid already_asked base s r = record {
    says = refl;
    order = r.order;
    answers = rw r.unanswered tt;
  }
  contacted-IsTold tid (journal_failed why) base s r = record {
    says = sym r.unmoved;
    order = r.order;
    answers = rw r.unanswered tt;
  }
