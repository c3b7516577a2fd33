-- ===== src/Device/Tim/Purchase/Told.antt =====
-- Every session on a terminal ends, says where the money is, and keeps the order of calls
-- (device_jobs/tim/purchase.rs of crates/devbridge-client/src).
use devbridge.Common.{
  ℕ, String, ◌<◌, ◌≡◌, refl, sym, true, false, Option, none, some, [], ◌∷◌, arith, All, All-append,
  List,
}
use devbridge.Device.Tim.Terminal.{TimResult, ok, err, TerminalSpec}
use devbridge.Device.Tim.Purchase.Defs.{
  SettleOp, SettleReply, settle_reply, Environment, Session, fresh, note, Entry, PurchaseRequest,
  PurchaseEnd, refused, committed, rolled_back, Ended,
}
use devbridge.Device.Tim.Purchase.Run
use devbridge.Device.Tim.Purchase.Money.{is_authorised, money, told, has, obeys, Returns}
use devbridge.Device.Tim.Purchase.Settles.{IsTold, IsAnsweredBy, ReturnsUnknown, release-unknown}
use devbridge.Device.Tim.Purchase.Sent.{IsReady, contacted-IsTold}

-- A session that was released from an end still says what the end says.
abbrev Leaves : PurchaseEnd → Option Session → Type 0
Leaves end none = ⊥
Leaves end (some s) =
    (money s.history ≡ told end) × (obeys s.history ≡ true) × All (IsAnsweredBy end) s.replies

told-is_authorised : (end : PurchaseEnd) → is_authorised (told end) ≡ false
unfolding told
told-is_authorised (refused code text) = refl
told-is_authorised (committed facts tid) = refl
told-is_authorised (rolled_back why) = refl
told-is_authorised (PurchaseEnd.unknown why) = refl

Leaves-ReturnsUnknown :
    (why : String) (replies : List (SettleOp × SettleReply)) (o : Option Session)
    → All (IsAnsweredBy (PurchaseEnd.unknown why)) replies
    → ReturnsUnknown replies o
    → Leaves (PurchaseEnd.unknown why) o
unfolding told
Leaves-ReturnsUnknown why replies none a h = h
Leaves-ReturnsUnknown why replies (some s) a h = (h.0, h.1, rw h.2 a)

answer_late-answers :
    (end : PurchaseEnd) (ops : List SettleOp)
    → All (IsAnsweredBy end) (Run.answer_late ops (settle_reply end))
unfolding Run.answer_late
answer_late-answers end [] = tt
answer_late-answers end (op ∷ ops) = (refl, answer_late-answers end ops)

module _ (fuel : ℕ) (env : Environment) (spec : TerminalSpec) (req : PurchaseRequest)
    (waits : req.deadline < fuel) (releases : req.release_within < fuel) where
  right_terminal-IsTold :
      (tid expected : Option String) (s : Session)
      → IsReady s
      → Returns IsTold (Run.right_terminal fuel env spec req tid expected s)
  unfolding Run.right_terminal money has obeys told
  right_terminal-IsTold tid (some expected) s r = record {
    says = sym r.unmoved;
    order = r.order;
    answers = rw r.unanswered tt;
  }
  right_terminal-IsTold tid none s r =
      contacted-IsTold fuel env req waits releases tid _ _
        (note env (Entry.last_transaction (env.last_transaction s.history)) s)
        (record {
          unmoved = r.unmoved;
          unsent = r.unsent;
          order = r.order;
          unanswered = r.unanswered;
        })

  identified-IsTold :
      (tid : TimResult (Option String)) (s : Session)
      → IsReady s
      → Returns IsTold (Run.identified fuel env spec req tid s)
  unfolding Run.identified told
  identified-IsTold (err e) s r = record {
    says = sym r.unmoved;
    order = r.order;
    answers = rw r.unanswered tt;
  }
  identified-IsTold (ok tid) s r = right_terminal-IsTold tid _ s r

  released_session-unmoved :
      (end : PurchaseEnd) (s : Session)
      → IsTold end s
      → Leaves end (Run.released_session fuel env req end s)
  unfolding Run.released_session told
  released_session-unmoved (refused code text) s t = (sym t.says, t.order, t.answers)
  released_session-unmoved (committed facts tid) s t = (sym t.says, t.order, t.answers)
  released_session-unmoved (rolled_back why) s t = (sym t.says, t.order, t.answers)
  released_session-unmoved (PurchaseEnd.unknown why) s t =
      Leaves-ReturnsUnknown why s.replies _ t.answers
        (release-unknown fuel env _ s (omega arith) (sym t.says) t.order)

  logged_out-IsTold :
      (end : PurchaseEnd) (o : Option Session)
      → Leaves end o
      → Returns IsTold (Run.logged_out env end o)
  unfolding Run.logged_out money obeys
  logged_out-IsTold end none h = h
  logged_out-IsTold end (some s) h = record {
    says = sym h.0;
    order = ground (arith, told-is_authorised end, h.0, h.1);
    answers = h.2;
  }

  left-IsTold : (m : Option Ended) → Returns IsTold m → Returns IsTold (Run.left fuel env req m)
  unfolding Run.left
  left-IsTold none h = h
  left-IsTold (some (end, s)) h = logged_out-IsTold end _ (released_session-unmoved end s h)

  closed-IsTold : (m : Option Ended) → Returns IsTold m → Returns IsTold (Run.closed env m)
  unfolding Run.closed money obeys
  closed-IsTold none h = h
  closed-IsTold (some (end, s)) h = record {
    says = h.says;
    order = h.order;
    answers = All-append (IsAnsweredBy end) _ _ h.answers (answer_late-answers end _);
  }

  after_login-IsTold :
      (answer : TimResult (Unit {0})) (s : Session)
      → IsReady s
      → Returns IsTold (Run.after_login fuel env spec req answer s)
  unfolding Run.after_login Run.logged_in money has obeys told
  after_login-IsTold (ok u) s r = left-IsTold _ (
      identified-IsTold _ (note env (Entry.terminal_id (env.terminal_id s.history)) s) (record {
        unmoved = r.unmoved;
        unsent = r.unsent;
        order = r.order;
        unanswered = r.unanswered;
      }))
  after_login-IsTold (err e) s r = record {
    says = sym r.unmoved;
    order = r.order;
    answers = rw r.unanswered tt;
  }

  after_connect-IsTold :
      (answer : TimResult (Unit {0})) (s : Session)
      → IsReady s
      → Returns IsTold (Run.after_connect fuel env spec req answer s)
  unfolding Run.after_connect money has obeys told
  after_connect-IsTold (ok u) s r = closed-IsTold _ (
      after_login-IsTold _ (note env (Entry.login (env.login s.history)) s) (record {
        unmoved = r.unmoved;
        unsent = r.unsent;
        order = r.order;
        unanswered = r.unanswered;
      }))
  after_connect-IsTold (err e) s r = record {
    says = sym r.unmoved;
    order = r.order;
    answers = rw r.unanswered tt;
  }

  after_object-IsTold :
      (answer : TimResult (Unit {0})) (s : Session)
      → IsReady s
      → Returns IsTold (Run.after_object fuel env spec req answer s)
  unfolding Run.after_object money has obeys told
  after_object-IsTold (ok u) s r =
      after_connect-IsTold _ (note env (Entry.connect (env.connect s.history)) s) (record {
        unmoved = r.unmoved;
        unsent = r.unsent;
        order = r.order;
        unanswered = r.unanswered;
      })
  after_object-IsTold (err e) s r = record {
    says = sym r.unmoved;
    order = r.order;
    answers = rw r.unanswered tt;
  }

  -- With fuel for the two waits, a session that begins ends, whatever the terminal, the journal and
  -- the settle queue answer. Its end says where the money is, and every settle request that it answers
  -- gets that end. A transaction follows its journaled
  -- contact and is sent once, a commit follows a journaled authorisation that is still held, and no
  -- logout leaves an authorisation held.
  pub run_purchase-IsTold :
      (now : ℕ) → Returns IsTold (Run.run_purchase fuel env spec req (fresh now))
  unfolding Run.run_purchase money has obeys
  run_purchase-IsTold now =
      after_object-IsTold _ _
        (record { unmoved = refl; unsent = refl; order = refl; unanswered = refl })
