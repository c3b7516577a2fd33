-- ===== src/Device/Tim/Jobs/Truth.antt =====
-- What Odoo is told about a payment and about the settling of it is where the money is
-- (device_jobs/tim/jobs.rs, tim/purchase.rs of crates/devbridge-client/src).
use devbridge.Common.{ℕ, ◌<◌, ◌≡◌, refl, ◌∙◌, Option, none, some, List, [], ◌∷◌, All}
use devbridge.Common.Int.{ℤ}
use devbridge.Device.Entry.{Outcome}
use devbridge.Device.Card.{CardJournal}
use devbridge.Device.Tim.Terminal.{TerminalSpec}
use devbridge.Device.Tim.Purchase.Defs.{
  SettleOp, SettleReply, settle_reply, Environment, Session, fresh, PurchaseRequest, PurchaseEnd,
  refused, committed, rolled_back, Ended,
}
use devbridge.Device.Tim.Purchase.Run.{run_purchase}
use devbridge.Device.Tim.Purchase.Money.{Money, untouched, taken, money, told, Returns}
use devbridge.Device.Tim.Purchase.Settles.{IsTold, IsAnsweredBy}
use devbridge.Device.Tim.Purchase.Told.{run_purchase-IsTold}
use devbridge.Device.Tim.Jobs.{Texts, end_outcome, settle_outcome}

-- Where the money is, by the outcome of the payment's own job.
unfoldable pub asserted : Outcome → Money
asserted (Outcome.done r) = taken
asserted (Outcome.failed code why) = untouched
asserted (Outcome.indeterminate why) = Money.unknown

-- Where the money is, by the outcome of a job that settles the payment: a commit that failed and a
-- rollback that is done leave it untouched.
unfoldable pub settled : SettleOp → Outcome → Money
settled SettleOp.commit (Outcome.done r) = taken
settled SettleOp.commit (Outcome.failed code why) = untouched
settled SettleOp.rollback (Outcome.done r) = untouched
settled SettleOp.rollback (Outcome.failed code why) = taken
settled op (Outcome.indeterminate why) = Money.unknown

module _ (t : Texts) (now : ℕ) (job_id : ℤ) (s : CardJournal) where
  asserted-end_outcome :
      (end : PurchaseEnd) → asserted (end_outcome t now job_id end s).0 ≡ told end
  unfolding asserted end_outcome told
  asserted-end_outcome (refused code why) = refl
  asserted-end_outcome (committed facts tid) = refl
  asserted-end_outcome (rolled_back why) = refl
  asserted-end_outcome (PurchaseEnd.unknown why) = refl

  settled-settle_outcome :
      (op : SettleOp) (end : PurchaseEnd)
      → settled op (settle_outcome t op job_id (settle_reply end)) ≡ told end
  unfolding settled settle_outcome settle_reply told
  settled-settle_outcome SettleOp.commit (refused code why) = refl
  settled-settle_outcome SettleOp.commit (committed facts tid) = refl
  settled-settle_outcome SettleOp.commit (rolled_back why) = refl
  settled-settle_outcome SettleOp.commit (PurchaseEnd.unknown why) = refl
  settled-settle_outcome SettleOp.rollback (refused code why) = refl
  settled-settle_outcome SettleOp.rollback (committed facts tid) = refl
  settled-settle_outcome SettleOp.rollback (rolled_back why) = refl
  settled-settle_outcome SettleOp.rollback (PurchaseEnd.unknown why) = refl

  -- What Odoo is told of the payment, and by every settle job that the session answered.
  abbrev pub TellsOdoo : PurchaseEnd → Session → Type 0
  TellsOdoo end session =
      (asserted (end_outcome t now job_id end s).0 ≡ money session.history)
      × All
          (λ request.
            settled request.0 (settle_outcome t request.0 job_id request.1) ≡ money session.history)
          session.replies

  All-TellsOdoo :
      (end : PurchaseEnd) (m : Money) (replies : List (SettleOp × SettleReply))
      → told end ≡ m
      → All (IsAnsweredBy end) replies
      → All (λ request. settled request.0 (settle_outcome t request.0 job_id request.1) ≡ m) replies
  All-TellsOdoo end m [] e h = tt
  All-TellsOdoo end m ((op, reply) ∷ replies) e h =
      (rw (h.0) (settled-settle_outcome op end ∙ e), All-TellsOdoo end m replies e h.1)

  Returns-TellsOdoo : (o : Option Ended) → Returns IsTold o → Returns TellsOdoo o
  Returns-TellsOdoo none h = h
  Returns-TellsOdoo (some (end, session)) h =
      (asserted-end_outcome end ∙ h.says, All-TellsOdoo end _ session.replies h.says h.answers)

-- A session of a payment ends, given fuel for its two waits, and the outcome of its job says where
-- the money is: done is taken, failed is untouched, indeterminate is unknown. So does the outcome of
-- every job that settled it in the session or came after its decision.
pub run_purchase-TellsOdoo :
    (fuel : ℕ) (env : Environment) (spec : TerminalSpec) (req : PurchaseRequest) (t : Texts)
    (began now : ℕ) (job_id : ℤ) (s : CardJournal)
    → req.deadline < fuel
    → req.release_within < fuel
    → Returns (TellsOdoo t now job_id s) (run_purchase fuel env spec req (fresh began))
run_purchase-TellsOdoo fuel env spec req t began now job_id s waits releases =
    Returns-TellsOdoo t now job_id s _ (run_purchase-IsTold fuel env spec req waits releases began)
