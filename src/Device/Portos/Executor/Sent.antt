-- ===== src/Device/Portos/Executor/Sent.antt =====
-- A receipt that was posted is never reported as not sent (device_jobs/portos/mod.rs over
-- device_jobs/journal.rs of crates/devbridge-client/src).
use devbridge.Common.{
  ℕ, ◌≡◌, refl, sym, ap, ◌∙◌, Bool, true, false, Option, none, some, List, [], ◌∷◌, arith, All,
  is_some, ==_refl, String,
}
use devbridge.Common.Int.{ℤ, int_eq}
use devbridge.Common.Json.{Json}
use devbridge.Device.Entry.{JournalEntry}
use devbridge.Device.Journal.Store.{Journal, get}
use devbridge.Device.Journal.Operations.{mark_device_contact}
use devbridge.Device.Journal.Rows.{get-update_row}
use devbridge.Device.Journal.Evolution.{contacted, apply-Evolves}
use devbridge.Device.Journal.Trace.{Op, apply, run, Keeps}
use devbridge.Device.Tasks.{Reconciliation}
use devbridge.Device.Portos.Reply.{Texts, Lookup, found, not_found, classify_lookup}
use devbridge.Device.Portos.Executor
use devbridge.Device.Portos.Executor.{Portos, Receipt, reconciled_found}

-- Whether an answer says that nothing ran.
unfoldable pub denies : Reconciliation → Bool
denies (Reconciliation.failed code text) = true
denies _ = false

mark-contacted :
    (now : ℕ) (k : ℤ) (s : Journal)
    → is_some (get k s) ≡ true
    → contacted (get k (mark_device_contact now k s).0) ≡ true
unfolding mark_device_contact
mark-contacted now k s h = rw (get-update_row, ==_refl k) (ground (arith, h))

run-contacted :
    (k : ℤ) (ops : List Op) (s : Journal)
    → All Keeps ops
    → contacted (get k s) ≡ true
    → contacted (get k (run ops s)) ≡ true
unfolding run
run-contacted k [] s h c = c
run-contacted k (op ∷ ops) s h c =
    run-contacted k ops (apply op s) h.1 ((apply-Evolves op k s h.0).contact c)

module _ {S : Type 0} (t : Texts) (portos : Portos S) where
  looked_up-contacted :
      (now : ℕ) (r : Receipt) (l : Lookup) (p : S) (s : Journal)
      → is_some (get r.job_id s) ≡ true
      → is_some (Executor.looked_up t portos now r l p s).posted ≡ true
      → contacted (get r.job_id (Executor.looked_up t portos now r l p s).journal) ≡ true
  unfolding Executor.looked_up Executor.post_receipt
  looked_up-contacted now r (found v) p s row posted = cc
  looked_up-contacted now r not_found p s row posted = mark-contacted now r.job_id s row
  looked_up-contacted now r (Lookup.unreachable e) p s row posted = cc
  looked_up-contacted now r (Lookup.failed e) p s row posted = cc

  denies-reconciled_found :
      (key : String) (o : Option Json) → denies (reconciled_found t key o) ≡ false
  unfolding denies reconciled_found
  denies-reconciled_found key none = refl
  denies-reconciled_found key (some v) = refl

  denies-reconcile_looked_up :
      (r : Receipt) (l : Lookup) (p : S)
      → denies (Executor.reconcile_looked_up t portos r l true p) ≡ false
  unfolding Executor.reconcile_looked_up Executor.reconcile_not_found denies
  denies-reconcile_looked_up r (found v) p = denies-reconciled_found r.external_id _
  denies-reconcile_looked_up r not_found p = refl
  denies-reconcile_looked_up r (Lookup.unreachable e) p = refl
  denies-reconcile_looked_up r (Lookup.failed e) p = refl

  -- Once the executor posted the receipt of a job that the journal has, no reconciliation of the job
  -- says that nothing ran, whatever Portos answers by then and after any operations of the journal but
  -- pruning.
  pub posted_never_denied :
      (now : ℕ) (r : Receipt) (p q : S) (s : Journal) (ops : List Op) (entry : JournalEntry)
      → is_some (get r.job_id s) ≡ true
      → is_some (Executor.register t portos now r p s).posted ≡ true
      → All Keeps ops
      → get r.job_id (run ops (Executor.register t portos now r p s).journal) ≡ some entry
      → denies (Executor.reconcile_receipt t portos r entry q) ≡ false
  unfolding Executor.register Executor.reconcile_receipt
  posted_never_denied now r p q s ops entry row posted keeps e =
      let marked = looked_up-contacted now r _ p s row posted in
      let kept = run-contacted r.job_id ops _ keeps marked in
      let asked : is_some entry.device_contact_at ≡ true = sym (ap contacted e) ∙ kept in
      rw asked
        (denies-reconcile_looked_up r (classify_lookup t (portos.receipt q r.code r.external_id)) q)
