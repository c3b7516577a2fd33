-- ===== src/Device/Journal/Implements.antt =====
-- The journal implements the machine of every job
-- (device_jobs/journal.rs, journal_lan.rs of crates/devbridge-client/src).
use mathlib.Core.Path.{subst}
use devbridge.Common.{
  ℕ, suc, ◌+◌, ◌≡◌, refl, ap, Bool, true, false, not, ◌&&◌, Option, none, some, is_some, ◌⊎◌, List,
  [], ◌∷◌, arith, ◌==◌, if◌then◌else◌, All, String, inl, inr, Option-cases, Bool-cases,
}
use devbridge.Common.Int.{ℤ, pos, negsuc, int_eq}
use devbridge.Common.Table.{find, after, find-update, find-insert}
use devbridge.Device.Entry.{
  DeviceJob, JobState, received, executing, done, failed, indeterminate, is_open, is_received,
  is_in_flight, is_final, JournalEntry, Outcome,
}
use devbridge.Device.Journal.Store.{
  Journal, Table, odoo_table, lan_table, owe_unknown, get, is_lan_job, LanJob, lan_job_id, on_entry,
  entry_of,
}
use devbridge.Device.Journal.Operations
use devbridge.Device.Journal.Operations.{insert_job, new_entry, store_outcome, update_device}
use devbridge.Device.Journal.Sweeps
use devbridge.Device.Journal.Sweeps.{restarted, in_flight}
use devbridge.Device.Journal.Lan
use devbridge.Device.Journal.Lan.{coalesce, insert_new, insert_at, insert_for, lan_job}
use devbridge.Device.Journal.Evolution.{device_jobs-insert_at}
use devbridge.Device.Journal.Rows.{get-insert_job, get-recover_after_restart}
use devbridge.Device.Journal.Trace.{Op, apply, run, Keeps}
use devbridge.Device.Journal.Machine.{
  arrives, refused, starts, succeeds, fails, lost, Moves, stays, moves, Step, state_of, after-Step,
  update_row-Step, update_device-Step,
}

insert_job-Step :
    (j : ℤ) (now : ℕ) (job : DeviceJob) (refusal : Option (String × String)) (s : Journal)
    → Step (state_of (get j s)) (state_of (get j (insert_job now job refusal s).0))
insert_job-Step j now job refusal s =
    rw (get-insert_job j now job refusal s)
      (inserted (get j s) (job.id == j && not (is_lan_job j)) refusal)
  where
    inserted :
        (o : Option JournalEntry) (b : Bool) (refusal : Option (String × String))
        → Step (state_of o) (
            state_of
              (if is_some o then o else if b then some (new_entry now job refusal) else none))
    inserted (some e) b refusal = inl refl
    inserted none false refusal = inl refl
    inserted none true none = inr arrives
    inserted none true (some (code, text)) = inr refused

outcome-Step :
    (now : ℕ) (o : Outcome) (t : Table) (e : JournalEntry)
    → is_open e.state ≡ true
    → Step (some e.state) (some (store_outcome now o t e).state)
outcome-Step now (Outcome.done r) t e h = inr (succeeds e.state h)
outcome-Step now (Outcome.failed code text) t e h = inr (fails e.state h)
outcome-Step now (Outcome.indeterminate reason) t e h = inr (lost e.state h)

open_of : (s : JobState) → (is_received s ≡ true) ⊎ (is_in_flight s ≡ true) → is_open s ≡ true
open_of received h = refl
open_of executing h = refl
open_of indeterminate h = refl
open_of done h = ground (arith, h)
open_of failed h = ground (arith, h)

-- What the insert of a LAN job leaves in a row.
new_lan_row :
    (o : Option LanJob) (b : Bool) (l : LanJob)
    → l.entry.state ≡ received
    → Step
        (state_of (entry_of o))
        (state_of (entry_of (if is_some o then o else if b then some l else none)))
new_lan_row (some k) b l e = inl refl
new_lan_row none false l e = inl refl
new_lan_row none true l e = rw e (inr arrives)

insert_lan-Step :
    (j : ℤ) (now : ℕ) (job : DeviceJob) (s : Journal)
    → Step (state_of (get j s)) (state_of (get j (Lan.insert_lan_received now job s).0))
unfolding Lan.insert_lan_received
insert_lan-Step (pos j) now job s =
    unfold get in rw (device_jobs-insert_at now job.kasa_id job s) (inl refl)
insert_lan-Step (negsuc j) now job s = of_till job.kasa_id
  where
    of_new :
        (kasa : ℤ)
        → Step
            (state_of (get (negsuc j) s))
            (state_of (get (negsuc j) (insert_new now kasa job s).0))
    of_new kasa =
        unfold get in
        rw find-insert
          (new_lan_row (find (pos (suc j)) s.lan_jobs) (pos (s.lan_seq + 1) == pos (suc j)) _ refl)

    of_till :
        (kasa : Option ℤ)
        → Step
            (state_of (get (negsuc j) s))
            (state_of (get (negsuc j) (insert_at now kasa job s).0))
    of_till none = unfold insert_at in inl refl
    of_till (some kasa) =
        unfold insert_at insert_for in
        elim (Option-cases (lan_job kasa job.client_uuid s)) [
          | inl e ↦ rw e (of_new kasa)
          | inr (l, e) ↦ rw e (inl refl)
        ]

lan_row-Step :
    (b : Bool) (o : Option LanJob) (test : LanJob → Bool) (set : LanJob → LanJob)
    → ((l : LanJob) → (set l).entry.state ≡ l.entry.state)
    → Step (state_of (entry_of o)) (state_of (entry_of (if b then after test set o else o)))
lan_row-Step false o test set same = inl refl
lan_row-Step true none test set same = inl refl
lan_row-Step true (some l) test set same = elim (Bool-cases (test l)) [
  | inl h ↦ rw h (inl (ap some (same l)))
  | inr h ↦ rw h (inl refl)
]

mark_lan-Step :
    (j k : ℤ) (odoo : Option ℤ) (note : String) (s : Journal)
    → Step (state_of (get j s)) (state_of (get j (Lan.mark_lan_reported k odoo note s).0))
unfolding Lan.mark_lan_reported get
mark_lan-Step (pos j) k odoo note s = inl refl
mark_lan-Step (negsuc j) k odoo note s = rw find-update (
    lan_row-Step (lan_job_id k == pos (suc j)) (find (pos (suc j)) s.lan_jobs)
      (on_entry (λ e. is_final e.state))
      (λ l. record l {
        entry = record l.entry { acked = true; ack_note = some note };
        odoo_job_id = coalesce odoo l.odoo_job_id;
      })
      (λ l. refl))

recover-Step :
    (j : ℤ) (now : ℕ) (s : Journal)
    → Step (state_of (get j s)) (state_of (get j (Sweeps.recover_after_restart now s).0))
recover-Step j now s = rw (get-recover_after_restart j now s) (
    after-Step in_flight (restarted now) (λ e h. inr (lost e.state (open_of e.state (inr h))))
      (get j s))

owe_unknown_state : (t : Table) (e : JournalEntry) → (owe_unknown t e).state ≡ e.state
owe_unknown_state odoo_table e = refl
owe_unknown_state lan_table e = refl

-- Each operation of the journal but pruning makes one move of the machine of each job, or none.
apply-Step :
    (op : Op) (j : ℤ) (s : Journal)
    → Keeps op
    → Step (state_of (get j s)) (state_of (get j (apply op s)))
unfolding apply Operations.insert_received Operations.insert_refused Operations.start_execution
    Operations.record_outcome Operations.fail_unstarted Operations.mark_device_contact
    Operations.record_still_unknown Operations.mark_acked Operations.mark_reported
    Operations.reopen_ack
apply-Step (Op.insert_received now job) j s h = insert_job-Step j now job none s
apply-Step (Op.insert_refused now job code text) j s h =
    insert_job-Step j now job (some (code, text)) s
apply-Step (Op.insert_lan_received now job) j s h = insert_lan-Step j now job s
apply-Step (Op.start_execution now k) j s h =
    update_row-Step j k _ _ s (λ t e r. inr (starts e.state r))
apply-Step (Op.record_outcome now k o) j s h =
    update_row-Step j k _ (store_outcome now o) s (outcome-Step now o)
apply-Step (Op.fail_unstarted now k code text) j s h =
    update_row-Step j k _ _ s (λ t e r. inr (fails e.state (open_of e.state (inl r))))
apply-Step (Op.mark_device_contact now k) j s h = update_row-Step j k _ _ s (λ t e r. inl refl)
apply-Step (Op.record_still_unknown now k reason) j s h =
    update_row-Step j k _ _ s (λ t e r. inl (ap some (owe_unknown_state t e)))
apply-Step (Op.recover_after_restart now) j s h = recover-Step j now s
apply-Step (Op.mark_acked now k note) j s h = update_device-Step j k _ _ s (λ e. refl)
apply-Step (Op.mark_reported now k) j s h = update_device-Step j k _ _ s (λ e. refl)
apply-Step (Op.reopen_ack now k) j s h = update_device-Step j k _ _ s (λ e. refl)
apply-Step (Op.mark_lan_reported k odoo note) j s h = mark_lan-Step j k odoo note s
apply-Step (Op.prune now) j s h = absurd h

chained : {o p q : Option JobState} → Step o p → Moves p q → Moves o q
chained {q = q} (inl e) ms = subst (λ o. Moves o q) e ms
chained (inr m) ms = moves m ms

-- The journal implements the machine for every job: over any operations but pruning, whatever their
-- order, the state of a job's row goes where the moves of its own machine lead, and nowhere else.
pub run-Moves :
    (ops : List Op) (j : ℤ) (s : Journal)
    → All Keeps ops
    → Moves (state_of (get j s)) (state_of (get j (run ops s)))
unfolding run
run-Moves [] j s h = stays
run-Moves (op ∷ ops) j s h = chained (apply-Step op j s h.0) (run-Moves ops j (apply op s) h.1)
