-- ===== src/Device/Card/AskedOnce.antt =====
-- A terminal is asked for a job once at most (device_jobs/journal_card.rs of
-- crates/devbridge-client/src).
use devbridge.Common.{
  ℕ, one_if, ap, sym, ◌∙◌, ◌+◌, ◌≤◌, ◌≡◌, refl, Bool, true, false, List, [], ◌∷◌, arith, All, some,
  is_some, Bool-cases, Option-cases, inl, inr,
}
use devbridge.Common.Int.{ℤ, pos, int_eq, int_beq_iff}
use devbridge.Common.Table.{find, find-update}
use devbridge.Device.Entry.{at, JournalEntry}
use devbridge.Device.Journal.Store.{Journal, get, is_lan_job}
use devbridge.Device.Journal.Operations.{update_device}
use devbridge.Device.Journal.Rows.{get-update_device}
use devbridge.Device.Journal.Evolution.{contacted, apply-Evolves}
use devbridge.Device.Journal.Trace.{Op, Keeps, apply}
use devbridge.Device.Card
use devbridge.Device.Card.{
  CardJournal, Transaction, may_contact, insert_payment, contacted_payment, CardPayment,
}
use devbridge.Device.Card.Trace.{Event, event, after_job, asks, times_asked, KeepsJobs, is_yes}

-- What the insert of the card row leaves of the jobs: the update of the job's row, or nothing of it.
jobs-insert_payment :
    (P : Journal → Type 0) (k : ℤ) (p : CardPayment) (x : Journal × Bool) (s : CardJournal)
    → P s.jobs
    → P x.0
    → P (insert_payment k p x s).0.jobs
jobs-insert_payment P k p (jobs, false) s old new = old
jobs-insert_payment P k p (jobs, true) s old new =
    elim (Bool-cases (is_some (find k s.card_payments))) [ inl e ↦ rw e old | inr e ↦ rw e new ]

pub granted-insert_payment :
    (k : ℤ) (p : CardPayment) (x : Journal × Bool) (s : CardJournal)
    → is_yes (insert_payment k p x s).1 ≡ true
    → (x.1 ≡ true) × ((insert_payment k p x s).0.jobs ≡ x.0)
granted-insert_payment k p (jobs, false) s h = ground (arith, h)
granted-insert_payment k p (jobs, true) s h = elim (Bool-cases (is_some (find k s.card_payments))) [
  | inl e ↦ ground (arith, e, h)
  | inr e ↦ rw e (refl, refl)
]

abbrev pub with_contact : ℕ → JournalEntry → JournalEntry
with_contact now e = record e { device_contact_at = some (at now); updated_at = at now }

contacted-update_device :
    (now n : ℕ) (k : ℤ) (s : Journal)
    → contacted (get (pos n) s) ≡ true
    → contacted (get (pos n) (update_device k may_contact (with_contact now) s).0) ≡ true
contacted-update_device now n k s h = rw get-update_device (ground (arith, h))

first_contact :
    (now n : ℕ) (s : Journal)
    → (update_device (pos n) may_contact (with_contact now) s).1 ≡ true
    → (contacted (get (pos n) s) ≡ false)
      × (contacted (get (pos n) (update_device (pos n) may_contact (with_contact now) s).0) ≡ true)
unfolding update_device get is_lan_job
first_contact now n s h = elim (Option-cases (find (pos n) s.device_jobs)) [
  | inl e ↦ ground (arith, e, h)
  | inr (r, e) ↦
      ground (arith, e, h, find-update (pos n) (pos n) may_contact (with_contact now) s.device_jobs)
]

pub same_after_job : (op : Op) (s : CardJournal) → Keeps op → after_job op s ≡ s
same_after_job (Op.prune now) s h = absurd h
same_after_job _ s h = refl

pub contacted-event :
    (n : ℕ) (e : Event) (s : CardJournal)
    → KeepsJobs e
    → contacted (get (pos n) s.jobs) ≡ true
    → contacted (get (pos n) (event e s).jobs) ≡ true
unfolding event Card.card_contact_of Card.card_authorized Card.card_transacted Card.card_ended
    Card.card_for_person Card.mark_card_auth_acked Card.update_payment
contacted-event n (Event.job op) s h c =
    ap (λ x. contacted (get (pos n) x.jobs))
      (same_after_job op (record s { jobs = apply op s.jobs }) h)
    ∙ (apply-Evolves op (pos n) s.jobs h).contact c
contacted-event n (Event.card_contact_of now k t) s h c =
    jobs-insert_payment (λ j. contacted (get (pos n) j) ≡ true) k (contacted_payment now t)
      (update_device k may_contact (with_contact now) s.jobs) s c
      (contacted-update_device now n k s.jobs c)
contacted-event n (Event.card_authorized now k seq result) s h c = c
contacted-event n (Event.card_transacted k seq) s h c = c
contacted-event n (Event.card_ended now k) s h c = c
contacted-event n (Event.card_for_person k reason) s h c = c
contacted-event n (Event.mark_card_auth_acked k note) s h c = c

granted_contact :
    (now n : ℕ) (t : Transaction) (s : CardJournal)
    → is_yes (Card.card_contact_of now (pos n) t s).1 ≡ true
    → (contacted (get (pos n) s.jobs) ≡ false)
      × (contacted (get (pos n) (Card.card_contact_of now (pos n) t s).0.jobs) ≡ true)
unfolding Card.card_contact_of
granted_contact now n t s h =
    let x = update_device (pos n) may_contact (with_contact now) s.jobs in
    let granted = granted-insert_payment (pos n) (contacted_payment now t) x s h in
    let first = first_contact now n s.jobs granted.0 in
    (first.0, ap (λ j. contacted (get (pos n) j)) granted.1 ∙ first.1)

pub granted_at :
    (now n : ℕ) (k : ℤ) (t : Transaction) (s : CardJournal)
    → k ≡ pos n
    → is_yes (Card.card_contact_of now k t s).1 ≡ true
    → (contacted (get (pos n) s.jobs) ≡ false)
      × (contacted (get (pos n) (Card.card_contact_of now k t s).0.jobs) ≡ true)
granted_at now n k t s e h = rw e (granted_contact now n t s (rw (sym e) h))

asks-event :
    (n : ℕ) (e : Event) (s : CardJournal)
    → asks (pos n) e s ≡ true
    → (contacted (get (pos n) s.jobs) ≡ false) × (contacted (get (pos n) (event e s).jobs) ≡ true)
unfolding asks event
asks-event n (Event.card_contact_of now k t) s h =
    ground (arith, int_beq_iff k (pos n), granted_at now n k t s)
asks-event n _ s h = cc

-- Over any operations on jobs and on card payments but pruning, whatever their order, the terminal of an
-- Odoo job is asked once at most, and not again for a job whose terminal was asked before.
pub asked_once :
    (n : ℕ) (es : List Event) (s : CardJournal)
    → All KeepsJobs es
    → times_asked (pos n) es s + one_if (contacted (get (pos n) s.jobs)) ≤ 1
unfolding times_asked
asked_once n [] s h = ground arith
asked_once n (e ∷ es) s h =
    ground (arith, contacted-event n e s h.0, asks-event n e s, asked_once n es (event e s) h.1)
