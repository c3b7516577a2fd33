-- ===== src/Device/Journal/Machine.antt =====
-- The life of one job as a machine of its own, and the journal as an implementation of it for every
-- job (device_jobs/journal.rs, journal_lan.rs of crates/devbridge-client/src).
use devbridge.Common.{
  ◌≡◌, refl, ap, Bool, true, false, not, ◌&&◌, Option, none, some, ◌⊎◌, ◌==◌, if◌then◌else◌, inl,
  inr, Bool-cases,
}
use devbridge.Common.Int.{ℤ, int_eq}
use devbridge.Common.Table.{after}
use devbridge.Device.Entry.{
  JobState, received, executing, done, failed, indeterminate, is_open, is_received, JournalEntry,
}
use devbridge.Device.Journal.Store.{Journal, Table, get, is_lan_job, update_row}
use devbridge.Device.Journal.Operations.{update_device}
use devbridge.Device.Journal.Rows.{get-update_row, get-update_device, table_of}

-- What may happen to a job: it comes in, perhaps to be refused at once; its execution starts; it ends
-- without one; its execution or its reconciliation has an outcome; the outcome is lost.
pub data Move : Option JobState → Option JobState → Type 0 where
  arrives : Move none (some received)
  refused : Move none (some failed)
  starts : (s : JobState) → is_received s ≡ true → Move (some s) (some executing)
  succeeds : (s : JobState) → is_open s ≡ true → Move (some s) (some done)
  fails : (s : JobState) → is_open s ≡ true → Move (some s) (some failed)
  lost : (s : JobState) → is_open s ≡ true → Move (some s) (some indeterminate)

-- Any number of moves.
pub data Moves : Option JobState → Option JobState → Type 0 where
  stays : {o : Option JobState} → Moves o o
  moves : {o p q : Option JobState} → Move o p → Moves p q → Moves o q

-- The machine's state of a job: that of its row.
abbrev pub state_of : Option JournalEntry → Option JobState
state_of none = none
state_of (some e) = some e.state

-- One move, or none.
abbrev pub Step : Option JobState → Option JobState → Type 0
Step o p = (p ≡ o) ⊎ Move o p

pub after-Step :
    (test : JournalEntry → Bool) (set : JournalEntry → JournalEntry)
    → ((e : JournalEntry) → test e ≡ true → Step (some e.state) (some (set e).state))
    → (o : Option JournalEntry) → Step (state_of o) (state_of (after test set o))
after-Step test set move none = inl refl
after-Step test set move (some e) = elim (Bool-cases (test e)) [
  | inl h ↦ rw h (move e h)
  | inr h ↦ rw h (inl refl)
]

if-Step :
    (b : Bool) (o p : Option JournalEntry)
    → Step (state_of o) (state_of p)
    → Step (state_of o) (state_of (if b then p else o))
if-Step true o p h = h
if-Step false o p h = inl refl

pub update_row-Step :
    (j k : ℤ) (test : JournalEntry → Bool) (set : Table → JournalEntry → JournalEntry) (s : Journal)
    → ((t : Table) (e : JournalEntry) → test e ≡ true → Step (some e.state) (some (set t e).state))
    → Step (state_of (get j s)) (state_of (get j (update_row k test set s).0))
update_row-Step j k test set s move = rw (get-update_row j k test set s) (
    if-Step (k == j) (get j s) (after test (set (table_of k)) (get j s))
      (after-Step test (set (table_of k)) (move (table_of k)) (get j s)))

-- The statements on Odoo's jobs alone leave their states.
pub update_device-Step :
    (j k : ℤ) (test : JournalEntry → Bool) (set : JournalEntry → JournalEntry) (s : Journal)
    → ((e : JournalEntry) → (set e).state ≡ e.state)
    → Step (state_of (get j s)) (state_of (get j (update_device k test set s).0))
update_device-Step j k test set s same = rw (get-update_device j k test set s) (
    if-Step (k == j && not (is_lan_job j)) (get j s) (after test set (get j s))
      (after-Step test set (λ e h. inl (ap some (same e))) (get j s)))
