-- ===== src/Device/Card/Trace.antt =====
-- The journal under any sequence of operations on its jobs and on its card payments
-- (device_jobs/journal.rs, journal_card.rs of crates/devbridge-client/src).
use devbridge.Common.{ℕ, suc, String, Bool, false, ◌&&◌, List, [], ◌∷◌, ◌==◌, if◌then◌else◌}
use devbridge.Common.Int.{ℤ, int_eq}
use devbridge.Common.Result.{Result, ok, err}
use devbridge.Device.Journal.Trace.{Op, apply, Keeps}
use devbridge.Device.Card
use devbridge.Device.Card.{Transaction, CardJournal}

pub data Event : Type 0 where
  job : Op → Event
  card_contact_of : ℕ → ℤ → Transaction → Event
  card_authorized : ℕ → ℤ → ℤ → String → Event
  card_transacted : ℤ → ℤ → Event
  card_ended : ℕ → ℤ → Event
  card_for_person : ℤ → String → Event
  mark_card_auth_acked : ℤ → String → Event

-- Pruning the jobs drops the card rows of the jobs that are gone.
abbrev pub after_job : Op → CardJournal → CardJournal
after_job (Op.prune now) s = Card.prune_card_payments s
after_job _ s = s

unfoldable pub event : Event → CardJournal → CardJournal
unfolding apply
event (job op) s = after_job op (record s { jobs = apply op s.jobs })
event (card_contact_of now k t) s = (Card.card_contact_of now k t s).0
event (card_authorized now k trans_seq result) s = (Card.card_authorized now k trans_seq result s).0
event (card_transacted k trans_seq) s = (Card.card_transacted k trans_seq s).0
event (card_ended now k) s = (Card.card_ended now k s).0
event (card_for_person k reason) s = (Card.card_for_person k reason s).0
event (mark_card_auth_acked k note) s = (Card.mark_card_auth_acked k note s).0

unfoldable pub run : List Event → CardJournal → CardJournal
unfolding event
run [] s = s
run (e ∷ es) s = run es (event e s)

abbrev pub is_yes : Result Bool → Bool
is_yes (ok answer) = answer
is_yes (err e) = false

-- Whether the event lets its caller ask the terminal for job `k`.
unfoldable pub asks : ℤ → Event → CardJournal → Bool
asks k (card_contact_of now j t) s = j == k && is_yes (Card.card_contact_of now j t s).1
asks k _ s = false

-- How often the terminal was asked for job `k`.
unfoldable pub times_asked : ℤ → List Event → CardJournal → ℕ
unfolding event asks
times_asked k [] s = 0
times_asked k (e ∷ es) s =
    let rest = times_asked k es (event e s) in if asks k e s then suc rest else rest

-- Anything but pruning.
abbrev pub KeepsJobs : Event → Type 0
KeepsJobs (job op) = Keeps op
KeepsJobs _ = Unit
