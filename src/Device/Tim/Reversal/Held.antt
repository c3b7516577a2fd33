-- ===== src/Device/Tim/Reversal/Held.antt =====
-- The journal holds the reversal that a job asked for (device_jobs/tim/ops.rs, journal_card.rs of
-- crates/devbridge-client/src), from the contact on.
use devbridge.Common.{
  ℕ, ◌≡◌, refl, sym, ◌∙◌, Bool, true, false, String, Option, none, some, List, Option-cases, inl,
  inr, All, [], ◌∷◌,
}
use mathlib.Core.Bool.{false≢true}
use devbridge.Common.Int.{ℤ, pos, int_eq}
use devbridge.Common.Table.{find}
use devbridge.Common.Result.{Result}
use devbridge.Device.Entry.{JobState}
use devbridge.Device.Journal.Store.{get}
use devbridge.Device.Journal.Evolution.{contacted}
use devbridge.Device.Journal.Operations.{update_device}
use devbridge.Device.Card.{CardJournal, card_contact_of, may_contact, contacted_payment}
use devbridge.Device.Card.Trace.{Event, event, run, KeepsJobs, is_yes}
use devbridge.Device.Card.AskedOnce.{granted_at, with_contact, contacted-event}
use devbridge.Device.Card.Stays.{Holds, run-Holds}
use devbridge.Device.Card.Reversals.{IsReversal, IsReversal-IsKept, find-granted}
use devbridge.Device.Tim.Reversal
use devbridge.Device.Tim.Reversal.{Asked, ReversalRun, ReversalEnd, Sent, reversal_contact}

-- The journal holds the reversal of `seq` on the terminal at `ip`, asked for job `n`.
pub record IsHeld (ip : String) (seq : ℤ) (n : ℕ) (s : CardJournal) : Type 0 where
  pub row : Holds (IsReversal ip seq) (find (pos n) s.card_payments)
  pub asked : contacted (get (pos n) s.jobs) ≡ true

contacted-run :
    (n : ℕ) (es : List Event) (s : CardJournal)
    → All KeepsJobs es
    → contacted (get (pos n) s.jobs) ≡ true
    → contacted (get (pos n) (run es s).jobs) ≡ true
unfolding run
contacted-run n [] s h c = c
contacted-run n (e ∷ es) s h c = contacted-run n es (event e s) h.1 (contacted-event n e s h.0 c)

pub run-IsHeld :
    (ip : String) (seq : ℤ) (n : ℕ) (es : List Event) (s : CardJournal)
    → All KeepsJobs es
    → IsHeld ip seq n s
    → IsHeld ip seq n (run es s)
run-IsHeld ip seq n es s h held = record {
  row = run-Holds (IsReversal ip seq) (pos n) (IsReversal-IsKept ip seq) es s h held.row;
  asked = contacted-run n es s h held.asked;
}

module _ (a : Asked) (r : ReversalRun) where
  -- The terminal is asked exactly where the contact was granted.
  pub contacted_reversal-sends :
      (tid : Option String) (c : Result Bool) (s : CardJournal)
      → ((Reversal.contacted_reversal a r tid c s).0.1 ≡ is_yes c)
        × ((Reversal.contacted_reversal a r tid c s).1 ≡ s)
  unfolding Reversal.contacted_reversal
  contacted_reversal-sends tid (Result.ok true) s = (refl, refl)
  contacted_reversal-sends tid (Result.ok false) s = (refl, refl)
  contacted_reversal-sends tid (Result.err e) s = (refl, refl)

  abbrev pub contact_of : CardJournal → CardJournal × Result Bool
  contact_of s = card_contact_of a.now r.job_id (reversal_contact a r) s

  granted-IsHeld :
      (n : ℕ) (s : CardJournal)
      → r.job_id ≡ pos n
      → is_yes (contact_of s).1 ≡ true
      → IsHeld r.ip r.trans_seq n (contact_of s).0
  unfolding card_contact_of reversal_contact
  granted-IsHeld n s e h = record {
    row = rw (sym e) (
        rw
          (find-granted r.job_id (contacted_payment a.now (reversal_contact a r))
            (update_device r.job_id may_contact (with_contact a.now) s.jobs) s h)
          (refl, refl, refl));
    asked = (granted_at a.now n r.job_id (reversal_contact a r) s e h).1;
  }

  unless_reversed-IsHeld :
      (n : ℕ) (tid : Option String) (o : Option (ℤ × JobState)) (s : CardJournal)
      → r.job_id ≡ pos n
      → (Reversal.unless_reversed a r tid o s).0.1 ≡ true
      → IsHeld r.ip r.trans_seq n (Reversal.unless_reversed a r tid o s).1
  unfolding Reversal.unless_reversed
  unless_reversed-IsHeld n tid (some x) s e h = absurd (false≢true h)
  unless_reversed-IsHeld n tid none s e h =
      let sends = contacted_reversal-sends tid (contact_of s).1 (contact_of s).0 in
      rw sends.1 (granted-IsHeld n s e (sym sends.0 ∙ h))

  pub on_its_terminal-IsHeld :
      (n : ℕ) (tid wanted : Option String) (s : CardJournal)
      → r.job_id ≡ pos n
      → (Reversal.on_its_terminal a r tid wanted s).0.1 ≡ true
      → IsHeld r.ip r.trans_seq n (Reversal.on_its_terminal a r tid wanted s).1
  unfolding Reversal.on_its_terminal
  on_its_terminal-IsHeld n tid (some w) s e h = absurd (false≢true h)
  on_its_terminal-IsHeld n tid none s e h = unless_reversed-IsHeld n tid _ s e h

  pub outcome-IsHeld :
      (ip : String) (seq : ℤ) (n : ℕ) (end : ReversalEnd) (s : CardJournal)
      → IsHeld ip seq n s
      → IsHeld ip seq n (Reversal.reversal_outcome a r.job_id end s).1
  unfolding Reversal.reversal_outcome event run
  outcome-IsHeld ip seq n (ReversalEnd.done facts tid) s held =
      elim (Option-cases facts.trans_seq) [
        | inl e ↦ rw e held
        | inr (t, e) ↦
            rw e (run-IsHeld ip seq n (Event.card_transacted r.job_id t ∷ []) s (tt, tt) held)
      ]
  outcome-IsHeld ip seq n (ReversalEnd.refused code why) s held = held
  outcome-IsHeld ip seq n (ReversalEnd.unknown why) s held =
      run-IsHeld ip seq n (Event.card_ended a.now r.job_id ∷ []) s (tt, tt) held
