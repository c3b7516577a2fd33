-- ===== src/Device/Tim/Reversal/Once.antt =====
-- A transaction is reversed once (device_jobs/tim/ops.rs, journal_card.rs of
-- crates/devbridge-client/src): no job asks for a reversal that another one asked for.
use devbridge.Common.{
  ℕ, ◌≡◌, refl, sym, ◌∙◌, Bool, true, false, String, Option, none, some, is_some, List, arith,
  Bool-cases, Option-cases, inl, inr, ◌==◌, All, ◌⊎◌,
}
use mathlib.Core.Bool.{false≢true}
use devbridge.Common.Int.{ℤ, pos, int_eq, int_beq_iff}
use devbridge.Common.Table.{find, passes}
use devbridge.Device.Entry.{JobState, Outcome}
use devbridge.Device.Journal.Store.{get, is_lan_job}
use devbridge.Device.Journal.Evolution.{contacted}
use devbridge.Device.Card.{CardJournal, card_other_reversal, is_failed}
use devbridge.Device.Card.Trace.{Event, run, KeepsJobs, is_yes}
use devbridge.Device.Card.AskedOnce.{granted_at}
use devbridge.Device.Card.Reversals.{card_other_reversal-found}
use devbridge.Device.Tim.Terminal.{TerminalSpec}
use devbridge.Device.Tasks.{returned}
use devbridge.Device.Tim.Session.{Answers, SessionFail, opened, worked, with_session, one_session}
use devbridge.Device.Tim.Reversal
use devbridge.Device.Tim.Reversal.{Asked, ReversalRun, ReversalEnd, Sent, reversal_contact}
use devbridge.Device.Tim.Reversal.Held.{
  IsHeld, run-IsHeld, contacted_reversal-sends, contact_of, on_its_terminal-IsHeld, outcome-IsHeld,
}

module _ (a : Asked) (r : ReversalRun) where
  -- Where another job's reversal is held and did not fail, and where this job's own is, none is sent.
  unless_reversed-blocked :
      (tid : Option String) (o : Option (ℤ × JobState)) (s : CardJournal)
      → (is_some o ≡ true) ⊎ (is_yes (contact_of a r s).1 ≡ false)
      → (Reversal.unless_reversed a r tid o s).0.1 ≡ false
  unfolding Reversal.unless_reversed
  unless_reversed-blocked tid (some x) s h = refl
  unless_reversed-blocked tid none s (inl h) = absurd (false≢true h)
  unless_reversed-blocked tid none s (inr h) =
      (contacted_reversal-sends a r tid (contact_of a r s).1 (contact_of a r s).0).0 ∙ h

  regranted :
      (n : ℕ) (s : CardJournal)
      → r.job_id ≡ pos n
      → contacted (get (pos n) s.jobs) ≡ true
      → is_yes (contact_of a r s).1 ≡ false
  regranted n s e c = elim (Bool-cases (is_yes (contact_of a r s).1)) [
    | inl y ↦
        absurd (false≢true (sym (granted_at a.now n r.job_id (reversal_contact a r) s e y).0 ∙ c))
    | inr n ↦ n
  ]

  blocked :
      (n : ℕ) (s : CardJournal)
      → IsHeld r.ip r.trans_seq n s
      → passes (λ e. is_failed e.state) (get (pos n) s.jobs) ≡ false
      → (is_some (card_other_reversal r.ip r.trans_seq r.job_id s) ≡ true)
        ⊎ (is_yes (contact_of a r s).1 ≡ false)
  unfolding get is_lan_job
  blocked n s held fine = elim (Option-cases (find (pos n) s.jobs.device_jobs)) [
    | inl e ↦ absurd (false≢true (ground (arith, e, held.asked)))
    | inr (entry, e) ↦ elim (Bool-cases (pos n == r.job_id)) [
      | inl same ↦ inr (regranted n s ((sym ((int_beq_iff (pos n) r.job_id).0 same))) held.asked)
      | inr other ↦ inl (
          card_other_reversal-found r.ip r.trans_seq (pos n) r.job_id entry s held.row e
            (ground (arith, e, fine)) other)
    ]
  ]

  on_its_terminal-blocked :
      (n : ℕ) (tid wanted : Option String) (s : CardJournal)
      → IsHeld r.ip r.trans_seq n s
      → passes (λ e. is_failed e.state) (get (pos n) s.jobs) ≡ false
      → (Reversal.on_its_terminal a r tid wanted s).0.1 ≡ false
  unfolding Reversal.on_its_terminal
  on_its_terminal-blocked n tid (some w) s held fine = refl
  on_its_terminal-blocked n tid none s held fine =
      unless_reversed-blocked tid _ s (blocked n s held fine)

  abbrev session : SessionFail ⊎ Option String → CardJournal → (SessionFail ⊎ Sent) × CardJournal
  session = worked (Reversal.reversal_run a r)

  -- A reversal job as the session that it opens.
  abbrev job_of : SessionFail ⊎ Option String → CardJournal → (Outcome × Bool) × CardJournal
  job_of o s =
      Reversal.reported a r
        (one_session a.show "nothing reversed" (some (returned (session o s).0))) (session o s).1

  job_of-IsHeld :
      (n : ℕ) (o : SessionFail ⊎ Option String) (s : CardJournal)
      → r.job_id ≡ pos n
      → (job_of o s).0.1 ≡ true
      → IsHeld r.ip r.trans_seq n (job_of o s).1
  unfolding one_session Reversal.reversal_run
  job_of-IsHeld n (inl fail) s e h = absurd (false≢true h)
  job_of-IsHeld n (inr tid) s e h =
      outcome-IsHeld a r r.ip r.trans_seq n _ _ (on_its_terminal-IsHeld a r n tid _ s e h)

  job_of-blocked :
      (n : ℕ) (o : SessionFail ⊎ Option String) (s : CardJournal)
      → IsHeld r.ip r.trans_seq n s
      → passes (λ e. is_failed e.state) (get (pos n) s.jobs) ≡ false
      → (job_of o s).0.1 ≡ false
  unfolding one_session Reversal.reversal_run
  job_of-blocked n (inl fail) s held fine = refl
  job_of-blocked n (inr tid) s held fine = on_its_terminal-blocked n tid _ s held fine

  reversal-IsHeld :
      (n : ℕ) (spec : TerminalSpec) (o : Option Answers) (s : CardJournal)
      → r.job_id ≡ pos n
      → (Reversal.reversal a r spec o s).0.1 ≡ true
      → IsHeld r.ip r.trans_seq n (Reversal.reversal a r spec o s).1
  unfolding Reversal.reversal with_session one_session
  reversal-IsHeld n spec none s e h = absurd (false≢true h)
  reversal-IsHeld n spec (some answers) s e h = job_of-IsHeld n (opened answers spec) s e h

  reversal-blocked :
      (n : ℕ) (spec : TerminalSpec) (o : Option Answers) (s : CardJournal)
      → IsHeld r.ip r.trans_seq n s
      → passes (λ e. is_failed e.state) (get (pos n) s.jobs) ≡ false
      → (Reversal.reversal a r spec o s).0.1 ≡ false
  unfolding Reversal.reversal with_session one_session
  reversal-blocked n spec none s held fine = refl
  reversal-blocked n spec (some answers) s held fine =
      job_of-blocked n (opened answers spec) s held fine

-- Once the terminal was asked to reverse a transaction for a job of Odoo's, and after any operations on
-- jobs and on card payments but pruning, no job asks that terminal to reverse it again, as long as the
-- first job has not failed.
pub reversed_once :
    (a b : Asked) (r q : ReversalRun) (spec other : TerminalSpec) (answers later : Option Answers)
    (n : ℕ) (es : List Event) (s : CardJournal)
    → r.job_id ≡ pos n
    → (Reversal.reversal a r spec answers s).0.1 ≡ true
    → All KeepsJobs es
    → passes
        (λ e. is_failed e.state)
        (get (pos n) (run es (Reversal.reversal a r spec answers s).1).jobs)
      ≡ false
    → q.ip ≡ r.ip
    → q.trans_seq ≡ r.trans_seq
    → (Reversal.reversal b q other later (run es (Reversal.reversal a r spec answers s).1)).0.1
      ≡ false
reversed_once a b r q spec other answers later n es s e sent keeps fine ip seq =
    let held =
      run-IsHeld r.ip r.trans_seq n es _ keeps (reversal-IsHeld a r n spec answers s e sent) in
    reversal-blocked b q n other later _ (rw ip (rw seq held)) fine
