-- ===== src/Device/Tim/Session.antt =====
-- One session on a terminal round one call (device_jobs/tim/ops.rs, tim/mod.rs of
-- crates/devbridge-client/src). The answers of the logout and the disconnect are only logged, so they are
-- no part of it, nor is the state of the terminal that the heartbeat tells.
use devbridge.Common.{String, Option, none, some, [], ◌∷◌, ◌⊎◌, inl, inr}
use devbridge.Common.Int.{ℤ}
use devbridge.Common.Text.{concat}
use devbridge.Device.Entry.{Outcome}
use devbridge.Device.Tasks.{Joined, returned, panicked}
use devbridge.Device.Tim.Terminal.{TimError, error_text, TimResult, ok, err, TerminalSpec}
use devbridge.Device.Tim.Purchase.Run.{wrong_terminal, tid_or}

pub data SessionError : Type 0 where
  no_library : String → SessionError
  no_terminal : ℤ → SessionError
  tim : TimError → SessionError
  wrong_terminal_id : String → Option String → SessionError
  aborted : String → SessionError

-- Its `Display`; `show` is the decimal text of an integer.
unfoldable pub session_error_text : (ℤ → String) → SessionError → String
unfolding error_text
session_error_text show (no_library why) = concat ("TIM library not loaded: " ∷ why ∷ [])
session_error_text show (no_terminal kasa) =
    concat ("till " ∷ show kasa ∷ " has no terminal_ip" ∷ [])
session_error_text show (tim e) = error_text show e
session_error_text show (wrong_terminal_id expected reported) =
    concat (
      "terminal reported id " ∷ tid_or "(none)" reported ∷ " but the till expects " ∷ expected ∷ [])
session_error_text show (aborted why) = concat ("session aborted: " ∷ why ∷ [])

-- Why a session did not reach its call: nothing was sent.
pub data SessionFail : Type 0 where
  unreachable : TimError → SessionFail
  refused : SessionError → SessionFail

abbrev refused_code : SessionError → String
refused_code (wrong_terminal_id expected reported) = "wrong_terminal"
refused_code _ = "terminal_error"

unfoldable pub fail_outcome : (ℤ → String) → String → SessionFail → Outcome
unfolding error_text session_error_text
fail_outcome show nothing (unreachable e) =
    Outcome.failed "terminal_unreachable"
      (concat ("the terminal could not be reached: " ∷ error_text show e ∷ " - " ∷ nothing ∷ []))
fail_outcome show nothing (refused e) =
    Outcome.failed (refused_code e) (concat (session_error_text show e ∷ " - " ∷ nothing ∷ []))

-- What the terminal answers before the call.
pub record Answers : Type 0 where
  pub object : TimResult (Unit {0})
  pub connect : TimResult (Unit {0})
  pub login : TimResult (Unit {0})
  pub terminal_id : TimResult (Option String)

abbrev checked_id : Option String → Option String → SessionFail ⊎ Option String
checked_id tid none = inr tid
checked_id tid (some expected) = inl (refused (wrong_terminal_id expected tid))

abbrev identified : TerminalSpec → TimResult (Option String) → SessionFail ⊎ Option String
identified spec (ok tid) = checked_id tid (wrong_terminal spec.expected_tid tid)
identified spec (err e) = inl (refused (tim e))

abbrev or_refused : TimResult (Unit {0}) → SessionFail ⊎ Option String → SessionFail ⊎ Option String
or_refused (ok u) next = next
or_refused (err e) next = inl (refused (tim e))

abbrev or_unreachable :
    TimResult (Unit {0}) → SessionFail ⊎ Option String → SessionFail ⊎ Option String
or_unreachable (ok u) next = next
or_unreachable (err e) next = inl (unreachable e)

-- The terminal id that the session starts its call with, or why it does not.
unfoldable pub opened : Answers → TerminalSpec → SessionFail ⊎ Option String
unfolding wrong_terminal
opened a spec =
    or_refused a.object
      (or_unreachable a.connect (or_refused a.login (identified spec a.terminal_id)))

abbrev pub worked {ℓ κ} :
    {S : Type ℓ} {T : Type κ}
    → (Option String → S → T × S)
    → SessionFail ⊎ Option String
    → S
    → (SessionFail ⊎ T) × S
worked work (inl fail) s = (inl fail, s)
worked work (inr tid) s = let (t, s') = work tid s in (inr t, s')

unfoldable pub with_session {ℓ κ} :
    {S : Type ℓ} {T : Type κ}
    → Answers
    → TerminalSpec
    → (Option String → S → T × S)
    → S
    → (SessionFail ⊎ T) × S
unfolding opened
with_session a spec work s = worked work (opened a spec) s

-- What the executor makes of a session; `none`: the library is not loaded.
unfoldable pub one_session {κ} :
    {T : Type κ} → (ℤ → String) → String → Option (Joined (SessionFail ⊎ T)) → Outcome ⊎ T
unfolding fail_outcome
one_session show nothing none =
    inl (
      Outcome.failed "tim_unavailable" (concat ("the TIM library is not loaded - " ∷ nothing ∷ [])))
one_session show nothing (some (panicked e)) =
    inl (Outcome.indeterminate (concat ("the session thread died: " ∷ e ∷ [])))
one_session show nothing (some (returned (inl fail))) = inl (fail_outcome show nothing fail)
one_session show nothing (some (returned (inr t))) = inr t
