-- ===== src/Device/Tim/Purchase/Defs.antt =====
-- One two-phase card payment on its terminal: the requests, the ends, and what the session is held
-- against (device_jobs/tim/purchase.rs of crates/devbridge-client/src). The terminal, the journal and
-- the settle queue are an `Environment` that answers from everything that happened in the session so
-- far; moments and durations are milliseconds.
use devbridge.Common.{ℕ, ◌+◌, String, Bool, Option, List, [], ◌∷◌, ◌==◌, if◌then◌else◌}
use devbridge.Common.Int.{ℤ, int_eq}
use devbridge.Common.Text.{concat}
use devbridge.Device.Tim.Terminal.{
  TimError, error_text, TimResult, ok, err, TxFacts, LastTransaction, TwoPhase,
}
use devbridge.Device.Tim.Rules.{rc_commit_timeout}

pub data SettleOp : Type 0 where
  commit rollback : SettleOp

pub data SettleReply : Type 0 where
  committed : SettleReply
  rolled_back : String → SettleReply
  unknown : String → SettleReply

-- The answer of the hook `contact`.
pub data Contact : Type 0 where
  journaled already_asked : Contact
  journal_failed : String → Contact

-- What ends a wait on the settle queue.
pub data Arrival : Type 0 where
  request : SettleOp → Arrival
  disconnected timeout : Arrival

-- What happened in a session, with the answer.
pub data Entry : Type 0 where
  object connect login logout disconnect commit rollback : TimResult (Unit {0}) → Entry
  terminal_id : TimResult (Option String) → Entry
  last_transaction : TimResult LastTransaction → Entry
  contact : Option ℤ → Contact → Entry
  transaction : TwoPhase → ℤ → TimResult TxFacts → Entry
  -- The hook `authorized`, with the journal's error.
  authorized : TxFacts → Option String → Option String → Entry
  received : Arrival → Entry
  refused_by_odoo : Bool → Entry
  slept released : Entry

-- The newest entry first.
abbrev pub History : Type 0
History = List Entry

-- The answers to each call, and how long it took. `took` reads the history with the call in it.
pub record Environment : Type 0 where
  pub object : History → TimResult (Unit {0})
  pub connect : History → TimResult (Unit {0})
  pub login : History → TimResult (Unit {0})
  pub logout : History → TimResult (Unit {0})
  pub disconnect : History → TimResult (Unit {0})
  pub commit : History → TimResult (Unit {0})
  pub rollback : History → TimResult (Unit {0})
  pub terminal_id : History → TimResult (Option String)
  pub last_transaction : History → TimResult LastTransaction
  pub transaction : TwoPhase → ℤ → History → TimResult TxFacts
  pub contact : Option ℤ → History → Contact
  pub authorized : TxFacts → Option String → History → Option String
  pub arrival : History → Arrival
  pub authorization_refused : History → Bool
  -- The settle requests that are in the queue when the payment is decided.
  pub late : History → List SettleOp
  pub took : History → ℕ
  -- The decimal text of an integer, and the debug text of an optional one.
  pub show : ℤ → String
  pub debug : Option ℤ → String

pub record Session : Type 0 where
  pub history : History
  pub now : ℕ
  -- The settle requests that were answered.
  pub replies : List (SettleOp × SettleReply)

abbrev pub fresh : ℕ → Session
fresh now = record { history = []; now = now; replies = [] }

abbrev pub note : Environment → Entry → Session → Session
note env e s = record s { history = e ∷ s.history; now = s.now + env.took (e ∷ s.history) }

-- A wait of at least this long.
abbrev pub waited : Environment → Entry → ℕ → Session → Session
waited env e duration s = record s {
  history = e ∷ s.history;
  now = s.now + duration + env.took (e ∷ s.history);
}

pub record PurchaseRequest : Type 0 where
  pub kind : TwoPhase
  pub amount_minor : ℤ
  pub deadline : ℕ
  pub stored_max_seq : Option ℤ
  pub release_within : ℕ

pub data PurchaseEnd : Type 0 where
  refused : String → String → PurchaseEnd
  committed : TxFacts → Option String → PurchaseEnd
  rolled_back : String → PurchaseEnd
  unknown : String → PurchaseEnd

unfoldable pub settle_reply : PurchaseEnd → SettleReply
settle_reply (committed facts tid) = SettleReply.committed
settle_reply (rolled_back why) = SettleReply.rolled_back why
settle_reply (refused code text) = SettleReply.rolled_back (concat (code ∷ ": " ∷ text ∷ []))
settle_reply (unknown why) = SettleReply.unknown why

-- The end, and the session as it leaves it.
abbrev pub Ended : Type 0
Ended = PurchaseEnd × Session

abbrev pub refusal : Environment → String → String → TimError → PurchaseEnd
refusal env code what e = refused code (
    concat (
      what
      ∷ ": "
      ∷ error_text env.show e
      ∷ " - the transaction was not sent, nothing charged"
      ∷ []))

rolled_back_end : Environment → String → TimResult (Unit {0}) → PurchaseEnd
rolled_back_end env why (ok u) =
    rolled_back (concat (why ∷ " - the authorisation was rolled back, no money taken" ∷ []))
rolled_back_end env why (err e) =
    unknown (concat (why ∷ ", but the rollback failed: " ∷ error_text env.show e ∷ []))

unfoldable pub roll_back : Environment → String → Session → Ended
unfolding rolled_back_end
roll_back env why s =
    let answer = env.rollback s.history in
    (rolled_back_end env why answer, note env (Entry.rollback answer) s)

committed_end : Environment → TxFacts → Option String → TimResult (Unit {0}) → PurchaseEnd
committed_end env facts tid (ok u) = committed facts tid
committed_end env facts tid (err e) =
    if e.code == rc_commit_timeout
    then rolled_back (
        concat (
          "the commit came after the terminal's commit timeout ("
          ∷ error_text env.show e
          ∷ ") - the terminal reversed the authorisation, no money taken"
          ∷ []))
    else unknown (concat ("the commit failed: " ∷ error_text env.show e ∷ []))

unfoldable pub commit_payment : Environment → TxFacts → Option String → Session → Ended
unfolding committed_end
commit_payment env facts tid s =
    let answer = env.commit s.history in
    (committed_end env facts tid answer, note env (Entry.commit answer) s)
