-- ===== src/Device/Tim/Purchase/Money.antt =====
-- Where the money is after what happened in a session, as the terminal counts it, and the order of
-- calls that it asks for (device_jobs/tim/purchase.rs, tim/card.rs of crates/devbridge-client/src).
use devbridge.Common.{
  Bool, true, false, not, ◌&&◌, [], ◌∷◌, ◌==◌, if◌then◌else◌, Option, none, some,
}
use devbridge.Common.Int.{int_eq}
use devbridge.Device.Tim.Terminal.{TimResult, ok, err, TxFacts}
use devbridge.Device.Tim.Rules.{
  TxFailure, nothing_charged, classify_transaction_error, rc_commit_timeout,
}
use devbridge.Device.Tim.Purchase.Defs.{
  journaled, already_asked, Entry, contact, transaction, authorized, History, PurchaseEnd, refused,
  committed, rolled_back, Session, Ended,
}

-- An authorisation holds the money until a commit takes it or a rollback gives it back.
pub data Money : Type 0 where
  untouched authorised taken unknown : Money

abbrev pub is_authorised : Money → Bool
is_authorised authorised = true
is_authorised _ = false

abbrev pub after_failure : TxFailure → Money → Money
after_failure (nothing_charged code) m = m
after_failure TxFailure.unknown m = unknown

abbrev after_transaction : TimResult TxFacts → Money → Money
after_transaction (ok facts) m = authorised
after_transaction (err e) m = after_failure (classify_transaction_error e.code) m

abbrev after_commit : TimResult (Unit {0}) → Money → Money
after_commit (ok u) authorised = taken
after_commit (err e) authorised = if e.code == rc_commit_timeout then untouched else unknown
after_commit _ m = m

abbrev after_rollback : TimResult (Unit {0}) → Money → Money
after_rollback (ok u) authorised = untouched
after_rollback (err e) authorised = unknown
after_rollback _ m = m

-- What an entry does with the money. A contact that an earlier attempt made leaves it unknown.
abbrev moved : Entry → Money → Money
moved (transaction kind amount answer) m = after_transaction answer m
moved (Entry.commit answer) m = after_commit answer m
moved (Entry.rollback answer) m = after_rollback answer m
moved (contact base already_asked) m = unknown
moved _ m = m

unfoldable pub money : History → Money
money [] = untouched
money (e ∷ h) = moved e (money h)

-- What an end says of the money.
unfoldable pub told : PurchaseEnd → Money
told (refused code text) = untouched
told (committed facts tid) = taken
told (rolled_back why) = untouched
told (PurchaseEnd.unknown why) = unknown

abbrev pub is_contact : Entry → Bool
is_contact (contact base journaled) = true
is_contact _ = false

abbrev pub is_transaction : Entry → Bool
is_transaction (transaction kind amount answer) = true
is_transaction _ = false

abbrev pub is_journaled : Entry → Bool
is_journaled (authorized facts tid none) = true
is_journaled _ = false

unfoldable pub has : (Entry → Bool) → History → Bool
has test [] = false
has test (e ∷ h) = if test e then true else has test h

-- A transaction follows its journaled contact and comes once; a commit follows a journaled
-- authorisation that is still held; no logout leaves an authorisation held.
abbrev allowed : Entry → History → Bool
allowed (transaction kind amount answer) h = has is_contact h && not (has is_transaction h)
allowed (Entry.commit answer) h = is_authorised (money h) && has is_journaled h
allowed (Entry.logout answer) h = not (is_authorised (money h))
allowed _ h = true

unfoldable pub obeys : History → Bool
unfolding money has
obeys [] = true
obeys (e ∷ h) = allowed e h && obeys h

abbrev pub Returns : (PurchaseEnd → Session → Type 0) → Option Ended → Type 0
Returns P none = ⊥
Returns P (some (end, s)) = P end s
