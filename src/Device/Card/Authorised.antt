-- ===== src/Device/Card/Authorised.antt =====
-- The terminal's authorisation, once stored, stays (device_jobs/journal_card.rs of
-- crates/devbridge-client/src).
use devbridge.Common.{
  ℕ, ◌≡◌, true, String, Option, some, List, arith, All, Option-cases, inl, inr, ==_refl,
}
use devbridge.Common.Int.{ℤ, int_eq}
use devbridge.Common.Table.{find, find-update}
use devbridge.Device.Entry.{at}
use devbridge.Device.Card
use devbridge.Device.Card.{CardJournal, CardPayment}
use devbridge.Device.Card.Trace.{Event, run, KeepsJobs}
use devbridge.Device.Card.Stays.{Holds, IsKept, run-Holds}

module _ (k : ℤ) (now : ℕ) (seq : ℤ) (result : String) where
  abbrev SaysSo : CardPayment → Type 0
  SaysSo p =
      (p.authorized_at ≡ some (at now)) × (p.trans_seq ≡ some seq) × (p.auth_result ≡ some result)

  -- The row says: authorised at `now`, as transaction `seq`, with `result`.
  abbrev pub IsAuthorised : Option CardPayment → Type 0
  IsAuthorised = Holds SaysSo

  SaysSo-IsKept : IsKept SaysSo
  SaysSo-IsKept = record {
    authorized = λ moment other text p b t. ground (arith, b, t);
    transacted = λ other p b t. ground (arith, b, t);
    ended = λ moment p b. b;
    for_person = λ reason p b. b;
    auth_acked = λ ack note p b. b;
  }

  authorised :
      (s : CardJournal)
      → (Card.card_authorized now k seq result s).1 ≡ true
      → IsAuthorised (find k (Card.card_authorized now k seq result s).0.card_payments)
  unfolding Card.card_authorized Card.update_payment
  authorised s a = elim (Option-cases (find k s.card_payments)) [
    | inl e ↦ ground (arith, e, a)
    | inr (p, e) ↦ rw (find-update, ==_refl k, e) (ground (arith, e, a))
  ]

  -- An authorisation that the journal accepted is what the card row says after any operations but
  -- pruning: its moment, its transaction and its result stay.
  pub authorisation_stays :
      (es : List Event) (s : CardJournal)
      → (Card.card_authorized now k seq result s).1 ≡ true
      → All KeepsJobs es
      → IsAuthorised (Card.card_payment k (run es (Card.card_authorized now k seq result s).0))
  unfolding Card.card_payment
  authorisation_stays es s a h =
      run-Holds SaysSo k SaysSo-IsKept es (Card.card_authorized now k seq result s).0 h
        (authorised s a)
