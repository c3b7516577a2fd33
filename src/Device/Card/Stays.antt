-- ===== src/Device/Card/Stays.antt =====
-- What a card row says, and no write of it takes back, stays after every operation on jobs and on card
-- payments but pruning (device_jobs/journal_card.rs of crates/devbridge-client/src).
use devbridge.Common.{
  ℕ, ◌≡◌, refl, Bool, true, false, String, Option, none, some, is_some, List, [], ◌∷◌, ◌==◌,
  if◌then◌else◌, All, Bool-cases, inl, inr, arith,
}
use devbridge.Common.Int.{ℤ, int_eq}
use devbridge.Common.Table.{find, find-update, find-insert, update, after}
use devbridge.Device.Journal.Store.{Journal}
use devbridge.Device.Journal.Trace.{apply}
use devbridge.Device.Journal.Operations.{update_device}
use devbridge.Device.Entry.{at}
use devbridge.Device.Card
use devbridge.Device.Card.{
  CardJournal, CardPayment, AuthAck, insert_payment, contacted_payment, may_contact, unauthorized,
}
use devbridge.Device.Card.Trace.{Event, event, run, KeepsJobs}
use devbridge.Device.Card.AskedOnce.{same_after_job, with_contact}

-- The row is there, and is so.
abbrev pub Holds : (CardPayment → Type 0) → Option CardPayment → Type 0
Holds P none = ⊥
Holds P (some p) = P p

pub Holds-found :
    (P : CardPayment → Type 0) (o : Option CardPayment)
    → Holds P o
    → (p : CardPayment) × (o ≡ some p) × P p
Holds-found P none h = absurd h
Holds-found P (some p) h = (p, refl, h)

-- No write of a row takes the property back.
pub record IsKept (P : CardPayment → Type 0) : Type 0 where
  pub authorized :
      (now : ℕ) (seq : ℤ) (result : String) (p : CardPayment)
      → P p
      → unauthorized p ≡ true
      → P (record p {
        authorized_at = some (at now);
        trans_seq = some seq;
        auth_result = some result;
        auth_ack = AuthAck.owed;
      })
  pub transacted :
      (seq : ℤ) (p : CardPayment)
      → P p
      → is_some p.trans_seq ≡ false
      → P (record p { trans_seq = some seq })
  pub ended : (now : ℕ) (p : CardPayment) → P p → P (record p { ended_at = some (at now) })
  pub for_person :
      (reason : String) (p : CardPayment) → P p → P (record p { person_reason = some reason })
  pub auth_acked :
      (ack : AuthAck) (note : String) (p : CardPayment)
      → P p
      → P (record p { auth_ack = ack; auth_ack_note = some note })

module _ (P : CardPayment → Type 0) (k : ℤ) where
  after-Holds :
      (test : CardPayment → Bool) (set : CardPayment → CardPayment) (o : Option CardPayment)
      → ((p : CardPayment) → P p → test p ≡ true → P (set p))
      → Holds P o
      → Holds P (after test set o)
  after-Holds test set none keeps h = h
  after-Holds test set (some p) keeps h = elim (Bool-cases (test p)) [
    | inl e ↦ rw e (keeps p h e)
    | inr e ↦ rw e h
  ]

  update-Holds :
      (j : ℤ) (test : CardPayment → Bool) (set : CardPayment → CardPayment)
      (rows : List (ℤ × CardPayment))
      → ((p : CardPayment) → P p → test p ≡ true → P (set p))
      → Holds P (find k rows)
      → Holds P (find k (update j test set rows))
  update-Holds j test set rows keeps h = rw (find-update k j test set rows) (either (j == k))
    where
      either : (b : Bool) → Holds P (if b then after test set (find k rows) else find k rows)
      either true = after-Holds test set (find k rows) keeps h
      either false = h

  insert_payment-Holds :
      (j : ℤ) (p : CardPayment) (x : Journal × Bool) (s : CardJournal)
      → Holds P (find k s.card_payments)
      → Holds P (find k (insert_payment j p x s).0.card_payments)
  insert_payment-Holds j p (jobs, false) s h = h
  insert_payment-Holds j p (jobs, true) s h = elim (Bool-cases (is_some (find j s.card_payments))) [
    | inl e ↦ rw e h
    | inr e ↦ rw e (rw (find-insert k j p s.card_payments) (still (find k s.card_payments) h))
  ]
    where
      still :
          (o : Option CardPayment)
          → Holds P o
          → Holds P (if is_some o then o else if j == k then some p else none)
      still none h = absurd h
      still (some q) h = h

  module _ (kept : IsKept P) where
    event-Holds :
        (e : Event) (s : CardJournal)
        → KeepsJobs e
        → Holds P (find k s.card_payments)
        → Holds P (find k (event e s).card_payments)
    unfolding event Card.card_contact_of Card.card_authorized Card.card_transacted Card.card_ended
        Card.card_for_person Card.mark_card_auth_acked Card.update_payment
    event-Holds (Event.job op) s h a =
        rw (same_after_job op (record s { jobs = apply op s.jobs }) h) a
    event-Holds (Event.card_contact_of now j t) s h a =
        insert_payment-Holds j (contacted_payment now t)
          (update_device j may_contact (with_contact now) s.jobs) s a
    event-Holds (Event.card_authorized now j seq result) s h a =
        update-Holds j _ _ s.card_payments (kept.authorized now seq result) a
    event-Holds (Event.card_transacted j seq) s h a =
        update-Holds j _ _ s.card_payments (λ p b t. kept.transacted seq p b (ground (arith, t))) a
    event-Holds (Event.card_ended now j) s h a =
        update-Holds j _ _ s.card_payments (λ p b t. kept.ended now p b) a
    event-Holds (Event.card_for_person j reason) s h a =
        update-Holds j _ _ s.card_payments (λ p b t. kept.for_person reason p b) a
    event-Holds (Event.mark_card_auth_acked j note) s h a =
        update-Holds j _ _ s.card_payments (λ p b t. kept.auth_acked _ note p b) a

    pub run-Holds :
        (es : List Event) (s : CardJournal)
        → All KeepsJobs es
        → Holds P (find k s.card_payments)
        → Holds P (find k (run es s).card_payments)
    unfolding run
    run-Holds [] s h a = a
    run-Holds (e ∷ es) s h a = run-Holds es (event e s) h.1 (event-Holds e s h.0 a)
