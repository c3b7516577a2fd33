-- ===== src/Device/Card/Balance/SafetyOnce.antt =====
-- The safety balance of a terminal and a day is given out once (device_jobs/journal_card_balance.rs of
-- crates/devbridge-client/src).
use devbridge.Common.{
  ℕ, suc, ◌+◌, ◌≤◌, ◌≡◌, refl, String, Bool, true, false, not, ◌&&◌, Option, some, List, [], ◌∷◌,
  arith, ◌==◌, string_eq, one_if, is_some, any, any-append,
}
use devbridge.Common.Int.{ℤ, pos, int_eq}
use devbridge.Common.Table.{update}
use devbridge.Device.Card.Balance
use devbridge.Device.Card.Balance.{
  Balances, CardBalance, has_safety, is_safety_of, contact_row, source_safety,
}

pub data Event : Type 0 where
  card_balance_contact : ℕ → String → String → String → Option ℤ → Event
  card_balance_outcome : ℤ → String → String → Event
  card_balance_forget : ℤ → Event
  prune_card_balances : ℕ → Event

unfoldable pub event : Event → Balances → Balances
event (card_balance_contact now ip date source job_id) s =
    (Balance.card_balance_contact now ip date source job_id s).0
event (card_balance_outcome id outcome result) s =
    (Balance.card_balance_outcome id outcome result s).0
event (card_balance_forget id) s = (Balance.card_balance_forget id s).0
event (prune_card_balances now) s = (Balance.prune_card_balances now s).0

module _ (ip date : String) where
  -- Whether the event gives out the safety balance of the terminal and the day.
  unfoldable pub grants : Event → Balances → Bool
  grants (card_balance_contact now i d source job_id) s =
      (source == source_safety && (i == ip && d == date))
      && is_some (Balance.card_balance_contact now i d source job_id s).1
  grants _ s = false

  -- Whether the event drops its row: the terminal was not reached, or the row is old.
  unfoldable pub releases : Event → Balances → Bool
  unfolding event
  releases (card_balance_forget id) s =
      has_safety ip date s && not (has_safety ip date (event (card_balance_forget id) s))
  releases (prune_card_balances now) s =
      has_safety ip date s && not (has_safety ip date (event (prune_card_balances now) s))
  releases _ s = false

  unfoldable pub times_granted : List Event → Balances → ℕ
  unfolding event grants
  times_granted [] s = 0
  times_granted (e ∷ es) s = one_if (grants e s) + times_granted es (event e s)

  unfoldable pub times_released : List Event → Balances → ℕ
  unfolding event releases
  times_released [] s = 0
  times_released (e ∷ es) s = one_if (releases e s) + times_released es (event e s)

  any-update :
      (id : ℤ) (outcome result : String) (rows : List (ℤ × CardBalance))
      → any (is_safety_of ip date) (
          update id
            (λ b. true)
            (λ b. record b { outcome = some outcome; result = some result })
            rows)
        ≡ any (is_safety_of ip date) rows
  unfolding update
  any-update id outcome result [] = refl
  any-update id outcome result ((i, b) ∷ rows) = ground (arith, any-update id outcome result rows)

  granted_event :
      (e : Event) (s : Balances)
      → one_if (grants e s) + one_if (has_safety ip date s)
        ≤ one_if (has_safety ip date (event e s)) + one_if (releases e s)
  unfolding grants releases event has_safety Balance.card_balance_contact
      Balance.card_balance_outcome
  granted_event (card_balance_contact now i d source job_id) s = ground (
    arith,
    any-append (is_safety_of ip date) s.rows
        ((pos (suc s.next), contact_row now i d source job_id) ∷ []),
    string_eq.beq_iff i ip,
    string_eq.beq_iff d date,
  )
  granted_event (card_balance_outcome id outcome result) s =
      ground (arith, any-update id outcome result s.rows)
  granted_event (card_balance_forget id) s = ground arith
  granted_event (prune_card_balances now) s = ground arith

  -- In any sequence of operations, the safety balance of a terminal and a day is given out at most once
  -- more than its row is dropped, and one time less if there is a row to begin with.
  pub safety_once :
      (es : List Event) (s : Balances)
      → times_granted es s + one_if (has_safety ip date s) ≤ 1 + times_released es s
  unfolding times_granted times_released
  safety_once [] s = ground arith
  safety_once (e ∷ es) s = ground (arith, granted_event e s, safety_once es (event e s))
