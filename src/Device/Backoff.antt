-- ===== src/Device/Backoff.antt =====
-- The doubling delay of the senders and of the control loop (device_jobs/tasks.rs of
-- crates/devbridge-client/src). A duration is a number of nanoseconds.
use devbridge.Common.{
  ℕ, zero, suc, ◌*◌, ◌-◌, ◌^◌, ◌≤◌, ◌≡◌, ◌∙◌, min, arith, String, Bool, true, Option, none, some,
  ltb, leb, not, ◌||◌, ◌==◌, string_eq,
}
use native.Mathlib.Nat.{pow-suc}
use native.Mathlib.Decide.{dec_le}

pub record Backoff : Type 0 where
  pub base : ℕ
  pub max : ℕ
  pub current : ℕ

unfoldable pub new : ℕ → ℕ → Backoff
new base max = record { base = base; max = max; current = base }

-- The delay to wait now, beside the state for the next one.
unfoldable pub next_delay : Backoff → Backoff × ℕ
next_delay b = let now = min b.current b.max in (record b { current = min (now * 2) b.max }, now)

unfoldable pub reset : Backoff → Backoff
reset b = record b { current = b.base }

-- The delay after `n` earlier ones.
unfoldable pub nth_delay : ℕ → Backoff → ℕ
nth_delay zero b = (next_delay b).1
nth_delay (suc n) b = nth_delay n (next_delay b).0

-- Whether a job waited in its queue longer than `max`; a clock that runs backwards gives 0.
unfoldable pub queue_wait_exceeded : ℕ → ℕ → ℕ → Bool
queue_wait_exceeded queued_at now max = ltb max (now - queued_at)

unfoldable pub heartbeat_due : Option (String × ℕ) → String → ℕ → ℕ → Bool
heartbeat_due none status interval now = true
heartbeat_due (some (sent, at)) status interval now =
    not (sent == status) || leb interval (now - at)

pow_pos : (n : ℕ) → 1 ≤ 2 ^ n
pow_pos zero = omega arith
pow_pos (suc n) = rw pow-suc (omega (arith, pow_pos n))

-- Capping before a multiplication by at least 1 does not show after another cap.
cap_before : (x m p : ℕ) → 1 ≤ p → min (min x m * p) m ≡ min (x * p) m
cap_before x m p h = elim (dec_le x m) [
  | yes l ↦ let e : min x m ≡ x = omega arith in rw e
  | no g ↦
      let e : min x m ≡ m = omega arith in
      let up : m ≤ m * p = grind arith in
      let over : m * p ≤ x * p = grind arith in rw e (omega arith)
]

doubled-nth_delay :
    (n c base m : ℕ)
    → nth_delay n (record { base = base; max = m; current = c }) ≡ min (c * 2 ^ n) m
unfolding nth_delay next_delay
doubled-nth_delay zero c base m = omega arith
doubled-nth_delay (suc n) c base m =
    let twice : min (min c m * 2) m ≡ min (c * 2) m = omega arith in
    doubled-nth_delay n (min (min c m * 2) m) base m
    ∙ rw (twice, cap_before (c * 2) m (2 ^ n) (pow_pos n), pow-suc) (omega arith)

-- The delay after `n` failures in a row is the base doubled `n` times, and never more than the cap;
-- a success starts the series again.
pub nth_delay-new :
    (n base m : ℕ) (b : Backoff)
    → (nth_delay n (new base m) ≡ min (base * 2 ^ n) m)
      × (nth_delay n (reset b) ≡ min (b.base * 2 ^ n) b.max)
unfolding new reset
nth_delay-new n base m b =
    (doubled-nth_delay n base base m, doubled-nth_delay n b.base b.base b.max)
