-- ===== src/Bridge/Backoff.antt =====
-- services/camera-edge-bridge/src/backoff.rs: `ExponentialBackoff`. A `Duration` is its number of
-- nanoseconds.
use native.Mathlib.Nat.{pow-suc, mul_assoc}
use scrap_monitoring_simulat.Prelude.{ℕ, zero, suc, ◌-◌, ◌*◌, ◌^◌, ◌≤◌, ◌≡◌, refl, ap, min, arith}

-- `Duration::MAX`.
abbrev pub duration_max : ℕ
duration_max = 2 ^ 64 * 1000000000 - 1

pub record ExponentialBackoff : Type 0 where
  pub initial : ℕ
  pub maximum : ℕ
  pub next : ℕ

unfoldable pub new : ℕ → ℕ → ExponentialBackoff
new initial maximum = record { initial = initial; maximum = maximum; next = initial }

-- `Duration::saturating_mul`.
unfoldable pub saturating_mul : ℕ → ℕ → ℕ
saturating_mul duration factor = min (duration * factor) duration_max

-- The delay, and the state behind the call.
unfoldable pub next_delay : ExponentialBackoff → ℕ × ExponentialBackoff
next_delay b = (b.next, record b { next = min (saturating_mul b.next 2) b.maximum })

unfoldable pub reset : ExponentialBackoff → ExponentialBackoff
reset b = record b { next = b.initial }

-- The state behind `n` calls.
unfoldable pub after : ℕ → ExponentialBackoff → ExponentialBackoff
after zero b = b
after (suc n) b = (next_delay (after n b)).1

after-initial : (initial maximum n : ℕ) → (after n (new initial maximum)).initial ≡ initial
unfolding after new next_delay
after-initial initial maximum zero = refl
after-initial initial maximum (suc n) = after-initial initial maximum n

after-maximum : (initial maximum n : ℕ) → (after n (new initial maximum)).maximum ≡ maximum
unfolding after new next_delay
after-maximum initial maximum zero = refl
after-maximum initial maximum (suc n) = after-maximum initial maximum n

doubled : (x m : ℕ) → m ≤ duration_max → min (saturating_mul (min x m) 2) m ≡ min (x * 2) m
unfolding saturating_mul
doubled x m h = ground arith

twice : (x n : ℕ) → x * 2 ^ n * 2 ≡ x * 2 ^ suc n
twice x n = rw (pow-suc 2 n, mul_assoc x (2 ^ n) 2) refl

after-next :
    (initial maximum n : ℕ)
    → maximum ≤ duration_max
    → initial ≤ maximum
    → (after n (new initial maximum)).next ≡ min (initial * 2 ^ n) maximum
unfolding after new next_delay saturating_mul
after-next initial maximum zero hm hi = ground arith
after-next initial maximum (suc n) hm hi =
    rw
      (
        after-maximum initial maximum n,
        after-next initial maximum n hm hi,
        doubled (initial * 2 ^ n) maximum hm,
      )
      (ap (λ x. min x maximum) (twice initial n))

-- For `initial ≤ maximum`, and a `maximum` that is a `Duration`, the delay behind `n` calls on a new
-- backoff is `min (initial * 2 ^ n) maximum`, and a reset makes it `initial` again.
pub next_delay-after :
    (initial maximum n : ℕ)
    → maximum ≤ duration_max
    → initial ≤ maximum
    → ((next_delay (after n (new initial maximum))).0 ≡ min (initial * 2 ^ n) maximum)
      × ((next_delay (reset (after n (new initial maximum)))).0 ≡ initial)
unfolding next_delay reset
next_delay-after initial maximum n hm hi =
    (after-next initial maximum n hm hi, after-initial initial maximum n)
