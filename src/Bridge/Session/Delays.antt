-- ===== src/Bridge/Session/Delays.antt =====
-- services/camera-edge-bridge/src/bridge.rs: the delays of `run`.
use scrap_monitoring_simulat.Prelude.{
  ℕ, ◌+◌, ◌≤◌, ◌≡◌, refl, arith, Option, some, List, [], ◌∷◌, All,
}
use scrap_monitoring_simulat.Bridge.Backoff.{
  ExponentialBackoff, reset, next_delay, saturating_mul, duration_max,
}
use scrap_monitoring_simulat.Bridge.Backoff
use scrap_monitoring_simulat.Bridge.Descriptor.{StreamDescriptor}
use scrap_monitoring_simulat.Bridge.Device.{Node}
use scrap_monitoring_simulat.Bridge.Session.Renewal.{attempt-left}
use scrap_monitoring_simulat.Bridge.Session.Reconnect.{
  Attempt, Left, left, over, attempt, sleep_until, sleep_until_shutdown, Glance, Slept,
  shutdown_poll, wait_and, run_attempts, run, Run,
}

-- The delays are in the bounds of the configuration.
abbrev pub IsBetween : ℕ → ℕ → ℕ → Type 0
IsBetween low high d = (low ≤ d) × (d ≤ high)

record IsBacked (low high : ℕ) (b : ExponentialBackoff) : Type 0 where
  starts : b.initial ≡ low
  caps : b.maximum ≡ high
  next_low : low ≤ b.next
  next_high : b.next ≤ high

-- No nap is longer than the interval at which the flag is looked at, or goes beyond the deadline.
abbrev pub IsNap : ℕ → ℕ → Type 0
IsNap duration nap = (nap ≤ shutdown_poll) × (nap ≤ duration)

module _ (low high : ℕ) (h : low ≤ high) (representable : high ≤ duration_max) where
  new-IsBacked : IsBacked low high (Backoff.new low high)
  unfolding Backoff.new
  new-IsBacked = ground arith

  next_delay-IsBacked :
      (b : ExponentialBackoff) → IsBacked low high b → IsBacked low high (next_delay b).1
  unfolding next_delay saturating_mul
  next_delay-IsBacked b k = ground arith

  next_delay-IsBetween :
      (b : ExponentialBackoff) → IsBacked low high b → IsBetween low high (next_delay b).0
  unfolding next_delay
  next_delay-IsBetween b k = ground arith

  reset-IsBacked : (b : ExponentialBackoff) → IsBacked low high b → IsBacked low high (reset b)
  unfolding reset
  reset-IsBacked b k = ground arith

  module _ (from_str : List ℕ → Option StreamDescriptor) (latest_instant : ℕ)
      (write : List (List ℕ) → List ℕ → Option ℕ) (io_timeout : ℕ) where
    abbrev IsBackedLeft : Left → Type 0
    IsBackedLeft (left b) = IsBacked low high b
    IsBackedLeft (over outcome) = Unit

    wait_and-IsBetween :
        (next : ExponentialBackoff → Run) (a : Attempt) (l : Left)
        → IsBackedLeft l
        → ((b : ExponentialBackoff)
            → IsBacked low high b
            → All (IsBetween low high) (next b).delays)
        → All
            (IsBetween low high)
            (wait_and from_str latest_instant write io_timeout next a l).delays
    unfolding wait_and
    wait_and-IsBetween next a (over outcome) k f = tt
    wait_and-IsBetween next a (left b) k f =
        ground (arith, next_delay-IsBetween b k, f (next_delay b).1 (next_delay-IsBacked b k))

    attempt-IsBacked :
        (a : Attempt) (b : ExponentialBackoff)
        → IsBacked low high b
        → IsBackedLeft (attempt from_str latest_instant write io_timeout a b)
    attempt-IsBacked a b k =
        left-IsBacked (attempt from_str latest_instant write io_timeout a b) (λ c e. ground (
          arith,
          attempt-left from_str latest_instant write io_timeout b a c e,
          reset-IsBacked b k,
        ))
      where
        left-IsBacked :
            (l : Left)
            → ((c : ExponentialBackoff) → l ≡ left c → IsBacked low high c)
            → IsBackedLeft l
        left-IsBacked (left c) f = f c refl
        left-IsBacked (over o) f = tt

    run_attempts-IsBetween :
        (attempts : List Attempt) (b : ExponentialBackoff)
        → IsBacked low high b
        → All
            (IsBetween low high)
            (run_attempts from_str latest_instant write io_timeout attempts b).delays
    unfolding run_attempts
    run_attempts-IsBetween [] b k = tt
    run_attempts-IsBetween (a ∷ attempts) b k = ground (
      arith,
      wait_and-IsBetween (run_attempts from_str latest_instant write io_timeout attempts) a
          (attempt from_str latest_instant write io_timeout a b) (attempt-IsBacked a b k)
          (run_attempts-IsBetween attempts),
    )

    -- For `low ≤ high`, and a `high` that is a `Duration`: whatever the attempts meet, every delay
    -- before a reconnection of a run with these bounds is between them.
    pub run-IsBetween :
        (node : Node) (attempts : List Attempt)
        → All
            (IsBetween low high)
            (run from_str latest_instant write io_timeout low high node attempts).delays
    unfolding run
    run-IsBetween node attempts =
        ground (arith, run_attempts-IsBetween attempts (Backoff.new low high) new-IsBacked)

sleep_until-IsNap :
    (duration now : ℕ) (glances : List Glance)
    → All (λ g. now ≤ g.now) glances
    → All (IsNap duration) (sleep_until (now + duration) glances).naps
unfolding sleep_until
sleep_until-IsNap duration now [] h = tt
sleep_until-IsNap duration now (g ∷ glances) h =
    ground (arith, sleep_until-IsNap duration now glances)

-- Whatever the clock and the flag show: every nap of a sleep of `duration` that begins at `now`
-- is at most 100 ms and at most `duration`, for a clock that does not go back behind `now`.
pub sleep_until_shutdown-IsNap :
    (latest_instant duration now : ℕ) (glances : List Glance) (slept : Slept)
    → All (λ g. now ≤ g.now) glances
    → sleep_until_shutdown latest_instant duration now glances ≡ some slept
    → All (IsNap duration) slept.naps
unfolding sleep_until_shutdown
sleep_until_shutdown-IsNap latest_instant duration now glances slept h e =
    ground (arith, sleep_until-IsNap duration now glances h)
