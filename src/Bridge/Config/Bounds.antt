-- ===== src/Bridge/Config/Bounds.antt =====
-- services/camera-edge-bridge/src/config.rs: the bounds of a configuration that is accepted.
use scrap_monitoring_simulat.Results.{Result, ok, err}
use scrap_monitoring_simulat.Prelude.{
  ℕ, ◌≤◌, ◌≡◌, Bool, Option, Option-cases, inl, inr, List, arith,
}
use scrap_monitoring_simulat.Bridge.Config.{
  Config, ConfigError, ok_or, Variable, Uri, ensure, unwrap_or, from_millis, parse_milliseconds,
  from_lookup,
}

-- The bounds of a configuration, in nanoseconds.
pub record IsBounded (c : Config) : Type 0 where
  pub connect_low : from_millis 1 ≤ c.connect_timeout
  pub connect_high : c.connect_timeout ≤ from_millis 5000
  pub io_low : from_millis 1 ≤ c.io_timeout
  pub io_high : c.io_timeout ≤ from_millis 5000
  pub initial_low : from_millis 1 ≤ c.reconnect_initial
  pub initial_high : c.reconnect_initial ≤ from_millis 60000
  pub ordered : c.reconnect_initial ≤ c.reconnect_max
  pub max_high : c.reconnect_max ≤ from_millis 300000

abbrev Within : ℕ → Result ConfigError ℕ → Type 0
Within maximum (ok v) = (from_millis 1 ≤ v) × (v ≤ from_millis maximum)
Within maximum (err e) = Unit

module _ (parse_uri : List ℕ → Option Uri) (parse_u64 : List ℕ → Option ℕ) (to_text : ℕ → List ℕ)
    (is_absolute : List ℕ → Bool) (lookup : Variable → Option (List ℕ)) where
  within :
      (name : Variable) (default maximum : ℕ)
      → Within maximum
          (parse_milliseconds parse_uri parse_u64 to_text is_absolute lookup name default maximum)
  unfolding parse_milliseconds ok_or
  within name default maximum =
      elim (Option-cases (parse_u64 (unwrap_or (lookup name) (to_text default)))) [
        | inl e ↦ ground arith
        | inr (x, e) ↦ ground arith
      ]

  -- Whatever the environment holds, and whatever the parsers answer, a configuration that is accepted
  -- has timeouts of 1 ms to 5 s, a first delay of 1 ms to 60 s, and a largest delay between that and
  -- 300 s.
  pub from_lookup-IsBounded :
      (c : Config) → from_lookup parse_uri parse_u64 to_text is_absolute lookup ≡ ok c → IsBounded c
  unfolding from_lookup ensure
  from_lookup-IsBounded c h = ground (
    arith,
    within Variable.connect_timeout_ms 5000 5000,
    within Variable.io_timeout_ms 1000 5000,
    within Variable.reconnect_initial_ms 500 60000,
    within Variable.reconnect_max_ms 30000 300000,
  )
