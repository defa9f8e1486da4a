-- ===== src/Scene/Reconnect.antt =====
-- services/simulation-server/src/scene_stream.rs: the configuration of the publisher, the fingerprint of
-- its inputs, and the delays between its connections. `try_from_secs` is `Duration::try_from_secs_f64`, in
-- nanoseconds; a delay is given in seconds, since `Duration::from_secs_f64` is not modelled.
use scrap_monitoring_simulat.Float.{Float}
use scrap_monitoring_simulat.Results.{Result, ok, ok_or, reject_if, ◌>>=◌}
use scrap_monitoring_simulat.Prelude.{
  ℕ, ◌+◌, ◌-◌, ◌^◌, ◌≡◌, refl, min, Bool, ◌&&◌, ◌||◌, not, Option, List, [], ◌∷◌, leb, ◌==◌, length,
}
use scrap_monitoring_simulat.Measurement.Rotation.{any}
use scrap_monitoring_simulat.Server.Random
use scrap_monitoring_simulat.Server.Random.{ModelRng, RandomError, global, unit_f64}

pub data SceneStreamError : Type 0 where
  invalid_host invalid_port invalid_timeout duration_range invalid_delay invalid_fingerprint :
      SceneStreamError

-- `scene-reconnect-jitter`.
abbrev pub jitter_domain : List ℕ
jitter_domain =
    115 ∷ 99 ∷ 101 ∷ 110 ∷ 101 ∷ 45 ∷ 114 ∷ 101 ∷ 99 ∷ 111 ∷ 110 ∷ 110 ∷ 101 ∷ 99 ∷ 116 ∷ 45 ∷ 106
    ∷ 105 ∷ 116 ∷ 116 ∷ 101 ∷ 114 ∷ []

-- Lowercase digits of a SHA-256 digest, as bytes.
unfoldable pub is_lowercase_hex : ℕ → Bool
is_lowercase_hex byte = (leb 48 byte && leb byte 57) || (leb 97 byte && leb byte 102)

unfoldable pub require_fingerprint : List ℕ → Result SceneStreamError (Unit {0})
require_fingerprint value =
    reject_if (not (length value == 64) || any (λ byte. not (is_lowercase_hex byte)) value)
      invalid_fingerprint

module _ (fl : Float) where
  open fl use {F, literal, is_finite, lt, le, mul, min_of}

  pub record ScenePublisherConfig : Type 0 where
    pub host : List ℕ
    pub port : ℕ
    pub connect_timeout : ℕ
    pub send_timeout : ℕ
    pub reconnect_initial_delay_s : F
    pub reconnect_max_delay_s : F

  unfoldable pub positive_duration : (F → Option ℕ) → F → Result SceneStreamError ℕ
  positive_duration try_from_secs value = do
    _ ← reject_if (not (is_finite value) || le value (literal 0 1)) invalid_timeout
    ok_or duration_range (try_from_secs value)

  unfoldable pub new_config :
      (F → Option ℕ) → List ℕ → ℕ → F → F → F → F → Result SceneStreamError ScenePublisherConfig
  new_config try_from_secs host port connect_timeout_s send_timeout_s initial_delay_s max_delay_s =
      do
        _ ← reject_if (length host == 0) invalid_host
        _ ← reject_if (port == 0) invalid_port
        connect_timeout ← positive_duration try_from_secs connect_timeout_s
        send_timeout ← positive_duration try_from_secs send_timeout_s
        _ ←
            reject_if (not (is_finite initial_delay_s) || le initial_delay_s (literal 0 1))
              invalid_delay
        _ ←
            reject_if
              (not (is_finite max_delay_s)
                || le max_delay_s (literal 0 1)
                || lt max_delay_s initial_delay_s)
              invalid_delay
        _ ← positive_duration try_from_secs initial_delay_s
        _ ← positive_duration try_from_secs max_delay_s
        ok (record {
          host = host;
          port = port;
          connect_timeout = connect_timeout;
          send_timeout = send_timeout;
          reconnect_initial_delay_s = initial_delay_s;
          reconnect_max_delay_s = max_delay_s;
        })

  pub record ReconnectBackoff : Type 0 where
    pub initial_delay_s : F
    pub maximum_delay_s : F
    pub current_delay_cap_s : F
    pub consecutive_failures : ℕ
    pub rng : ModelRng

  unfoldable pub new_backoff : (List ℕ → List ℕ) → F → F → ℕ → Result RandomError ReconnectBackoff
  new_backoff sha256 initial_delay_s maximum_delay_s seed = do
    rng ← Random.new sha256 seed global jitter_domain
    ok (record {
      initial_delay_s = initial_delay_s;
      maximum_delay_s = maximum_delay_s;
      current_delay_cap_s = initial_delay_s;
      consecutive_failures = 0;
      rng = rng;
    })

  -- `next_delay_after_failure`: a part of the cap, which doubles up to the maximum.
  unfoldable pub next_delay_after_failure : ReconnectBackoff → F × ReconnectBackoff
  next_delay_after_failure b =
      let (fraction, rng) = unit_f64 fl b.rng in
      (
        mul fraction b.current_delay_cap_s,
        record b {
          rng = rng;
          consecutive_failures = min (b.consecutive_failures + 1) (2 ^ 64 - 1);
          current_delay_cap_s = min_of (mul b.current_delay_cap_s (literal 2 1)) b.maximum_delay_s;
        },
      )

  unfoldable pub reset_after_success : ReconnectBackoff → ReconnectBackoff
  reset_after_success b = record b {
    current_delay_cap_s = b.initial_delay_s;
    consecutive_failures = 0;
  }

  -- Behind a reset, a delay is drawn from the initial cap, however many failures there were before.
  next_delay_after_failure-reset_after_success :
      (b : ReconnectBackoff)
      → (next_delay_after_failure (reset_after_success b)).0
        ≡ mul (unit_f64 fl b.rng).0 b.initial_delay_s
  unfolding next_delay_after_failure reset_after_success
  next_delay_after_failure-reset_after_success b = refl
