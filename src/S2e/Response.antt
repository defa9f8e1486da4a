-- ===== src/S2e/Response.antt =====
-- services/simulation-server/src/s2e.rs: the configuration of an endpoint and its answers. Rates are
-- `f64`; `sha256` is the digest of the crate `sha2`. A socket address is a number.
pub mod Answers
use scrap_monitoring_simulat.Float.{Float}
use scrap_monitoring_simulat.Prelude.{
  ℕ, ◌+◌, ◌%◌, ◌^◌, bit_or, Bool, true, false, ◌&&◌, not, Option, none, some, List, [], ◌∷◌, ◌++◌,
  ◌==◌, leb, get_or, if◌then◌else◌, ◌>>=◌, ◌>>◌, guard, length, take, slice, le_bytes,
  from_le_bytes,
}
use scrap_monitoring_simulat.S2e.Command.{answer_sync_1, answer_sync_2, loop_response_flag}
use scrap_monitoring_simulat.S2e.Encoder.{hq_capsule_bytes}

abbrev pub answer_device_info : ℕ
answer_device_info = 0x04

abbrev pub answer_device_health : ℕ
answer_device_health = 0x06

abbrev pub answer_get_lidar_conf : ℕ
answer_get_lidar_conf = 0x20

abbrev pub answer_measurement_hq : ℕ
answer_measurement_hq = 0x83

abbrev pub conf_desired_rotation_frequency : ℕ
conf_desired_rotation_frequency = 0x01

abbrev pub conf_scan_mode_count : ℕ
conf_scan_mode_count = 0x70

abbrev pub conf_scan_mode_us_per_sample : ℕ
conf_scan_mode_us_per_sample = 0x71

abbrev pub conf_scan_mode_max_distance : ℕ
conf_scan_mode_max_distance = 0x74

abbrev pub conf_scan_mode_answer_type : ℕ
conf_scan_mode_answer_type = 0x75

abbrev pub conf_scan_mode_typical : ℕ
conf_scan_mode_typical = 0x7c

abbrev pub conf_scan_mode_name : ℕ
conf_scan_mode_name = 0x7f

abbrev pub hq_scan_mode : ℕ
hq_scan_mode = 2

unfoldable pub response : ℕ → List ℕ → Bool → List ℕ
response answer_type payload loop_mode =
    let payload_size = if loop_mode then hq_capsule_bytes else length payload % 2 ^ 32 in
    let size_and_flags = bit_or payload_size (if loop_mode then loop_response_flag else 0) in
    answer_sync_1 ∷ answer_sync_2 ∷ (le_bytes 4 size_and_flags ++ answer_type ∷ payload)

-- The payload of `device_info_response`: the model, the firmware 0x0118, the hardware and the digest.
unfoldable pub device_info_response : (List ℕ → List ℕ) → List ℕ → List ℕ
unfolding response
device_info_response sha256 sensor_id =
    let payload = 0x00 ∷ (le_bytes 2 0x0118 ++ 1 ∷ take 16 (sha256 sensor_id)) in
    response answer_device_info payload false

unfoldable pub require_hq_mode : List ℕ → Option (Unit {0})
require_hq_mode payload = do
  guard (leb 6 (length payload))
  guard (from_le_bytes (slice 4 2 payload) == hq_scan_mode)

unfoldable pub valid_scan_request : List ℕ → Bool
valid_scan_request payload = length payload == 5 && get_or payload 0 0 == hq_scan_mode

module _ (fl : Float) where
  open fl use {F, literal, is_finite, lt, le, div, mul, round, to_word}

  pub record EndpointConfig : Type 0 where
    pub sensor_id : List ℕ
    pub bind : ℕ
    pub sample_rate_hz : F
    pub rotation_rate_hz : F
    pub max_distance_m : F

  abbrev pub is_positive : F → Bool
  is_positive x = is_finite x && not (le x (literal 0 1))

  -- `EndpointConfig::validate`: true where it returns `Ok`.
  unfoldable pub validate : EndpointConfig → Bool
  validate config =
      not (length config.sensor_id == 0)
      && is_positive config.sample_rate_hz
      && is_positive config.rotation_rate_hz
      && is_positive config.max_distance_m

  -- The body of the answer to a query, behind the echoed query.
  unfoldable pub configuration_value : EndpointConfig → List ℕ → ℕ → Option (List ℕ)
  unfolding require_hq_mode
  configuration_value config payload query =
      if query == conf_scan_mode_typical
      then some (le_bytes 2 hq_scan_mode)
      else if query == conf_scan_mode_count
      then some (le_bytes 2 1)
      else if query == conf_scan_mode_us_per_sample
      then (require_hq_mode payload
          >> some (
              le_bytes 4 (
                to_word 32
                  (round (mul (div (literal 1_000_000 1) config.sample_rate_hz) (literal 256 1))))))
      else if query == conf_scan_mode_max_distance
      then (require_hq_mode payload
          >> some (le_bytes 4 (to_word 32 (round (mul config.max_distance_m (literal 256 1))))))
      else if query == conf_scan_mode_answer_type
      then (require_hq_mode payload >> some (answer_measurement_hq ∷ []))
      else if query == conf_scan_mode_name
      then (require_hq_mode payload >> some (b'H' ∷ b'Q' ∷ []))
      else if query == conf_desired_rotation_frequency
      then some (
          le_bytes 2 (to_word 16 (round (mul config.rotation_rate_hz (literal 60 1))))
          ++ le_bytes 2 0)
      else none

  unfoldable pub lidar_configuration_response : EndpointConfig → List ℕ → Option (List ℕ)
  unfolding configuration_value
  lidar_configuration_response config payload = do
    guard (leb 4 (length payload))
    let query_type = from_le_bytes (take 4 payload)
    value ← configuration_value config payload query_type
    some (le_bytes 4 query_type ++ value)
