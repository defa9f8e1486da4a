-- ===== src/Measurement/Rotation.antt =====
-- services/simulation-server/src/measurement/rotation.rs: the schedules of rotations. `from_decimal` is
-- `PositiveRatio::from_decimal_f64s`, and `panicked` stands for an `expect` on it that fails; `sha256` is
-- the digest of the crate `sha2`. No allocation fails, and a `usize` has 64 bits.
pub mod Continuity
use scrap_monitoring_simulat.Float.{Float}
use scrap_monitoring_simulat.Results.{Result, ok, err, map_err, ok_or, reject_if, ◌>>=◌}
use scrap_monitoring_simulat.Prelude.{
  ℕ, zero, suc, ◌+◌, ◌-◌, ◌*◌, ◌/◌, ◌%◌, ◌^◌, min, Bool, true, false, ◌&&◌, ◌||◌, not, Option, none,
  some, List, [], ◌∷◌, ◌++◌, ltb, leb, ◌==◌, if◌then◌else◌, length, get_or, be_bytes,
}
use scrap_monitoring_simulat.Server.Ratio.{
  PositiveRatio, ceil_multiple, reciprocal_multiple_to_f64, bit_length,
}
use scrap_monitoring_simulat.Server.Sdk.{SdkError, quantize_hq_angle_deg}

abbrev pub max_scan_id : ℕ
max_scan_id = 2 ^ 63 - 1

abbrev pub max_sample_index : ℕ
max_sample_index = 2 ^ 63 - 1

abbrev pub max_scan_points_per_frame : ℕ
max_scan_points_per_frame = 32768

pub data RotationError : Type 0 where
  empty_sensor_id invalid_sample_rate invalid_rotation_rate sample_rate_below_rotation_rate :
      RotationError
  scan_point_limit_exceeded invalid_initial_angle invalid_scan_id invalid_rotation_interval :
      RotationError
  shape_mismatch empty_scan invalid_scheduled_angle invalid_point_time : RotationError
  non_monotonic_point_time point_before_rotation point_at_or_after_completion : RotationError
  scan_id_exhausted sample_index_exhausted no_measurement_points rotation_time_out_of_range :
      RotationError
  panicked : RotationError
  sdk : SdkError → RotationError

abbrev is_empty {ℓ} : {A : Type ℓ} → List A → Bool
is_empty [] = true
is_empty (x ∷ xs) = false

-- `iter().any(test)`.
abbrev pub any {ℓ} : {A : Type ℓ} → (A → Bool) → List A → Bool
any test [] = false
any test (x ∷ xs) = test x || any test xs

-- `bit_at`: a bit of a number of 32 bytes, the highest first.
unfoldable pub bit_at : List ℕ → ℕ → ℕ
bit_at bytes position = get_or bytes (length bytes - 1 - position / 8) 0 / 2 ^ (position % 8) % 2

-- The bits at the positions from `low` on, from the highest down, behind those that were read.
unfoldable pub read_bits : List ℕ → ℕ → ℕ → ℕ → ℕ
read_bits bytes low zero significand = significand
read_bits bytes low (suc count) significand =
    read_bits bytes low count (significand * 2 % 2 ^ 64 + bit_at bytes (low + count))

-- Whether one of the lowest bits is set.
unfoldable pub any_bit : List ℕ → ℕ → Bool
any_bit bytes zero = false
any_bit bytes (suc count) = any_bit bytes count || bit_at bytes count == 1

-- The bits from the first byte on that is not zero.
unfoldable pub significant_bits : List ℕ → ℕ
significant_bits [] = 0
significant_bits (byte ∷ bytes) =
    let rest = significant_bits bytes in
    if byte == 0 then rest else length bytes * 8 + bit_length byte

module _ (fl : Float) where
  open fl use {F, literal, is_finite, lt, le, add, sub, mul, div, max_of, rem_euclid, of_bits}

  unfoldable pub unsigned_256_to_f64 : List ℕ → F
  unsigned_256_to_f64 bytes =
      let bits = significant_bits bytes in
      let kept = min bits 53 in
      let discarded = bits - kept in
      let significand = read_bits bytes discarded kept 0 in
      let halfway = ltb 0 discarded && bit_at bytes (discarded - 1) == 1 in
      let sticky = any_bit bytes (discarded - 1) in
      let rounded =
        if halfway && (sticky || significand % 2 == 1) then significand + 1 else significand in
      mul (literal rounded 1) (literal (2 ^ discarded) 1)

  -- `(0.0..360.0).contains`, for a finite angle.
  abbrev pub is_angle : F → Bool
  is_angle angle = is_finite angle && (le (literal 0 1) angle && lt angle (literal 360 1))

  pub record ScheduledScan : Type 0 where
    pub sensor_id : List ℕ
    pub scan_id : ℕ
    pub rotation_started_at_s : F
    pub completed_at_s : F
    pub angles_deg : List F
    pub point_elapsed_times_s : List F

  -- `windows(2).any(times[1] <= times[0])`.
  unfoldable pub has_descent : List F → Bool
  has_descent [] = false
  has_descent (t ∷ []) = false
  has_descent (t ∷ u ∷ times) = le u t || has_descent (u ∷ times)

  abbrev first_or : List F → F → F
  first_or [] d = d
  first_or (t ∷ times) d = t

  abbrev last_or : List F → F → F
  last_or [] d = d
  last_or (t ∷ times) d = last_or times t

  unfoldable pub new_scan :
      List ℕ → ℕ → F → F → List F → List F → Result RotationError ScheduledScan
  new_scan sensor_id scan_id started_at_s completed_at_s angles_deg times = do
    _ ← reject_if (is_empty sensor_id) empty_sensor_id
    _ ← reject_if (not (leb 1 scan_id && leb scan_id max_scan_id)) invalid_scan_id
    _ ←
        reject_if
          (not (is_finite started_at_s)
            || lt started_at_s (literal 0 1)
            || not (is_finite completed_at_s)
            || le completed_at_s started_at_s)
          invalid_rotation_interval
    _ ← reject_if (not (length angles_deg == length times)) shape_mismatch
    _ ← reject_if (is_empty angles_deg) empty_scan
    _ ← reject_if (any (λ angle. not (is_angle angle)) angles_deg) invalid_scheduled_angle
    _ ← reject_if (any (λ time. not (is_finite time)) times) invalid_point_time
    _ ← reject_if (has_descent times) non_monotonic_point_time
    let tolerance_s = mul (max_of completed_at_s (literal 1 1)) (literal 1 1000000000000)
    _ ←
        reject_if (lt (first_or times completed_at_s) (sub started_at_s tolerance_s))
          point_before_rotation
    _ ← reject_if (le completed_at_s (last_or times completed_at_s)) point_at_or_after_completion
    ok (record {
      sensor_id = sensor_id;
      scan_id = scan_id;
      rotation_started_at_s = started_at_s;
      completed_at_s = completed_at_s;
      angles_deg = angles_deg;
      point_elapsed_times_s = times;
    })

  -- `captured_elapsed_s`: a scan has points.
  unfoldable pub captured_elapsed_s : ScheduledScan → F
  captured_elapsed_s scan = first_or scan.point_elapsed_times_s scan.completed_at_s

  pub record SensorRotationScheduler : Type 0 where
    pub sensor_id : List ℕ
    pub sample_rate_hz : F
    pub rotation_rate_hz : F
    pub samples_per_rotation : PositiveRatio
    pub rotation_rate_fraction : PositiveRatio
    pub initial_angle_deg : F
    pub next_rotation_index : ℕ
    pub next_sample_index : ℕ

  unfoldable pub rotation_boundary_elapsed_s : SensorRotationScheduler → ℕ → Result RotationError F
  rotation_boundary_elapsed_s s rotation_index = do
    bits ←
        ok_or rotation_time_out_of_range
          (reciprocal_multiple_to_f64 s.rotation_rate_fraction rotation_index)
    ok (of_bits bits)

  -- `saturating_add` on `u64`.
  unfoldable pub next_scan_id : SensorRotationScheduler → ℕ
  next_scan_id s = min (s.next_rotation_index + 1) (2 ^ 64 - 1)

  unfoldable pub next_completion_elapsed_s : SensorRotationScheduler → Result RotationError F
  next_completion_elapsed_s s = rotation_boundary_elapsed_s s (next_scan_id s)

  unfoldable pub point_time : SensorRotationScheduler → ℕ → F
  point_time s sample_index = div (literal sample_index 1) s.sample_rate_hz

  unfoldable pub point_angle : SensorRotationScheduler → ℕ → Result SdkError F
  point_angle s sample_index =
      let progress =
        sub (mul (point_time s sample_index) s.rotation_rate_hz)
          (literal s.next_rotation_index 1) in
      quantize_hq_angle_deg fl
        (rem_euclid (add s.initial_angle_deg (mul (literal 360 1) progress)) (literal 360 1))

  -- The loop: angles and times of so many samples from an index on.
  unfoldable pub scan_points :
      SensorRotationScheduler → ℕ → ℕ → Result RotationError (List F × List F)
  scan_points s sample_index zero = ok ([], [])
  scan_points s sample_index (suc count) = do
    angle ← map_err sdk (point_angle s sample_index)
    (angles, times) ← scan_points s (suc sample_index) count
    ok (angle ∷ angles, point_time s sample_index ∷ times)

  unfoldable pub next_scan :
      SensorRotationScheduler → Result RotationError (ScheduledScan × SensorRotationScheduler)
  next_scan s = do
    let scan_id = next_scan_id s
    _ ← reject_if (ltb max_scan_id scan_id) scan_id_exhausted
    end_sample_index ← ok_or sample_index_exhausted (ceil_multiple s.samples_per_rotation scan_id)
    _ ← reject_if (ltb max_sample_index end_sample_index) sample_index_exhausted
    _ ← reject_if (leb end_sample_index s.next_sample_index) no_measurement_points
    (angles, times) ← scan_points s s.next_sample_index (end_sample_index - s.next_sample_index)
    started_at_s ← rotation_boundary_elapsed_s s s.next_rotation_index
    completed_at_s ← rotation_boundary_elapsed_s s scan_id
    scan ← new_scan s.sensor_id scan_id started_at_s completed_at_s angles times
    ok (
      scan,
      record s {
        next_rotation_index = s.next_rotation_index + 1;
        next_sample_index = end_sample_index;
      },
    )

  module _ (from_decimal : F → F → Option PositiveRatio) where
    unfoldable pub validated_rate_ratios :
        F → F → Result RotationError (PositiveRatio × PositiveRatio)
    validated_rate_ratios sample_rate_hz rotation_rate_hz = do
      _ ←
          reject_if (not (is_finite sample_rate_hz) || le sample_rate_hz (literal 0 1))
            invalid_sample_rate
      _ ←
          reject_if (not (is_finite rotation_rate_hz) || le rotation_rate_hz (literal 0 1))
            invalid_rotation_rate
      _ ← reject_if (lt sample_rate_hz rotation_rate_hz) sample_rate_below_rotation_rate
      samples ← ok_or panicked (from_decimal sample_rate_hz rotation_rate_hz)
      fraction ← ok_or panicked (from_decimal rotation_rate_hz (literal 1 1))
      points ← ok_or scan_point_limit_exceeded (ceil_multiple samples 1)
      _ ← reject_if (ltb max_scan_points_per_frame points) scan_point_limit_exceeded
      ok (samples, fraction)

    unfoldable pub validate_scan_point_limit : F → F → Result RotationError (Unit {0})
    validate_scan_point_limit sample_rate_hz rotation_rate_hz = do
      _ ← validated_rate_ratios sample_rate_hz rotation_rate_hz
      ok tt

    unfoldable pub new : List ℕ → F → F → F → Result RotationError SensorRotationScheduler
    new sensor_id sample_rate_hz rotation_rate_hz initial_angle_deg = do
      _ ← reject_if (is_empty sensor_id) empty_sensor_id
      (samples, fraction) ← validated_rate_ratios sample_rate_hz rotation_rate_hz
      _ ← reject_if (not (is_angle initial_angle_deg)) invalid_initial_angle
      angle ← map_err sdk (quantize_hq_angle_deg fl initial_angle_deg)
      ok (record {
        sensor_id = sensor_id;
        sample_rate_hz = sample_rate_hz;
        rotation_rate_hz = rotation_rate_hz;
        samples_per_rotation = samples;
        rotation_rate_fraction = fraction;
        initial_angle_deg = angle;
        next_rotation_index = 0;
        next_sample_index = 0;
      })

    -- `sensor-rotation\0`, the seed and the identifier are hashed to the first angle.
    unfoldable pub seeded :
        (List ℕ → List ℕ) → List ℕ → F → F → ℕ → Result RotationError SensorRotationScheduler
    seeded sha256 sensor_id sample_rate_hz rotation_rate_hz seed = do
      _ ← reject_if (is_empty sensor_id) empty_sensor_id
      let prefix =
          115 ∷ 101 ∷ 110 ∷ 115 ∷ 111 ∷ 114 ∷ 45 ∷ 114 ∷ 111 ∷ 116 ∷ 97 ∷ 116 ∷ 105 ∷ 111 ∷ 110 ∷ 0
          ∷ []
      let digest = sha256 (prefix ++ (be_bytes 8 seed ++ sensor_id))
      let angle = div (mul (unsigned_256_to_f64 digest) (literal 360 1)) (literal (2 ^ 256) 1)
      new sensor_id sample_rate_hz rotation_rate_hz angle
