-- ===== src/Examples/Measurement.antt =====
-- services/simulation-server/src/measurement: a history of three surfaces, and a sensor that takes two
-- samples in each rotation of two seconds.
use scrap_monitoring_simulat.Examples.Numbers.{numbers, numbers-IsOrdered}
use scrap_monitoring_simulat.Results.{ok}
use scrap_monitoring_simulat.Prelude.{
  ℕ, ◌+◌, ◌*◌, ◌^◌, ◌≤◌, ◌<◌, ◌≡◌, refl, arith, Bool, true, false, some, none, [], ◌∷◌,
}
use scrap_monitoring_simulat.Measurement.Snapshots
use scrap_monitoring_simulat.Measurement.Snapshots.{
  SnapshotEventCoordinator, snapshot_at, discard_before_earliest_pending,
}
use scrap_monitoring_simulat.Measurement.Snapshots.Retention.{
  snapshot_at-discard_before_earliest_pending,
}
use scrap_monitoring_simulat.Measurement.Quality
use scrap_monitoring_simulat.Measurement.Quality.{
  QualityDistribution, scaled_word_threshold, scaled_word_threshold_lem,
}
use scrap_monitoring_simulat.Measurement.Generator
use scrap_monitoring_simulat.Measurement.Generator.{
  MeasurementSettings, MeasurementGenerator, MeasurementResult, TimedReferenceScan, generate,
}
use scrap_monitoring_simulat.Measurement.Generator.Range.{IsMeasured, generate-IsMeasured}
use scrap_monitoring_simulat.Server.Random
use scrap_monitoring_simulat.Server.Random.{ModelRng}
use scrap_monitoring_simulat.Measurement.Rotation
use scrap_monitoring_simulat.Measurement.Rotation.{ScheduledScan, SensorRotationScheduler}
use scrap_monitoring_simulat.Measurement.Rotation.Continuity.{
  IsCovered, next_scans, next_scans-IsCovered,
}
use scrap_monitoring_simulat.Server.Ratio
use scrap_monitoring_simulat.Server.Sdk

abbrev same_grid : ℕ → ℕ → Bool
same_grid a b = true

abbrev later : SnapshotEventCoordinator numbers ℕ same_grid
later = record {
  front = record { started_at_s = 5; snapshot = 20 };
  rest = record { started_at_s = 9; snapshot = 30 } ∷ [];
}

abbrev history : SnapshotEventCoordinator numbers ℕ same_grid
history = record {
  front = record { started_at_s = 0; snapshot = 10 };
  rest =
      record { started_at_s = 5; snapshot = 20 } ∷ record { started_at_s = 9; snapshot = 30 } ∷ [];
}

discarded : discard_before_earliest_pending numbers ℕ same_grid 6 history ≡ ok later
unfolding discard_before_earliest_pending Snapshots.discard
discarded = refl

snapshot_at-discard_before_earliest_pending_example :
    snapshot_at numbers ℕ same_grid 7 later ≡ snapshot_at numbers ℕ same_grid 7 history
snapshot_at-discard_before_earliest_pending_example =
    snapshot_at-discard_before_earliest_pending numbers numbers-IsOrdered ℕ same_grid 6 7 history
      later refl discarded

abbrev pub spinning : ℕ → ℕ → SensorRotationScheduler numbers
spinning rotations samples = record {
  sensor_id = 97 ∷ [];
  sample_rate_hz = 1;
  rotation_rate_hz = 1;
  samples_per_rotation = record { numerator = 2; denominator = 1 };
  rotation_rate_fraction = record { numerator = 1; denominator = 2 };
  initial_angle_deg = 0;
  next_rotation_index = rotations;
  next_sample_index = samples;
}

abbrev pub scan_of_two : ℕ → ℕ → ScheduledScan numbers
scan_of_two id start = record {
  sensor_id = 97 ∷ [];
  scan_id = id;
  rotation_started_at_s = start;
  completed_at_s = start + 2;
  angles_deg = 0 ∷ 0 ∷ [];
  point_elapsed_times_s = start ∷ (start + 1) ∷ [];
}

two_scans :
    next_scans numbers 2 (spinning 0 0) ≡ ok (scan_of_two 1 0 ∷ scan_of_two 2 2 ∷ [], spinning 2 4)
unfolding next_scans Rotation.next_scan Rotation.next_scan_id Ratio.ceil_multiple Ratio.to_u64
    Ratio.ceil_quotient Rotation.scan_points Rotation.point_angle Sdk.quantize_hq_angle_deg
    Sdk.quantize_hq_angle_ticks Rotation.point_time Rotation.rotation_boundary_elapsed_s
    Ratio.reciprocal_multiple_to_f64 Ratio.rational_to_f64 Ratio.digit_count Ratio.exponent_of
    Ratio.first_exponent Ratio.normal_to_f64 Rotation.has_descent Rotation.new_scan
    Ratio.normal_bits Ratio.rounded_quotient Ratio.rounded_scaled_quotient
two_scans = refl

on_grid : Ratio.ceil_multiple (record { numerator = 2; denominator = 1 }) 0 ≡ some 0
unfolding Ratio.ceil_multiple Ratio.to_u64 Ratio.ceil_quotient
on_grid = refl

next_scans-IsCovered_example :
    IsCovered numbers 2 (spinning 0 0) (scan_of_two 1 0 ∷ scan_of_two 2 2 ∷ []) (spinning 2 4)
next_scans-IsCovered_example =
    next_scans-IsCovered numbers 2 (spinning 0 0) (spinning 2 4)
      (scan_of_two 1 0 ∷ scan_of_two 2 2 ∷ []) on_grid two_scans

scaled_word_threshold_lem_example :
    (1 * 2 ^ 64 ≤ scaled_word_threshold 1 3 * 3) × (scaled_word_threshold 1 3 * 3 < 1 * 2 ^ 64 + 3)
scaled_word_threshold_lem_example = scaled_word_threshold_lem 1 3 (omega arith) (omega arith)

abbrev generator : ModelRng
generator = record { s0 = 1; s1 = 2; s2 = 3; s3 = 4 }

abbrev best : QualityDistribution
best = record { thresholds = []; total = 1 }

abbrev clear : MeasurementSettings numbers ℕ
clear = record {
  sensor_id = 97 ∷ [];
  min_distance_m = 1;
  max_distance_m = 40;
  noise_enabled = false;
  noise_standard_deviation_m = 0;
  noise_limit_m = 0;
  reflection_error_enabled = false;
  reflection_error_probability = 0;
  reflection_error_reduction_range_m = record { low = 1; high = 1 };
  valid_quality = best;
  invalid_quality = best;
  dropout = none;
}

abbrev fresh : MeasurementGenerator numbers ℕ
fresh = record {
  settings = clear;
  noise_rng = generator;
  quality_rng = generator;
  reflection_rng = generator;
  dropout = none;
}

-- A point within the range of the sensor, and one beyond it.
abbrev near_and_far : TimedReferenceScan numbers ℕ
near_and_far = record {
  schedule = scan_of_two 1 0;
  points =
      record { distance_m = 5; on_surface = true }
      ∷ record { distance_m = 50; on_surface = false }
      ∷ [];
}

abbrev measured : MeasurementResult numbers ℕ
measured = record {
  reference = near_and_far;
  measured = record {
    sensor_id = 97 ∷ [];
    hq_samples =
        record { angle_z_q14 = 0; dist_mm_q2 = 20000; quality = 255 }
        ∷ record { angle_z_q14 = 0; dist_mm_q2 = 0; quality = 255 }
        ∷ [];
  };
}

abbrev spent : MeasurementGenerator numbers ℕ
spent = record fresh { quality_rng = Random.advance (Random.advance generator) }

generated : generate numbers ℕ none near_and_far fresh ≡ ok (measured, spent)
unfolding generate Generator.resolved Generator.apply_reflection Generator.apply_dropout
    Generator.apply_noise Generator.hq_samples Generator.hq_sample Generator.from_hq_samples
    Generator.new_result Quality.sample Quality.first_above Random.next_u64
    Sdk.quantize_hq_distance_ticks Sdk.quantize_hq_angle_ticks Generator.same_angles
generated = refl

generate-IsMeasured_example : IsMeasured numbers ℕ fresh spent near_and_far measured
generate-IsMeasured_example =
    generate-IsMeasured numbers ℕ none near_and_far fresh spent measured generated
