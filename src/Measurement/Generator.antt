-- ===== src/Measurement/Generator.antt =====
-- services/simulation-server/src/measurement/generation.rs: `MeasurementGenerator`, and what it uses of
-- measurement/reference.rs. The parameter `resolve` is `resolve_distances` of measurement/spatial.rs. A
-- generator that an error changed is put back, so that an error gives none.
pub mod Range
use scrap_monitoring_simulat.Float.{Float}
use scrap_monitoring_simulat.Results.{
  Result, ok, err, map_err, ok_or, reject_if, ◌>>=◌, Result-cases,
}
use scrap_monitoring_simulat.Prelude.{
  is_same, ℕ, zero, suc, ◌+◌, ◌-◌, ◌*◌, ◌≡◌, ◌≢◌, ◌⊎◌, inl, inr, refl, arith, All, Bool, true,
  false, ◌&&◌, ◌||◌, not, Bool-cases, Option, none, some, List, [], ◌∷◌, map, length, replicate,
  ltb, leb, ◌==◌, if◌then◌else◌,
}
use scrap_monitoring_simulat.Measurement.Quality.{QualityDistribution, sample}
use scrap_monitoring_simulat.Measurement.Rotation.{ScheduledScan, any}
use scrap_monitoring_simulat.Measurement.Samples.{
  MeasurementError, invalid, numerical, random, sdk, resolver, Outcome, nought, Span,
  DropoutSettings, SensorDropoutScheduler, new_dropout, active_mask, sample_truncated_normal,
  require_positive_range, require_distance_bounds, noise_domain, quality_domain, reflection_domain,
}
use scrap_monitoring_simulat.S2e.Encoder.{HqSample}
use scrap_monitoring_simulat.Server.Random
use scrap_monitoring_simulat.Server.Random.{ModelRng, sensor, unit_f64}
use scrap_monitoring_simulat.Server.Sdk.{quantize_hq_angle_ticks, quantize_hq_distance_ticks}

module _ (fl : Float) (Fault : Type 0) where
  open fl use {F, literal, is_finite, lt, le, eq, add, sub, mul, div, max_of, min_of}

  -- A point of a reference scan: its distance, and whether its `hit_kind` is the surface. Its angle, and
  -- the metadata of a scan, are read only by the resolver.
  pub record ReferencePoint : Type 0 where
    pub distance_m : F
    pub on_surface : Bool

  pub record TimedReferenceScan : Type 0 where
    pub schedule : ScheduledScan fl
    pub points : List ReferencePoint

  pub record MeasurementSettings : Type 0 where
    pub sensor_id : List ℕ
    pub min_distance_m : F
    pub max_distance_m : F
    pub noise_enabled : Bool
    pub noise_standard_deviation_m : F
    pub noise_limit_m : F
    pub reflection_error_enabled : Bool
    pub reflection_error_probability : F
    pub reflection_error_reduction_range_m : Span fl Fault
    pub valid_quality : QualityDistribution
    pub invalid_quality : QualityDistribution
    pub dropout : Option (DropoutSettings fl Fault)

  pub record MeasurementGenerator : Type 0 where
    pub settings : MeasurementSettings
    pub noise_rng : ModelRng
    pub quality_rng : ModelRng
    pub reflection_rng : ModelRng
    pub dropout : Option (SensorDropoutScheduler fl Fault)

  pub record MeasuredScan : Type 0 where
    pub sensor_id : List ℕ
    pub hq_samples : List HqSample

  pub record MeasurementResult : Type 0 where
    pub reference : TimedReferenceScan
    pub measured : MeasuredScan

  unfoldable pub validate_settings : MeasurementSettings → Outcome fl Fault (Unit {0})
  validate_settings s = do
    _ ← require_distance_bounds fl Fault s.min_distance_m s.max_distance_m
    _ ←
        reject_if
          (length s.sensor_id == 0
            || eq s.min_distance_m (nought fl Fault)
            || not (is_finite s.max_distance_m)
            || not (is_finite s.noise_standard_deviation_m)
            || lt s.noise_standard_deviation_m (nought fl Fault)
            || not (is_finite s.noise_limit_m)
            || lt s.noise_limit_m (nought fl Fault)
            || not (is_finite s.reflection_error_probability)
            || not (
                le (nought fl Fault) s.reflection_error_probability
                && le s.reflection_error_probability (literal 1 1)))
          invalid
    require_positive_range fl Fault s.reflection_error_reduction_range_m

  unfoldable pub start_dropout :
      (List ℕ → List ℕ)
      → MeasurementSettings
      → ℕ
      → Outcome fl Fault (Option (SensorDropoutScheduler fl Fault))
  start_dropout sha256 s seed = elim s.dropout [
    | none ↦ ok none
    | some dropout ↦ do
      scheduler ← new_dropout fl Fault sha256 s.sensor_id dropout seed
      ok (some scheduler)
  ]

  unfoldable pub new :
      (List ℕ → List ℕ) → MeasurementSettings → ℕ → Outcome fl Fault MeasurementGenerator
  new sha256 settings seed = do
    _ ← validate_settings settings
    noise ← map_err random (Random.new sha256 seed (sensor settings.sensor_id) noise_domain)
    quality ← map_err random (Random.new sha256 seed (sensor settings.sensor_id) quality_domain)
    reflection ←
        map_err random (Random.new sha256 seed (sensor settings.sensor_id) reflection_domain)
    dropout ← start_dropout sha256 settings seed
    ok (record {
      settings = settings;
      noise_rng = noise;
      quality_rng = quality;
      reflection_rng = reflection;
      dropout = dropout;
    })

  unfoldable pub draw_units : ℕ → ModelRng → List F × ModelRng
  draw_units zero r = ([], r)
  draw_units (suc count) r =
      let (u, r1) = unit_f64 fl r in let (us, r2) = draw_units count r1 in (u ∷ us, r2)

  -- A point with its draws, and its distance.
  unfoldable pub reflect : MeasurementSettings → ReferencePoint → F → F → F → F
  reflect s point selected reduction distance =
      let lower = s.reflection_error_reduction_range_m.low in
      let maximum =
        min_of s.reflection_error_reduction_range_m.high (sub point.distance_m s.min_distance_m) in
      if point.on_surface && le lower maximum && lt selected s.reflection_error_probability
      then min_of distance (sub point.distance_m (add lower (mul reduction (sub maximum lower))))
      else distance

  unfoldable pub reflect_all :
      MeasurementSettings → List ReferencePoint → List F → List F → List F → List F
  reflect_all s (point ∷ points) (u ∷ us) (v ∷ vs) (d ∷ distances) =
      reflect s point u v d ∷ reflect_all s points us vs distances
  reflect_all s [] us vs distances = distances
  reflect_all s (point ∷ points) [] vs distances = distances
  reflect_all s (point ∷ points) (u ∷ us) [] distances = distances
  reflect_all s (point ∷ points) (u ∷ us) (v ∷ vs) [] = []

  unfoldable pub apply_reflection :
      MeasurementSettings → List ReferencePoint → List F → ModelRng → List F × ModelRng
  apply_reflection s points distances r =
      let (selected, r1) = draw_units (length distances) r in
      let (reduction, r2) = draw_units (length distances) r1 in
      if not s.reflection_error_enabled || eq s.reflection_error_probability (nought fl Fault)
      then (distances, r)
      else (reflect_all s points selected reduction distances, r2)

  unfoldable pub drop_all : List F → List Bool → List F
  drop_all [] active = []
  drop_all (d ∷ distances) [] = d ∷ distances
  drop_all (d ∷ distances) (b ∷ active) =
      (if b then nought fl Fault else d) ∷ drop_all distances active

  unfoldable pub apply_dropout :
      List F
      → List F
      → Option (SensorDropoutScheduler fl Fault)
      → Outcome fl Fault (List F × Option (SensorDropoutScheduler fl Fault))
  apply_dropout times distances none = ok (distances, none)
  apply_dropout times distances (some dropout) = do
    (active, dropout') ← active_mask fl Fault times dropout
    ok (drop_all distances active, some dropout')

  unfoldable pub add_noise : List F → List F → List F
  add_noise [] noises = []
  add_noise (d ∷ distances) [] = d ∷ distances
  add_noise (d ∷ distances) (n ∷ noises) =
      (if lt (nought fl Fault) d then add d n else d) ∷ add_noise distances noises

  unfoldable pub apply_noise :
      MeasurementSettings → List F → ModelRng → Outcome fl Fault (List F × ModelRng)
  apply_noise s distances r = elim s.noise_enabled [
    | false ↦ ok (distances, r)
    | true ↦ do
      (noises, r') ←
          sample_truncated_normal fl Fault (length distances) s.noise_standard_deviation_m
            s.noise_limit_m r
      ok (add_noise distances noises, r')
  ]

  -- The distance of a tick, and whether it is one that the sensor measures.
  abbrev pub tick_distance : ℕ → F
  tick_distance tick = div (literal tick 1) (literal 4000 1)

  abbrev pub is_valid : MeasurementSettings → ℕ → Bool
  is_valid s tick =
      not (tick == 0)
      && le s.min_distance_m (tick_distance tick)
      && le (tick_distance tick) s.max_distance_m

  unfoldable pub hq_sample :
      MeasurementSettings → F → F → ModelRng → Outcome fl Fault (HqSample × ModelRng)
  hq_sample s angle_deg distance r = do
    tick ← map_err sdk (quantize_hq_distance_ticks fl (max_of distance (nought fl Fault)))
    let (quality, r') = sample (if is_valid s tick then s.valid_quality else s.invalid_quality) r
    angle ← map_err sdk (quantize_hq_angle_ticks fl angle_deg)
    ok (
      record {
        angle_z_q14 = angle;
        dist_mm_q2 = if is_valid s tick then tick else 0;
        quality = quality;
      },
      r',
    )

  -- `zip` ends with the shorter list.
  unfoldable pub hq_samples :
      MeasurementSettings → List F → List F → ModelRng → Outcome fl Fault (List HqSample × ModelRng)
  hq_samples s [] distances r = ok ([], r)
  hq_samples s (angle ∷ angles) [] r = ok ([], r)
  hq_samples s (angle ∷ angles) (d ∷ distances) r = do
    (made, r1) ← hq_sample s angle d r
    (rest, r2) ← hq_samples s angles distances r1
    ok (made ∷ rest, r2)

  unfoldable pub from_hq_samples : List ℕ → List HqSample → Outcome fl Fault MeasuredScan
  from_hq_samples sensor_id samples = do
    _ ← reject_if (length sensor_id == 0 || length samples == 0) invalid
    ok (record { sensor_id = sensor_id; hq_samples = samples })

  -- Whether each sample has the angle of its point.
  unfoldable pub same_angles : List HqSample → List F → Bool
  same_angles [] angles = true
  same_angles (x ∷ samples) [] = true
  same_angles (x ∷ samples) (angle ∷ angles) = elim (quantize_hq_angle_ticks fl angle) [
    | err e ↦ false
    | ok tick ↦ tick == x.angle_z_q14 && same_angles samples angles
  ]

  unfoldable pub new_result : TimedReferenceScan → MeasuredScan → Outcome fl Fault MeasurementResult
  new_result reference measured = do
    let schedule = reference.schedule
    _ ←
        reject_if
          (not (is_same measured.sensor_id schedule.sensor_id)
            || not (length measured.hq_samples == length schedule.angles_deg)
            || not (same_angles measured.hq_samples schedule.angles_deg))
          invalid
    ok (record { reference = reference; measured = measured })

  module _ (resolve : Option (TimedReferenceScan → F → F → Result Fault (List F))) where
    unfoldable pub resolved : MeasurementSettings → TimedReferenceScan → Outcome fl Fault (List F)
    resolved s reference = elim resolve [
      | none ↦ ok (map (λ point. point.distance_m) reference.points)
      | some f ↦ map_err resolver (f reference s.min_distance_m s.max_distance_m)
    ]

    unfoldable pub generate :
        TimedReferenceScan
        → MeasurementGenerator
        → Outcome fl Fault (MeasurementResult × MeasurementGenerator)
    generate reference g = do
      let s = g.settings
      _ ← reject_if (not (is_same reference.schedule.sensor_id s.sensor_id)) invalid
      distances ← resolved s reference
      _ ←
          reject_if
            (not (length distances == length reference.points)
              || any (λ value. not (is_finite value) || lt value (nought fl Fault)) distances)
            numerical
      let (reflected, reflection_rng) =
          apply_reflection s reference.points distances g.reflection_rng
      (dropped, dropout) ←
          apply_dropout reference.schedule.point_elapsed_times_s reflected g.dropout
      (noisy, noise_rng) ← apply_noise s dropped g.noise_rng
      (samples, quality_rng) ← hq_samples s reference.schedule.angles_deg noisy g.quality_rng
      measured ← from_hq_samples s.sensor_id samples
      result ← new_result reference measured
      ok (
        result,
        record g {
          noise_rng = noise_rng;
          quality_rng = quality_rng;
          reflection_rng = reflection_rng;
          dropout = dropout;
        },
      )
