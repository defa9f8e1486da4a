-- ===== src/Measurement/Generator/Range.antt =====
-- services/simulation-server/src/measurement/generation.rs: the angles and the distances of the samples.
use scrap_monitoring_simulat.Float.{Float}
use scrap_monitoring_simulat.Results.{Result, ok, Result-cases}
use scrap_monitoring_simulat.Prelude.{
  ℕ, ◌≡◌, refl, ◌⊎◌, inl, inr, arith, is_same, All, true, Option, List, [], ◌∷◌, length,
}
use scrap_monitoring_simulat.Measurement.Generator.{
  TimedReferenceScan, MeasurementSettings, MeasurementGenerator, MeasuredScan, MeasurementResult,
  hq_sample, hq_samples, resolved, apply_reflection, apply_dropout, apply_noise, from_hq_samples,
  same_angles, new_result, generate,
}
use scrap_monitoring_simulat.S2e.Encoder.{HqSample}
use scrap_monitoring_simulat.Server.Random.{ModelRng}
use scrap_monitoring_simulat.Server.Sdk.{quantize_hq_angle_ticks}

is_same-eq : (xs ys : List ℕ) → is_same xs ys ≡ true → xs ≡ ys
is_same-eq [] [] h = refl
is_same-eq [] (y ∷ ys) h = ground arith
is_same-eq (x ∷ xs) [] h = ground arith
is_same-eq (x ∷ xs) (y ∷ ys) h = ground (arith, is_same-eq xs ys)

module _ (fl : Float) (Fault : Type 0) where
  open fl use {F, le, div, literal}

  -- The distance of a sample: 4000 ticks are a metre.
  abbrev metres : HqSample → F
  metres x = div (literal x.dist_mm_q2 1) (literal 4000 1)

  -- No distance, or one between the bounds of the sensor.
  abbrev pub IsInRange : MeasurementSettings fl Fault → HqSample → Type 0
  IsInRange s x =
      (x.dist_mm_q2 ≡ 0)
      ⊎ ((le s.min_distance_m (metres x) ≡ true) × (le (metres x) s.max_distance_m ≡ true))

  -- One sample for each angle, with the tick of the angle.
  abbrev pub HasAngles : List HqSample → List F → Type 0
  HasAngles [] [] = Unit
  HasAngles [] (angle ∷ angles) = ⊥
  HasAngles (x ∷ samples) [] = ⊥
  HasAngles (x ∷ samples) (angle ∷ angles) =
      (quantize_hq_angle_ticks fl angle ≡ ok x.angle_z_q14) × HasAngles samples angles

  same_angles-HasAngles :
      (samples : List HqSample) (angles : List F)
      → length samples ≡ length angles
      → same_angles fl Fault samples angles ≡ true
      → HasAngles samples angles
  unfolding same_angles
  same_angles-HasAngles [] [] n h = tt
  same_angles-HasAngles [] (angle ∷ angles) n h = absurd (omega arith)
  same_angles-HasAngles (x ∷ samples) [] n h = absurd (omega arith)
  same_angles-HasAngles (x ∷ samples) (angle ∷ angles) n h =
      elim (Result-cases (quantize_hq_angle_ticks fl angle)) [
        | inr (e, q) ↦ ground arith
        | inl (tick, q) ↦
            (ground arith, same_angles-HasAngles samples angles (omega arith) (ground arith))
      ]

  hq_sample-IsInRange :
      (s : MeasurementSettings fl Fault) (angle distance : F) (r r' : ModelRng) (x : HqSample)
      → hq_sample fl Fault s angle distance r ≡ ok (x, r')
      → IsInRange s x
  unfolding hq_sample
  hq_sample-IsInRange s angle distance r r' x h = ground arith

  hq_samples-IsInRange :
      (s : MeasurementSettings fl Fault) (angles distances : List F) (r r' : ModelRng)
      (samples : List HqSample)
      → hq_samples fl Fault s angles distances r ≡ ok (samples, r')
      → All (IsInRange s) samples
  unfolding hq_samples
  hq_samples-IsInRange s [] distances r r' samples h =
      let listed : samples ≡ [] = ground arith in rw listed tt
  hq_samples-IsInRange s (angle ∷ angles) [] r r' samples h =
      let listed : samples ≡ [] = ground arith in rw listed tt
  hq_samples-IsInRange s (angle ∷ angles) (d ∷ distances) r r' samples h =
      elim (Result-cases (hq_sample fl Fault s angle d r)) [
        | inr (e, q) ↦ ground arith
        | inl ((x, r1), q) ↦ elim (Result-cases (hq_samples fl Fault s angles distances r1)) [
          | inr (e, p) ↦ ground arith
          | inl ((rest, r2), p) ↦
              let listed : samples ≡ x ∷ rest = ground arith in
              rw listed (
                hq_sample-IsInRange s angle d r r1 x q,
                hq_samples-IsInRange s angles distances r1 r2 rest p,
              )
        ]
      ]

  new_result-fields :
      (reference : TimedReferenceScan fl Fault) (measured : MeasuredScan fl Fault)
      (result : MeasurementResult fl Fault)
      → new_result fl Fault reference measured ≡ ok result
      → (result.reference ≡ reference)
        × (result.measured ≡ measured)
        × (length measured.hq_samples ≡ length reference.schedule.angles_deg)
        × (same_angles fl Fault measured.hq_samples reference.schedule.angles_deg ≡ true)
  unfolding new_result
  new_result-fields reference measured result h = ground arith

  -- What a measurement promises.
  pub record IsMeasured (g g' : MeasurementGenerator fl Fault)
      (reference : TimedReferenceScan fl Fault) (result : MeasurementResult fl Fault) : Type 0 where
    pub same_reference : result.reference ≡ reference
    pub own_sensor : reference.schedule.sensor_id ≡ g.settings.sensor_id
    pub measured_sensor : result.measured.sensor_id ≡ g.settings.sensor_id
    pub angles : HasAngles result.measured.hq_samples reference.schedule.angles_deg
    pub in_range : All (IsInRange g.settings) result.measured.hq_samples
    pub same_settings : g'.settings ≡ g.settings

  -- For every scan that is measured: the result is for that scan of the own sensor, it has one sample
  -- for each angle of the scan, in order, with the quantized angle, and the distance of each sample is
  -- none (0 ticks) or, in metres, at least the minimum and at most the maximum of the settings, whatever
  -- distortions, dropouts and noise there are; and the settings of the generator are kept.
  pub generate-IsMeasured :
      (resolve : Option (TimedReferenceScan fl Fault → F → F → Result Fault (List F)))
      (reference : TimedReferenceScan fl Fault) (g g' : MeasurementGenerator fl Fault)
      (result : MeasurementResult fl Fault)
      → generate fl Fault resolve reference g ≡ ok (result, g')
      → IsMeasured g g' reference result
  unfolding generate from_hq_samples
  generate-IsMeasured resolve reference g g' result h =
      let s = g.settings in
      elim (Result-cases (resolved fl Fault resolve s reference)) [
        | inr (e, a) ↦ ground arith
        | inl (distances, a) ↦
            let reflected =
              (apply_reflection fl Fault s reference.points distances g.reflection_rng).0 in
            elim (Result-cases (
              apply_dropout fl Fault reference.schedule.point_elapsed_times_s reflected
                g.dropout)) [
                  | inr (e, b) ↦ ground arith
                  | inl ((dropped, dropout), b) ↦
                      elim (Result-cases (apply_noise fl Fault s dropped g.noise_rng)) [
                        | inr (e, c) ↦ ground arith
                        | inl ((noisy, noise), c) ↦
                            elim (Result-cases (
                              hq_samples fl Fault s reference.schedule.angles_deg noisy
                                g.quality_rng)) [
                                  | inr (e, d) ↦ ground arith
                                  | inl ((samples, quality), d) ↦
                                      let own : is_same reference.schedule.sensor_id s.sensor_id
                                          ≡ true =
                                        ground arith in
                                      let made : new_result fl Fault reference (record {
                                        sensor_id = s.sensor_id;
                                        hq_samples = samples;
                                      })
                                          ≡ ok result =
                                        ground arith in
                                      let (same, measured, complete, angles) =
                                        new_result-fields reference
                                          (record { sensor_id = s.sensor_id; hq_samples = samples })
                                          result made in
                                      record {
                                        same_reference = same;
                                        own_sensor =
                                            is_same-eq reference.schedule.sensor_id s.sensor_id own;
                                        measured_sensor = rw measured refl;
                                        angles = rw measured (
                                            same_angles-HasAngles samples
                                              reference.schedule.angles_deg complete angles);
                                        in_range = rw measured (
                                            hq_samples-IsInRange s reference.schedule.angles_deg
                                              noisy g.quality_rng quality samples d);
                                        same_settings = ground arith;
                                      }
                                ]
                      ]
                ]
      ]
