-- ===== src/Measurement/Samples.antt =====
-- services/simulation-server/src/measurement/generation.rs: dropouts, noise and reflections, and the samples
-- of a scan. The errors of a call that fails are told apart by their constructors; no allocation fails.
-- `Fault` is an error of the resolver of distortions, which is a parameter.
use scrap_monitoring_simulat.Float.{Float}
use scrap_monitoring_simulat.Results.{Result, ok, err, map_err, reject_if, ◌>>=◌}
use scrap_monitoring_simulat.Prelude.{
  ℕ, zero, suc, Bool, true, false, ◌&&◌, ◌||◌, not, Option, none, some, List, [], ◌∷◌, length,
  replicate, ◌==◌, if◌then◌else◌,
}
use scrap_monitoring_simulat.Measurement.Rotation.{any}
use scrap_monitoring_simulat.Server.Random
use scrap_monitoring_simulat.Server.Random.{ModelRng, RandomError, sensor, uniform, unit_f64}
use scrap_monitoring_simulat.Server.Sdk.{SdkError}

abbrev pub max_rejection_attempts_per_sample : ℕ
max_rejection_attempts_per_sample = 1000000

abbrev pub max_dropout_events_per_batch : ℕ
max_dropout_events_per_batch = 100000

-- The names of the streams: `dropout`, `distance-noise`, `quality` and `reflection-error`.
abbrev pub dropout_domain : List ℕ
dropout_domain = 100 ∷ 114 ∷ 111 ∷ 112 ∷ 111 ∷ 117 ∷ 116 ∷ []

abbrev pub noise_domain : List ℕ
noise_domain = 100 ∷ 105 ∷ 115 ∷ 116 ∷ 97 ∷ 110 ∷ 99 ∷ 101 ∷ 45 ∷ 110 ∷ 111 ∷ 105 ∷ 115 ∷ 101 ∷ []

abbrev pub quality_domain : List ℕ
quality_domain = 113 ∷ 117 ∷ 97 ∷ 108 ∷ 105 ∷ 116 ∷ 121 ∷ []

abbrev pub reflection_domain : List ℕ
reflection_domain =
    114 ∷ 101 ∷ 102 ∷ 108 ∷ 101 ∷ 99 ∷ 116 ∷ 105 ∷ 111 ∷ 110 ∷ 45 ∷ 101 ∷ 114 ∷ 114 ∷ 111 ∷ 114 ∷ []

pub data MeasurementError (Fault : Type 0) : Type 0 where
  invalid numerical dropout_limit rejection_limit : MeasurementError Fault
  random : RandomError → MeasurementError Fault
  sdk : SdkError → MeasurementError Fault
  resolver : Fault → MeasurementError Fault

module _ (fl : Float) (Fault : Type 0) where
  open fl use {
    F, literal, is_finite, lt, le, eq, add, sub, mul, div, max_of, min_of, abs, neg, sqrt, cos, ln,
    exp, powi, pi,
  }

  abbrev pub Outcome : Type 0 → Type 0
  Outcome A = Result (MeasurementError Fault) A

  abbrev pub nought : F
  nought = literal 0 1

  pub record Span : Type 0 where
    pub low : F
    pub high : F

  unfoldable pub require_positive_range : Span → Outcome (Unit {0})
  require_positive_range range =
      reject_if
        (not (is_finite range.low)
          || not (is_finite range.high)
          || le range.low nought
          || lt range.high range.low)
        invalid

  -- A number that is not one is not equal to itself.
  unfoldable pub require_distance_bounds : F → F → Outcome (Unit {0})
  require_distance_bounds minimum maximum = do
    _ ← reject_if (not (is_finite minimum) || lt minimum nought) invalid
    reject_if (not (eq maximum maximum) || lt maximum minimum) invalid

  pub record DropoutSettings : Type 0 where
    pub event_interval_s_range : Span
    pub duration_s_range : Span

  -- The identifier of the sensor is that of its settings.
  pub record SensorDropoutScheduler : Type 0 where
    pub event_interval_s_range : Span
    pub duration_s_range : Span
    pub rng : ModelRng
    pub current_start_s : F
    pub current_end_s : Option F
    pub last_point_elapsed_s : Option F

  unfoldable pub new_dropout :
      (List ℕ → List ℕ) → List ℕ → DropoutSettings → ℕ → Outcome SensorDropoutScheduler
  new_dropout sha256 sensor_id settings seed = do
    _ ← reject_if (length sensor_id == 0) invalid
    _ ← require_positive_range settings.event_interval_s_range
    _ ← require_positive_range settings.duration_s_range
    rng ← map_err random (Random.new sha256 seed (sensor sensor_id) dropout_domain)
    (start, rng') ←
        map_err random
          (uniform fl settings.event_interval_s_range.low settings.event_interval_s_range.high rng)
    ok (record {
      event_interval_s_range = settings.event_interval_s_range;
      duration_s_range = settings.duration_s_range;
      rng = rng';
      current_start_s = start;
      current_end_s = none;
      last_point_elapsed_s = none;
    })

  -- `windows(2).any(pair[0] >= pair[1])`.
  unfoldable pub is_unordered : List F → Bool
  is_unordered [] = false
  is_unordered (t ∷ []) = false
  is_unordered (t ∷ u ∷ times) = le u t || is_unordered (u ∷ times)

  abbrev last_of : F → List F → F
  last_of t [] = t
  last_of t (u ∷ times) = last_of u times

  -- The end of the event: that which is noted, or a new one.
  unfoldable pub event_end : SensorDropoutScheduler → Outcome (F × ModelRng)
  event_end s = elim s.current_end_s [
    | some end ↦ ok (end, s.rng)
    | none ↦ do
      (duration, rng) ←
          map_err random (uniform fl s.duration_s_range.low s.duration_s_range.high s.rng)
      let end = add s.current_start_s duration
      _ ← reject_if (not (is_finite end) || le end s.current_start_s) numerical
      ok (end, rng)
  ]

  unfoldable pub mark : F → F → List F → List Bool → List Bool
  mark start end [] active = []
  mark start end (t ∷ times) [] = []
  mark start end (t ∷ times) (b ∷ active) =
      (b || (le start t && lt t end)) ∷ mark start end times active

  -- The loop, with room for so many events.
  unfoldable pub drop_events :
      ℕ
      → F
      → List F
      → SensorDropoutScheduler
      → List Bool
      → Outcome (List Bool × SensorDropoutScheduler)
  drop_events zero through times s active = elim (le s.current_start_s through) [
    | true ↦ err dropout_limit
    | false ↦ ok (active, s)
  ]
  drop_events (suc room) through times s active = elim (le s.current_start_s through) [
    | false ↦ ok (active, s)
    | true ↦ do
      (end, rng) ← event_end s
      let marked = mark s.current_start_s end times active
      elim (lt through end) [
        | true ↦ ok (marked, record s { rng = rng; current_end_s = some end })
        | false ↦ do
          (gap, rng') ←
              map_err random
                (uniform fl s.event_interval_s_range.low s.event_interval_s_range.high rng)
          let next = add end gap
          _ ← reject_if (not (is_finite next) || le next end) numerical
          drop_events room through times
              (record s { rng = rng'; current_start_s = next; current_end_s = none }) marked
      ]
  ]

  abbrev is_behind : Option F → F → Bool
  is_behind none t = false
  is_behind (some last) t = le t last

  -- `active_mask`: a scheduler that an error changed is not kept.
  unfoldable pub active_mask :
      List F → SensorDropoutScheduler → Outcome (List Bool × SensorDropoutScheduler)
  active_mask [] s = err invalid
  active_mask (t ∷ times) s = do
    _ ←
        reject_if
          (any (λ value. not (is_finite value) || lt value nought) (t ∷ times)
            || is_unordered (t ∷ times)
            || is_behind s.last_point_elapsed_s t)
          invalid
    let through = last_of t times
    (active, s') ←
        drop_events max_dropout_events_per_batch through (t ∷ times) s
          (replicate (length (t ∷ times)) false)
    ok (active, record s' { last_point_elapsed_s = some through })

  -- A draw of the rejection sampling: a candidate that is accepted, or none. Either way takes two numbers.
  unfoldable pub draw_noise : F → F → ModelRng → Option F × ModelRng
  draw_noise deviation limit r =
      let (u, r1) = unit_f64 fl r in
      let (v, r2) = unit_f64 fl r1 in
      let radial = sqrt (mul (neg (literal 2 1)) (ln (sub (literal 1 1) u))) in
      let wide = mul (mul deviation radial) (cos (mul (mul (literal 2 1) pi) v)) in
      let narrow = add (neg limit) (mul (mul (literal 2 1) limit) u) in
      let probability = exp (mul (neg (literal 1 2)) (powi (div narrow deviation) 2)) in
      if le (mul deviation (literal 1 2)) limit
      then (if le (abs wide) limit then some wide else none, r2)
      else (if lt v probability then some narrow else none, r2)

  unfoldable pub accept_noise : ℕ → F → F → ModelRng → Outcome (F × ModelRng)
  accept_noise zero deviation limit r = err rejection_limit
  accept_noise (suc attempts) deviation limit r =
      let (drawn, r') = draw_noise deviation limit r in
      elim drawn [
        | some candidate ↦ ok (candidate, r')
        | none ↦ accept_noise attempts deviation limit r'
      ]

  unfoldable pub draw_noises : ℕ → F → F → ModelRng → Outcome (List F × ModelRng)
  draw_noises zero deviation limit r = ok ([], r)
  draw_noises (suc count) deviation limit r = do
    (noise, r1) ← accept_noise max_rejection_attempts_per_sample deviation limit r
    (noises, r2) ← draw_noises count deviation limit r1
    ok (noise ∷ noises, r2)

  unfoldable pub sample_truncated_normal : ℕ → F → F → ModelRng → Outcome (List F × ModelRng)
  sample_truncated_normal count deviation limit r =
      if count == 0 || eq deviation nought || eq limit nought
      then ok (replicate count nought, r)
      else draw_noises count deviation limit r
