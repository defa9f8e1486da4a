-- ===== src/Scenario/Rates.antt =====
-- services/simulation-server/src/rate_profile.rs: profiles of rates. `partition_point` is the number of
-- leading segments that pass a test, as the standard library has it for segments in order. A generator
-- that an error leaves behind is not returned: its owner drops it.
pub mod Termination
use scrap_monitoring_simulat.Float.{Float}
use scrap_monitoring_simulat.Results.{Result, ok, err, map_err, reject_if, ◌>>=◌}
use scrap_monitoring_simulat.Prelude.{
  ℕ, zero, suc, ◌+◌, ◌-◌, ◌*◌, Bool, true, false, ◌&&◌, ◌||◌, not, Option, none, some, List, [],
  ◌∷◌, ◌++◌, ltb, if◌then◌else◌, length, get_elem?,
}
use scrap_monitoring_simulat.Server.Random.{ModelRng, RandomError, uniform, boolean}

pub data RateProfileError : Type 0 where
  invalid_segment_start invalid_segment_duration invalid_deviation invalid_duration :
      RateProfileError
  overlapping_segments unordered_segments segment_outside_profile non_zero_integral :
      RateProfileError
  invalid_elapsed reversed_interval invalid_factor_range invalid_change_range : RateProfileError
  segment_limit no_progress : RateProfileError
  random : RandomError → RateProfileError

abbrev pub max_rate_segments : ℕ
max_rate_segments = 100000

module _ (fl : Float) where
  open fl use {
    F, literal, is_finite, lt, le, eq, add, sub, mul, div, neg, max_of, min_of, abs, sin, pi,
  }

  abbrev pub nought : F
  nought = literal 0 1

  abbrev pub unit : F
  unit = literal 1 1

  -- `PROFILE_TOLERANCE`, 1e-12.
  abbrev pub profile_tolerance : F
  profile_tolerance = literal 1 1000000000000

  -- `f64::clamp` for bounds in order.
  abbrev pub clamp : F → F → F → F
  clamp x low high = if lt x low then low else if lt high x then high else x

  pub record SmoothRateSegment : Type 0 where
    pub start_s : F
    pub duration_s : F
    pub deviation : F

  abbrev pub end_s : SmoothRateSegment → F
  end_s s = add s.start_s s.duration_s

  unfoldable pub new_segment : F → F → F → Result RateProfileError SmoothRateSegment
  new_segment start_s duration_s deviation = do
    _ ← reject_if (not (is_finite start_s) || lt start_s nought) invalid_segment_start
    _ ← reject_if (not (is_finite duration_s) || le duration_s nought) invalid_segment_duration
    _ ← reject_if (not (is_finite deviation) || le deviation (neg unit)) invalid_deviation
    _ ←
        reject_if (not (is_finite (add start_s duration_s)) || le (add start_s duration_s) start_s)
          no_progress
    ok (record { start_s = start_s; duration_s = duration_s; deviation = deviation })

  unfoldable pub segment_factor_at : SmoothRateSegment → F → F
  segment_factor_at s elapsed_s =
      if le elapsed_s s.start_s || le (end_s s) elapsed_s
      then unit
      else let sine = sin (mul pi (div (sub elapsed_s s.start_s) s.duration_s)) in
        add unit (mul s.deviation (mul sine sine))

  unfoldable pub integrated_deviation_to : SmoothRateSegment → F → F
  integrated_deviation_to s elapsed_s =
      let normalized = clamp (div (sub elapsed_s s.start_s) s.duration_s) nought unit in
      let wave = div (sin (mul (mul (literal 2 1) pi) normalized)) (mul (literal 4 1) pi) in
      mul (mul s.deviation s.duration_s) (sub (div normalized (literal 2 1)) wave)

  pub record SmoothRateProfile : Type 0 where
    pub profile_duration_s : F
    pub segments : List SmoothRateSegment
    pub prefix_deviation_integrals_s : List F

  unfoldable pub validate_duration : F → Result RateProfileError (Unit {0})
  validate_duration duration_s =
      reject_if (not (is_finite duration_s) || le duration_s nought) invalid_duration

  -- The loop of `new`: the ends of the segment before, and the integral so far. It gives the prefix
  -- integrals behind the first, and the last of them.
  unfoldable pub check_segments :
      F → F → F → F → F → List SmoothRateSegment → Result RateProfileError (List F × F)
  check_segments duration_s tolerance_s previous_start previous_end integral [] = ok ([], integral)
  check_segments duration_s tolerance_s previous_start previous_end integral (s ∷ segments) = do
    _ ← reject_if (lt s.start_s previous_start || lt (end_s s) previous_end) unordered_segments
    _ ← reject_if (lt s.start_s (sub previous_end tolerance_s)) overlapping_segments
    _ ← reject_if (lt (add duration_s tolerance_s) (end_s s)) segment_outside_profile
    let next = add integral (div (mul s.deviation s.duration_s) (literal 2 1))
    _ ← reject_if (not (is_finite next)) non_zero_integral
    (prefix, last) ← check_segments duration_s tolerance_s s.start_s (end_s s) next segments
    ok (next ∷ prefix, last)

  unfoldable pub new_profile :
      F → List SmoothRateSegment → Result RateProfileError SmoothRateProfile
  new_profile duration_s segments = do
    _ ← validate_duration duration_s
    _ ← reject_if (ltb max_rate_segments (length segments)) segment_limit
    let tolerance_s = mul (max_of duration_s unit) profile_tolerance
    (prefix, integral) ← check_segments duration_s tolerance_s nought nought nought segments
    _ ← reject_if (lt tolerance_s (abs integral)) non_zero_integral
    ok (record {
      profile_duration_s = duration_s;
      segments = segments;
      prefix_deviation_integrals_s = nought ∷ prefix;
    })

  unfoldable pub validate_elapsed : SmoothRateProfile → F → Result RateProfileError (Unit {0})
  validate_elapsed p elapsed_s =
      reject_if
        (not (is_finite elapsed_s)
          || not (le nought elapsed_s && le elapsed_s p.profile_duration_s))
        invalid_elapsed

  unfoldable pub partition_point : (SmoothRateSegment → Bool) → List SmoothRateSegment → ℕ
  partition_point test [] = 0
  partition_point test (s ∷ segments) =
      let rest = partition_point test segments in if test s then suc rest else 0

  -- The factor of the segment before the partition point.
  unfoldable pub factor_before : ℕ → List SmoothRateSegment → F → F
  factor_before zero segments elapsed_s = unit
  factor_before (suc index) segments elapsed_s = elim (get_elem? segments index) [
    | none ↦ unit
    | some s ↦ segment_factor_at s elapsed_s
  ]

  unfoldable pub factor_at : SmoothRateProfile → F → Result RateProfileError F
  factor_at p elapsed_s = do
    _ ← validate_elapsed p elapsed_s
    ok (
        if eq elapsed_s p.profile_duration_s
        then unit
        else factor_before (partition_point (λ s. le s.start_s elapsed_s) p.segments) p.segments
            elapsed_s)

  abbrev pub element_or : List F → ℕ → F
  element_or xs i = elim (get_elem? xs i) [ none ↦ nought | some x ↦ x ]

  unfoldable pub integrated_factor_to : SmoothRateProfile → F → F
  integrated_factor_to p elapsed_s =
      let completed = partition_point (λ s. le (end_s s) elapsed_s) p.segments in
      let deviation = element_or p.prefix_deviation_integrals_s completed in
      if eq elapsed_s p.profile_duration_s
      then p.profile_duration_s
      else add elapsed_s (elim (get_elem? p.segments completed) [
        | none ↦ deviation
        | some s ↦
            if lt s.start_s elapsed_s
            then add deviation (integrated_deviation_to s elapsed_s)
            else deviation
      ])

  unfoldable pub integrated_factor_between : SmoothRateProfile → F → F → Result RateProfileError F
  integrated_factor_between p from to = do
    _ ← validate_elapsed p from
    _ ← validate_elapsed p to
    _ ← reject_if (lt to from) reversed_interval
    ok (
        if eq from to
        then nought
        else sub (integrated_factor_to p to) (integrated_factor_to p from))

  -- One round of the loop of `create_smooth_rate_profile`: two segments whose deviations balance, the
  -- cursor behind them and the generator.
  unfoldable pub segment_pair :
      F
      → F
      → F
      → F
      → F
      → F
      → ModelRng
      → Result RateProfileError (List SmoothRateSegment × F × ModelRng)
  segment_pair positive_limit negative_limit minimum_change maximum_change remaining cursor r = do
    (first_duration, r1) ←
        map_err random
          (uniform fl minimum_change (min_of maximum_change (sub remaining minimum_change)) r)
    (second_duration, r2) ←
        map_err random
          (uniform fl minimum_change (min_of maximum_change (sub remaining first_duration)) r1)
    let (positive_first, r3) = boolean r2
    let positive_duration = if positive_first then first_duration else second_duration
    let negative_duration = if positive_first then second_duration else first_duration
    let maximum_balance =
        min_of (mul positive_limit positive_duration) (mul negative_limit negative_duration)
    (balance, r4) ← map_err random (uniform fl nought maximum_balance r3)
    let positive_deviation = div balance positive_duration
    let negative_deviation = div (neg balance) negative_duration
    first ←
        new_segment cursor first_duration
          (if positive_first then positive_deviation else negative_deviation)
    second ←
        new_segment (add cursor first_duration) second_duration
          (if positive_first then negative_deviation else positive_deviation)
    let next = add cursor (add first_duration second_duration)
    _ ← reject_if (not (is_finite next) || le next cursor) no_progress
    ok (first ∷ second ∷ [], next, r4)

  -- The loop. `none` is no outcome of the source: it stands for fuel that ran out.
  unfoldable pub build_segments :
      ℕ
      → F
      → F
      → F
      → F
      → F
      → F
      → List SmoothRateSegment
      → ModelRng
      → Option (Result RateProfileError (List SmoothRateSegment × ModelRng))
  build_segments zero duration_s positive_limit negative_limit low high cursor segments r = none
  build_segments (suc fuel) duration_s positive_limit negative_limit low high cursor segments r =
      elim (le (mul (literal 2 1) low) (sub duration_s cursor)) [
        | false ↦ some (ok (segments, r))
        | true ↦ elim (ltb max_rate_segments (length segments + 2)) [
          | true ↦ some (err segment_limit)
          | false ↦
              elim (segment_pair positive_limit negative_limit low high (sub duration_s cursor)
                cursor r) [
                  | err e ↦ some (err e)
                  | ok (pair, next, r') ↦
                      build_segments fuel duration_s positive_limit negative_limit low high next
                        (segments ++ pair) r'
                ]
        ]
      ]

  -- The checks of `create_smooth_rate_profile`.
  unfoldable pub check_ranges : F → F → F → F → F → Result RateProfileError (Unit {0})
  check_ranges duration_s lower upper minimum_change maximum_change = do
    _ ← validate_duration duration_s
    _ ←
        reject_if
          (not (is_finite lower)
            || not (is_finite upper)
            || le lower nought
            || lt unit lower
            || lt upper unit)
          invalid_factor_range
    reject_if
        (not (is_finite minimum_change)
          || not (is_finite maximum_change)
          || le minimum_change nought
          || lt maximum_change minimum_change)
        invalid_change_range

  -- A profile of the segments that were built.
  abbrev pub finish_profile :
      F
      → Option (Result RateProfileError (List SmoothRateSegment × ModelRng))
      → Option (Result RateProfileError (SmoothRateProfile × ModelRng))
  finish_profile duration_s none = none
  finish_profile duration_s (some built) =
      some (do (segments, r) ← built; p ← new_profile duration_s segments; ok (p, r))

  unfoldable pub draw_profile :
      F → F → F → F → F → ModelRng → Option (Result RateProfileError (SmoothRateProfile × ModelRng))
  draw_profile duration_s lower upper minimum_change maximum_change r =
      let positive_limit = sub upper unit in
      let negative_limit = sub unit lower in
      finish_profile duration_s (
        if eq positive_limit nought || eq negative_limit nought
        then some (ok ([], r))
        else build_segments max_rate_segments duration_s positive_limit negative_limit
            minimum_change maximum_change nought [] r)

  unfoldable pub create_smooth_rate_profile :
      F → F → F → F → F → ModelRng → Option (Result RateProfileError (SmoothRateProfile × ModelRng))
  create_smooth_rate_profile duration_s lower upper minimum_change maximum_change r =
      elim (check_ranges duration_s lower upper minimum_change maximum_change) [
        | err e ↦ some (err e)
        | ok _ ↦ draw_profile duration_s lower upper minimum_change maximum_change r
      ]
