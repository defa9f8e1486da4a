-- ===== src/Scenario/Simulator/Changes.antt =====
-- services/simulation-server/src/scenario/simulator.rs: what changes the surface and the inlet. A
-- function gives the parts of the state that it changes, so that its owner puts them in place. A
-- `debug_assert` is left out.
use scrap_monitoring_simulat.Float.{Float}
use scrap_monitoring_simulat.Results.{ok, map_err, ok_or, reject_if, ◌>>=◌}
use scrap_monitoring_simulat.Prelude.{
  ℕ, zero, suc, true, false, ◌&&◌, not, Option, none, some, List, [], ◌∷◌, ◌==◌, if◌then◌else◌,
  get_elem?,
}
use scrap_monitoring_simulat.Scenario.Errors.{
  volume_not_applied, invalid_inlet, out_of_bounds, state, surface, random, rate_profile,
}
use scrap_monitoring_simulat.Scenario.Rates.{SmoothRateProfile, integrated_factor_between}
use scrap_monitoring_simulat.Scenario.Settings.{nought}
use scrap_monitoring_simulat.Scenario.Surface.{Vec2, SurfaceModel}
use scrap_monitoring_simulat.Scenario.Simulator.{
  filling, collecting, fill_ends_at_s, fill_average_rate, collection_ends_at_s,
  collection_average_rate, ScenarioSimulator, Outcome, state_volume_tolerance, active_plan,
}
use scrap_monitoring_simulat.Server.Random.{ModelRng, uniform, unit_f64}

abbrev pub roughness_center_attempts : ℕ
roughness_center_attempts = 32

module _ (fl : Float) (model : SurfaceModel fl) where
  open fl use {
    F, literal, is_finite, lt, le, eq, add, sub, mul, max_of, min_of, abs, sqrt, sin, cos, pi,
    infinity,
  }
  open model use {
    Surface, Fault, volume_m3, capacity_m3, fill_ratio, contains, add_volume,
    remove_volume_uniformly, relax_slopes, mean_height_within, new_vec2,
  }

  -- `inlet_positions[current_inlet_index]`, which panics out of bounds.
  unfoldable pub current_inlet : ScenarioSimulator fl model → Outcome fl model (Vec2 fl)
  current_inlet s =
      ok_or (state out_of_bounds) (get_elem? s.settings.inlet_positions s.current_inlet_index)

  -- The rounds that are left.
  unfoldable pub sample_center :
      ℕ → Vec2 fl → F → Surface → ModelRng → Outcome fl model (Vec2 fl × ModelRng)
  sample_center zero inlet spread_m field r = ok (inlet, r)
  sample_center (suc attempts) inlet spread_m field r = do
    let (fraction, r1) = unit_f64 fl r
    let (turn, r2) = unit_f64 fl r1
    let distance_m = mul spread_m (sqrt fraction)
    let angle_rad = mul turn (mul (literal 2 1) pi)
    candidate ← map_err surface (
        new_vec2 (add inlet.x (mul distance_m (cos angle_rad)))
          (add inlet.y (mul distance_m (sin angle_rad))))
    inside ← map_err surface (contains candidate field)
    elim inside [
      | true ↦ ok (candidate, r2)
      | false ↦ sample_center attempts inlet spread_m field r2
    ]

  unfoldable pub sample_roughness_center :
      Surface → ModelRng → ScenarioSimulator fl model → Outcome fl model (Vec2 fl × ModelRng)
  sample_roughness_center field r s = do
    inlet ← current_inlet s
    sample_center roughness_center_attempts inlet s.settings.pile_spread_radius_m field r

  -- On a surface that was changed before.
  unfoldable pub apply_local_roughness :
      Surface → ScenarioSimulator fl model → Outcome fl model (Surface × ModelRng)
  apply_local_roughness field s = do
    let heights = s.settings.roughness_height_range_m
    let radii = s.settings.roughness_radius_range_m
    (peak_delta_m, r1) ← map_err random (uniform fl heights.low heights.high s.roughness_rng)
    elim (eq peak_delta_m (nought fl)) [
      | true ↦ ok (field, r1)
      | false ↦ do
        (radius_m, r2) ← map_err random (uniform fl radii.low radii.high r1)
        (center, r3) ← sample_roughness_center field r2 s
        field' ← map_err surface (model.apply_local_roughness center radius_m peak_delta_m field)
        ok (field', r3)
    ]

  -- The integral of the factor since the surface was updated.
  unfoldable pub integrated_since :
      F → F → F → SmoothRateProfile fl → ScenarioSimulator fl model → Outcome fl model F
  integrated_since through_s started_at_s duration_s profile s = map_err rate_profile (
      integrated_factor_between fl profile
        (max_of (sub s.surface_updated_at_s started_at_s) (nought fl))
        (min_of (sub through_s started_at_s) duration_s))

  -- What was not applied, and the surface.
  unfoldable pub filled : F → ScenarioSimulator fl model → Outcome fl model (F × Surface)
  filled through_s s = do
    let plan = s.fill_plan
    integrated ← integrated_since through_s plan.started_at_s plan.duration_s plan.profile s
    inlet ← current_inlet s
    let requested_m3 =
        if eq through_s (fill_ends_at_s fl plan)
        then max_of (sub plan.target_volume_m3 (volume_m3 s.field)) (nought fl)
        else mul (fill_average_rate fl plan) integrated
    map_err surface (add_volume requested_m3 inlet s.settings.pile_spread_radius_m s.field)

  unfoldable pub collected : F → ScenarioSimulator fl model → Outcome fl model (F × Surface)
  collected through_s s = do
    plan ← active_plan fl model s
    integrated ← integrated_since through_s plan.started_at_s plan.duration_s plan.profile s
    let requested_m3 =
        if eq through_s (collection_ends_at_s fl plan)
        then volume_m3 s.field
        else min_of (volume_m3 s.field) (mul (collection_average_rate fl plan) integrated)
    map_err surface (remove_volume_uniformly requested_m3 s.field)

  -- The last check: nothing of the planned change is missing.
  unfoldable pub require_applied : F → Surface → Outcome fl model (Unit {0})
  require_applied unapplied_m3 field =
      reject_if (lt (state_volume_tolerance fl model field) unapplied_m3) (state volume_not_applied)

  -- The surface and the generator of roughness.
  unfoldable pub apply_phase_change :
      F → ScenarioSimulator fl model → Outcome fl model (Surface × ModelRng)
  apply_phase_change through_s s = elim s.phase [
    | filling ↦ do
      (unapplied_m3, field) ← filled through_s s
      relaxed ← map_err surface (relax_slopes field)
      (rough, r) ← apply_local_roughness relaxed s
      _ ← require_applied unapplied_m3 rough
      ok (rough, r)
    | collecting ↦ do
      (unapplied_m3, field) ← collected through_s s
      relaxed ← map_err surface (relax_slopes field)
      _ ← require_applied unapplied_m3 relaxed
      ok (relaxed, s.roughness_rng)
  ]

  -- The variables of the loop over the inlets.
  pub record Comparison : Type 0 where
    pub lowest_index : ℕ
    pub lowest_height : F
    pub current_height : Option F

  unfoldable pub compare_inlet : ℕ → ℕ → F → Comparison → Comparison
  compare_inlet current index height c = record {
    lowest_index = if lt height c.lowest_height then index else c.lowest_index;
    lowest_height = if lt height c.lowest_height then height else c.lowest_height;
    current_height = if index == current then some height else c.current_height;
  }

  unfoldable pub compare_inlets :
      F → ℕ → Surface → ℕ → List (Vec2 fl) → Comparison → Outcome fl model Comparison
  compare_inlets radius_m current field index [] c = ok c
  compare_inlets radius_m current field index (inlet ∷ inlets) c = do
    height ← map_err surface (mean_height_within inlet radius_m field)
    compare_inlets radius_m current field (suc index) inlets (compare_inlet current index height c)

  -- The index behind the comparison.
  unfoldable pub chosen_inlet : F → ℕ → Comparison → Outcome fl model ℕ
  chosen_inlet difference_m current c = do
    height ← ok_or (state invalid_inlet) c.current_height
    ok (
        if not (c.lowest_index == current)
          && lt c.lowest_height height
          && le difference_m (sub height c.lowest_height)
        then c.lowest_index
        else current)

  -- The index of the inlet.
  unfoldable pub switch_inlet_if_needed : ScenarioSimulator fl model → Outcome fl model ℕ
  switch_inlet_if_needed s =
      elim (lt (fill_ratio s.field) s.settings.inlet_switch_activation_ratio) [
        | true ↦ ok s.current_inlet_index
        | false ↦ do
          let first : Comparison = record {
            lowest_index = 0;
            lowest_height = infinity;
            current_height = none;
          }
          c ←
              compare_inlets s.settings.inlet_comparison_radius_m s.current_inlet_index s.field 0
                s.settings.inlet_positions first
          chosen_inlet s.settings.inlet_switch_height_difference_m s.current_inlet_index c
      ]
