-- ===== src/Scenario/Simulator/Plans.antt =====
-- services/simulation-server/src/scenario/simulator.rs: the plans of the two phases, and the change
-- between the phases. A function gives the parts of the state that it changes, or the whole state.
use scrap_monitoring_simulat.Float.{Float}
use scrap_monitoring_simulat.Results.{ok, map_err, reject_if, ◌>>=◌}
use scrap_monitoring_simulat.Prelude.{◌+◌, ◌^◌, ◌||◌, not, none, some, ltb}
use scrap_monitoring_simulat.Scenario.Errors.{
  phase_schedule, threshold_not_reached, not_emptied, cycle_index_limit, state, resource, random,
  rate_profile,
}
use scrap_monitoring_simulat.Scenario.Rates.Termination.{create_profile}
use scrap_monitoring_simulat.Scenario.Settings.{nought}
use scrap_monitoring_simulat.Scenario.Surface.{SurfaceModel}
use scrap_monitoring_simulat.Scenario.Simulator.{
  filling, collecting, FillPlan, CollectionPlan, ScenarioSimulator, Outcome, state_volume_tolerance,
}
use scrap_monitoring_simulat.Server.Random.{ModelRng, uniform}

module _ (fl : Float) (model : SurfaceModel fl) where
  open fl use {
    F, literal, is_finite, lt, le, eq, add, sub, mul, max_of, min_of, abs, sqrt, sin, cos, pi,
    infinity,
  }
  open model use {
    Surface, Fault, volume_m3, capacity_m3, fill_ratio, contains, add_volume,
    remove_volume_uniformly, relax_slopes, mean_height_within, new_vec2,
  }

  unfoldable pub require_phase_end : F → F → Outcome fl model (Unit {0})
  require_phase_end started_at_s duration_s =
      let ends_at_s = add started_at_s duration_s in
      reject_if
        (not (is_finite started_at_s)
          || not (is_finite duration_s)
          || le duration_s (nought fl)
          || not (is_finite ends_at_s)
          || le ends_at_s started_at_s)
        (state phase_schedule)

  -- The plan, and the generators of cycles and of the rates of filling.
  unfoldable pub create_fill_plan :
      F → ScenarioSimulator fl model → Outcome fl model (FillPlan fl × ModelRng × ModelRng)
  create_fill_plan started_at_s s = do
    let durations = s.settings.fill_duration_factor_range
    let thresholds = s.settings.collection_threshold_range
    let rates = s.settings.fill_rate_factor_range
    let changes = s.settings.fill_rate_change_duration_s_range
    (factor, cycle) ← map_err random (uniform fl durations.low durations.high s.cycle_rng)
    let duration_s = mul s.settings.mean_fill_duration_s factor
    _ ← require_phase_end started_at_s duration_s
    (target, cycle') ← map_err random (uniform fl thresholds.low thresholds.high cycle)
    (profile, fill_rate) ←
        map_err rate_profile (
          create_profile fl duration_s rates.low rates.high changes.low changes.high
            s.fill_rate_rng)
    ok (
      record {
        started_at_s = started_at_s;
        duration_s = duration_s;
        target_fill_ratio = target;
        target_volume_m3 = mul (capacity_m3 s.field) target;
        profile = profile;
      },
      cycle',
      fill_rate,
    )

  -- The plan, and the generators of cycles and of the rates of collecting.
  unfoldable pub create_collection_plan :
      F → ScenarioSimulator fl model → Outcome fl model (CollectionPlan fl × ModelRng × ModelRng)
  create_collection_plan started_at_s s = do
    let durations = s.settings.collection_duration_factor_range
    let rates = s.settings.collection_rate_factor_range
    let changes = s.settings.collection_rate_change_duration_s_range
    (factor, cycle) ← map_err random (uniform fl durations.low durations.high s.cycle_rng)
    let duration_s = mul s.settings.mean_fill_duration_s factor
    _ ← require_phase_end started_at_s duration_s
    (profile, collection_rate) ← map_err rate_profile (
        create_profile fl duration_s rates.low rates.high changes.low changes.high
          s.collection_rate_rng)
    ok (
      record {
        started_at_s = started_at_s;
        duration_s = duration_s;
        starting_volume_m3 = volume_m3 s.field;
        profile = profile;
      },
      cycle,
      collection_rate,
    )

  unfoldable pub start_collecting :
      F → ScenarioSimulator fl model → Outcome fl model (ScenarioSimulator fl model)
  start_collecting transitioned_at_s s = do
    let missing = abs (sub (volume_m3 s.field) s.fill_plan.target_volume_m3)
    _ ←
        reject_if (lt (state_volume_tolerance fl model s.field) missing)
          (state threshold_not_reached)
    (plan, cycle, collection_rate) ← create_collection_plan transitioned_at_s s
    ok (record s {
      phase = collecting;
      collection_plan = some plan;
      cycle_rng = cycle;
      collection_rate_rng = collection_rate;
    })

  unfoldable pub start_filling :
      F → ScenarioSimulator fl model → Outcome fl model (ScenarioSimulator fl model)
  start_filling transitioned_at_s s = do
    _ ←
        reject_if (lt (state_volume_tolerance fl model s.field) (volume_m3 s.field))
          (state not_emptied)
    _ ← reject_if (not (ltb (s.cycle_index + 1) (2 ^ 64))) (resource cycle_index_limit)
    (plan, cycle, fill_rate) ← create_fill_plan transitioned_at_s s
    ok (record s {
      phase = filling;
      cycle_index = s.cycle_index + 1;
      current_inlet_index = 0;
      collection_plan = none;
      fill_plan = plan;
      cycle_rng = cycle;
      fill_rate_rng = fill_rate;
    })

  unfoldable pub transition_phase :
      F → ScenarioSimulator fl model → Outcome fl model (ScenarioSimulator fl model)
  transition_phase transitioned_at_s s = elim s.phase [
    | filling ↦ start_collecting transitioned_at_s s
    | collecting ↦ start_filling transitioned_at_s s
  ]
