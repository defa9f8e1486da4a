-- ===== src/Scenario/Simulator/Build.antt =====
-- services/simulation-server/src/scenario/simulator.rs: `build_scenario_simulator`, and the states that
-- advances reach from there. The parameter `field` is what `HeightField::new` gives.
use scrap_monitoring_simulat.Float.{Float}
use scrap_monitoring_simulat.Results.{Result, ok, map_err, ◌>>=◌, Result-cases}
use scrap_monitoring_simulat.Prelude.{
  ℕ, ◌<◌, ◌≡◌, inl, inr, refl, arith, Option, List, [], ◌∷◌, length,
}
use scrap_monitoring_simulat.Scenario.Errors.{surface}
use scrap_monitoring_simulat.Scenario.Settings.{
  ScenarioConfig, from_config, to_points, validate_scenario_config, scenario_time_scale,
  scale_duration_range, require_range, require_average_range, require_positive,
  require_non_negative, require_ratio, require_durations,
}
use scrap_monitoring_simulat.Scenario.Surface.{SurfaceModel}
use scrap_monitoring_simulat.Scenario.Simulator.{ScenarioSimulator, Outcome}
use scrap_monitoring_simulat.Scenario.Simulator.Advance.{advance_to, new}
use scrap_monitoring_simulat.Scenario.Simulator.Invariant.{Keeps, IsCoherent}
use scrap_monitoring_simulat.Scenario.Simulator.Preservation.{advance_to-Keeps, new-Keeps}
use scrap_monitoring_simulat.Server.Ratio.{PositiveRatio}

module _ (fl : Float) (model : SurfaceModel fl) (from_decimal : fl.F → fl.F → Option PositiveRatio)
    (sha256 : List ℕ → List ℕ) where
  open fl use {F}
  open model use {Surface, Fault, new_vec2}

  unfoldable pub build_scenario_simulator :
      Result Fault Surface → ScenarioConfig fl → ℕ → Outcome fl model (ScenarioSimulator fl model)
  build_scenario_simulator field config seed = do
    made ← map_err surface field
    settings ← from_config fl Fault from_decimal new_vec2 config
    new fl model sha256 made settings seed

  -- Advances one behind the other.
  unfoldable pub advance_all :
      List F → ScenarioSimulator fl model → Outcome fl model (ScenarioSimulator fl model)
  advance_all [] s = ok s
  advance_all (target ∷ targets) s = do
    (advance, s') ← advance_to fl model target s
    advance_all targets s'

  advance_all-Keeps :
      (targets : List F) (s : ScenarioSimulator fl model)
      → IsCoherent fl model s
      → Keeps (IsCoherent fl model) (advance_all targets s)
  unfolding advance_all
  advance_all-Keeps [] s h = h
  advance_all-Keeps (target ∷ targets) s h = elim (Result-cases (advance_to fl model target s)) [
    | inr (e, q) ↦ ground (arith, advance_to-Keeps fl model target s h)
    | inl ((a, s'), q) ↦
        ground (arith, advance_to-Keeps fl model target s h, advance_all-Keeps targets s')
  ]

  to_points-length :
      (pairs : List (F × F))
      → Keeps
          (λ points. length points ≡ length pairs)
          (to_points fl Fault from_decimal new_vec2 pairs)
  unfolding to_points
  to_points-length [] = refl
  to_points-length ((x, y) ∷ pairs) = ground (arith, to_points-length pairs)

  validate_scenario_config-Keeps :
      (config : ScenarioConfig fl) → Keeps (λ u. Unit) (validate_scenario_config fl Fault config)
  unfolding validate_scenario_config require_range require_average_range require_positive
      require_non_negative require_ratio require_durations
  validate_scenario_config-Keeps config = ground arith

  from_config-Keeps :
      (config : ScenarioConfig fl)
      → Keeps
          (λ settings. 0 < length settings.inlet_positions)
          (from_config fl Fault from_decimal new_vec2 config)
  unfolding from_config scenario_time_scale scale_duration_range
  from_config-Keeps config =
      ground
        (arith, validate_scenario_config-Keeps config, to_points-length config.inlet_positions_xy_m)

  -- Whatever surface and configuration a simulator is built of, and whatever advances follow, the state
  -- is coherent: a plan of the collection is there exactly in its phase, the inlet is one of the
  -- configuration, and the counters fit in 64 bits. What fails, fails for another reason than a missing
  -- plan or inlet.
  pub advance_all-build_scenario_simulator :
      (field : Result Fault Surface) (config : ScenarioConfig fl) (seed : ℕ) (targets : List F)
      → Keeps
          (IsCoherent fl model)
          (build_scenario_simulator field config seed >>= λ s. advance_all targets s)
  unfolding build_scenario_simulator
  advance_all-build_scenario_simulator field config seed targets =
      grind (arith, from_config-Keeps config, new-Keeps fl model sha256, advance_all-Keeps targets)
