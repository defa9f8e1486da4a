-- ===== src/Scenario/Simulator.antt =====
-- services/simulation-server/src/scenario/simulator.rs: the state of the scenario, and what is read of
-- it. An operation gives the state behind it only where it succeeds: `advance_to` works on a copy, which
-- an error drops.
pub mod Plans
pub mod Changes
pub mod Advance
pub mod Invariant
pub mod Preservation
pub mod Shift
pub mod Timeline
pub mod Parts
pub mod Build
use scrap_monitoring_simulat.Float.{Float}
use scrap_monitoring_simulat.Results.{Result, ok, err, map_err, ok_or, reject_if, ◌>>=◌}
use scrap_monitoring_simulat.Prelude.{
  ℕ, ◌-◌, ◌*◌, ◌/◌, ◌^◌, min, Bool, true, false, ◌||◌, not, Option, none, some, List, [], ◌∷◌, ltb,
  ◌==◌,
}
use scrap_monitoring_simulat.Scenario.Errors.{
  StateFault, no_active_plan, update_schedule, phase_schedule, no_height_nodes, ResourceFault,
  snapshot_size, ScenarioError, state, resource, surface, rate_profile,
}
use scrap_monitoring_simulat.Scenario.Rates.{SmoothRateProfile, factor_at, clamp}
use scrap_monitoring_simulat.Scenario.Settings.{ScenarioSettings, nought, unit, state_tolerance}
use scrap_monitoring_simulat.Scenario.Surface.{SurfaceModel}
use scrap_monitoring_simulat.Server.Random.{ModelRng}
use scrap_monitoring_simulat.Server.Ratio.{multiple_to_f64}

pub data ScenarioPhase : Type 0 where
  filling collecting : ScenarioPhase

abbrev pub max_events_per_advance : ℕ
max_events_per_advance = 4096

abbrev pub max_event_snapshot_bytes : ℕ
max_event_snapshot_bytes = 16 * 1024 * 1024

module _ (fl : Float) where
  open fl use {F, add, div}

  pub record FillPlan : Type 0 where
    pub started_at_s : F
    pub duration_s : F
    pub target_fill_ratio : F
    pub target_volume_m3 : F
    pub profile : SmoothRateProfile fl

  pub record CollectionPlan : Type 0 where
    pub started_at_s : F
    pub duration_s : F
    pub starting_volume_m3 : F
    pub profile : SmoothRateProfile fl

  unfoldable pub fill_ends_at_s : FillPlan → F
  fill_ends_at_s plan = add plan.started_at_s plan.duration_s

  unfoldable pub fill_average_rate : FillPlan → F
  fill_average_rate plan = div plan.target_volume_m3 plan.duration_s

  unfoldable pub collection_ends_at_s : CollectionPlan → F
  collection_ends_at_s plan = add plan.started_at_s plan.duration_s

  unfoldable pub collection_average_rate : CollectionPlan → F
  collection_average_rate plan = div plan.starting_volume_m3 plan.duration_s

  pub record ScenarioSnapshot : Type 0 where
    pub elapsed_s : F
    pub surface_updated_at_s : F
    pub cycle_index : ℕ
    pub phase : ScenarioPhase
    pub phase_started_at_s : F
    pub phase_ends_at_s : F
    pub phase_duration_s : F
    pub rate_factor : F
    pub target_fill_ratio : F
    pub surface_fill_ratio : F
    pub surface_volume_m3 : F
    pub current_inlet_index : Option ℕ

  -- `ActiveScenarioPhase`.
  pub data ActiveScenarioPhase : Type 0 where
    active_filling : ℕ → F → F → ℕ → SmoothRateProfile fl → ActiveScenarioPhase
    active_collecting : ℕ → F → F → ActiveScenarioPhase

module _ (fl : Float) (model : SurfaceModel fl) where
  open fl use {F, literal, is_finite, lt, le, add, sub, mul, max_of, min_of, of_bits}
  open model use {
    Surface, Image, Fault, volume_m3, capacity_m3, fill_ratio, node_count, surface_snapshot,
  }

  pub record ScenarioModelSnapshot : Type 0 where
    pub snapshot : ScenarioSnapshot fl
    pub image : Image

  pub record ScenarioEvent : Type 0 where
    pub elapsed_s : F
    pub surface_update_due : Bool
    pub phase_transition_due : Bool
    pub shown : ScenarioModelSnapshot

  pub record ScenarioAdvance : Type 0 where
    pub reached : ScenarioSnapshot fl
    pub events : List ScenarioEvent

  pub record ScenarioSimulator : Type 0 where
    pub field : Surface
    pub settings : ScenarioSettings fl
    pub cycle_rng : ModelRng
    pub fill_rate_rng : ModelRng
    pub collection_rate_rng : ModelRng
    pub roughness_rng : ModelRng
    pub elapsed_s : F
    pub surface_updated_at_s : F
    pub next_update_index : ℕ
    pub cycle_index : ℕ
    pub phase : ScenarioPhase
    pub current_inlet_index : ℕ
    pub fill_plan : FillPlan fl
    pub collection_plan : Option (CollectionPlan fl)

  -- A result of this component.
  abbrev pub Outcome : Type 0 → Type 0
  Outcome A = Result (ScenarioError Fault) A

  unfoldable pub state_volume_tolerance : Surface → F
  state_volume_tolerance field = mul (max_of (capacity_m3 field) (unit fl)) (state_tolerance fl)

  -- The plan of the collection, which its phase must have.
  unfoldable pub active_plan : ScenarioSimulator → Outcome (CollectionPlan fl)
  active_plan s = ok_or (state no_active_plan) s.collection_plan

  unfoldable pub active_phase : ScenarioSimulator → Outcome (ActiveScenarioPhase fl)
  active_phase s = elim s.phase [
    | filling ↦
        let plan = s.fill_plan in
        ok (
          active_filling s.cycle_index plan.started_at_s (fill_ends_at_s fl plan)
            s.current_inlet_index plan.profile)
    | collecting ↦ do
      plan ← active_plan s
      ok (active_collecting s.cycle_index plan.started_at_s (collection_ends_at_s fl plan))
  ]

  -- Start, end, duration and profile of the phase.
  unfoldable pub phase_bounds : ScenarioSimulator → Outcome (F × F × F × SmoothRateProfile fl)
  phase_bounds s = elim s.phase [
    | filling ↦
        let plan = s.fill_plan in
        ok (plan.started_at_s, fill_ends_at_s fl plan, plan.duration_s, plan.profile)
    | collecting ↦ do
      plan ← active_plan s
      ok (plan.started_at_s, collection_ends_at_s fl plan, plan.duration_s, plan.profile)
  ]

  abbrev pub shown_inlet : ScenarioPhase → ℕ → Option ℕ
  shown_inlet filling index = some index
  shown_inlet collecting index = none

  unfoldable pub snapshot : ScenarioSimulator → Outcome (ScenarioSnapshot fl)
  snapshot s = do
    (started_at_s, ends_at_s, duration_s, profile) ← phase_bounds s
    let phase_elapsed_s = clamp fl (sub s.elapsed_s started_at_s) (nought fl) duration_s
    factor ← map_err rate_profile (factor_at fl profile phase_elapsed_s)
    ok (record {
      elapsed_s = s.elapsed_s;
      surface_updated_at_s = s.surface_updated_at_s;
      cycle_index = s.cycle_index;
      phase = s.phase;
      phase_started_at_s = started_at_s;
      phase_ends_at_s = ends_at_s;
      phase_duration_s = duration_s;
      rate_factor = factor;
      target_fill_ratio = s.fill_plan.target_fill_ratio;
      surface_fill_ratio = fill_ratio s.field;
      surface_volume_m3 = volume_m3 s.field;
      current_inlet_index = shown_inlet s.phase s.current_inlet_index;
    })

  unfoldable pub scene_snapshot : ScenarioSimulator → Outcome ScenarioModelSnapshot
  scene_snapshot s = do
    shown ← snapshot s
    image ← map_err surface (surface_snapshot s.field)
    ok (record { snapshot = shown; image = image })

  -- A height takes eight bytes.
  unfoldable pub event_output_limit : ScenarioSimulator → Outcome ℕ
  event_output_limit s = do
    let bytes_per_snapshot = 8 * node_count s.field
    _ ← reject_if (ltb (2 ^ 64 - 1) bytes_per_snapshot) (resource snapshot_size)
    _ ← reject_if (bytes_per_snapshot == 0) (state no_height_nodes)
    ok (min max_events_per_advance (max_event_snapshot_bytes / bytes_per_snapshot))

  unfoldable pub next_update_time : ScenarioSimulator → Outcome F
  next_update_time s = do
    value ←
        ok_or (state update_schedule)
          (multiple_to_f64 s.settings.surface_update_interval s.next_update_index)
    _ ←
        reject_if (not (is_finite (of_bits value)) || le (of_bits value) s.surface_updated_at_s)
          (state update_schedule)
    ok (of_bits value)

  unfoldable pub phase_end_s : ScenarioSimulator → Outcome F
  phase_end_s s = do
    (started_at_s, value, duration_s, profile) ← phase_bounds s
    _ ← reject_if (not (is_finite value) || le value s.surface_updated_at_s) (state phase_schedule)
    ok value

  unfoldable pub next_event : ScenarioSimulator → Outcome F
  next_event s = do
    update ← next_update_time s
    phase_end ← phase_end_s s
    ok (min_of update phase_end)
