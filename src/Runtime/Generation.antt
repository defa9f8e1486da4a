-- ===== src/Runtime/Generation.antt =====
-- services/simulation-server/src/runtime/generation.rs: the state of the generation of scans, and the
-- advance of its scenario. `Spatial` is the interface of measurement/spatial.rs and of the measurements
-- of measurement/generation.rs. The errors of
-- `from_inputs` are left out, and `out_of_fuel` is no outcome of the source.
pub mod Batches
pub mod Delivery
pub mod Outcomes
pub mod Termination
use scrap_monitoring_simulat.Float.{Float}
use scrap_monitoring_simulat.Results.{Result, ok, err, map_err, ok_or, reject_if, ◌>>=◌}
use scrap_monitoring_simulat.Prelude.{
  ℕ, zero, suc, ◌+◌, ◌-◌, ◌*◌, ◌^◌, min, Bool, true, false, ◌&&◌, ◌||◌, not, Option, none, some,
  List, [], ◌∷◌, ◌++◌, map, length, ltb, ◌==◌, if◌then◌else◌,
}
use scrap_monitoring_simulat.Measurement.Rotation.{
  RotationError, ScheduledScan, SensorRotationScheduler, captured_elapsed_s,
}
use scrap_monitoring_simulat.Measurement.Snapshots.{
  SnapshotError, SnapshotEventCoordinator, push_event,
}
use scrap_monitoring_simulat.Scenario.Errors.{ScenarioError, resource, surface, event_limit}
use scrap_monitoring_simulat.Scenario.Simulator.{
  ScenarioPhase, ActiveScenarioPhase, ScenarioSimulator, ScenarioModelSnapshot, ScenarioEvent,
  active_phase, next_event, event_output_limit,
}
use scrap_monitoring_simulat.Scenario.Simulator.Advance.{advance_to}
use scrap_monitoring_simulat.Scenario.Surface.{SurfaceModel}

abbrev pub max_retained_spatial_events : ℕ
max_retained_spatial_events = 100000

-- The time of a `DistortionInterval`, its phase and surface are the arguments of `advance_spatial`.
pub record Spatial (fl : Float) (model : SurfaceModel fl) : Type 1 where
  pub Timeline : Type 0
  pub Fault : Type 0
  pub Measured : Type 0
  pub shares_grid_with : model.Image → model.Image → Bool
  pub advance_spatial :
      fl.F → fl.F → ActiveScenarioPhase fl → model.Image → Timeline → Result Fault Timeline
  pub retained_event_count : Timeline → ℕ
  pub discard_before : fl.F → Timeline → Result Fault Timeline
  pub sensor_of : Measured → List ℕ
  pub scan_of : Measured → ℕ
  pub completed_of : Measured → fl.F

module _ (fl : Float) (model : SurfaceModel fl) (sp : Spatial fl model) where
  open fl use {F, is_finite, lt, min_of, infinity}
  open sp use {Timeline, Measured, shares_grid_with, advance_spatial, retained_event_count}

  pub data GenerationRuntimeError : Type 0 where
    measurement : sp.Fault → GenerationRuntimeError
    snapshot : SnapshotError → GenerationRuntimeError
    rotation : RotationError → GenerationRuntimeError
    scenario : ScenarioError model.Fault → GenerationRuntimeError
    spatial_events worker_request worker_response worker_panic : GenerationRuntimeError
    worker_response_mismatch terminal_use sensor_configuration out_of_fuel : GenerationRuntimeError

  abbrev pub History : Type 0
  History = SnapshotEventCoordinator fl model.Image shares_grid_with

  pub record ScenarioPhaseTransition : Type 0 where
    pub elapsed_s : F
    pub cycle_index : ℕ
    pub phase : ScenarioPhase

  pub record GenerationBatch : Type 0 where
    pub completed_at_s : F
    pub scans : List Measured
    pub transitions : List ScenarioPhaseTransition
    pub keyframes : List (ScenarioModelSnapshot fl model)

  -- `has_worker` tells whether the handle of the thread is there.
  pub record SensorCoordinator : Type 0 where
    pub sensor_id : List ℕ
    pub scheduler : SensorRotationScheduler fl
    pub pending : Option (ScheduledScan fl)
    pub has_worker : Bool

  pub record GenerationRuntime : Type 0 where
    pub simulator : ScenarioSimulator fl model
    pub history : History
    pub spatial : Option Timeline
    pub sensors : List SensorCoordinator
    pub completed_batches : ℕ
    pub generated_scans : ℕ
    pub terminal : Bool
    pub is_shut_down : Bool

  -- The least of the times of the pending scans.
  unfoldable pub earliest : (ScheduledScan fl → F) → List SensorCoordinator → F → F
  earliest time [] least = least
  earliest time (sensor ∷ sensors) least = elim sensor.pending [
    | none ↦ earliest time sensors least
    | some scan ↦ earliest time sensors (min_of least (time scan))
  ]

  unfoldable pub next_completion_elapsed_s : GenerationRuntime → F
  next_completion_elapsed_s g = earliest (λ scan. scan.completed_at_s) g.sensors infinity

  unfoldable pub earliest_pending_elapsed_s : List SensorCoordinator → F
  earliest_pending_elapsed_s sensors = earliest (captured_elapsed_s fl) sensors infinity

  -- The copies that the loop works on.
  pub record Progress : Type 0 where
    pub simulator : ScenarioSimulator fl model
    pub history : History
    pub spatial : Option Timeline
    pub scenario_events : ℕ
    pub transitions : List ScenarioPhaseTransition
    pub keyframes : List (ScenarioModelSnapshot fl model)

  unfoldable pub advance_distortions :
      F
      → F
      → ScenarioSimulator fl model
      → Option Timeline
      → Result GenerationRuntimeError (Option Timeline)
  advance_distortions started_at_s ends_at_s s none = ok none
  advance_distortions started_at_s ends_at_s s (some timeline) = do
    image ← map_err (λ e. scenario (surface e)) (model.surface_snapshot s.field)
    phase ← map_err scenario (active_phase fl model s)
    advanced ← map_err measurement (advance_spatial started_at_s ends_at_s phase image timeline)
    _ ← reject_if (ltb max_retained_spatial_events (retained_event_count advanced)) spatial_events
    ok (some advanced)

  abbrev pub transition_of : ScenarioEvent fl model → List ScenarioPhaseTransition
  transition_of event =
      let reached = event.shown.snapshot in
      if event.phase_transition_due
      then record {
        elapsed_s = event.elapsed_s;
        cycle_index = reached.cycle_index;
        phase = reached.phase;
      }
        ∷ []
      else []

  -- The loop over the events of an advance.
  unfoldable pub note_events :
      List (ScenarioEvent fl model) → Progress → Result GenerationRuntimeError Progress
  note_events [] p = ok p
  note_events (event ∷ events) p = do
    history ←
        map_err snapshot
          (push_event fl model.Image shares_grid_with event.elapsed_s event.shown.image p.history)
    note_events events (record p {
      history = history;
      transitions = p.transitions ++ transition_of event;
      keyframes = p.keyframes ++ event.shown ∷ [];
    })

  -- A round: up to the next event of the surface, or to the end.
  unfoldable pub advance_round : F → ℕ → Progress → Result GenerationRuntimeError Progress
  advance_round through_s limit p = do
    next ← map_err scenario (next_event fl model p.simulator)
    let ends_at_s = min_of next through_s
    spatial ← advance_distortions p.simulator.elapsed_s ends_at_s p.simulator p.spatial
    (advance, simulator) ← map_err scenario (advance_to fl model ends_at_s p.simulator)
    let count = p.scenario_events + length advance.events
    _ ← reject_if (ltb limit count) (scenario (resource event_limit))
    note_events advance.events
        (record p { simulator = simulator; spatial = spatial; scenario_events = count })

  -- Every round but the last has an event, and no more than `limit` are allowed.
  unfoldable pub advance_rounds : ℕ → F → ℕ → Progress → Result GenerationRuntimeError Progress
  advance_rounds zero through_s limit p = err out_of_fuel
  advance_rounds (suc fuel) through_s limit p = elim (lt p.simulator.elapsed_s through_s) [
    | false ↦ ok p
    | true ↦ do q ← advance_round through_s limit p; advance_rounds fuel through_s limit q
  ]

  unfoldable pub advance_scenario_and_distortions :
      F → GenerationRuntime → Result GenerationRuntimeError Progress
  advance_scenario_and_distortions through_s g = do
    limit ← map_err scenario (event_output_limit fl model g.simulator)
    advance_rounds (limit + 2) through_s limit (record {
      simulator = g.simulator;
      history = g.history;
      spatial = g.spatial;
      scenario_events = 0;
      transitions = [];
      keyframes = [];
    })
