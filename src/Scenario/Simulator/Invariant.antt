-- ===== src/Scenario/Simulator/Invariant.antt =====
-- services/simulation-server/src/scenario/simulator.rs: the state that the operations keep.
use scrap_monitoring_simulat.Float.{Float}
use scrap_monitoring_simulat.Results.{Result, ok, err}
use scrap_monitoring_simulat.Prelude.{
  ℕ, zero, suc, ◌^◌, ◌<◌, ◌≡◌, ◌≢◌, arith, Option, none, some, List, [], ◌∷◌, length, get_elem?,
}
use scrap_monitoring_simulat.Scenario.Errors.{
  StateFault, no_active_plan, invalid_inlet, out_of_bounds, update_schedule, phase_schedule,
  volume_not_applied, threshold_not_reached, not_emptied, no_height_nodes, ScenarioError, invalid,
  state, resource, surface, random, rate_profile,
}
use scrap_monitoring_simulat.Scenario.Surface.{SurfaceModel}
use scrap_monitoring_simulat.Scenario.Simulator.{
  ScenarioPhase, filling, collecting, ScenarioSimulator, active_plan, phase_bounds, snapshot,
  scene_snapshot, next_update_time, phase_end_s, next_event,
}
use scrap_monitoring_simulat.Scenario.Simulator.Changes.{current_inlet}

-- The errors that mean a broken state: a collection without a plan, or an inlet that is not there.
abbrev IsHandledFault : StateFault → Type 0
IsHandledFault no_active_plan = ⊥
IsHandledFault invalid_inlet = ⊥
IsHandledFault out_of_bounds = ⊥
IsHandledFault update_schedule = Unit
IsHandledFault phase_schedule = Unit
IsHandledFault volume_not_applied = Unit
IsHandledFault threshold_not_reached = Unit
IsHandledFault not_emptied = Unit
IsHandledFault no_height_nodes = Unit

abbrev pub IsHandled : {Fault : Type 0} → ScenarioError Fault → Type 0
IsHandled invalid = Unit
IsHandled (state f) = IsHandledFault f
IsHandled (resource f) = Unit
IsHandled (surface f) = Unit
IsHandled (random e) = Unit
IsHandled (rate_profile e) = Unit

-- A plan of the collection is there exactly while it is carried out.
abbrev pub IsPlanned {ℓ} : {A : Type ℓ} → ScenarioPhase → Option A → Type 0
IsPlanned filling none = Unit
IsPlanned filling (some plan) = ⊥
IsPlanned collecting none = ⊥
IsPlanned collecting (some plan) = Unit

-- A result that keeps a property, or fails for a reason that is not a broken state.
abbrev pub Keeps : {Fault A : Type 0} → (A → Type 0) → Result (ScenarioError Fault) A → Type 0
Keeps P (ok a) = P a
Keeps P (err e) = IsHandled e

module _ (fl : Float) (model : SurfaceModel fl) where
  open fl use {F, lt}
  open model use {Surface, Fault}

  pub record IsCoherent (s : ScenarioSimulator fl model) : Type 0 where
    pub planned : IsPlanned s.phase s.collection_plan
    pub inlet_valid : s.current_inlet_index < length s.settings.inlet_positions
    pub cycle_bounded : s.cycle_index < 2 ^ 64
    pub update_positive : 0 < s.next_update_index
    pub update_bounded : s.next_update_index < 2 ^ 64

  pub active_plan-Keeps :
      (s : ScenarioSimulator fl model)
      → IsPlanned s.phase s.collection_plan
      → s.phase ≡ collecting
      → Keeps (λ plan. Unit) (active_plan fl model s)
  unfolding active_plan
  active_plan-Keeps s h p = ground arith

  pub phase_bounds-Keeps :
      (s : ScenarioSimulator fl model)
      → IsCoherent s
      → Keeps (λ bounds. Unit) (phase_bounds fl model s)
  unfolding phase_bounds active_plan
  phase_bounds-Keeps s h = ground arith

  pub snapshot-Keeps :
      (s : ScenarioSimulator fl model) → IsCoherent s → Keeps (λ b. Unit) (snapshot fl model s)
  unfolding snapshot
  snapshot-Keeps s h = ground (arith, phase_bounds-Keeps s h)

  pub scene_snapshot-Keeps :
      (s : ScenarioSimulator fl model)
      → IsCoherent s
      → Keeps (λ b. Unit) (scene_snapshot fl model s)
  unfolding scene_snapshot
  scene_snapshot-Keeps s h = ground (arith, snapshot-Keeps s h)

  pub next_update_time-Keeps :
      (s : ScenarioSimulator fl model) → Keeps (λ t. Unit) (next_update_time fl model s)
  unfolding next_update_time
  next_update_time-Keeps s = ground arith

  pub phase_end_s-Keeps :
      (s : ScenarioSimulator fl model) → IsCoherent s → Keeps (λ t. Unit) (phase_end_s fl model s)
  unfolding phase_end_s
  phase_end_s-Keeps s h = ground (arith, phase_bounds-Keeps s h)

  pub next_event-Keeps :
      (s : ScenarioSimulator fl model) → IsCoherent s → Keeps (λ t. Unit) (next_event fl model s)
  unfolding next_event
  next_event-Keeps s h = ground (arith, next_update_time-Keeps s, phase_end_s-Keeps s h)

  get_elem?-some : {A : Type 0} (xs : List A) (i : ℕ) → i < length xs → get_elem? xs i ≢ none
  get_elem?-some [] i h = absurd (omega arith)
  get_elem?-some (x ∷ xs) zero h = ground arith
  get_elem?-some (x ∷ xs) (suc i) h = get_elem?-some xs i (omega arith)

  pub current_inlet-Keeps :
      (s : ScenarioSimulator fl model) → IsCoherent s → Keeps (λ t. Unit) (current_inlet fl model s)
  unfolding current_inlet
  current_inlet-Keeps s h =
      ground (arith, get_elem?-some s.settings.inlet_positions s.current_inlet_index h.inlet_valid)
