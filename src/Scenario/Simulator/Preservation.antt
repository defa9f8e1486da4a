-- ===== src/Scenario/Simulator/Preservation.antt =====
-- services/simulation-server/src/scenario/simulator.rs: the operations keep the state coherent.
use scrap_monitoring_simulat.Float.{Float}
use scrap_monitoring_simulat.Results.{Result-cases}
use scrap_monitoring_simulat.Prelude.{
  ℕ, zero, suc, ◌+◌, ◌<◌, ◌≡◌, ◌≢◌, inl, inr, arith, Bool, none, List, [], ◌∷◌, length,
}
use scrap_monitoring_simulat.Scenario.Settings.{ScenarioSettings}
use scrap_monitoring_simulat.Scenario.Surface.{Vec2, SurfaceModel}
use scrap_monitoring_simulat.Server.Random.{ModelRng, unit_f64}
use scrap_monitoring_simulat.Scenario.Simulator.{
  collecting, ScenarioSimulator, event_output_limit, next_event,
}
use scrap_monitoring_simulat.Scenario.Simulator.Invariant.{
  Keeps, IsCoherent, active_plan-Keeps, snapshot-Keeps, scene_snapshot-Keeps,
  next_update_time-Keeps, phase_end_s-Keeps, next_event-Keeps, current_inlet-Keeps,
}
use scrap_monitoring_simulat.Scenario.Simulator.Plans.{
  require_phase_end, create_fill_plan, create_collection_plan, start_collecting, start_filling,
  transition_phase,
}
use scrap_monitoring_simulat.Scenario.Simulator.Changes.{
  current_inlet, sample_center, sample_roughness_center, apply_local_roughness, integrated_since,
  filled, collected, require_applied, apply_phase_change, Comparison, compare_inlet, compare_inlets,
  chosen_inlet, switch_inlet_if_needed,
}
use scrap_monitoring_simulat.Scenario.Simulator.Advance.{
  require_bounded_update_output, count_update, settle_phase, one_event, advance_events,
  advance_inner, advance_to, check_inlets, new,
}

module _ (fl : Float) (model : SurfaceModel fl) where
  open fl use {F, lt}
  open model use {Surface, Fault}

  sample_center-Keeps :
      (n : ℕ) (inlet : Vec2 fl) (spread : F) (field : Surface) (r : ModelRng)
      → Keeps (λ c. Unit) (sample_center fl model n inlet spread field r)
  unfolding sample_center
  sample_center-Keeps zero inlet spread field r = tt
  sample_center-Keeps (suc n) inlet spread field r =
      ground (arith, sample_center-Keeps n inlet spread field (unit_f64 fl (unit_f64 fl r).1).1)

  sample_roughness_center-Keeps :
      (field : Surface) (r : ModelRng) (s : ScenarioSimulator fl model)
      → IsCoherent fl model s
      → Keeps (λ c. Unit) (sample_roughness_center fl model field r s)
  unfolding sample_roughness_center
  sample_roughness_center-Keeps field r s h = elim (Result-cases (current_inlet fl model s)) [
    | inl (inlet, q) ↦
        ground (arith, sample_center-Keeps 32 inlet s.settings.pile_spread_radius_m field r)
    | inr (e, q) ↦ ground (arith, current_inlet-Keeps fl model s h)
  ]

  apply_local_roughness-Keeps :
      (field : Surface) (s : ScenarioSimulator fl model)
      → IsCoherent fl model s
      → Keeps (λ c. Unit) (apply_local_roughness fl model field s)
  unfolding apply_local_roughness
  apply_local_roughness-Keeps field s h = grind (arith, sample_roughness_center-Keeps)

  filled-Keeps :
      (through_s : F) (s : ScenarioSimulator fl model)
      → IsCoherent fl model s
      → Keeps (λ c. Unit) (filled fl model through_s s)
  unfolding filled integrated_since
  filled-Keeps through_s s h = ground (arith, current_inlet-Keeps fl model s h)

  collected-Keeps :
      (through_s : F) (s : ScenarioSimulator fl model)
      → IsCoherent fl model s
      → s.phase ≡ collecting
      → Keeps (λ c. Unit) (collected fl model through_s s)
  unfolding collected integrated_since
  collected-Keeps through_s s h p = ground (arith, active_plan-Keeps fl model s h.planned p)

  apply_phase_change-Keeps :
      (through_s : F) (s : ScenarioSimulator fl model)
      → IsCoherent fl model s
      → Keeps (λ c. Unit) (apply_phase_change fl model through_s s)
  unfolding apply_phase_change require_applied
  apply_phase_change-Keeps through_s s h = grind (
    arith,
    filled-Keeps through_s s h,
    collected-Keeps through_s s h,
    apply_local_roughness-Keeps,
  )

  create_fill_plan-Keeps :
      (t : F) (s : ScenarioSimulator fl model) → Keeps (λ c. Unit) (create_fill_plan fl model t s)
  unfolding create_fill_plan require_phase_end
  create_fill_plan-Keeps t s = ground arith

  create_collection_plan-Keeps :
      (t : F) (s : ScenarioSimulator fl model)
      → Keeps (λ c. Unit) (create_collection_plan fl model t s)
  unfolding create_collection_plan require_phase_end
  create_collection_plan-Keeps t s = ground arith

  transition_phase-Keeps :
      (t : F) (s : ScenarioSimulator fl model)
      → IsCoherent fl model s
      → Keeps (IsCoherent fl model) (transition_phase fl model t s)
  unfolding transition_phase start_collecting start_filling
  transition_phase-Keeps t s h =
      ground (arith, create_fill_plan-Keeps t s, create_collection_plan-Keeps t s)

  compare_inlet-lowest :
      (current index n : ℕ) (height : F) (c : Comparison fl model)
      → index < n
      → c.lowest_index < n
      → (compare_inlet fl model current index height c).lowest_index < n
  unfolding compare_inlet
  compare_inlet-lowest current index n height c h k = ground arith

  compare_inlet-seen :
      (current index : ℕ) (height : F) (c : Comparison fl model)
      → (current < index → c.current_height ≢ none)
      → current < suc index
      → (compare_inlet fl model current index height c).current_height ≢ none
  unfolding compare_inlet
  compare_inlet-seen current index height c h k = ground arith

  compare_inlets-Keeps :
      (radius : F) (current n index : ℕ) (field : Surface) (inlets : List (Vec2 fl))
      (c : Comparison fl model)
      → index + length inlets ≡ n
      → current < n
      → c.lowest_index < n
      → (current < index → c.current_height ≢ none)
      → Keeps
          (λ d. (d.lowest_index < n) × (d.current_height ≢ none))
          (compare_inlets fl model radius current field index inlets c)
  unfolding compare_inlets
  compare_inlets-Keeps radius current n index field [] c e h l k = (l, k (omega arith))
  compare_inlets-Keeps radius current n index field (inlet ∷ inlets) c e h l k =
      elim (Result-cases (model.mean_height_within inlet radius field)) [
        | inr (f, q) ↦ ground arith
        | inl (height, q) ↦ ground (
          arith,
          compare_inlets-Keeps radius current n (suc index) field inlets
              (compare_inlet fl model current index height c) (omega arith) h
              (compare_inlet-lowest current index n height c (omega arith) l)
              (compare_inlet-seen current index height c k),
        )
      ]

  chosen_inlet-Keeps :
      (difference : F) (current n : ℕ) (c : Comparison fl model)
      → current < n
      → (c.lowest_index < n) × (c.current_height ≢ none)
      → Keeps (λ i. i < n) (chosen_inlet fl model difference current c)
  unfolding chosen_inlet
  chosen_inlet-Keeps difference current n c h k = ground arith

  switch_inlet_if_needed-Keeps :
      (s : ScenarioSimulator fl model)
      → IsCoherent fl model s
      → Keeps (λ i. i < length s.settings.inlet_positions) (switch_inlet_if_needed fl model s)
  unfolding switch_inlet_if_needed
  switch_inlet_if_needed-Keeps s h = grind (
    arith,
    compare_inlets-Keeps s.settings.inlet_comparison_radius_m s.current_inlet_index
        (length s.settings.inlet_positions) 0 s.field s.settings.inlet_positions
        (record { lowest_index = 0; lowest_height = fl.infinity; current_height = none })
        (omega arith) h.inlet_valid (omega arith) (λ l. absurd (omega arith)),
    chosen_inlet-Keeps,
  )

  count_update-Keeps :
      (due : Bool) (s : ScenarioSimulator fl model)
      → IsCoherent fl model s
      → Keeps (IsCoherent fl model) (count_update fl model due s)
  unfolding count_update
  count_update-Keeps due s h = ground arith

  settle_phase-Keeps :
      (t : F) (due : Bool) (s : ScenarioSimulator fl model)
      → IsCoherent fl model s
      → Keeps (IsCoherent fl model) (settle_phase fl model t due s)
  unfolding settle_phase
  settle_phase-Keeps t due s h =
      ground (arith, transition_phase-Keeps t s h, switch_inlet_if_needed-Keeps s h)

  one_event-Keeps :
      (t : F) (s : ScenarioSimulator fl model)
      → IsCoherent fl model s
      → Keeps (λ e. IsCoherent fl model e.1) (one_event fl model t s)
  unfolding one_event
  one_event-Keeps t s h = grind (
    arith,
    next_update_time-Keeps fl model s,
    phase_end_s-Keeps fl model s h,
    apply_phase_change-Keeps t s h,
    count_update-Keeps,
    settle_phase-Keeps,
    scene_snapshot-Keeps fl model,
  )

  event_output_limit-Keeps :
      (s : ScenarioSimulator fl model) → Keeps (λ n. Unit) (event_output_limit fl model s)
  unfolding event_output_limit
  event_output_limit-Keeps s = ground arith

  advance_events-Keeps :
      (t : F) (room : ℕ) (s : ScenarioSimulator fl model)
      → IsCoherent fl model s
      → Keeps (λ e. IsCoherent fl model e.1) (advance_events fl model t room s)
  unfolding advance_events
  advance_events-Keeps t zero s h = ground (arith, next_event-Keeps fl model s h)
  advance_events-Keeps t (suc room) s h = elim (Result-cases (next_event fl model s)) [
    | inr (e, q) ↦ ground (arith, next_event-Keeps fl model s h)
    | inl (next, q) ↦ elim (Result-cases (one_event fl model next s)) [
      | inr (e, p) ↦ ground (arith, one_event-Keeps next s h)
      | inl ((event, s'), p) ↦
          ground (arith, one_event-Keeps next s h, advance_events-Keeps t room s')
    ]
  ]

  advance_inner-Keeps :
      (t : F) (s : ScenarioSimulator fl model)
      → IsCoherent fl model s
      → Keeps (λ a. IsCoherent fl model a.1) (advance_inner fl model t s)
  unfolding advance_inner
  advance_inner-Keeps t s h =
      grind (arith, event_output_limit-Keeps s, advance_events-Keeps, snapshot-Keeps fl model)

  -- From a coherent state, `advance_to` gives a coherent state, or fails for another reason than a
  -- collection without a plan, an inlet that is not there or an index out of bounds.
  pub advance_to-Keeps :
      (t : F) (s : ScenarioSimulator fl model)
      → IsCoherent fl model s
      → Keeps (λ a. IsCoherent fl model a.1) (advance_to fl model t s)
  unfolding advance_to require_bounded_update_output
  advance_to-Keeps t s h = ground (arith, event_output_limit-Keeps s, advance_inner-Keeps t s h)

  check_inlets-Keeps :
      (field : Surface) (inlets : List (Vec2 fl))
      → Keeps (λ n. Unit) (check_inlets fl model field inlets)
  unfolding check_inlets
  check_inlets-Keeps field [] = tt
  check_inlets-Keeps field (inlet ∷ inlets) = ground (arith, check_inlets-Keeps field inlets)

  -- With at least one inlet, a new simulator is coherent, or its making fails for another reason.
  pub new-Keeps :
      (sha256 : List ℕ → List ℕ) (field : Surface) (settings : ScenarioSettings fl) (seed : ℕ)
      → 0 < length settings.inlet_positions
      → Keeps (IsCoherent fl model) (new fl model sha256 field settings seed)
  unfolding new
  new-Keeps sha256 field settings seed h =
      grind (arith, check_inlets-Keeps field settings.inlet_positions, create_fill_plan-Keeps)
