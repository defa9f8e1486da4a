-- ===== src/Scenario/Simulator/Advance.antt =====
-- services/simulation-server/src/scenario/simulator.rs: `new`, and `advance_to` with its loop. A
-- loop has room for as many events as the limit has left. No allocation fails.
use scrap_monitoring_simulat.Float.{Float}
use scrap_monitoring_simulat.Results.{ok, err, map_err, reject_if, ◌>>=◌}
use scrap_monitoring_simulat.Prelude.{
  ℕ, zero, suc, ◌+◌, ◌-◌, ◌^◌, Bool, true, false, ◌||◌, not, none, List, [], ◌∷◌, ltb,
}
use scrap_monitoring_simulat.Scenario.Errors.{
  update_index, event_limit, invalid, resource, surface, random,
}
use scrap_monitoring_simulat.Scenario.Settings.{ScenarioSettings, nought, unit}
use scrap_monitoring_simulat.Scenario.Surface.{Vec2, SurfaceModel}
use scrap_monitoring_simulat.Scenario.Simulator.Plans.{create_fill_plan, transition_phase}
use scrap_monitoring_simulat.Scenario.Simulator.Changes.{apply_phase_change, switch_inlet_if_needed}
use scrap_monitoring_simulat.Scenario.Simulator.{
  ScenarioEvent, ScenarioAdvance, snapshot, scene_snapshot, event_output_limit, next_update_time,
  phase_end_s, next_event, filling, collecting, FillPlan, ScenarioSimulator, Outcome,
  state_volume_tolerance,
}
use scrap_monitoring_simulat.Server.Random
use scrap_monitoring_simulat.Server.Random.{ModelRng, StreamScope, global, uniform, unit_f64}

-- The names of the streams: `cycle-plan`, `fill-rate-profile`, `collection-rate-profile` and
-- `surface-roughness`.
abbrev pub cycle_domain : List ℕ
cycle_domain = 99 ∷ 121 ∷ 99 ∷ 108 ∷ 101 ∷ 45 ∷ 112 ∷ 108 ∷ 97 ∷ 110 ∷ []

abbrev pub fill_domain : List ℕ
fill_domain =
    102 ∷ 105 ∷ 108 ∷ 108 ∷ 45 ∷ 114 ∷ 97 ∷ 116 ∷ 101 ∷ 45 ∷ 112 ∷ 114 ∷ 111 ∷ 102 ∷ 105 ∷ 108 ∷ 101
    ∷ []

abbrev pub collection_domain : List ℕ
collection_domain =
    99 ∷ 111 ∷ 108 ∷ 108 ∷ 101 ∷ 99 ∷ 116 ∷ 105 ∷ 111 ∷ 110 ∷ 45 ∷ 114 ∷ 97 ∷ 116 ∷ 101 ∷ 45 ∷ 112
    ∷ 114 ∷ 111 ∷ 102 ∷ 105 ∷ 108 ∷ 101 ∷ []

abbrev pub roughness_domain : List ℕ
roughness_domain =
    115 ∷ 117 ∷ 114 ∷ 102 ∷ 97 ∷ 99 ∷ 101 ∷ 45 ∷ 114 ∷ 111 ∷ 117 ∷ 103 ∷ 104 ∷ 110 ∷ 101 ∷ 115 ∷ 115
    ∷ []

module _ (fl : Float) (model : SurfaceModel fl) where
  open fl use {F, literal, is_finite, lt, eq, sub, div, floor}
  open model use {Surface, Fault, volume_m3, contains}

  abbrev Simulator : Type 0
  Simulator = ScenarioSimulator fl model

  unfoldable pub require_bounded_update_output : F → Simulator → Outcome fl model (Unit {0})
  require_bounded_update_output elapsed_s s = do
    limit ← event_output_limit fl model s
    let last_update_index = floor (div elapsed_s s.settings.surface_update_interval_s)
    let completed = literal (s.next_update_index - 1) 1
    reject_if
        (not (is_finite last_update_index)
          || lt (literal limit 1) (sub last_update_index completed))
        (resource event_limit)

  -- The part of a round that follows the change of the surface: the index of the update, then the change
  -- of phase or of the inlet.
  unfoldable pub count_update : Bool → Simulator → Outcome fl model Simulator
  count_update update_due s = elim update_due [
    | false ↦ ok s
    | true ↦ do
      _ ← reject_if (not (ltb (s.next_update_index + 1) (2 ^ 64))) (resource update_index)
      ok (record s { next_update_index = s.next_update_index + 1 })
  ]

  unfoldable pub settle_phase : F → Bool → Simulator → Outcome fl model Simulator
  settle_phase next_event_s transition_due s = elim transition_due [
    | true ↦ transition_phase fl model next_event_s s
    | false ↦ elim s.phase [
      | collecting ↦ ok s
      | filling ↦ do
        index ← switch_inlet_if_needed fl model s
        ok (record s { current_inlet_index = index })
    ]
  ]

  -- A round of the loop at the time of the next event.
  unfoldable pub one_event : F → Simulator → Outcome fl model (ScenarioEvent fl model × Simulator)
  one_event next_event_s s = do
    next_update_s ← next_update_time fl model s
    phase_end ← phase_end_s fl model s
    let update_due = eq next_event_s next_update_s
    let transition_due = eq next_event_s phase_end
    (field, roughness) ← apply_phase_change fl model next_event_s s
    counted ← count_update update_due (record s {
      field = field;
      roughness_rng = roughness;
      surface_updated_at_s = next_event_s;
      elapsed_s = next_event_s;
    })
    settled ← settle_phase next_event_s transition_due counted
    shown ← scene_snapshot fl model settled
    ok (
      record {
        elapsed_s = next_event_s;
        surface_update_due = update_due;
        phase_transition_due = transition_due;
        shown = shown;
      },
      settled,
    )

  -- The loop, with room for so many events.
  unfoldable pub advance_events :
      F → ℕ → Simulator → Outcome fl model (List (ScenarioEvent fl model) × Simulator)
  advance_events elapsed_s zero s = do
    next_event_s ← next_event fl model s
    elim (lt elapsed_s next_event_s) [ true ↦ ok ([], s) | false ↦ err (resource event_limit) ]
  advance_events elapsed_s (suc room) s = do
    next_event_s ← next_event fl model s
    elim (lt elapsed_s next_event_s) [
      | true ↦ ok ([], s)
      | false ↦ do
        (event, s') ← one_event next_event_s s
        (events, s'') ← advance_events elapsed_s room s'
        ok (event ∷ events, s'')
    ]

  unfoldable pub advance_inner :
      F → Simulator → Outcome fl model (ScenarioAdvance fl model × Simulator)
  advance_inner elapsed_s s = do
    limit ← event_output_limit fl model s
    (events, s') ← advance_events elapsed_s limit s
    let reached : Simulator = record s' { elapsed_s = elapsed_s }
    shown ← snapshot fl model reached
    ok (record { reached = shown; events = events }, reached)

  unfoldable pub advance_to :
      F → Simulator → Outcome fl model (ScenarioAdvance fl model × Simulator)
  advance_to elapsed_s s = do
    _ ← reject_if (not (is_finite elapsed_s) || lt elapsed_s s.elapsed_s) invalid
    _ ← require_bounded_update_output elapsed_s s
    advance_inner elapsed_s s

  unfoldable pub check_inlets : Surface → List (Vec2 fl) → Outcome fl model (Unit {0})
  check_inlets field [] = ok tt
  check_inlets field (inlet ∷ inlets) = do
    inside ← map_err surface (contains inlet field)
    _ ← reject_if (not inside) invalid
    check_inlets field inlets

  -- `empty_fill_plan`: the profile is that of `SmoothRateProfile::new` without segments.
  unfoldable pub empty_fill_plan : FillPlan fl
  empty_fill_plan = record {
    started_at_s = nought fl;
    duration_s = unit fl;
    target_fill_ratio = nought fl;
    target_volume_m3 = nought fl;
    profile = record {
      profile_duration_s = unit fl;
      segments = [];
      prefix_deviation_integrals_s = nought fl ∷ [];
    };
  }

  unfoldable pub new :
      (List ℕ → List ℕ) → Surface → ScenarioSettings fl → ℕ → Outcome fl model Simulator
  new sha256 field settings seed = do
    _ ← reject_if (lt (state_volume_tolerance fl model field) (volume_m3 field)) invalid
    _ ← check_inlets field settings.inlet_positions
    cycle ← map_err random (Random.new sha256 seed global cycle_domain)
    fill_rate ← map_err random (Random.new sha256 seed global fill_domain)
    collection_rate ← map_err random (Random.new sha256 seed global collection_domain)
    roughness ← map_err random (Random.new sha256 seed global roughness_domain)
    let simulator : Simulator = record {
      field = field;
      settings = settings;
      cycle_rng = cycle;
      fill_rate_rng = fill_rate;
      collection_rate_rng = collection_rate;
      roughness_rng = roughness;
      elapsed_s = nought fl;
      surface_updated_at_s = nought fl;
      next_update_index = 1;
      cycle_index = 0;
      phase = filling;
      current_inlet_index = 0;
      fill_plan = empty_fill_plan;
      collection_plan = none;
    }
    (plan, cycle', fill_rate') ← create_fill_plan fl model (nought fl) simulator
    ok (record simulator { fill_plan = plan; cycle_rng = cycle'; fill_rate_rng = fill_rate' })
