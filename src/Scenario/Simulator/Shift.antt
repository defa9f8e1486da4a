-- ===== src/Scenario/Simulator/Shift.antt =====
-- services/simulation-server/src/scenario/simulator.rs: how an advance comes about, and what does not
-- depend on the time of a state.
use scrap_monitoring_simulat.Float.{Float}
use scrap_monitoring_simulat.Results.{ok, Result-cases}
use scrap_monitoring_simulat.Prelude.{ℕ, ◌≡◌, inl, inr, refl, arith, true, false}
use scrap_monitoring_simulat.Scenario.Surface.{SurfaceModel}
use scrap_monitoring_simulat.Scenario.Simulator.{
  ScenarioSimulator, ScenarioAdvance, snapshot, event_output_limit, next_update_time, phase_end_s,
  next_event,
}
use scrap_monitoring_simulat.Scenario.Simulator.Advance.{
  require_bounded_update_output, one_event, advance_events, advance_inner, advance_to,
}
use scrap_monitoring_simulat.Scenario.Simulator.{phase_bounds, active_plan}
use scrap_monitoring_simulat.Scenario.Simulator.Changes.{
  apply_phase_change, filled, apply_local_roughness, collected, integrated_since, current_inlet,
  sample_roughness_center,
}

module _ (fl : Float) (model : SurfaceModel fl) where
  open fl use {F, lt, is_finite}

  -- The state with another time.
  abbrev pub at : F → ScenarioSimulator fl model → ScenarioSimulator fl model
  at t s = record s { elapsed_s = t }

  pub one_event-at :
      (x t : F) (s : ScenarioSimulator fl model)
      → one_event fl model t (at x s) ≡ one_event fl model t s
  unfolding one_event next_update_time phase_end_s apply_phase_change phase_bounds filled
      apply_local_roughness collected active_plan integrated_since current_inlet
      sample_roughness_center
  one_event-at x t s = refl

  pub next_event-at :
      (x : F) (s : ScenarioSimulator fl model)
      → next_event fl model (at x s) ≡ next_event fl model s
  unfolding next_event next_update_time phase_end_s phase_bounds active_plan
  next_event-at x s = refl

  -- How an advance comes about.
  pub record IsMade (target : F) (s : ScenarioSimulator fl model) (a : ScenarioAdvance fl model)
      (s' : ScenarioSimulator fl model) : Type 0 where
    pub limit : ℕ
    pub last : ScenarioSimulator fl model
    pub limited : event_output_limit fl model s ≡ ok limit
    pub run : advance_events fl model target limit s ≡ ok (a.events, last)
    pub ended : s' ≡ at target last
    pub snapped : snapshot fl model (at target last) ≡ ok a.reached
    pub target_finite : is_finite target ≡ true
    pub not_back : lt target s.elapsed_s ≡ false

  pub advance_to-IsMade :
      (target : F) (s s' : ScenarioSimulator fl model) (a : ScenarioAdvance fl model)
      → advance_to fl model target s ≡ ok (a, s')
      → IsMade target s a s'
  unfolding advance_to advance_inner require_bounded_update_output
  advance_to-IsMade target s s' a h = elim (Result-cases (event_output_limit fl model s)) [
    | inr (e, q) ↦ ground arith
    | inl (limit, q) ↦ elim (Result-cases (advance_events fl model target limit s)) [
      | inr (e, p) ↦ ground arith
      | inl ((events, u), p) ↦ elim (Result-cases (snapshot fl model (at target u))) [
        | inr (e, r) ↦ ground arith
        | inl (shown, r) ↦ record {
          limit = limit;
          last = u;
          limited = q;
          run = ground arith;
          ended = ground arith;
          snapped = ground arith;
          target_finite = ground arith;
          not_back = ground arith;
        }
      ]
    ]
  ]
