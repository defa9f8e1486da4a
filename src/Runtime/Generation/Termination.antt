-- ===== src/Runtime/Generation/Termination.antt =====
-- services/simulation-server/src/runtime/generation.rs: the loop of `advance_scenario_and_distortions`
-- ends.
use scrap_monitoring_simulat.Float.{Float, IsOrdered}
use scrap_monitoring_simulat.Results.{ok, err, Result-cases}
use scrap_monitoring_simulat.Prelude.{
  ℕ, zero, suc, ◌+◌, ◌≤◌, ◌<◌, ◌≡◌, ◌≢◌, ◌⊎◌, inl, inr, ap, ◌∙◌, arith, false, List, [], ◌∷◌,
  length,
}
use scrap_monitoring_simulat.Measurement.Snapshots.{push_event}
use scrap_monitoring_simulat.Scenario.Surface.{SurfaceModel}
use scrap_monitoring_simulat.Scenario.Simulator.{
  ScenarioSimulator, ScenarioEvent, ScenarioAdvance, next_event,
}
use scrap_monitoring_simulat.Scenario.Simulator.Advance.{one_event, advance_events, advance_to}
use scrap_monitoring_simulat.Scenario.Simulator.Shift.{advance_to-IsMade}
use scrap_monitoring_simulat.Runtime.Generation.{
  Spatial, out_of_fuel, GenerationRuntime, Progress, advance_distortions, note_events,
  advance_round, advance_rounds, advance_scenario_and_distortions,
}

module _ (fl : Float) (laws : IsOrdered fl) (model : SurfaceModel fl) (sp : Spatial fl model) where
  open fl use {F, lt, min_of}

  -- A run up to an event has one.
  advance_events-due :
      (t next : F) (room : ℕ) (s last : ScenarioSimulator fl model)
      (events : List (ScenarioEvent fl model))
      → next_event fl model s ≡ ok next
      → lt t next ≡ false
      → advance_events fl model t room s ≡ ok (events, last)
      → 0 < length events
  unfolding advance_events
  advance_events-due t next zero s last events q b h = ground arith
  advance_events-due t next (suc room) s last events q b h =
      elim (Result-cases (one_event fl model next s)) [
        | inr (e, p) ↦ ground arith
        | inl ((event, u), p) ↦ elim (Result-cases (advance_events fl model t room u)) [
          | inr (e, r) ↦ ground arith
          | inl ((more, v), r) ↦ ground arith
        ]
      ]

  -- An advance to the next event or to `through_s` reaches that time or has an event.
  advance_to-moves :
      (next through_s : F) (s s' : ScenarioSimulator fl model) (a : ScenarioAdvance fl model)
      → next_event fl model s ≡ ok next
      → advance_to fl model (min_of next through_s) s ≡ ok (a, s')
      → (lt s'.elapsed_s through_s ≡ false) ⊎ (0 < length a.events)
  advance_to-moves next through_s s s' a q h =
      let made = advance_to-IsMade fl model (min_of next through_s) s s' a h in
      elim (laws.min_chooses next through_s) [
        | inl e ↦ inr (
            advance_events-due (min_of next through_s) next made.limit s made.last a.events q
              (rw e (laws.lt_irrefl next)) made.run)
        | inr e ↦ inl (rw (ap (λ u. u.elapsed_s) made.ended ∙ e) (laws.lt_irrefl through_s))
      ]

  note_events-fields :
      (events : List (ScenarioEvent fl model)) (p q : Progress fl model sp)
      → note_events fl model sp events p ≡ ok q
      → (q.scenario_events ≡ p.scenario_events) × (q.simulator ≡ p.simulator)
  unfolding note_events
  note_events-fields [] p q h = ground arith
  note_events-fields (event ∷ events) p q h =
      elim (Result-cases (
        push_event fl model.Image sp.shares_grid_with event.elapsed_s event.shown.image
          p.history)) [
            | inr (e, r) ↦ ground arith
            | inl (history, r) ↦ grind (arith, note_events-fields events)
          ]

  note_events-fuel :
      (events : List (ScenarioEvent fl model)) (p : Progress fl model sp)
      → note_events fl model sp events p ≢ err out_of_fuel
  unfolding note_events
  note_events-fuel [] p = ground arith
  note_events-fuel (event ∷ events) p = grind (arith, note_events-fuel events)

  advance_round-fuel :
      (through_s : F) (limit : ℕ) (p : Progress fl model sp)
      → advance_round fl model sp through_s limit p ≢ err out_of_fuel
  unfolding advance_round advance_distortions
  advance_round-fuel through_s limit p = grind (arith, note_events-fuel)

  -- A round reaches the end, or counts an event.
  advance_round-moves :
      (through_s : F) (limit : ℕ) (p q : Progress fl model sp)
      → advance_round fl model sp through_s limit p ≡ ok q
      → (q.scenario_events ≤ limit)
        × ((lt q.simulator.elapsed_s through_s ≡ false) ⊎ (p.scenario_events < q.scenario_events))
  unfolding advance_round
  advance_round-moves through_s limit p q h =
      elim (Result-cases (next_event fl model p.simulator)) [
        | inr (e, r) ↦ ground arith
        | inl (next, r) ↦
            elim (Result-cases (advance_to fl model (min_of next through_s) p.simulator)) [
              | inr (e, v) ↦ ground arith
              | inl ((a, s), v) ↦
                  grind
                    (arith, note_events-fields, advance_to-moves next through_s p.simulator s a r v)
            ]
      ]

  advance_rounds-done :
      (fuel : ℕ) (through_s : F) (limit : ℕ) (p : Progress fl model sp)
      → 0 < fuel
      → lt p.simulator.elapsed_s through_s ≡ false
      → advance_rounds fl model sp fuel through_s limit p ≢ err out_of_fuel
  unfolding advance_rounds
  advance_rounds-done zero through_s limit p h e = absurd (omega arith)
  advance_rounds-done (suc fuel) through_s limit p h e = ground arith

  advance_rounds-total :
      (fuel : ℕ) (through_s : F) (limit : ℕ) (p : Progress fl model sp)
      → p.scenario_events ≤ limit
      → limit + 1 < fuel + p.scenario_events
      → advance_rounds fl model sp fuel through_s limit p ≢ err out_of_fuel
  unfolding advance_rounds
  advance_rounds-total zero through_s limit p h k = absurd (omega arith)
  advance_rounds-total (suc fuel) through_s limit p h k =
      elim (Result-cases (advance_round fl model sp through_s limit p)) [
        | inr (e, r) ↦ ground (arith, advance_round-fuel through_s limit p)
        | inl (q, r) ↦
            let (counted, moved) = advance_round-moves through_s limit p q r in
            elim moved [
              | inl end ↦ ground (arith, advance_rounds-done fuel through_s limit q)
              | inr grew ↦ ground (arith, advance_rounds-total fuel through_s limit q)
            ]
      ]

  -- The advance of the scenario ends: it takes at most as many rounds as events are allowed, and two.
  pub advance_scenario_and_distortions-total :
      (through_s : F) (g : GenerationRuntime fl model sp)
      → advance_scenario_and_distortions fl model sp through_s g ≢ err out_of_fuel
  unfolding advance_scenario_and_distortions
  advance_scenario_and_distortions-total through_s g = grind (arith, advance_rounds-total)
