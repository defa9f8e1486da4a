-- ===== src/Runtime/Generation/Outcomes.antt =====
-- services/simulation-server/src/runtime/generation.rs: how `next_completed_scans` ends.
use scrap_monitoring_simulat.Float.{Float}
use scrap_monitoring_simulat.Results.{Result, ok, err, Result-cases}
use scrap_monitoring_simulat.Prelude.{
  ℕ, zero, suc, ◌≡◌, ◌≢◌, inl, inr, refl, ap, ◌∙◌, arith, Bool, true, false, none, List, [], ◌∷◌,
}
use scrap_monitoring_simulat.Scenario.Surface.{SurfaceModel}
use scrap_monitoring_simulat.Scenario.Simulator.{event_output_limit}
use scrap_monitoring_simulat.Runtime.Generation.{
  Spatial, GenerationRuntimeError, terminal_use, GenerationBatch, SensorCoordinator,
  GenerationRuntime, next_completion_elapsed_s, Progress, advance_round, advance_rounds,
  advance_scenario_and_distortions,
}
use scrap_monitoring_simulat.Runtime.Generation.Batches.{
  Worker, all_pending, dispatch, schedule, receive, finish, produce, try_next_completed_scans,
  next_completed_scans, shutdown,
}
use scrap_monitoring_simulat.Runtime.Generation.Delivery.{IsServed, served}

module _ (fl : Float) (model : SurfaceModel fl) (sp : Spatial fl model) where
  open fl use {F, lt}
  open sp use {Measured}

  abbrev Runtime : Type 0
  Runtime = GenerationRuntime fl model sp

  abbrev Outcome : Type 0
  Outcome = Runtime × Result (GenerationRuntimeError fl model sp) (GenerationBatch fl model sp)

  IsServed-all_pending :
      (c : F) (before after : List (SensorCoordinator fl model sp)) (scans : List Measured)
      → IsServed fl model sp c before after scans
      → all_pending fl model sp after ≡ true
  IsServed-all_pending c [] [] scans h = refl
  IsServed-all_pending c [] (s' ∷ after) scans h = absurd h
  IsServed-all_pending c (s ∷ before) [] scans h = absurd h
  IsServed-all_pending c (s ∷ before) (s' ∷ after) [] (w, h) =
      rw (ap (λ x. x.pending) w.kept ∙ w.was_pending) (IsServed-all_pending c before after [] h)
  IsServed-all_pending c (s ∷ before) (s' ∷ after) (m ∷ scans) (inl (w, h)) =
      rw (ap (λ x. x.pending) w.kept ∙ w.was_pending)
        (IsServed-all_pending c before after (m ∷ scans) h)
  IsServed-all_pending c (s ∷ before) (s' ∷ after) (m ∷ scans) (inr (a, h)) =
      rw (ap (λ x. x.pending) a.renewed) (IsServed-all_pending c before after scans h)

  finish-fields :
      (c : F) (p : Progress fl model sp) (scans : List Measured) (g g' : Runtime)
      (batch : GenerationBatch fl model sp)
      → finish fl model sp c p scans g ≡ (g', ok batch)
      → (g'.sensors ≡ g.sensors)
        × (g'.simulator ≡ g.simulator)
        × (g'.terminal ≡ g.terminal)
        × (batch.scans ≡ scans)
        × (batch.completed_at_s ≡ c)
  unfolding finish
  finish-fields c p scans g g' batch h = ground arith

  -- What `produce` gives where it succeeds.
  produce-ok :
      (worker : Worker fl model sp) (c : F) (p : Progress fl model sp) (g g' : Runtime)
      (batch : GenerationBatch fl model sp)
      → produce fl model sp worker c p g ≡ (g', ok batch)
      → IsServed fl model sp c g.sensors g'.sensors batch.scans
        × (batch.scans ≢ [])
        × (g'.simulator ≡ g.simulator)
        × (g'.terminal ≡ g.terminal)
        × (batch.completed_at_s ≡ c)
  unfolding produce
  produce-ok worker c p g g' batch h =
      let slots = dispatch fl model sp worker c g.history g.spatial 0 g.sensors in
      let ready = schedule fl model sp slots.0 in
      let got = receive fl model sp ready.0 in
      let pending : all_pending fl model sp g.sensors ≡ true = ground arith in
      let sent : slots.1 ≡ none = ground arith in
      let scheduled : ready.1 ≡ none = ground arith in
      let received : got.2 ≡ none = ground arith in
      let some_scan : got.1 ≢ [] = ground arith in
      let finished : finish fl model sp c p got.1 (record g { sensors = got.0 }) ≡ (g', ok batch) =
        ground arith in
      let (sensors, simulator, terminal, scans, completed) =
        finish-fields c p got.1 (record g { sensors = got.0 }) g' batch finished in
      let all =
        served fl model sp worker c g.history g.spatial 0 g.sensors pending sent scheduled
          received in
      (rw (sensors, scans) all, rw scans some_scan, simulator, terminal, completed)

  advance_rounds-reached :
      (fuel : ℕ) (through_s : F) (limit : ℕ) (p q : Progress fl model sp)
      → advance_rounds fl model sp fuel through_s limit p ≡ ok q
      → lt q.simulator.elapsed_s through_s ≡ false
  unfolding advance_rounds
  advance_rounds-reached zero through_s limit p q h = ground arith
  advance_rounds-reached (suc fuel) through_s limit p q h =
      elim (Result-cases (advance_round fl model sp through_s limit p)) [
        | inr (e, r) ↦ ground arith
        | inl (p', r) ↦ ground (arith, advance_rounds-reached fuel through_s limit p' q)
      ]

  advance_scenario_and_distortions-reached :
      (through_s : F) (g : Runtime) (q : Progress fl model sp)
      → advance_scenario_and_distortions fl model sp through_s g ≡ ok q
      → lt q.simulator.elapsed_s through_s ≡ false
  unfolding advance_scenario_and_distortions
  advance_scenario_and_distortions-reached through_s g q h =
      elim (Result-cases (event_output_limit fl model g.simulator)) [
        | inr (e, r) ↦ ground arith
        | inl (limit, r) ↦ grind (arith, advance_rounds-reached)
      ]

  -- What a call delivers that succeeds.
  pub record IsDelivered (g g' : Runtime) (batch : GenerationBatch fl model sp) : Type 0 where
    pub served :
        IsServed fl model sp
          (next_completion_elapsed_s fl model sp g)
          g.sensors
          g'.sensors
          batch.scans
    pub has_scan : batch.scans ≢ []
    pub completed : batch.completed_at_s ≡ next_completion_elapsed_s fl model sp g
    pub all_scheduled : all_pending fl model sp g'.sensors ≡ true
    pub reached : lt g'.simulator.elapsed_s (next_completion_elapsed_s fl model sp g) ≡ false
    pub usable : g'.terminal ≡ false

  -- A call that succeeds measures the scans that are due at the earliest time of completion, each by its
  -- own sensor and at least one, in the order of the sensors. The sensors of these scans get the next
  -- ones, the others stay as they are, so that every sensor has a pending scan again; the scenario has
  -- reached that time, and the runtime can go on.
  pub next_completed_scans-IsDelivered :
      (worker : Worker fl model sp) (g g' : Runtime) (batch : GenerationBatch fl model sp)
      → next_completed_scans fl model sp worker g ≡ (g', ok batch)
      → IsDelivered g g' batch
  unfolding next_completed_scans try_next_completed_scans
  next_completed_scans-IsDelivered worker g g' batch h =
      let c = next_completion_elapsed_s fl model sp g in
      elim (Result-cases (advance_scenario_and_distortions fl model sp c g)) [
        | inr (e, q) ↦ ground arith
        | inl (p, q) ↦
            let on : Runtime = record g {
              simulator = p.simulator;
              history = p.history;
              spatial = p.spatial;
            } in
            let produced : produce fl model sp worker c p on ≡ (g', ok batch) = ground arith in
            let active : g.terminal ≡ false = ground arith in
            let (served, has_scan, simulator, terminal, completed) =
              produce-ok worker c p on g' batch produced in
            record {
              served = served;
              has_scan = has_scan;
              completed = completed;
              all_scheduled = IsServed-all_pending c g.sensors g'.sensors batch.scans served;
              reached = rw simulator (advance_scenario_and_distortions-reached c g p q);
              usable = terminal ∙ active;
            }
      ]

  -- Behind a call that fails, whatever its error was, every call fails as terminal and changes nothing.
  pub next_completed_scans-terminal :
      (worker again : Worker fl model sp) (g g' : Runtime) (e : GenerationRuntimeError fl model sp)
      → next_completed_scans fl model sp worker g ≡ (g', err e)
      → next_completed_scans fl model sp again g' ≡ (g', err terminal_use)
  unfolding next_completed_scans
  next_completed_scans-terminal worker again g g' e h = ground arith

  shutdown-terminal :
      (refuses panics : ℕ → Bool) (again : Worker fl model sp) (g : Runtime)
      → next_completed_scans fl model sp again (shutdown fl model sp refuses panics g).0
        ≡ ((shutdown fl model sp refuses panics g).0, err terminal_use)
  unfolding next_completed_scans shutdown
  shutdown-terminal refuses panics again g = ground arith
