-- ===== src/Scenario/Simulator/Timeline.antt =====
-- services/simulation-server/src/scenario/simulator.rs: the times of the events, and an advance in parts.
use scrap_monitoring_simulat.Float.{Float, IsOrdered}
use scrap_monitoring_simulat.Results.{ok, err, ◌>>=◌, Result-cases}
use scrap_monitoring_simulat.Prelude.{
  ℕ, zero, suc, ◌≤◌, ◌≡◌, ◌⊎◌, inl, inr, ap, sym, ◌∙◌, subst, arith, Bool, true, false, ◌||◌,
  Bool-cases, List, [], ◌∷◌, length,
}
use scrap_monitoring_simulat.Scenario.Surface.{SurfaceModel}
use scrap_monitoring_simulat.Scenario.Simulator.{
  ScenarioSimulator, ScenarioEvent, ScenarioAdvance, ScenarioSnapshot, Outcome, snapshot,
  event_output_limit, next_update_time, phase_end_s, next_event, max_events_per_advance,
}
use scrap_monitoring_simulat.Scenario.Simulator.Plans.{
  start_collecting, start_filling, transition_phase,
}
use scrap_monitoring_simulat.Scenario.Simulator.Advance.{
  count_update, settle_phase, one_event, advance_events, advance_to,
}
use scrap_monitoring_simulat.Scenario.Simulator.Shift.{at, next_event-at, advance_to-IsMade}

module _ (fl : Float) (laws : IsOrdered fl) (model : SurfaceModel fl) where
  open fl use {F, lt, le, eq, is_finite, min_of}
  open model use {Fault}

  -- The events are behind one another and behind `previous`, none is behind `target`, and each has a cause.
  abbrev pub IsTimeline : F → F → List (ScenarioEvent fl model) → Type 0
  IsTimeline target previous [] = Unit
  IsTimeline target previous (e ∷ events) =
      (le e.elapsed_s previous ≡ false)
      × (lt target e.elapsed_s ≡ false)
      × ((e.surface_update_due || e.phase_transition_due) ≡ true)
      × IsTimeline target e.elapsed_s events

  next_update_time-IsLater :
      (s : ScenarioSimulator fl model) (t : F)
      → next_update_time fl model s ≡ ok t
      → (is_finite t ≡ true) × (le t s.surface_updated_at_s ≡ false)
  unfolding next_update_time
  next_update_time-IsLater s t e = ground arith

  phase_end_s-IsLater :
      (s : ScenarioSimulator fl model) (t : F)
      → phase_end_s fl model s ≡ ok t
      → (is_finite t ≡ true) × (le t s.surface_updated_at_s ≡ false)
  unfolding phase_end_s
  phase_end_s-IsLater s t e = ground arith

  -- The next event is one of the two times.
  next_event-cases :
      (s : ScenarioSimulator fl model) (t : F)
      → next_event fl model s ≡ ok t
      → (next_update_time fl model s ≡ ok t) ⊎ (phase_end_s fl model s ≡ ok t)
  unfolding next_event
  next_event-cases s t e = elim (Result-cases (next_update_time fl model s)) [
    | inr (f, q) ↦ ground arith
    | inl (update, q) ↦ elim (Result-cases (phase_end_s fl model s)) [
      | inr (f, p) ↦ ground arith
      | inl (phase_end, p) ↦ ground (arith, laws.min_chooses update phase_end)
    ]
  ]

  pub next_event-IsLater :
      (s : ScenarioSimulator fl model) (t : F)
      → next_event fl model s ≡ ok t
      → (is_finite t ≡ true) × (le t s.surface_updated_at_s ≡ false)
  next_event-IsLater s t e = elim (next_event-cases s t e) [
    | inl q ↦ next_update_time-IsLater s t q
    | inr q ↦ phase_end_s-IsLater s t q
  ]

  count_update-time :
      (due : Bool) (s s' : ScenarioSimulator fl model)
      → count_update fl model due s ≡ ok s'
      → s'.surface_updated_at_s ≡ s.surface_updated_at_s
  unfolding count_update
  count_update-time due s s' e = ground arith

  settle_phase-time :
      (t : F) (due : Bool) (s s' : ScenarioSimulator fl model)
      → settle_phase fl model t due s ≡ ok s'
      → s'.surface_updated_at_s ≡ s.surface_updated_at_s
  unfolding settle_phase transition_phase start_collecting start_filling
  settle_phase-time t due s s' e = ground arith

  one_event-time :
      (t : F) (s s' : ScenarioSimulator fl model) (e : ScenarioEvent fl model)
      → one_event fl model t s ≡ ok (e, s')
      → (e.elapsed_s ≡ t) × (s'.surface_updated_at_s ≡ t)
  unfolding one_event
  one_event-time t s s' e h = grind (arith, count_update-time, settle_phase-time)

  one_event-IsCaused :
      (t : F) (s s' : ScenarioSimulator fl model) (e : ScenarioEvent fl model)
      → next_event fl model s ≡ ok t
      → one_event fl model t s ≡ ok (e, s')
      → (e.surface_update_due || e.phase_transition_due) ≡ true
  unfolding one_event
  one_event-IsCaused t s s' e h k =
      ground (arith, next_event-cases s t h, next_event-IsLater s t h, laws.eq_refl t)

  -- What the loop gives: events in order, within the room, and the next event behind the target.
  abbrev IsRun : F → F → ℕ → List (ScenarioEvent fl model) → ScenarioSimulator fl model → Type 0
  IsRun target previous room events s =
      IsTimeline target previous events
      × (length events ≤ room)
      × ((t : F) × (next_event fl model s ≡ ok t) × (lt target t ≡ true))

  abbrev HasRun :
      F
      → F
      → ℕ
      → Outcome fl model (List (ScenarioEvent fl model) × ScenarioSimulator fl model)
      → Type 0
  HasRun target previous room (ok (events, s)) = IsRun target previous room events s
  HasRun target previous room (err e) = Unit

  went_on :
      (target next : F) (room : ℕ) (s u : ScenarioSimulator fl model)
      (event : ScenarioEvent fl model)
      (r : Outcome fl model (List (ScenarioEvent fl model) × ScenarioSimulator fl model))
      → next_event fl model s ≡ ok next
      → lt target next ≡ false
      → one_event fl model next s ≡ ok (event, u)
      → HasRun target u.surface_updated_at_s room r
      → HasRun target s.surface_updated_at_s (suc room) (r >>= λ m. ok (event ∷ m.0, m.1))
  went_on target next room s u event (err e) q b p run = tt
  went_on target next room s u event (ok (more, v)) q b p (run, len, done) =
      let (same, moved) = one_event-time next s u event p in
      (
        (
          rw same (next_event-IsLater s next q).1,
          rw same b,
          one_event-IsCaused next s u event q p,
          subst (λ t. IsTimeline target t more) (moved ∙ sym same) run,
        ),
        omega arith,
        done,
      )

  advance_events-HasRun :
      (target : F) (room : ℕ) (s : ScenarioSimulator fl model)
      → HasRun target s.surface_updated_at_s room (advance_events fl model target room s)
  unfolding advance_events
  advance_events-HasRun target zero s = elim (Result-cases (next_event fl model s)) [
    | inr (e, q) ↦ rw q tt
    | inl (next, q) ↦ elim (Bool-cases (lt target next)) [
      | inl b ↦ rw (q, b) (tt, omega arith, (next, q, b))
      | inr b ↦ rw (q, b) tt
    ]
  ]
  advance_events-HasRun target (suc room) s = elim (Result-cases (next_event fl model s)) [
    | inr (e, q) ↦ rw q tt
    | inl (next, q) ↦ elim (Bool-cases (lt target next)) [
      | inl b ↦ rw (q, b) (tt, omega arith, (next, q, b))
      | inr b ↦ elim (Result-cases (one_event fl model next s)) [
        | inr (e, p) ↦ rw (q, b, p) tt
        | inl ((event, u), p) ↦
            rw (q, b, p)
              (went_on target next room s u event (advance_events fl model target room u) q b p
                (advance_events-HasRun target room u))
      ]
    ]
  ]

  -- What `advance_to` gives for a target.
  pub record IsAdvance (target : F) (s : ScenarioSimulator fl model) (a : ScenarioAdvance fl model)
      (s' : ScenarioSimulator fl model) : Type 0 where
    pub timeline : IsTimeline target s.surface_updated_at_s a.events
    pub bounded : length a.events ≤ max_events_per_advance
    pub shown : a.reached.elapsed_s ≡ target
    pub reached : s'.elapsed_s ≡ target
    pub done : (t : F) × (next_event fl model s' ≡ ok t) × (lt target t ≡ true)

  event_output_limit-bound :
      (s : ScenarioSimulator fl model) (n : ℕ)
      → event_output_limit fl model s ≡ ok n
      → n ≤ max_events_per_advance
  unfolding event_output_limit
  event_output_limit-bound s n e = ground arith

  snapshot-elapsed :
      (s : ScenarioSimulator fl model) (shown : ScenarioSnapshot fl)
      → snapshot fl model s ≡ ok shown
      → shown.elapsed_s ≡ s.elapsed_s
  unfolding snapshot
  snapshot-elapsed s shown e = ground arith

  -- An advance that succeeds gives at most 4096 events, each with a cause, later than the event before
  -- it and not later than the target; it ends at the target, and the next event is later than that.
  pub advance_to-IsAdvance :
      (target : F) (s s' : ScenarioSimulator fl model) (a : ScenarioAdvance fl model)
      → advance_to fl model target s ≡ ok (a, s')
      → IsAdvance target s a s'
  advance_to-IsAdvance target s s' a h =
      let m = advance_to-IsMade fl model target s s' a h in
      let (timeline, bound, (next, due, later)) =
        subst (HasRun target s.surface_updated_at_s m.limit) m.run
          (advance_events-HasRun target m.limit s) in
      record {
        timeline = timeline;
        bounded = omega (arith, bound, event_output_limit-bound s m.limit m.limited);
        shown = snapshot-elapsed (at fl model target m.last) a.reached m.snapped;
        reached = ap (λ u. u.elapsed_s) m.ended;
        done = (
          next,
          ap (next_event fl model) m.ended ∙ (next_event-at fl model target m.last ∙ due),
          later,
        );
      }
