-- ===== src/Scenario/Simulator/Parts.antt =====
-- services/simulation-server/src/scenario/simulator.rs: an advance in two parts.
use scrap_monitoring_simulat.Float.{Float, IsOrdered}
use scrap_monitoring_simulat.Results.{ok, err, ◌>>=◌, Result-cases}
use scrap_monitoring_simulat.Prelude.{
  ℕ, zero, suc, ◌≡◌, inl, inr, refl, ap, ◌∙◌, subst, arith, true, false, Bool-cases, List, [], ◌∷◌,
  ◌++◌,
}
use scrap_monitoring_simulat.Scenario.Errors.{resource, event_limit}
use scrap_monitoring_simulat.Scenario.Surface.{SurfaceModel}
use scrap_monitoring_simulat.Scenario.Simulator.{
  ScenarioSimulator, ScenarioEvent, ScenarioAdvance, Outcome, snapshot, event_output_limit,
  next_event,
}
use scrap_monitoring_simulat.Scenario.Simulator.Advance.{
  require_bounded_update_output, one_event, advance_events, advance_inner, advance_to,
}
use scrap_monitoring_simulat.Scenario.Simulator.Shift.{
  at, one_event-at, next_event-at, advance_to-IsMade,
}
use scrap_monitoring_simulat.Scenario.Simulator.Timeline.{next_event-IsLater}

module _ (fl : Float) (laws : IsOrdered fl) (model : SurfaceModel fl) where
  open fl use {F, lt, is_finite}
  open model use {Fault}

  abbrev Events : Type 0
  Events = List (ScenarioEvent fl model)

  abbrev Simulator : Type 0
  Simulator = ScenarioSimulator fl model

  abbrev Run : Type 0
  Run = Outcome fl model (Events × Simulator)

  -- The loop gives these events and, but for its time, this state, or it has no room.
  abbrev IsJoined : F → Events → Simulator → Run → Type 0
  IsJoined t events s (ok (events', s')) = (events' ≡ events) × (at fl model t s' ≡ at fl model t s)
  IsJoined t events s (err e) = e ≡ resource event_limit

  IsJoined-cons :
      (t : F) (event : ScenarioEvent fl model) (events : Events) (s : Simulator) (r : Run)
      → IsJoined t events s r
      → IsJoined t (event ∷ events) s (r >>= λ m. ok (event ∷ m.0, m.1))
  IsJoined-cons t event events s (ok (events', s')) (e, same) = (ap (λ es. event ∷ es) e, same)
  IsJoined-cons t event events s (err e) h = h

  -- Where nothing is due, the loop gives nothing, whatever its room is.
  advance_events-rest :
      (t next : F) (room : ℕ) (s : Simulator)
      → next_event fl model s ≡ ok next
      → lt t next ≡ true
      → advance_events fl model t room s ≡ ok ([], s)
  unfolding advance_events
  advance_events-rest t next zero s q b = rw (q, b) refl
  advance_events-rest t next (suc room) s q b = rw (q, b) refl

  -- Where an event is due, the loop goes on with the state behind it, or has no room.
  advance_events-due :
      (t next : F) (room : ℕ) (s u last : Simulator) (event : ScenarioEvent fl model)
      (events : Events)
      → next_event fl model s ≡ ok next
      → lt t next ≡ false
      → one_event fl model next s ≡ ok (event, u)
      → ((fewer : ℕ) → IsJoined t events last (advance_events fl model t fewer u))
      → IsJoined t (event ∷ events) last (advance_events fl model t room s)
  unfolding advance_events
  advance_events-due t next zero s u last event events q b p h = rw (q, b) refl
  advance_events-due t next (suc room) s u last event events q b p h =
      rw (q, b, p) (IsJoined-cons t event events last (advance_events fl model t room u) (h room))

  -- What a run that succeeds says of the runs from a state.
  abbrev Follows : F → Simulator → Run → Type 0
  Follows t s (ok (events, last)) =
      (room : ℕ) → IsJoined t events last (advance_events fl model t room s)
  Follows t s (err e) = Unit

  Follows-cons :
      (t next : F) (s u : Simulator) (event : ScenarioEvent fl model) (r : Run)
      → next_event fl model s ≡ ok next
      → lt t next ≡ false
      → one_event fl model next s ≡ ok (event, u)
      → Follows t u r
      → Follows t s (r >>= λ m. ok (event ∷ m.0, m.1))
  Follows-cons t next s u event (ok (events, last)) q b p h =
      λ room. advance_events-due t next room s u last event events q b p h
  Follows-cons t next s u event (err e) q b p h = tt

  -- A run that succeeds gives the same from the state at another time, in any room.
  advance_events-Follows :
      (t x : F) (n : ℕ) (s : Simulator)
      → Follows t (at fl model x s) (advance_events fl model t n s)
  unfolding advance_events
  advance_events-Follows t x zero s = elim (Result-cases (next_event fl model s)) [
    | inr (e, q) ↦ rw q tt
    | inl (next, q) ↦ elim (Bool-cases (lt t next)) [
      | inl b ↦
          rw (q, b)
            (λ room.
              rw
                (advance_events-rest t next room (at fl model x s) (next_event-at fl model x s ∙ q)
                  b)
                (refl, refl))
      | inr b ↦ rw (q, b) tt
    ]
  ]
  advance_events-Follows t x (suc n) s = elim (Result-cases (next_event fl model s)) [
    | inr (e, q) ↦ rw q tt
    | inl (next, q) ↦ elim (Bool-cases (lt t next)) [
      | inl b ↦
          rw (q, b)
            (λ room.
              rw
                (advance_events-rest t next room (at fl model x s) (next_event-at fl model x s ∙ q)
                  b)
                (refl, refl))
      | inr b ↦ elim (Result-cases (one_event fl model next s)) [
        | inr (e, p) ↦ rw (q, b, p) tt
        | inl ((event, u), p) ↦
            rw (q, b, p)
              (Follows-cons t next (at fl model x s) u event (advance_events fl model t n u)
                (next_event-at fl model x s ∙ q) b (one_event-at fl model x next s ∙ p)
                (advance_events-Follows t u.elapsed_s n u))
      ]
    ]
  ]

  -- What a run to an earlier time says of the runs from a state to a later time.
  abbrev Splits : F → F → Simulator → Run → Type 0
  Splits t u s (ok (events, last)) =
      (n : ℕ) (more : Events) (end : Simulator)
      → advance_events fl model u n (at fl model t last) ≡ ok (more, end)
      → (room : ℕ) → IsJoined u (events ++ more) end (advance_events fl model u room s)
  Splits t u s (err e) = Unit

  Splits-rest : (t u : F) (s : Simulator) → Splits t u s (ok ([], s))
  Splits-rest t u s n more end h room =
      subst (Follows u s) h (advance_events-Follows u s.elapsed_s n (at fl model t s)) room

  Splits-cons :
      (t u next : F) (s v : Simulator) (event : ScenarioEvent fl model) (r : Run)
      → next_event fl model s ≡ ok next
      → lt u next ≡ false
      → one_event fl model next s ≡ ok (event, v)
      → Splits t u v r
      → Splits t u s (r >>= λ m. ok (event ∷ m.0, m.1))
  Splits-cons t u next s v event (err e) q b p h = tt
  Splits-cons t u next s v event (ok (events, last)) q b p h = λ n more end k room.
      advance_events-due u next room s v end event (events ++ more) q b p (h n more end k)

  advance_events-Splits :
      (t u : F) (n : ℕ) (s : Simulator)
      → is_finite t ≡ true
      → is_finite u ≡ true
      → lt u t ≡ false
      → Splits t u s (advance_events fl model t n s)
  unfolding advance_events
  advance_events-Splits t u zero s ft fu h = elim (Result-cases (next_event fl model s)) [
    | inr (e, q) ↦ rw q tt
    | inl (next, q) ↦ elim (Bool-cases (lt t next)) [
      | inl b ↦ rw (q, b) (Splits-rest t u s)
      | inr b ↦ rw (q, b) tt
    ]
  ]
  advance_events-Splits t u (suc n) s ft fu h = elim (Result-cases (next_event fl model s)) [
    | inr (e, q) ↦ rw q tt
    | inl (next, q) ↦ elim (Bool-cases (lt t next)) [
      | inl b ↦ rw (q, b) (Splits-rest t u s)
      | inr b ↦ elim (Result-cases (one_event fl model next s)) [
        | inr (e, p) ↦ rw (q, b, p) tt
        | inl ((event, v), p) ↦
            rw (q, b, p)
              (Splits-cons t u next s v event (advance_events fl model t n v) q
                (laws.not_lt_trans u t next fu ft (next_event-IsLater fl laws model s next q).0 h b)
                p (advance_events-Splits t u n v ft fu h))
      ]
    ]
  ]

  -- Two advances, one behind the other.
  pub record AreParts (t u : F) (s middle end : Simulator) (a b : ScenarioAdvance fl model)
      : Type 0 where
    pub first : advance_to fl model t s ≡ ok (a, middle)
    pub second : advance_to fl model u middle ≡ ok (b, end)

  -- The advance at once, or too many events for it.
  abbrev pub IsWhole :
      Events
      → ScenarioAdvance fl model
      → Simulator
      → Outcome fl model (ScenarioAdvance fl model × Simulator)
      → Type 0
  IsWhole before b end (ok (a, s)) =
      (a.events ≡ before ++ b.events) × (a.reached ≡ b.reached) × (s ≡ end)
  IsWhole before b end (err e) = e ≡ resource event_limit

  -- The end of `advance_inner`.
  IsJoined-IsWhole :
      (u : F) (before : Events) (b : ScenarioAdvance fl model) (last : Simulator) (r : Run)
      → IsJoined u (before ++ b.events) last r
      → snapshot fl model (at fl model u last) ≡ ok b.reached
      → IsWhole before b (at fl model u last) (
          r >>= λ m. snapshot fl model (at fl model u m.1) >>= λ shown.
          ok (record { reached = shown; events = m.0 }, at fl model u m.1))
  IsJoined-IsWhole u before b last (err e) h k = h
  IsJoined-IsWhole u before b last (ok (events, v)) (e, same) k =
      rw (ap (snapshot fl model) same ∙ k) (e, refl, same)

  advance_inner-IsWhole :
      (u : F) (s last : Simulator) (before : Events) (b : ScenarioAdvance fl model) (limit : ℕ)
      → event_output_limit fl model s ≡ ok limit
      → IsJoined u (before ++ b.events) last (advance_events fl model u limit s)
      → snapshot fl model (at fl model u last) ≡ ok b.reached
      → IsWhole before b (at fl model u last) (advance_inner fl model u s)
  unfolding advance_inner
  advance_inner-IsWhole u s last before b limit q h k =
      rw q (IsJoined-IsWhole u before b last (advance_events fl model u limit s) h k)

  -- An advance in two parts gives the events, the snapshot and the state of the advance at once, which
  -- can fail only by having more events than the limit.
  pub advance_to-advance_to :
      (t u : F) (s middle end : Simulator) (a b : ScenarioAdvance fl model)
      → is_finite s.elapsed_s ≡ true
      → AreParts t u s middle end a b
      → IsWhole a.events b end (advance_to fl model u s)
  unfolding advance_to require_bounded_update_output
  advance_to-advance_to t u s middle end a b f h =
      let m = advance_to-IsMade fl model t s middle a h.first in
      let n = advance_to-IsMade fl model u middle end b h.second in
      let later : lt u t ≡ false = subst (λ v. lt u v.elapsed_s ≡ false) m.ended n.not_back in
      let run =
        subst (λ v. advance_events fl model u n.limit v ≡ ok (b.events, n.last)) m.ended n.run in
      let splits =
        subst (Splits t u s) m.run
          (advance_events-Splits t u m.limit s m.target_finite n.target_finite later) in
      let inner =
        advance_inner-IsWhole u s n.last a.events b m.limit m.limited
          (splits n.limit b.events n.last run m.limit) n.snapped in
      let back =
        laws.not_lt_trans u t s.elapsed_s n.target_finite m.target_finite f later m.not_back in
      rw n.ended (ground (arith, inner, back, n.target_finite, m.limited))
