-- ===== src/Scene/Publisher/Accounting.antt =====
-- services/simulation-server/src/scene_stream.rs: no record of the publisher is lost without being
-- counted, and the records go out in the order of their numbers.
use scrap_monitoring_simulat.Prelude.{
  ℕ, ◌+◌, ◌≤◌, ◌<◌, ◌≡◌, inl, inr, arith, Option-cases, Bool, true, false, Option, none, some, List,
  [], ◌∷◌,
}
use scrap_monitoring_simulat.Scene.Publisher.{
  max_scene_sequence, SceneSegment, Publisher, is_some, new, take_latest, sent, encoding_failed,
  writing_failed, connection_failed, close_shared, close, new_segment, publish, Event, publishes,
  takes, sends, fails_to_encode, fails_to_write, fails_to_connect, closes, step, run,
  reconcile_accepted_records,
}

-- The numbers go down, and are below a bound.
abbrev pub IsBelow : ℕ → List ℕ → Type 0
IsBelow bound [] = Unit
IsBelow bound (n ∷ numbers) = (n < bound) × IsBelow n numbers

abbrev pub one {ℓ} : {A : Type ℓ} → Option A → ℕ
one none = 0
one (some a) = 1

IsBelow-weaken : (a b : ℕ) (numbers : List ℕ) → a ≤ b → IsBelow a numbers → IsBelow b numbers
IsBelow-weaken a b [] h k = tt
IsBelow-weaken a b (n ∷ numbers) h k = ground arith

module _ {ℓ} {Snapshot : Type ℓ} where
  abbrev pub number : Option (SceneSegment Snapshot) → List ℕ → List ℕ
  number none numbers = numbers
  number (some r) numbers = r.sequence ∷ numbers

  -- Every accepted record was sent, was dropped, waits or is in flight; a number was used for each;
  -- nothing waits behind the closing; and the records go out, and wait, in the order of their numbers.
  pub record IsAccounted (s : Publisher Snapshot) : Type 0 where
    pub numbered : s.counters.accepted_records < s.next_sequence
    pub bounded : s.next_sequence ≤ max_scene_sequence + 1
    pub balanced :
        s.counters.accepted_records
        ≡ s.counters.sent_records + s.counters.dropped_records + one s.latest + one s.in_flight
    pub emptied : s.closed ≡ true → is_some s.latest ≡ false
    pub ordered : IsBelow s.next_sequence (number s.latest (number s.in_flight s.wire))

  IsBelow-drop :
      (bound : ℕ) (r : Option (SceneSegment Snapshot)) (numbers : List ℕ)
      → IsBelow bound (number r numbers)
      → IsBelow bound numbers
  IsBelow-drop bound none numbers h = h
  IsBelow-drop bound (some r) numbers h = IsBelow-weaken r.sequence bound numbers (ground arith) h.1

  IsBelow-skip :
      (bound : ℕ) (l r : Option (SceneSegment Snapshot)) (numbers : List ℕ)
      → IsBelow bound (number l (number r numbers))
      → IsBelow bound (number l numbers)
  IsBelow-skip bound none r numbers h = IsBelow-drop bound r numbers h
  IsBelow-skip bound (some l) r numbers h = (h.0, IsBelow-drop l.sequence r numbers h.1)

  take_latest-IsAccounted : (s : Publisher Snapshot) → IsAccounted s → IsAccounted (take_latest s)
  unfolding take_latest
  take_latest-IsAccounted s h = elim (Option-cases s.in_flight) [
    | inl e ↦ ground arith
    | inr (r, e) ↦ ground arith
  ]

  sent-IsAccounted : (s : Publisher Snapshot) → IsAccounted s → IsAccounted (sent s)
  unfolding sent
  sent-IsAccounted s h = elim (Option-cases s.in_flight) [
    | inl e ↦ ground arith
    | inr (r, e) ↦ ground arith
  ]

  encoding_failed-IsAccounted :
      (s : Publisher Snapshot) → IsAccounted s → IsAccounted (encoding_failed s)
  unfolding encoding_failed
  encoding_failed-IsAccounted s h = elim (Option-cases s.in_flight) [
    | inl e ↦ ground arith
    | inr (r, e) ↦ ground (arith, IsBelow-skip s.next_sequence s.latest s.in_flight s.wire)
  ]

  writing_failed-IsAccounted :
      (s : Publisher Snapshot) → IsAccounted s → IsAccounted (writing_failed s)
  unfolding writing_failed
  writing_failed-IsAccounted s h = elim (Option-cases s.in_flight) [
    | inl e ↦ ground arith
    | inr (r, e) ↦ ground (arith, IsBelow-skip s.next_sequence s.latest s.in_flight s.wire)
  ]

  connection_failed-IsAccounted :
      (s : Publisher Snapshot) → IsAccounted s → IsAccounted (connection_failed s)
  unfolding connection_failed
  connection_failed-IsAccounted s h = ground arith

  close_shared-IsAccounted : (s : Publisher Snapshot) → IsAccounted s → IsAccounted (close_shared s)
  unfolding close_shared
  close_shared-IsAccounted s h = ground (
    arith,
    IsBelow-drop s.next_sequence s.latest (number s.in_flight s.wire),
    Option-cases s.latest,
  )

  -- The end of `close`.
  reconcile-IsAccounted :
      (s : Publisher Snapshot)
      → is_some s.latest ≡ false
      → IsAccounted s
      → IsAccounted
          (record s { in_flight = none; counters = reconcile_accepted_records s.counters })
  unfolding reconcile_accepted_records
  reconcile-IsAccounted s e h = ground (arith, IsBelow-drop s.next_sequence s.in_flight s.wire)

  close_shared-empty :
      (s : Publisher Snapshot) → IsAccounted s → is_some (close_shared s).latest ≡ false
  unfolding close_shared
  close_shared-empty s h = ground arith

  close-IsAccounted : (s : Publisher Snapshot) → IsAccounted s → IsAccounted (close s)
  unfolding close
  close-IsAccounted s h =
      reconcile-IsAccounted (close_shared s) (close_shared-empty s h) (close_shared-IsAccounted s h)

  -- What `close` leaves behind.
  closed_books :
      (s : Publisher Snapshot)
      → IsAccounted s
      → ((close s).counters.accepted_records
          ≡ (close s).counters.sent_records + (close s).counters.dropped_records)
        × (is_some (close s).latest ≡ false)
        × (is_some (close s).in_flight ≡ false)
  unfolding close
  closed_books s h = ground (arith, close-IsAccounted s h, close_shared-empty s h)

  module _ (run_id_is_empty : Bool) (is_segment : Snapshot → Snapshot → Bool) where
    publish-IsAccounted :
        (keyframe : Snapshot) (s : Publisher Snapshot)
        → IsAccounted s
        → IsAccounted (publish run_id_is_empty is_segment keyframe s).1
    unfolding publish new_segment
    publish-IsAccounted keyframe s h = ground (
      arith,
      IsBelow-drop s.next_sequence s.latest (number s.in_flight s.wire),
      IsBelow-weaken s.next_sequence (s.next_sequence + 1)
          (number s.latest (number s.in_flight s.wire)),
      Option-cases s.latest,
    )

    step-IsAccounted :
        (e : Event run_id_is_empty is_segment) (s : Publisher Snapshot)
        → IsAccounted s
        → IsAccounted (step run_id_is_empty is_segment e s)
    unfolding step
    step-IsAccounted (publishes keyframe) s h = publish-IsAccounted keyframe s h
    step-IsAccounted takes s h = take_latest-IsAccounted s h
    step-IsAccounted sends s h = sent-IsAccounted s h
    step-IsAccounted fails_to_encode s h = encoding_failed-IsAccounted s h
    step-IsAccounted fails_to_write s h = writing_failed-IsAccounted s h
    step-IsAccounted fails_to_connect s h = connection_failed-IsAccounted s h
    step-IsAccounted closes s h = close-IsAccounted s h

    run-IsAccounted :
        (events : List (Event run_id_is_empty is_segment)) (s : Publisher Snapshot)
        → IsAccounted s
        → IsAccounted (run run_id_is_empty is_segment events s)
    unfolding run
    run-IsAccounted [] s h = h
    run-IsAccounted (e ∷ events) s h = run-IsAccounted events _ (step-IsAccounted e s h)

    -- From a new publisher, by any interleaving of its publishing, of its task and of its closing:
    -- the accepted records are those sent, those dropped, the one that waits and the one in flight;
    -- the counters never saturate; and the frames on the wire have ascending numbers, below the
    -- number in flight and that below the one that waits.
    pub run-new-IsAccounted :
        (keyframe : Snapshot) (events : List (Event run_id_is_empty is_segment))
        → IsAccounted (run run_id_is_empty is_segment events (new keyframe))
    unfolding new
    run-new-IsAccounted keyframe events = run-IsAccounted events _ (ground arith)

    -- Behind any such run, once the publisher is closed every accepted record counts as sent or as
    -- dropped, and none waits or is in flight.
    pub close-run :
        (keyframe : Snapshot) (events : List (Event run_id_is_empty is_segment))
        → ((close (run run_id_is_empty is_segment events (new keyframe))).counters.accepted_records
            ≡ (close (run run_id_is_empty is_segment events (new keyframe))).counters.sent_records
              + (close
                  (run run_id_is_empty is_segment events (new keyframe))).counters.dropped_records)
          × (is_some (close (run run_id_is_empty is_segment events (new keyframe))).latest ≡ false)
          × (is_some (close (run run_id_is_empty is_segment events (new keyframe))).in_flight
              ≡ false)
    close-run keyframe events = closed_books _ (run-new-IsAccounted keyframe events)
