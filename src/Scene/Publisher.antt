-- ===== src/Scene/Publisher.antt =====
-- services/simulation-server/src/scene_stream.rs: `TcpScenePublisher`. One record waits in `latest`,
-- where a newer one replaces it; the task takes it, encodes it and writes it to the connection. The
-- publisher, the task and the closing run interleaved: an `Event` is one of their steps under the
-- lock. `Snapshot` is a keyframe of the scenario, and the parameters say whether two keyframes make
-- a segment. The log `wire` holds the sequence numbers of the frames that were written, newest first.
pub mod Accounting
use scrap_monitoring_simulat.Prelude.{
  ℕ, ◌+◌, ◌-◌, Bool, true, false, ◌&&◌, not, Option, none, some, List, [], ◌∷◌, if◌then◌else◌, ltb,
  leb, saturating_add,
}

-- 2 ^ 53 - 1, the largest integer that JSON holds safely.
abbrev pub max_scene_sequence : ℕ
max_scene_sequence = 9007199254740991

pub record SceneSegment {ℓ} (Snapshot : Type ℓ) : Type ℓ where
  pub sequence : ℕ
  pub left : Snapshot
  pub right : Snapshot

pub record ScenePublisherStats : Type 0 where
  pub accepted_records : ℕ
  pub sent_records : ℕ
  pub dropped_records : ℕ
  pub connection_failures : ℕ

-- `PublisherState`, the counters, the record that the task holds, and the log.
pub record Publisher {ℓ} (Snapshot : Type ℓ) : Type ℓ where
  pub closed : Bool
  pub latest : Option (SceneSegment Snapshot)
  pub next_sequence : ℕ
  pub previous_keyframe : Snapshot
  pub counters : ScenePublisherStats
  pub in_flight : Option (SceneSegment Snapshot)
  pub wire : List ℕ

pub data Published : Type 0 where
  accepted refused sequence_exhausted invalid : Published

abbrev pub is_some {ℓ} : {A : Type ℓ} → Option A → Bool
is_some none = false
is_some (some a) = true

abbrev pub increment : ℕ → ℕ
increment n = saturating_add n 1

abbrev pub count_accepted : ScenePublisherStats → ScenePublisherStats
count_accepted c = record c { accepted_records = increment c.accepted_records }

abbrev pub count_sent : ScenePublisherStats → ScenePublisherStats
count_sent c = record c { sent_records = increment c.sent_records }

abbrev pub count_dropped : ScenePublisherStats → ScenePublisherStats
count_dropped c = record c { dropped_records = increment c.dropped_records }

abbrev pub count_failure : ScenePublisherStats → ScenePublisherStats
count_failure c = record c { connection_failures = increment c.connection_failures }

-- A record that gives way is dropped.
abbrev pub count_replaced : Bool → ScenePublisherStats → ScenePublisherStats
count_replaced replaced c = if replaced then count_dropped c else c

-- `reconcile_accepted_records`: what is not accounted for was dropped.
unfoldable pub reconcile_accepted_records : ScenePublisherStats → ScenePublisherStats
reconcile_accepted_records c =
    let accounted = saturating_add c.sent_records c.dropped_records in
    record c { dropped_records = saturating_add c.dropped_records (c.accepted_records - accounted) }

module _ {ℓ} {Snapshot : Type ℓ} where
  unfoldable pub new : Snapshot → Publisher Snapshot
  new initial_keyframe = record {
    closed = false;
    latest = none;
    next_sequence = 1;
    previous_keyframe = initial_keyframe;
    counters = record {
      accepted_records = 0;
      sent_records = 0;
      dropped_records = 0;
      connection_failures = 0;
    };
    in_flight = none;
    wire = [];
  }

  unfoldable pub take_latest : Publisher Snapshot → Publisher Snapshot
  take_latest s = elim s.in_flight [
    | some r ↦ s
    | none ↦ record s { latest = none; in_flight = s.latest }
  ]

  -- The record in flight was written.
  unfoldable pub sent : Publisher Snapshot → Publisher Snapshot
  sent s = elim s.in_flight [
    | none ↦ s
    | some r ↦ record s {
      in_flight = none;
      counters = count_sent s.counters;
      wire = r.sequence ∷ s.wire;
    }
  ]

  -- The record in flight could not be encoded.
  unfoldable pub encoding_failed : Publisher Snapshot → Publisher Snapshot
  encoding_failed s = elim s.in_flight [
    | none ↦ s
    | some r ↦ record s { in_flight = none; counters = count_dropped s.counters }
  ]

  -- The write of the record in flight failed: it is dropped, and the connection counts as failed.
  unfoldable pub writing_failed : Publisher Snapshot → Publisher Snapshot
  writing_failed s = elim s.in_flight [
    | none ↦ s
    | some r ↦ record s { in_flight = none; counters = count_failure (count_dropped s.counters) }
  ]

  -- No connection, or its header could not be written.
  unfoldable pub connection_failed : Publisher Snapshot → Publisher Snapshot
  connection_failed s = record s { counters = count_failure s.counters }

  unfoldable pub close_shared : Publisher Snapshot → Publisher Snapshot
  close_shared s = if s.closed then s else record s {
    closed = true;
    latest = none;
    counters = count_replaced (is_some s.latest) s.counters;
  }

  -- `close`: the task is aborted, with what it holds.
  unfoldable pub close : Publisher Snapshot → Publisher Snapshot
  close s =
      let shut = close_shared s in
      record shut { in_flight = none; counters = reconcile_accepted_records shut.counters }

  module _ (run_id_is_empty : Bool) (is_segment : Snapshot → Snapshot → Bool) where
    -- `SceneSegment::new` on the next sequence number; `is_segment` is `validate_scene_segment`.
    unfoldable pub new_segment : ℕ → Snapshot → Snapshot → Option (SceneSegment Snapshot)
    new_segment sequence left right =
        if leb 1 sequence
          && leb sequence max_scene_sequence
          && not run_id_is_empty
          && is_segment left right
        then some (record { sequence = sequence; left = left; right = right })
        else none

    -- The number is used up even when the segment is refused.
    unfoldable pub publish : Snapshot → Publisher Snapshot → Published × Publisher Snapshot
    publish keyframe s =
        if s.closed
        then (refused, s)
        else if ltb max_scene_sequence s.next_sequence
        then (sequence_exhausted, s)
        else elim (new_segment s.next_sequence s.previous_keyframe keyframe) [
          | none ↦ (invalid, record s { next_sequence = s.next_sequence + 1 })
          | some r ↦ (
            accepted,
            record s {
              next_sequence = s.next_sequence + 1;
              previous_keyframe = keyframe;
              latest = some r;
              counters = count_accepted (count_replaced (is_some s.latest) s.counters);
            },
          )
        ]

    pub data Event : Type ℓ where
      publishes : Snapshot → Event
      takes sends fails_to_encode fails_to_write fails_to_connect closes : Event

    unfoldable pub step : Event → Publisher Snapshot → Publisher Snapshot
    step (publishes keyframe) s = (publish keyframe s).1
    step takes s = take_latest s
    step sends s = sent s
    step fails_to_encode s = encoding_failed s
    step fails_to_write s = writing_failed s
    step fails_to_connect s = connection_failed s
    step closes s = close s

    unfoldable pub run : List Event → Publisher Snapshot → Publisher Snapshot
    run [] s = s
    run (e ∷ events) s = run events (step e s)
