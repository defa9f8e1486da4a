-- ===== src/Measurement/Snapshots.antt =====
-- services/simulation-server/src/measurement/snapshots.rs: the history of the surface. The deque is
-- never empty: it is its front and the rest. `Surface` is the snapshot of a surface, and
-- `shares_grid_with` its test for one static grid, both of scenario/height_field.rs.
pub mod Retention
use scrap_monitoring_simulat.Float.{Float}
use scrap_monitoring_simulat.Results.{Result, ok, err, ok_or, reject_if, ◌>>=◌}
use scrap_monitoring_simulat.Prelude.{
  ℕ, suc, Bool, true, false, ◌||◌, not, Option, none, some, List, [], ◌∷◌, ◌++◌, map, if◌then◌else◌,
  length,
}

pub data SnapshotError : Type 0 where
  not_increasing other_grid invalid_sample_time not_covered invalid_retention_time : SnapshotError

-- `iter().rev().find(test)`.
unfoldable pub find_last {ℓ} : {A : Type ℓ} → (A → Bool) → List A → Option A
find_last test [] = none
find_last test (x ∷ xs) = elim (find_last test xs) [
  | some y ↦ some y
  | none ↦ if test x then some x else none
]

module _ (fl : Float) (Surface : Type 0) (shares_grid_with : Surface → Surface → Bool) where
  open fl use {F, literal, is_finite, lt, le}

  pub record Entry : Type 0 where
    pub started_at_s : F
    pub snapshot : Surface

  pub record SnapshotEventCoordinator : Type 0 where
    pub front : Entry
    pub rest : List Entry

  abbrev pub entries : SnapshotEventCoordinator → List Entry
  entries c = c.front ∷ c.rest

  unfoldable pub new : Surface → SnapshotEventCoordinator
  new initial = record {
    front = record { started_at_s = literal 0 1; snapshot = initial };
    rest = [];
  }

  unfoldable pub last_start : Entry → List Entry → F
  last_start e [] = e.started_at_s
  last_start e (f ∷ rest) = last_start f rest

  unfoldable pub latest_event_elapsed_s : SnapshotEventCoordinator → F
  latest_event_elapsed_s c = last_start c.front c.rest

  unfoldable pub push_event :
      F → Surface → SnapshotEventCoordinator → Result SnapshotError SnapshotEventCoordinator
  push_event elapsed_s snapshot c = do
    _ ←
        reject_if (not (is_finite elapsed_s) || le elapsed_s (latest_event_elapsed_s c))
          not_increasing
    _ ← reject_if (not (shares_grid_with snapshot c.front.snapshot)) other_grid
    ok (record c { rest = c.rest ++ record { started_at_s = elapsed_s; snapshot = snapshot } ∷ [] })

  unfoldable pub entry_at : F → SnapshotEventCoordinator → Option Entry
  entry_at elapsed_s c = find_last (λ e. le e.started_at_s elapsed_s) (entries c)

  unfoldable pub snapshot_at : F → SnapshotEventCoordinator → Result SnapshotError Surface
  snapshot_at elapsed_s c = do
    _ ← reject_if (not (is_finite elapsed_s) || lt elapsed_s (literal 0 1)) invalid_sample_time
    e ← ok_or not_covered (entry_at elapsed_s c)
    ok e.snapshot

  -- The loop: the front goes while the entry behind it has started.
  unfoldable pub discard : F → Entry → List Entry → SnapshotEventCoordinator
  discard elapsed_s e [] = record { front = e; rest = [] }
  discard elapsed_s e (f ∷ rest) =
      let popped = discard elapsed_s f rest in
      if le f.started_at_s elapsed_s then popped else record { front = e; rest = f ∷ rest }

  unfoldable pub discard_before_earliest_pending :
      F → SnapshotEventCoordinator → Result SnapshotError SnapshotEventCoordinator
  discard_before_earliest_pending elapsed_s c = do
    _ ← reject_if (not (is_finite elapsed_s) || lt elapsed_s (literal 0 1)) invalid_retention_time
    ok (discard elapsed_s c.front c.rest)

  unfoldable pub retained_snapshot_count : SnapshotEventCoordinator → ℕ
  retained_snapshot_count c = suc (length c.rest)
