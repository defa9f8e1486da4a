-- ===== src/Measurement/Snapshots/Retention.antt =====
-- services/simulation-server/src/measurement/snapshots.rs: what may be discarded, and what is found.
use scrap_monitoring_simulat.Float.{Float, IsOrdered}
use scrap_monitoring_simulat.Results.{ok}
use scrap_monitoring_simulat.Prelude.{
  ◌≡◌, refl, sym, ap, ◌∙◌, inl, inr, arith, Bool-cases, Option-cases, Bool, true, false, none, some,
  List, [], ◌∷◌, ◌++◌, All,
}
use scrap_monitoring_simulat.Measurement.Snapshots.{
  find_last, Entry, SnapshotEventCoordinator, entries, entry_at, snapshot_at, discard,
  discard_before_earliest_pending,
}

-- `find_last` gives the last element that passes: it passes, and none behind it does.
pub record IsLast {ℓ} {A : Type ℓ} (test : A → Bool) (xs : List A) (x : A) : Type ℓ where
  pub before : List A
  pub after : List A
  pub split : xs ≡ before ++ x ∷ after
  pub passes : test x ≡ true
  pub fails_after : All (λ y. test y ≡ false) after

module _ {ℓ} {A : Type ℓ} (test : A → Bool) where
  find_last-none : (xs : List A) → find_last test xs ≡ none → All (λ y. test y ≡ false) xs
  unfolding find_last
  find_last-none [] e = tt
  find_last-none (x ∷ xs) e = ground (arith, find_last-none xs)

  find_last-IsLast : (xs : List A) (x : A) → find_last test xs ≡ some x → IsLast test xs x
  unfolding find_last
  find_last-IsLast [] x e = ground arith
  find_last-IsLast (y ∷ xs) x e = elim (Option-cases (find_last test xs)) [
    | inl n ↦ record {
      before = [];
      after = xs;
      split = ground arith;
      passes = ground arith;
      fails_after = find_last-none xs n;
    }
    | inr (z, n) ↦
        let found = find_last-IsLast xs x (ground arith) in
        record {
          before = y ∷ found.before;
          after = found.after;
          split = ap (◌∷◌ y) found.split;
          passes = found.passes;
          fails_after = found.fails_after;
        }
  ]

  -- An element with a passing one behind it is not found.
  find_last-skip :
      (x y : A) (xs : List A)
      → test y ≡ true
      → find_last test (x ∷ y ∷ xs) ≡ find_last test (y ∷ xs)
  unfolding find_last
  find_last-skip x y xs h = elim (Option-cases (find_last test xs)) [
    | inl n ↦ rw (n, h) refl
    | inr (z, n) ↦ rw n refl
  ]

module _ (fl : Float) (laws : IsOrdered fl) (Surface : Type 0)
    (shares_grid_with : Surface → Surface → Bool) where
  open fl use {F, le, is_finite, lt, literal}

  discard-entry_at :
      (t x : F) (e : Entry fl Surface shares_grid_with)
      (rest : List (Entry fl Surface shares_grid_with))
      → le t x ≡ true
      → entry_at fl Surface shares_grid_with x (discard fl Surface shares_grid_with t e rest)
        ≡ entry_at fl Surface shares_grid_with x (record { front = e; rest = rest })
  unfolding discard entry_at
  discard-entry_at t x e [] h = refl
  discard-entry_at t x e (f ∷ rest) h = elim (Bool-cases (le f.started_at_s t)) [
    | inl k ↦ rw k (
        discard-entry_at t x f rest h
        ∙ sym (
            find_last-skip (λ y. le y.started_at_s x) e f rest
              (laws.le_trans f.started_at_s t x k h)))
    | inr k ↦ rw k refl
  ]

  -- For an order that is transitive: what is discarded for a pending time is not needed at that time or
  -- later. A sample there gets the same answer as before, a snapshot or an error.
  pub snapshot_at-discard_before_earliest_pending :
      (t x : F) (c d : SnapshotEventCoordinator fl Surface shares_grid_with)
      → le t x ≡ true
      → discard_before_earliest_pending fl Surface shares_grid_with t c ≡ ok d
      → snapshot_at fl Surface shares_grid_with x d ≡ snapshot_at fl Surface shares_grid_with x c
  unfolding snapshot_at discard_before_earliest_pending
  snapshot_at-discard_before_earliest_pending t x c d h e =
      ground (arith, discard-entry_at t x c.front c.rest h)

  -- A sample gets the snapshot of the last entry that had started by then.
  pub snapshot_at-IsLast :
      (x : F) (c : SnapshotEventCoordinator fl Surface shares_grid_with) (surface : Surface)
      → snapshot_at fl Surface shares_grid_with x c ≡ ok surface
      → (e : Entry fl Surface shares_grid_with) × IsLast
          (λ y. le y.started_at_s x)
          (entries fl Surface shares_grid_with c)
          e
        × (e.snapshot ≡ surface)
  unfolding snapshot_at entry_at
  snapshot_at-IsLast x c surface h =
      elim (Option-cases (entry_at fl Surface shares_grid_with x c)) [
        | inl n ↦ absurd (missing n)
        | inr (e, n) ↦ (
          e,
          find_last-IsLast (λ y. le y.started_at_s x) (entries fl Surface shares_grid_with c) e n,
          ground arith,
        )
      ]
    where
      missing : entry_at fl Surface shares_grid_with x c ≡ none → ⊥
      missing n = ground arith
