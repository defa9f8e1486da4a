-- ===== src/Measurement/Rotation/Continuity.antt =====
-- services/simulation-server/src/measurement/rotation.rs: the samples of consecutive scans.
use scrap_monitoring_simulat.Float.{Float}
use scrap_monitoring_simulat.Results.{Result, ok, ◌>>=◌, Result-cases}
use scrap_monitoring_simulat.Prelude.{
  ℕ, zero, suc, ◌+◌, ◌-◌, ◌≤◌, ◌<◌, ◌≡◌, inl, inr, refl, ap, sym, ◌∙◌, arith, some, Option-cases,
  List, [], ◌∷◌, ◌++◌, map,
}
use scrap_monitoring_simulat.Server.Ratio.{ceil_multiple}
use scrap_monitoring_simulat.Measurement.Rotation.{
  RotationError, ScheduledScan, new_scan, SensorRotationScheduler, rotation_boundary_elapsed_s,
  next_scan_id, point_time, point_angle, scan_points, next_scan,
}

-- So many numbers from the first on.
abbrev pub indices : ℕ → ℕ → List ℕ
indices i zero = []
indices i (suc n) = i ∷ indices (suc i) n

indices_add : (i m n : ℕ) → indices i (m + n) ≡ indices i m ++ indices (i + m) n
indices_add i zero n =
    let e : 0 + n ≡ n = omega arith in
    let f : i ≡ i + 0 = omega arith in ap (λ k. indices i k) e ∙ ap (λ j. indices j n) f
indices_add i (suc m) n =
    let e : suc m + n ≡ suc (m + n) = omega arith in
    ap (λ k. indices i k) e
    ∙ ap (λ xs. i ∷ xs)
        (indices_add (suc i) m n ∙ ap (λ j. indices (suc i) m ++ indices j n) (omega arith))

map-append : {A B : Type 0} (f : A → B) (xs ys : List A) → map f (xs ++ ys) ≡ map f xs ++ map f ys
map-append f [] ys = refl
map-append f (x ∷ xs) ys = ap (λ zs. f x ∷ zs) (map-append f xs ys)

map-indices_split :
    {A : Type 0} (f : ℕ → A) (i j k : ℕ)
    → i ≤ j
    → j ≤ k
    → map f (indices i (k - i)) ≡ map f (indices i (j - i)) ++ map f (indices j (k - j))
map-indices_split f i j k h l =
    let whole : k - i ≡ (j - i) + (k - j) = omega arith in
    let middle : i + (j - i) ≡ j = omega arith in
    ap (λ n. map f (indices i n)) whole
    ∙ (ap (map f) (indices_add i (j - i) (k - j))
        ∙ (map-append f (indices i (j - i)) (indices (i + (j - i)) (k - j))
            ∙ ap (λ m. map f (indices i (j - i)) ++ map f (indices m (k - j))) middle))

module _ (fl : Float) where
  open fl use {F, literal, div}

  -- The time of a sample.
  abbrev pub time_at : F → ℕ → F
  time_at rate i = div (literal i 1) rate

  -- The samples before the next one are those of the rotations before the next one.
  abbrev pub IsOnGrid : SensorRotationScheduler fl → Type 0
  IsOnGrid s = ceil_multiple s.samples_per_rotation s.next_rotation_index ≡ some s.next_sample_index

  scan_points-times :
      (s : SensorRotationScheduler fl) (i n : ℕ) (angles times : List F)
      → scan_points fl s i n ≡ ok (angles, times)
      → times ≡ map (time_at s.sample_rate_hz) (indices i n)
  unfolding scan_points point_time
  scan_points-times s i zero angles times h = ground arith
  scan_points-times s i (suc n) angles times h = elim (Result-cases (point_angle fl s i)) [
    | inr (e, q) ↦ ground arith
    | inl (angle, q) ↦ elim (Result-cases (scan_points fl s (suc i) n)) [
      | inr (e, p) ↦ ground arith
      | inl ((more, later), p) ↦ ground (arith, scan_points-times s (suc i) n more later p)
    ]
  ]

  -- The next scan of a scheduler, and the scheduler behind it.
  pub record IsNext (s : SensorRotationScheduler fl) (scan : ScheduledScan fl)
      (s' : SensorRotationScheduler fl) : Type 0 where
    pub numbered : scan.scan_id ≡ s.next_rotation_index + 1
    pub rotated : s'.next_rotation_index ≡ s.next_rotation_index + 1
    pub advanced : s.next_sample_index < s'.next_sample_index
    pub sampled :
        scan.point_elapsed_times_s
        ≡ map
            (time_at s.sample_rate_hz)
            (indices s.next_sample_index (s'.next_sample_index - s.next_sample_index))
    pub same_rate : s'.sample_rate_hz ≡ s.sample_rate_hz
    pub gridded : IsOnGrid s'

  new_scan-fields :
      (sensor : List ℕ) (id : ℕ) (start end : F) (angles times : List F) (scan : ScheduledScan fl)
      → new_scan fl sensor id start end angles times ≡ ok scan
      → (scan.scan_id ≡ id) × (scan.point_elapsed_times_s ≡ times)
  unfolding new_scan
  new_scan-fields sensor id start end angles times scan h = ground arith

  next_scan-IsNext :
      (s s' : SensorRotationScheduler fl) (scan : ScheduledScan fl)
      → next_scan fl s ≡ ok (scan, s')
      → IsNext s scan s'
  unfolding next_scan next_scan_id
  next_scan-IsNext s s' scan h =
      elim (Option-cases (ceil_multiple s.samples_per_rotation (next_scan_id fl s))) [
        | inl q ↦ ground arith
        | inr (end, q) ↦
            elim (Result-cases (scan_points fl s s.next_sample_index (end - s.next_sample_index))) [
              | inr (e, p) ↦ ground arith
              | inl ((angles, times), p) ↦
                  elim (Result-cases (rotation_boundary_elapsed_s fl s s.next_rotation_index)) [
                    | inr (e, b) ↦ ground arith
                    | inl (start, b) ↦
                        elim (Result-cases (rotation_boundary_elapsed_s fl s (next_scan_id fl s))) [
                          | inr (e, c) ↦ ground arith
                          | inl (stop, c) ↦
                              elim (Result-cases (
                                new_scan fl s.sensor_id (next_scan_id fl s) start stop angles
                                  times)) [
                                    | inr (e, d) ↦ ground arith
                                    | inl (made, d) ↦
                                        let (numbered, timed) =
                                          new_scan-fields s.sensor_id (next_scan_id fl s) start stop
                                            angles times made d in
                                        let points =
                                          scan_points-times s s.next_sample_index
                                            (end - s.next_sample_index) angles times p in
                                        let id : next_scan_id fl s ≡ s.next_rotation_index + 1 =
                                          ground arith in
                                        let same : scan ≡ made = ground arith in
                                        let moved : s' ≡ record s {
                                          next_rotation_index = s.next_rotation_index + 1;
                                          next_sample_index = end;
                                        } =
                                          ground arith in
                                        record {
                                          numbered = ground (arith, numbered, id);
                                          rotated = ground arith;
                                          advanced = ground arith;
                                          sampled = rw (same, moved) (timed ∙ points);
                                          same_rate = ground arith;
                                          gridded = rw moved (
                                              ap (ceil_multiple s.samples_per_rotation) (sym id)
                                              ∙ q);
                                        }
                                  ]
                        ]
                  ]
            ]
      ]

  -- Consecutive scans.
  unfoldable pub next_scans :
      ℕ
      → SensorRotationScheduler fl
      → Result RotationError (List (ScheduledScan fl) × SensorRotationScheduler fl)
  next_scans zero s = ok ([], s)
  next_scans (suc n) s = do
    (scan, u) ← next_scan fl s
    (scans, v) ← next_scans n u
    ok (scan ∷ scans, v)

  abbrev pub all_times : List (ScheduledScan fl) → List F
  all_times [] = []
  all_times (scan ∷ scans) = scan.point_elapsed_times_s ++ all_times scans

  -- What consecutive scans cover.
  pub record IsCovered (n : ℕ) (s : SensorRotationScheduler fl) (scans : List (ScheduledScan fl))
      (s' : SensorRotationScheduler fl) : Type 0 where
    pub numbered : map (λ scan. scan.scan_id) scans ≡ indices (s.next_rotation_index + 1) n
    pub forward : s.next_sample_index + n ≤ s'.next_sample_index
    pub sampled :
        all_times scans
        ≡ map
            (time_at s.sample_rate_hz)
            (indices s.next_sample_index (s'.next_sample_index - s.next_sample_index))
    pub gridded : IsOnGrid s'

  IsNext-IsCovered :
      (n : ℕ) (s u v : SensorRotationScheduler fl) (scan : ScheduledScan fl)
      (scans : List (ScheduledScan fl))
      → IsNext s scan u
      → IsCovered n u scans v
      → IsCovered (suc n) s (scan ∷ scans) v
  IsNext-IsCovered n s u v scan scans a c =
      let e : u.next_rotation_index + 1 ≡ suc (s.next_rotation_index + 1) =
        omega (arith, a.rotated) in
      let f = time_at s.sample_rate_hz in
      record {
        numbered =
            ap (λ i. i ∷ map (λ x. x.scan_id) scans) a.numbered
            ∙ ap (λ is. (s.next_rotation_index + 1) ∷ is) (c.numbered ∙ ap (λ j. indices j n) e);
        forward = omega (arith, a.advanced, c.forward);
        sampled =
            ap (λ xs. xs ++ all_times scans) a.sampled
            ∙ (ap
                  (λ ys.
                    map f (indices s.next_sample_index (u.next_sample_index - s.next_sample_index))
                    ++ ys)
                  (c.sampled
                    ∙ ap
                        (λ r.
                          map (time_at r) (
                            indices u.next_sample_index
                              (v.next_sample_index - u.next_sample_index)))
                        a.same_rate)
                ∙ sym (
                    map-indices_split f s.next_sample_index u.next_sample_index v.next_sample_index
                      (omega (arith, a.advanced)) (omega (arith, c.forward))));
        gridded = c.gridded;
      }

  none-IsCovered : (s : SensorRotationScheduler fl) → IsOnGrid s → IsCovered 0 s [] s
  none-IsCovered s g =
      let e : 0 ≡ s.next_sample_index - s.next_sample_index = omega arith in
      record {
        numbered = refl;
        forward = omega arith;
        sampled = ap (λ k. map (time_at s.sample_rate_hz) (indices s.next_sample_index k)) e;
        gridded = g;
      }

  -- From a scheduler on its grid, consecutive scans have consecutive numbers, each has a sample, and
  -- together they have the times of all samples between the first and the last, once and in order; the
  -- scheduler behind them is on its grid.
  pub next_scans-IsCovered :
      (n : ℕ) (s s' : SensorRotationScheduler fl) (scans : List (ScheduledScan fl))
      → IsOnGrid s
      → next_scans n s ≡ ok (scans, s')
      → IsCovered n s scans s'
  unfolding next_scans
  next_scans-IsCovered zero s s' scans g h =
      let listed : scans ≡ [] = ground arith in
      let stayed : s' ≡ s = ground arith in rw (listed, stayed) (none-IsCovered s g)
  next_scans-IsCovered (suc n) s s' scans g h = elim (Result-cases (next_scan fl s)) [
    | inr (e, q) ↦ ground arith
    | inl ((scan, u), q) ↦ elim (Result-cases (next_scans n u)) [
      | inr (e, p) ↦ ground arith
      | inl ((more, v), p) ↦
          let a = next_scan-IsNext s u scan q in
          let c =
            IsNext-IsCovered n s u v scan more a (next_scans-IsCovered n u v more a.gridded p) in
          let listed : scans ≡ scan ∷ more = ground arith in
          let moved : s' ≡ v = ground arith in rw (listed, moved) c
    ]
  ]
