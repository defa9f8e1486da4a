-- ===== src/Runtime/Generation/Delivery.antt =====
-- services/simulation-server/src/runtime/generation.rs: what a batch delivers.
use scrap_monitoring_simulat.Float.{Float}
use scrap_monitoring_simulat.Results.{ok, Result-cases}
use scrap_monitoring_simulat.Prelude.{
  is_same, ℕ, suc, ◌≡◌, ◌≢◌, ◌⊎◌, inl, inr, refl, ap, ◌∙◌, subst, arith, true, Bool-cases, Option,
  none, some, Option-cases, List, [], ◌∷◌,
}
use scrap_monitoring_simulat.Measurement.Rotation.{
  ScheduledScan, SensorRotationScheduler, next_scan,
}
use scrap_monitoring_simulat.Scenario.Surface.{SurfaceModel}
use scrap_monitoring_simulat.Runtime.Generation.{Spatial, History, SensorCoordinator}
use scrap_monitoring_simulat.Runtime.Generation.Batches.{
  Worker, Dispatched, Slot, is_due, all_pending, send, dispatch_sensor, dispatch, schedule_slot,
  schedule, check_answer, receive_slot, receive,
}

is_same-≡ : (xs ys : List ℕ) → is_same xs ys ≡ true → xs ≡ ys
is_same-≡ [] [] h = refl
is_same-≡ [] (y ∷ ys) h = ground arith
is_same-≡ (x ∷ xs) [] h = ground arith
is_same-≡ (x ∷ xs) (y ∷ ys) h = ground (arith, is_same-≡ xs ys)

module _ (fl : Float) (model : SurfaceModel fl) (sp : Spatial fl model) where
  open fl use {F, bits}
  open sp use {Timeline, Measured, Fault, sensor_of, scan_of, completed_of}

  abbrev pub Sensor : Type 0
  Sensor = SensorCoordinator fl model sp

  -- A sensor whose scan is due gets the next one, and its scan was measured.
  pub record IsAnswered (completion_s : F) (s s' : Sensor) (m : Measured) : Type 0 where
    pub scan : ScheduledScan fl
    pub next : ScheduledScan fl
    pub scheduler : SensorRotationScheduler fl
    pub was_pending : s.pending ≡ some scan
    pub was_due : bits scan.completed_at_s ≡ bits completion_s
    pub same_sensor : sensor_of m ≡ s.sensor_id
    pub same_scan : scan_of m ≡ scan.scan_id
    pub same_time : bits (completed_of m) ≡ bits scan.completed_at_s
    pub scheduled : next_scan fl s.scheduler ≡ ok (next, scheduler)
    pub renewed : s' ≡ record s { scheduler = scheduler; pending = some next }

  -- A sensor whose scan is not due stays as it is.
  pub record IsWaiting (completion_s : F) (s s' : Sensor) : Type 0 where
    pub scan : ScheduledScan fl
    pub was_pending : s.pending ≡ some scan
    pub not_due : bits scan.completed_at_s ≢ bits completion_s
    pub kept : s' ≡ s

  -- The sensors behind a batch and its measurements, in the order of the sensors.
  abbrev pub IsServed : F → List Sensor → List Sensor → List Measured → Type 0
  IsServed completion_s [] [] scans = scans ≡ []
  IsServed completion_s [] (s' ∷ after) scans = ⊥
  IsServed completion_s (s ∷ before) [] scans = ⊥
  IsServed completion_s (s ∷ before) (s' ∷ after) [] =
      IsWaiting completion_s s s' × IsServed completion_s before after []
  IsServed completion_s (s ∷ before) (s' ∷ after) (m ∷ scans) =
      (IsWaiting completion_s s s' × IsServed completion_s before after (m ∷ scans))
      ⊎ (IsAnswered completion_s s s' m × IsServed completion_s before after scans)

  -- The slot of a sensor behind dispatch and scheduling.
  record IsReady (completion_s : F) (s : Sensor) (slot : Slot fl model sp)
      (d : Dispatched fl model sp) : Type 0 where
    scan : ScheduledScan fl
    next : ScheduledScan fl
    scheduler : SensorRotationScheduler fl
    was_pending : s.pending ≡ some scan
    was_due : bits scan.completed_at_s ≡ bits completion_s
    noted : d.scan_id ≡ scan.scan_id
    timed : d.completed_at_bits ≡ bits scan.completed_at_s
    scheduled : next_scan fl s.scheduler ≡ ok (next, scheduler)
    held : slot ≡ record {
      sensor = record s { scheduler = scheduler; pending = some next };
      dispatched = some d;
    }

  dispatched_cases :
      (worker : Worker fl model sp) (c : F) (h : History fl model sp) (t : Option Timeline) (i : ℕ)
      (s : Sensor)
      → all_pending fl model sp (s ∷ []) ≡ true
      → (dispatch_sensor fl model sp worker c h t i s).1 ≡ none
      → (schedule_slot fl model sp (dispatch_sensor fl model sp worker c h t i s).0).1 ≡ none
      → (IsWaiting c s s
          × ((schedule_slot fl model sp (dispatch_sensor fl model sp worker c h t i s).0).0
              ≡ record { sensor = s; dispatched = none }))
        ⊎ ((d : Dispatched fl model sp) × IsReady c s
              (schedule_slot fl model sp (dispatch_sensor fl model sp worker c h t i s).0).0
              d)
  unfolding dispatch_sensor schedule_slot send
  dispatched_cases worker c h t i s p q r = elim (Option-cases s.pending) [
    | inl n ↦ ground arith
    | inr (scan, n) ↦ elim (Bool-cases (is_due fl model sp c scan)) [
      | inr b ↦ inl (
        record { scan = scan; was_pending = n; not_due = ground arith; kept = refl },
        ground arith,
      )
      | inl b ↦ elim (Result-cases (next_scan fl s.scheduler)) [
        | inr (e, k) ↦ ground arith
        | inl ((next, scheduler), k) ↦ inr (
          record {
            scan_id = scan.scan_id;
            completed_at_bits = bits scan.completed_at_s;
            answer = worker i scan h t;
          },
          record {
            scan = scan;
            next = next;
            scheduler = scheduler;
            was_pending = n;
            was_due = ground arith;
            noted = refl;
            timed = refl;
            scheduled = k;
            held = ground arith;
          },
        )
      ]
    ]
  ]

  -- A response that is taken is that of the scan.
  receive_slot-ok :
      (s : Sensor) (d : Dispatched fl model sp) (m : Measured)
      → (receive_slot fl model sp s d).1 ≡ ok m
      → (is_same (sensor_of m) s.sensor_id ≡ true)
        × (scan_of m ≡ d.scan_id)
        × (bits (completed_of m) ≡ d.completed_at_bits)
        × ((receive_slot fl model sp s d).0 ≡ s)
  unfolding receive_slot check_answer
  receive_slot-ok s d m h = ground arith

  IsServed-IsWaiting :
      (c : F) (s s' : Sensor) (before after : List Sensor) (scans : List Measured)
      → IsWaiting c s s'
      → IsServed c before after scans
      → IsServed c (s ∷ before) (s' ∷ after) scans
  IsServed-IsWaiting c s s' before after [] w h = (w, h)
  IsServed-IsWaiting c s s' before after (m ∷ scans) w h = inl (w, h)

  IsReady-IsAnswered :
      (c : F) (s : Sensor) (slot : Slot fl model sp) (d : Dispatched fl model sp) (m : Measured)
      (ready : IsReady c s slot d)
      → (receive_slot fl model sp slot.sensor d).1 ≡ ok m
      → IsAnswered c s (receive_slot fl model sp slot.sensor d).0 m
  IsReady-IsAnswered c s slot d m ready h =
      let (sensed, scanned, timed, kept) = receive_slot-ok slot.sensor d m h in
      let held : slot.sensor ≡ record s { scheduler = ready.scheduler; pending = some ready.next } =
        ap (λ x. x.sensor) ready.held in
      record {
        scan = ready.scan;
        next = ready.next;
        scheduler = ready.scheduler;
        was_pending = ready.was_pending;
        was_due = ready.was_due;
        same_sensor =
            is_same-≡ (sensor_of m) s.sensor_id
              (subst (λ x. is_same (sensor_of m) x.sensor_id ≡ true) held sensed);
        same_scan = scanned ∙ ready.noted;
        same_time = timed ∙ ready.timed;
        scheduled = ready.scheduled;
        renewed = kept ∙ held;
      }

  -- The slots of the sensors that follow are received first.
  receive-IsWaiting :
      (c : F) (s : Sensor) (before : List Sensor) (slot : Slot fl model sp)
      (slots : List (Slot fl model sp))
      → IsWaiting c s s
      → slot ≡ record { sensor = s; dispatched = none }
      → (receive fl model sp (slot ∷ slots)).2 ≡ none
      → ((receive fl model sp slots).2 ≡ none
          → IsServed c before (receive fl model sp slots).0 (receive fl model sp slots).1)
      → IsServed c
          (s ∷ before)
          (receive fl model sp (slot ∷ slots)).0
          (receive fl model sp (slot ∷ slots)).1
  unfolding receive
  receive-IsWaiting c s before slot slots w e v h = rw e (
      IsServed-IsWaiting c s s before (receive fl model sp slots).0 (receive fl model sp slots).1 w
        (h (rw e at v)))

  receive-some :
      (slot : Slot fl model sp) (d : Dispatched fl model sp) (slots : List (Slot fl model sp))
      (m : Measured)
      → slot.dispatched ≡ some d
      → (receive_slot fl model sp slot.sensor d).1 ≡ ok m
      → receive fl model sp (slot ∷ slots) ≡ (
        (receive_slot fl model sp slot.sensor d).0 ∷ (receive fl model sp slots).0,
        m ∷ (receive fl model sp slots).1,
        (receive fl model sp slots).2,
      )
  unfolding receive
  receive-some slot d slots m e q = ground arith

  receive-IsReady :
      (c : F) (s : Sensor) (before : List Sensor) (slot : Slot fl model sp)
      (d : Dispatched fl model sp) (slots : List (Slot fl model sp))
      → IsReady c s slot d
      → (receive fl model sp (slot ∷ slots)).2 ≡ none
      → ((receive fl model sp slots).2 ≡ none
          → IsServed c before (receive fl model sp slots).0 (receive fl model sp slots).1)
      → IsServed c
          (s ∷ before)
          (receive fl model sp (slot ∷ slots)).0
          (receive fl model sp (slot ∷ slots)).1
  unfolding receive
  receive-IsReady c s before slot d slots ready v h =
      let e : slot.dispatched ≡ some d = ap (λ x. x.dispatched) ready.held in
      elim (Result-cases (receive_slot fl model sp slot.sensor d).1) [
        | inr (f, q) ↦ ground arith
        | inl (m, q) ↦
            let all = receive-some slot d slots m e q in
            rw all (inr (IsReady-IsAnswered c s slot d m ready q, h (rw all at v)))
      ]

  pub served :
      (worker : Worker fl model sp) (c : F) (h : History fl model sp) (t : Option Timeline) (i : ℕ)
      (sensors : List Sensor)
      → all_pending fl model sp sensors ≡ true
      → (dispatch fl model sp worker c h t i sensors).1 ≡ none
      → (schedule fl model sp (dispatch fl model sp worker c h t i sensors).0).1 ≡ none
      → (receive fl model sp
          (schedule fl model sp (dispatch fl model sp worker c h t i sensors).0).0).2
        ≡ none
      → IsServed c sensors
          (receive fl model sp
            (schedule fl model sp (dispatch fl model sp worker c h t i sensors).0).0).0
          (receive fl model sp
            (schedule fl model sp (dispatch fl model sp worker c h t i sensors).0).0).1
  unfolding dispatch schedule receive
  served worker c h t i [] p q r v = refl
  served worker c h t i (s ∷ sensors) p q r v =
      elim (dispatched_cases worker c h t i s (ground arith) (ground arith) (ground arith)) [
        | inl (waits, e) ↦
            receive-IsWaiting c s sensors
              (schedule_slot fl model sp (dispatch_sensor fl model sp worker c h t i s).0).0
              (schedule fl model sp (dispatch fl model sp worker c h t (suc i) sensors).0).0 waits e
              v (served worker c h t (suc i) sensors (ground arith) (ground arith) (ground arith))
        | inr (d, ready) ↦
            receive-IsReady c s sensors
              (schedule_slot fl model sp (dispatch_sensor fl model sp worker c h t i s).0).0 d
              (schedule fl model sp (dispatch fl model sp worker c h t (suc i) sensors).0).0 ready v
              (served worker c h t (suc i) sensors (ground arith) (ground arith) (ground arith))
      ]
