-- ===== src/Runtime/Generation/Batches.antt =====
-- services/simulation-server/src/runtime/generation.rs: `next_completed_scans` and `shutdown`. A thread
-- is a function of what is sent to it, which says how it answers; `DispatchedScan` stands at the place of
-- its sensor, so that it needs no index.
use scrap_monitoring_simulat.Float.{Float}
use scrap_monitoring_simulat.Results.{Result, ok, err, map_err, ◌>>=◌}
use scrap_monitoring_simulat.Prelude.{
  is_same, ℕ, suc, ◌+◌, ◌-◌, ◌^◌, min, Bool, true, false, ◌&&◌, ◌||◌, not, Option, none, some, List,
  [], ◌∷◌, map, length, ◌==◌, if◌then◌else◌,
}
use scrap_monitoring_simulat.Measurement.Rotation.{ScheduledScan, next_scan}
use scrap_monitoring_simulat.Measurement.Snapshots.{discard_before_earliest_pending}
use scrap_monitoring_simulat.Scenario.Surface.{SurfaceModel}
use scrap_monitoring_simulat.Runtime.Generation.{
  Spatial, GenerationRuntimeError, measurement, snapshot, rotation, worker_request, worker_response,
  worker_panic, worker_response_mismatch, terminal_use, sensor_configuration, History,
  GenerationBatch, SensorCoordinator, GenerationRuntime, next_completion_elapsed_s,
  earliest_pending_elapsed_s, Progress, advance_scenario_and_distortions,
}

module _ (fl : Float) (model : SurfaceModel fl) (sp : Spatial fl model) where
  open fl use {F, is_finite, bits}
  open sp use {Timeline, Measured, Fault, sensor_of, scan_of, completed_of}

  -- What becomes of a request: it cannot be sent, or its response is lost with a thread that ended or
  -- panicked, or a response comes.
  pub data Answer : Type 0 where
    unsent : Answer
    lost : Bool → Answer
    answered : ℕ → ℕ → Result Fault Measured → Answer

  abbrev pub Worker : Type 0
  Worker = ℕ → ScheduledScan fl → History fl model sp → Option Timeline → Answer

  -- `DispatchedScan`, with what becomes of it.
  pub record Dispatched : Type 0 where
    pub scan_id : ℕ
    pub completed_at_bits : ℕ
    pub answer : Answer

  pub record Slot : Type 0 where
    pub sensor : SensorCoordinator fl model sp
    pub dispatched : Option Dispatched

  abbrev Error : Type 0
  Error = GenerationRuntimeError fl model sp

  -- `record_first_error`.
  abbrev pub first_error : Option Error → Option Error → Option Error
  first_error (some e) later = some e
  first_error none later = later

  abbrev pub is_due : F → ScheduledScan fl → Bool
  is_due completion_s scan = bits scan.completed_at_s == bits completion_s

  abbrev pub has_due : F → List (SensorCoordinator fl model sp) → Bool
  has_due completion_s [] = false
  has_due completion_s (sensor ∷ sensors) = elim sensor.pending [
    | none ↦ has_due completion_s sensors
    | some scan ↦ is_due completion_s scan || has_due completion_s sensors
  ]

  abbrev pub all_pending : List (SensorCoordinator fl model sp) → Bool
  all_pending [] = true
  all_pending (sensor ∷ sensors) = elim sensor.pending [
    | none ↦ false
    | some scan ↦ all_pending sensors
  ]

  -- A request to the thread of a sensor.
  unfoldable pub send :
      SensorCoordinator fl model sp → ScheduledScan fl → Answer → Slot × Option Error
  send sensor scan unsent =
      (record { sensor = record sensor { pending = none }; dispatched = none }, some worker_request)
  send sensor scan answer = (
    record {
      sensor = record sensor { pending = none };
      dispatched = some (record {
        scan_id = scan.scan_id;
        completed_at_bits = bits scan.completed_at_s;
        answer = answer;
      });
    },
    none,
  )

  unfoldable pub dispatch_sensor :
      Worker
      → F
      → History fl model sp
      → Option Timeline
      → ℕ
      → SensorCoordinator fl model sp
      → Slot × Option Error
  dispatch_sensor worker completion_s history spatial index sensor = elim sensor.pending [
    | none ↦ (record { sensor = sensor; dispatched = none }, none)
    | some scan ↦
        if is_due completion_s scan
        then send sensor scan (worker index scan history spatial)
        else (record { sensor = sensor; dispatched = none }, none)
  ]

  unfoldable pub dispatch :
      Worker
      → F
      → History fl model sp
      → Option Timeline
      → ℕ
      → List (SensorCoordinator fl model sp)
      → List Slot × Option Error
  dispatch worker completion_s history spatial index [] = ([], none)
  dispatch worker completion_s history spatial index (sensor ∷ sensors) =
      let (slot, e) = dispatch_sensor worker completion_s history spatial index sensor in
      let (slots, later) = dispatch worker completion_s history spatial (suc index) sensors in
      (slot ∷ slots, first_error e later)

  -- The next scan of a sensor whose scan was dispatched.
  unfoldable pub schedule_slot : Slot → Slot × Option Error
  schedule_slot slot = elim slot.dispatched [
    | none ↦ (slot, none)
    | some d ↦ elim (next_scan fl slot.sensor.scheduler) [
      | err e ↦ (slot, some (rotation e))
      | ok (scan, scheduler) ↦ (
        record slot { sensor = record slot.sensor { scheduler = scheduler; pending = some scan } },
        none,
      )
    ]
  ]

  unfoldable pub schedule : List Slot → List Slot × Option Error
  schedule [] = ([], none)
  schedule (slot ∷ slots) =
      let (slot', e) = schedule_slot slot in
      let (slots', later) = schedule slots in (slot' ∷ slots', first_error e later)

  -- The checks of a response.
  unfoldable pub check_answer :
      SensorCoordinator fl model sp
      → Dispatched
      → ℕ
      → ℕ
      → Result Fault Measured
      → Result Error Measured
  check_answer sensor d scan_id completed_at_bits result =
      if scan_id == d.scan_id && completed_at_bits == d.completed_at_bits
      then elim result [
        | err e ↦ err (measurement e)
        | ok m ↦
            if is_same (sensor_of m) sensor.sensor_id
              && scan_of m == d.scan_id
              && bits (completed_of m) == d.completed_at_bits
            then ok m
            else err worker_response_mismatch
      ]
      else err worker_response_mismatch

  -- `receive_worker_response` and what follows it: the sensor, and the measurement or the error.
  unfoldable pub receive_slot :
      SensorCoordinator fl model sp
      → Dispatched
      → SensorCoordinator fl model sp × Result Error Measured
  receive_slot sensor d = elim d.answer [
    | unsent ↦ (sensor, err worker_response)
    | lost panicked ↦ (
      record sensor { has_worker = false },
      err (if sensor.has_worker && panicked then worker_panic else worker_response),
    )
    | answered scan_id completed_at_bits result ↦
        (sensor, check_answer sensor d scan_id completed_at_bits result)
  ]

  -- The sensors, the measurements and the first error.
  unfoldable pub receive :
      List Slot → List (SensorCoordinator fl model sp) × List Measured × Option Error
  receive [] = ([], [], none)
  receive (slot ∷ slots) =
      let (sensors, scans, later) = receive slots in
      elim slot.dispatched [
        | none ↦ (slot.sensor ∷ sensors, scans, later)
        | some d ↦
            let (sensor, r) = receive_slot slot.sensor d in
            elim r [
              | ok m ↦ (sensor ∷ sensors, m ∷ scans, later)
              | err e ↦ (sensor ∷ sensors, scans, some e)
            ]
      ]

  unfoldable pub discard_spatial : F → Option Timeline → Result Error (Option Timeline)
  discard_spatial before_s none = ok none
  discard_spatial before_s (some timeline) = do
    kept ← map_err measurement (sp.discard_before before_s timeline)
    ok (some kept)

  abbrev Runtime : Type 0
  Runtime = GenerationRuntime fl model sp

  abbrev saturate : ℕ → ℕ
  saturate n = min n (2 ^ 64 - 1)

  -- The end of a batch: what is no longer needed goes, and the counters go up.
  unfoldable pub finish :
      F
      → Progress fl model sp
      → List Measured
      → Runtime
      → Runtime × Result Error (GenerationBatch fl model sp)
  finish completion_s progress scans g =
      let earliest_s = earliest_pending_elapsed_s fl model sp g.sensors in
      elim (discard_before_earliest_pending fl model.Image sp.shares_grid_with earliest_s
        g.history) [
          | err e ↦ (g, err (snapshot e))
          | ok history ↦ elim (discard_spatial earliest_s g.spatial) [
            | err e ↦ (record g { history = history }, err e)
            | ok spatial ↦ (
              record g {
                history = history;
                spatial = spatial;
                completed_batches = saturate (g.completed_batches + 1);
                generated_scans = saturate (g.generated_scans + length scans);
              },
              ok (record {
                completed_at_s = completion_s;
                scans = scans;
                transitions = progress.transitions;
                keyframes = progress.keyframes;
              }),
            )
          ]
        ]

  abbrev has_none {ℓ} : {A : Type ℓ} → List A → Bool
  has_none [] = true
  has_none (x ∷ xs) = false

  -- Behind the advance of the scenario: the requests, the next schedules and the responses.
  unfoldable pub produce :
      Worker
      → F
      → Progress fl model sp
      → Runtime
      → Runtime × Result Error (GenerationBatch fl model sp)
  produce worker completion_s progress g =
      if not (has_due completion_s g.sensors) || not (all_pending g.sensors)
      then (g, err sensor_configuration)
      else let (slots, e1) = dispatch worker completion_s g.history g.spatial 0 g.sensors in
        let (scheduled, e2) = schedule slots in
        let (sensors, scans, e3) = receive scheduled in
        let g' : Runtime = record g { sensors = sensors } in
        elim (first_error e1 (first_error e2 e3)) [
          | some e ↦ (g', err e)
          | none ↦
              if has_none scans
              then (g', err sensor_configuration)
              else finish completion_s progress scans g'
        ]

  unfoldable pub try_next_completed_scans :
      Worker → Runtime → Runtime × Result Error (GenerationBatch fl model sp)
  try_next_completed_scans worker g =
      let completion_s = next_completion_elapsed_s fl model sp g in
      if not (is_finite completion_s)
      then (g, err sensor_configuration)
      else elim (advance_scenario_and_distortions fl model sp completion_s g) [
        | err e ↦ (g, err e)
        | ok p ↦
            produce worker completion_s p
              (record g { simulator = p.simulator; history = p.history; spatial = p.spatial })
      ]

  -- An error is terminal.
  abbrev pub poisoned :
      Runtime × Result Error (GenerationBatch fl model sp)
      → Runtime × Result Error (GenerationBatch fl model sp)
  poisoned (g, ok batch) = (g, ok batch)
  poisoned (g, err e) = (record g { terminal = true }, err e)

  unfoldable pub next_completed_scans :
      Worker → Runtime → Runtime × Result Error (GenerationBatch fl model sp)
  next_completed_scans worker g =
      if g.terminal || g.is_shut_down
      then (g, err terminal_use)
      else poisoned (try_next_completed_scans worker g)

  -- The threads that cannot be told to stop, and those that panicked, by the places of their sensors.
  unfoldable pub stop_all : (ℕ → Bool) → ℕ → List (SensorCoordinator fl model sp) → Option Error
  stop_all refuses index [] = none
  stop_all refuses index (sensor ∷ sensors) =
      first_error (if sensor.has_worker && refuses index then some worker_request else none)
        (stop_all refuses (suc index) sensors)

  -- A panic that is found later takes the place of an error before it.
  unfoldable pub join_all :
      (ℕ → Bool) → ℕ → List (SensorCoordinator fl model sp) → Option Error → Option Error
  join_all panics index [] e = e
  join_all panics index (sensor ∷ sensors) e =
      join_all panics (suc index) sensors
        (if sensor.has_worker && panics index then some worker_panic else e)

  abbrev pub outcome_of : Option Error → Result Error (Unit {0})
  outcome_of none = ok tt
  outcome_of (some e) = err e

  abbrev pub without_worker : SensorCoordinator fl model sp → SensorCoordinator fl model sp
  without_worker sensor = record sensor { has_worker = false }

  unfoldable pub shutdown : (ℕ → Bool) → (ℕ → Bool) → Runtime → Runtime × Result Error (Unit {0})
  shutdown refuses panics g = if g.is_shut_down then (g, ok tt) else (
    record g { terminal = true; is_shut_down = true; sensors = map without_worker g.sensors },
    outcome_of (join_all panics 0 g.sensors (stop_all refuses 0 g.sensors)),
  )
