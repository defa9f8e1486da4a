-- ===== src/Examples/Runtime.antt =====
-- services/simulation-server/src/runtime/generation.rs: two sensors, of which one has a scan that is due.
use scrap_monitoring_simulat.Examples.Measurement.{spinning, scan_of_two}
use scrap_monitoring_simulat.Examples.Numbers.{numbers, numbers-IsOrdered}
use scrap_monitoring_simulat.Examples.Scenario.{heap, empty_scenario}
use scrap_monitoring_simulat.Results.{ok, err}
use scrap_monitoring_simulat.Prelude.{ℕ, ◌≡◌, ◌≢◌, refl, true, false, none, some, List, [], ◌∷◌}
use scrap_monitoring_simulat.Measurement.Rotation.{ScheduledScan}
use scrap_monitoring_simulat.Measurement.Rotation
use scrap_monitoring_simulat.Measurement.Snapshots
use scrap_monitoring_simulat.Runtime.Generation
use scrap_monitoring_simulat.Runtime.Generation.{
  Spatial, GenerationBatch, GenerationRuntime, History, out_of_fuel, terminal_use, worker_request,
  SensorCoordinator, advance_scenario_and_distortions,
}
use scrap_monitoring_simulat.Runtime.Generation.Batches
use scrap_monitoring_simulat.Runtime.Generation.Batches.{
  Worker, Answer, unsent, answered, next_completed_scans,
}
use scrap_monitoring_simulat.Runtime.Generation.Outcomes.{
  IsDelivered, next_completed_scans-IsDelivered, next_completed_scans-terminal,
}
use scrap_monitoring_simulat.Runtime.Generation.Termination.{advance_scenario_and_distortions-total}
use scrap_monitoring_simulat.Scenario.Simulator
use scrap_monitoring_simulat.Scenario.Simulator.Advance
use scrap_monitoring_simulat.Scenario.Rates
use scrap_monitoring_simulat.Server.Ratio
use scrap_monitoring_simulat.Server.Sdk

-- Without distortions; a measurement is its sensor, its number and its time.
abbrev lasers : Spatial numbers heap
lasers = record {
  Timeline = ℕ;
  Fault = ℕ;
  Measured = List ℕ × ℕ × ℕ;
  shares_grid_with = λ a b. true;
  advance_spatial = λ start end phase image timeline. ok timeline;
  retained_event_count = λ timeline. 0;
  discard_before = λ t timeline. ok timeline;
  sensor_of = λ m. m.0;
  scan_of = λ m. m.1;
  completed_of = λ m. m.2;
}

abbrev waiting : SensorCoordinator numbers heap lasers
waiting = record {
  sensor_id = 98 ∷ [];
  scheduler = record (spinning 1 2) { sensor_id = 98 ∷ [] };
  pending = some (record (scan_of_two 1 3) { sensor_id = 98 ∷ [] });
  has_worker = true;
}

abbrev due : SensorCoordinator numbers heap lasers
due = record {
  sensor_id = 97 ∷ [];
  scheduler = spinning 1 2;
  pending = some (scan_of_two 1 0);
  has_worker = true;
}

abbrev ready : GenerationRuntime numbers heap lasers
ready = record {
  simulator = empty_scenario;
  history = record { front = record { started_at_s = 0; snapshot = 0 }; rest = [] };
  spatial = none;
  sensors = due ∷ waiting ∷ [];
  completed_batches = 0;
  generated_scans = 0;
  terminal = false;
  is_shut_down = false;
}

abbrev measures : Worker numbers heap lasers
measures index scan history spatial =
    answered scan.scan_id scan.completed_at_s
      (ok (scan.sensor_id, scan.scan_id, scan.completed_at_s))

abbrev refuses : Worker numbers heap lasers
refuses index scan history spatial = unsent

abbrev delivered : GenerationRuntime numbers heap lasers
delivered = record ready {
  simulator = record empty_scenario { elapsed_s = 2 };
  sensors =
      record due { scheduler = spinning 2 4; pending = some (scan_of_two 2 2) } ∷ waiting ∷ [];
  completed_batches = 1;
  generated_scans = 1;
}

abbrev batch : GenerationBatch numbers heap lasers
batch = record {
  completed_at_s = 2;
  scans = (97 ∷ [], 1, 2) ∷ [];
  transitions = [];
  keyframes = [];
}

delivers : next_completed_scans numbers heap lasers measures ready ≡ (delivered, ok batch)
unfolding next_completed_scans Advance.advance_to Batches.try_next_completed_scans
    Generation.next_completion_elapsed_s Generation.earliest
    Generation.advance_scenario_and_distortions Generation.advance_rounds Generation.advance_round
    Generation.advance_distortions Generation.note_events Batches.produce Batches.dispatch
    Batches.dispatch_sensor Batches.send Batches.schedule Batches.schedule_slot Batches.receive
    Batches.receive_slot Batches.check_answer Batches.finish Batches.discard_spatial
    Generation.earliest_pending_elapsed_s Rotation.captured_elapsed_s
    Snapshots.discard_before_earliest_pending Snapshots.discard Rotation.next_scan
    Rotation.next_scan_id Ratio.ceil_multiple Ratio.to_u64 Ratio.ceil_quotient Rotation.scan_points
    Rotation.point_angle Sdk.quantize_hq_angle_deg Sdk.quantize_hq_angle_ticks Rotation.point_time
    Rotation.rotation_boundary_elapsed_s Ratio.reciprocal_multiple_to_f64 Ratio.rational_to_f64
    Ratio.digit_count Ratio.exponent_of Ratio.first_exponent Ratio.normal_to_f64
    Rotation.has_descent Rotation.new_scan Ratio.normal_bits Ratio.rounded_quotient
    Ratio.rounded_scaled_quotient Ratio.multiple_to_f64 Advance.require_bounded_update_output
    Simulator.event_output_limit Advance.advance_inner Advance.advance_events Simulator.next_event
    Simulator.next_update_time Simulator.phase_end_s Simulator.phase_bounds Simulator.fill_ends_at_s
    Advance.one_event Advance.count_update Advance.settle_phase Simulator.state_volume_tolerance
    Simulator.fill_average_rate Simulator.scene_snapshot Simulator.snapshot Rates.factor_at
    Rates.factor_before Rates.partition_point Rates.validate_elapsed Rates.integrated_factor_between
    Rates.integrated_factor_to
delivers = refl

next_completed_scans-IsDelivered_example : IsDelivered numbers heap lasers ready delivered batch
next_completed_scans-IsDelivered_example =
    next_completed_scans-IsDelivered numbers heap lasers measures ready delivered batch delivers

abbrev poisoned : GenerationRuntime numbers heap lasers
poisoned = record ready {
  simulator = record empty_scenario { elapsed_s = 2 };
  sensors = record due { pending = none } ∷ waiting ∷ [];
  terminal = true;
}

refused : next_completed_scans numbers heap lasers refuses ready ≡ (poisoned, err worker_request)
unfolding next_completed_scans Advance.advance_to Batches.try_next_completed_scans
    Generation.next_completion_elapsed_s Generation.earliest
    Generation.advance_scenario_and_distortions Generation.advance_rounds Generation.advance_round
    Generation.advance_distortions Generation.note_events Batches.produce Batches.dispatch
    Batches.dispatch_sensor Batches.send Batches.schedule Batches.schedule_slot Batches.receive
    Batches.receive_slot Batches.check_answer Batches.finish Batches.discard_spatial
    Generation.earliest_pending_elapsed_s Rotation.captured_elapsed_s
    Snapshots.discard_before_earliest_pending Snapshots.discard Rotation.next_scan
    Rotation.next_scan_id Ratio.ceil_multiple Ratio.to_u64 Ratio.ceil_quotient Rotation.scan_points
    Rotation.point_angle Sdk.quantize_hq_angle_deg Sdk.quantize_hq_angle_ticks Rotation.point_time
    Rotation.rotation_boundary_elapsed_s Ratio.reciprocal_multiple_to_f64 Ratio.rational_to_f64
    Ratio.digit_count Ratio.exponent_of Ratio.first_exponent Ratio.normal_to_f64
    Rotation.has_descent Rotation.new_scan Ratio.normal_bits Ratio.rounded_quotient
    Ratio.rounded_scaled_quotient Ratio.multiple_to_f64 Advance.require_bounded_update_output
    Simulator.event_output_limit Advance.advance_inner Advance.advance_events Simulator.next_event
    Simulator.next_update_time Simulator.phase_end_s Simulator.phase_bounds Simulator.fill_ends_at_s
    Advance.one_event Advance.count_update Advance.settle_phase Simulator.state_volume_tolerance
    Simulator.fill_average_rate Simulator.scene_snapshot Simulator.snapshot Rates.factor_at
    Rates.factor_before Rates.partition_point Rates.validate_elapsed Rates.integrated_factor_between
    Rates.integrated_factor_to
refused = refl

next_completed_scans-terminal_example :
    next_completed_scans numbers heap lasers measures poisoned ≡ (poisoned, err terminal_use)
next_completed_scans-terminal_example =
    next_completed_scans-terminal numbers heap lasers refuses measures ready poisoned worker_request
      refused

advance_scenario_and_distortions-total_example :
    advance_scenario_and_distortions numbers heap lasers 2 ready ≢ err out_of_fuel
advance_scenario_and_distortions-total_example =
    advance_scenario_and_distortions-total numbers numbers-IsOrdered heap lasers 2 ready
