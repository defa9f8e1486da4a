-- ===== src/Scenario/Errors.antt =====
-- services/simulation-server/src/scenario/error.rs: `ScenarioError`, with the faults of a state told
-- apart. `Fault` is an error of the surface; `out_of_bounds` stands for a panic of an index.
use scrap_monitoring_simulat.Server.Random.{RandomError}
use scrap_monitoring_simulat.Scenario.Rates.{RateProfileError}

pub data StateFault : Type 0 where
  no_active_plan update_schedule phase_schedule volume_not_applied : StateFault
  threshold_not_reached not_emptied invalid_inlet no_height_nodes out_of_bounds : StateFault

pub data ResourceFault : Type 0 where
  inlet_count event_limit update_index cycle_index_limit snapshot_size : ResourceFault

pub data ScenarioError (Fault : Type 0) : Type 0 where
  invalid : ScenarioError Fault
  state : StateFault → ScenarioError Fault
  resource : ResourceFault → ScenarioError Fault
  surface : Fault → ScenarioError Fault
  random : RandomError → ScenarioError Fault
  rate_profile : RateProfileError → ScenarioError Fault
