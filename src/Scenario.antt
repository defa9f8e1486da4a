-- ===== src/Scenario.antt =====
-- services/simulation-server/src/scenario and rate_profile.rs: the scenario of filling and collecting.
pub mod Rates
pub mod Errors
pub mod Surface
pub mod Settings
pub mod Simulator
