-- ===== src/Measurement.antt =====
-- services/simulation-server/src/measurement: what the sensors measure, and when.
pub mod Snapshots
pub mod Rotation
pub mod Quality
pub mod Samples
pub mod Generator
