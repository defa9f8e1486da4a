-- ===== src/S2e.antt =====
-- services/simulation-server/src/s2e.rs: the RPLIDAR S2E-compatible UDP endpoint of a sensor.
pub mod Command
pub mod Crc
pub mod Encoder
pub mod Response
pub mod Endpoint
pub mod Runtime
