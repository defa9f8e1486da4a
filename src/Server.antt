-- ===== src/Server.antt =====
-- services/simulation-server/src: the parts of the server below its protocols: exact ratios, random
-- streams and the units of the sensor.
pub mod Ratio
pub mod Sdk
pub mod Random
