-- ===== src/Bridge/Limits.antt =====
-- services/camera-edge-bridge/src/lib.rs: the constants of the stream contract.
use scrap_monitoring_simulat.Prelude.{ℕ, ◌*◌}

abbrev pub frame_width : ℕ
frame_width = 1920

abbrev pub frame_height : ℕ
frame_height = 1080

abbrev pub frame_rate : ℕ
frame_rate = 30

abbrev pub max_frame_bytes : ℕ
max_frame_bytes = 4 * 1024 * 1024

abbrev pub max_descriptor_bytes : ℕ
max_descriptor_bytes = 4096
