-- ===== src/Bridge.antt =====
-- services/camera-edge-bridge: the bridge from the camera stream to a V4L2 device.
pub mod Limits
pub mod Jpeg
pub mod Backoff
pub mod Descriptor
pub mod Config
pub mod Device
pub mod Session
