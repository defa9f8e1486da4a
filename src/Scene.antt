-- ===== src/Scene.antt =====
-- services/simulation-server/src/scene_stream.rs: the stream of scenes to the visualizer.
pub mod Publisher
pub mod Reconnect
