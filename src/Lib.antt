-- ===== src/Lib.antt =====
-- The scrap monitoring simulator has a simulation server, which makes scenes and the scans of two
-- lidar sensors, serves the scans to clients of the SLAMTEC protocol S2E over UDP and streams the
-- scenes to a visualizer over TCP, and a camera bridge, which receives the visualizer's picture as
-- JPEG frames over a WebSocket and writes them to a V4L2 device. This library models the protocols
-- and the state of these parts, and states what they promise.
--
-- Prelude holds shared helpers, Results the results of calls that can fail, and Float the interface of
-- `f64`, which stays abstract, with the laws of IEEE comparison that some theorems need.
--
-- Scenario is services/simulation-server/src/scenario and rate_profile.rs. Scenario/Rates is
-- rate_profile.rs, Scenario/Settings the checks of `ScenarioSettings::from_config`, and Scenario/Simulator
-- `ScenarioSimulator`: Plans has the plans of the two phases, Changes what changes the surface, Advance
-- `new` and `advance_to`, and Build `build_scenario_simulator`. The height field is the interface
-- `SurfaceModel` of Scenario/Surface.
--
-- Measurement is services/simulation-server/src/measurement: Measurement/Snapshots is snapshots.rs, the
-- history of the surface, Measurement/Rotation rotation.rs, the schedules of the sensors, and
-- Measurement/Quality, Samples and Generator are generation.rs, which makes samples of a reference scan,
-- with the data of reference.rs that it uses.
--
-- Runtime/Generation is `GenerationRuntime` of services/simulation-server/src/runtime/generation.rs, which
-- joins these parts: it advances the scenario to the earliest scan that is due, stores the surfaces in the
-- history, and has the scans measured by a thread for each sensor, in Runtime/Generation/Batches, where a thread is
-- any function of its requests.
--
-- S2e is services/simulation-server/src/s2e.rs: S2e/Command is `parse_command`, S2e/Crc
-- `padded_crc32`, S2e/Encoder `HqEncoder`, S2e/Response the answers, S2e/Runtime `S2eRuntime`, and S2e/Endpoint
-- `run_endpoint`, whose `select!` is the function `step` on events, with the log of the datagrams
-- that went out.
--
-- Scene is services/simulation-server/src/scene_stream.rs: Scene/Publisher is the queue of one record
-- between `TcpScenePublisher` and its task, as steps in any order, where keyframes are a parameter, and
-- Scene/Reconnect the configuration of the publisher and its `ReconnectBackoff`.
--
-- Server holds decimal_ratio.rs (Server/Ratio), measurement/sdk.rs (Server/Sdk) and randomness.rs
-- (Server/Random) of services/simulation-server/src.
--
-- Bridge is services/camera-edge-bridge/src: Bridge/Limits is lib.rs, Bridge/Jpeg jpeg.rs,
-- Bridge/Backoff backoff.rs, Bridge/Descriptor descriptor.rs, Bridge/Config config.rs, Bridge/Device
-- device.rs, and Bridge/Session bridge.rs, with the loop of a session in Bridge/Session/Rounds and
-- that of `run` in Bridge/Session/Reconnect. What the socket, the clock, the kernel and the shutdown
-- flag give is input of these functions.
--
-- Bounds and fuel: a `u64` keeps its wrapping, saturation or checks written out. `gcd` runs on fuel
-- `suc right`, since its second argument goes down in each round; `dimensions` runs on as many rounds
-- as the frame has bytes, since each round takes two. The loop of a profile runs on as many rounds as
-- segments are allowed, since each adds two; that of `advance_inner` on the room for events that the
-- limit leaves; that over the rounds of a batch on two more than the limit, since each round but the last
-- has an event. An `Instant` and a `Duration` are nanoseconds; the latest `Instant` is a parameter, and
-- the sums of bridge.rs panic beyond it.
--
-- Not modelled: the geometry, the height field, the ray casting and the distortions, which compute in
-- `f64`; the configuration files of the server; the set-up of tasks, threads, sockets and signals; the
-- JSON of scenes; the visualizer, which is Python and TypeScript. Code that the source calls and that is
-- not modelled is a parameter: `serde_json`, `http::Uri`, `sha2`, tokio's channels, the printed form of
-- an `f64`, the height field, the timeline of distortions with its resolver, and the scanner that casts rays.
pub mod Prelude
pub mod Float
pub mod Results
pub mod S2e
pub mod Bridge
pub mod Server
pub mod Scenario
pub mod Measurement
pub mod Runtime
pub mod Scene
pub mod Examples
