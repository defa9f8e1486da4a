-- ===== src/S2e/Endpoint.antt =====
-- services/simulation-server/src/s2e.rs: `run_endpoint`, the task that serves the clients of one
-- sensor, and `S2eRuntime::publish`, which feeds it. One round of its loop is a function of the event
-- that `select!` hands over; a datagram that is sent is appended to a log, and `net` says from the log
-- whether the next one goes out. The watch channel of scans is the latest value and whether the
-- endpoint has yet to see it. Counters are `u64` and wrap.
pub mod Transmit
pub mod Invariant
pub mod Audience
use scrap_monitoring_simulat.Float.{Float}
use scrap_monitoring_simulat.Prelude.{
  ℕ, ◌+◌, ◌-◌, Bool, true, false, ◌&&◌, ◌||◌, not, Option, none, some, List, [], ◌∷◌, ◌++◌, ◌==◌,
  ltb, if◌then◌else◌, length, take, same, wrapping_add, wrapping_sub,
}
use scrap_monitoring_simulat.S2e.Command.{
  Command, parse_command, command_stop, command_reset, command_get_device_info,
  command_get_device_health, command_express_scan, command_get_lidar_conf, command_hq_motor_speed,
}
use scrap_monitoring_simulat.S2e.Encoder.{HqEncoder, PublishedScan, default, reset, encode}
use scrap_monitoring_simulat.S2e.Response.{
  EndpointConfig, response, device_info_response, lidar_configuration_response, valid_scan_request,
  answer_device_health, answer_get_lidar_conf, answer_measurement_hq,
}

abbrev pub max_command_bytes : ℕ
max_command_bytes = 1_024

pub record EndpointStats : Type 0 where
  pub received_commands : ℕ
  pub rejected_commands : ℕ
  pub published_scans : ℕ
  pub transmitted_capsules : ℕ
  pub skipped_scans : ℕ

pub record Datagram : Type 0 where
  pub peer : ℕ
  pub bytes : List ℕ

pub record Endpoint : Type 0 where
  pub active_peer : Option ℕ
  pub streaming : Bool
  pub last_observed_scan_id : Option ℕ
  pub last_transmitted_scan_id : Option ℕ
  pub encoder : HqEncoder
  pub counters : EndpointStats
  pub latest : Option PublishedScan
  pub unseen : Bool
  pub sent : List Datagram

-- How a round leaves the loop: in the next round, by `return Ok(())`, by an error of the socket, or
-- by a panic of the encoder.
pub data Outcome : Type 0 where
  running finished failed panicked : Endpoint → Outcome

infixl 5 ◌>>=◌
abbrev pub ◌>>=◌ : Outcome → (Endpoint → Outcome) → Outcome
running s >>= f = f s
finished s >>= f = finished s
failed s >>= f = failed s
panicked s >>= f = panicked s

pub data Event : Type 0 where
  -- `shutdown.changed()`: whether the sender is gone, and the value.
  shutdown_changed : Bool → Bool → Event
  received : List ℕ → ℕ → Event
  receive_error : Event
  -- `scans.changed()`: whether the sender is gone.
  scans_changed : Bool → Event
  -- `S2eRuntime::publish`, in another task.
  published : PublishedScan → Event

abbrev no_stats : EndpointStats
no_stats = record {
  received_commands = 0;
  rejected_commands = 0;
  published_scans = 0;
  transmitted_capsules = 0;
  skipped_scans = 0;
}

unfoldable pub start : Endpoint
start = record {
  active_peer = none;
  streaming = false;
  last_observed_scan_id = none;
  last_transmitted_scan_id = none;
  encoder = default;
  counters = no_stats;
  latest = none;
  unseen = false;
  sent = [];
}

unfoldable pub count_received : Endpoint → Endpoint
count_received s = record s {
  counters = record (s.counters) {
    received_commands = wrapping_add s.counters.received_commands 1;
  };
}

unfoldable pub count_rejected : Endpoint → Endpoint
count_rejected s = record s {
  counters = record (s.counters) {
    rejected_commands = wrapping_add s.counters.rejected_commands 1;
  };
}

unfoldable pub count_capsule : Endpoint → Endpoint
count_capsule s = record s {
  counters = record (s.counters) {
    transmitted_capsules = wrapping_add s.counters.transmitted_capsules 1;
  };
}

-- What every command but a scan request and the motor speed does to the stream.
unfoldable pub stop_streaming : Endpoint → Endpoint
stop_streaming s = record s {
  streaming = false;
  last_transmitted_scan_id = none;
  encoder = reset s.encoder;
}

unfoldable pub publish : PublishedScan → Endpoint → Endpoint
publish scan s = record s {
  latest = some scan;
  unseen = true;
  counters = record (s.counters) { published_scans = wrapping_add s.counters.published_scans 1 };
}

-- A client that is not the active one takes the stream over, stopped.
unfoldable pub switch_peer : ℕ → Endpoint → Endpoint
switch_peer peer s =
    let s' = if same s.active_peer (some peer) then s else stop_streaming s in
    record s' { active_peer = some peer }

-- A scan request while no stream runs starts with an empty capsule.
unfoldable pub begin_streaming : Endpoint → Endpoint
begin_streaming s = record s {
  encoder = if s.streaming then s.encoder else reset s.encoder;
  last_transmitted_scan_id = if s.streaming then s.last_transmitted_scan_id else none;
  streaming = true;
}

-- The scans between the last one observed and this one; without overflow checks the sum and the
-- differences wrap.
abbrev pub skipped_before : Option ℕ → ℕ → ℕ
skipped_before none scan_id = 0
skipped_before (some previous) scan_id =
    if ltb (wrapping_add previous 1) scan_id
    then wrapping_sub (wrapping_sub scan_id previous) 1
    else 0

unfoldable pub observe : PublishedScan → Endpoint → Endpoint
observe scan s = record s {
  last_observed_scan_id = some scan.scan_id;
  counters = record (s.counters) {
    skipped_scans =
        wrapping_add s.counters.skipped_scans (skipped_before s.last_observed_scan_id scan.scan_id);
  };
}

-- `borrow_and_update` marks the value as seen.
unfoldable pub see : Endpoint → Endpoint
see s = record s { unseen = false }

module _ (net : List Datagram → Datagram → Bool) where
  unfoldable pub send_to : Datagram → Endpoint → Outcome
  send_to d s = if net s.sent d then running (record s { sent = s.sent ++ d ∷ [] }) else failed s

  unfoldable pub send_capsules : ℕ → List (List ℕ) → Endpoint → Outcome
  send_capsules peer [] s = running s
  send_capsules peer (c ∷ cs) s = elim (send_to (record { peer = peer; bytes = c }) s) [
    | running s' ↦ send_capsules peer cs (count_capsule s')
    | finished s' ↦ finished s'
    | failed s' ↦ failed s'
    | panicked s' ↦ panicked s'
  ]

  unfoldable pub transmit_scan : ℕ → PublishedScan → Endpoint → Outcome
  transmit_scan peer scan s = elim (encode s.encoder scan) [
    | none ↦ panicked s
    | some (encoder, capsules) ↦ send_capsules peer capsules (record s { encoder = encoder })
  ]

  -- `transmit_scan` unless the scan is the last one transmitted.
  unfoldable pub transmit_new : ℕ → PublishedScan → Endpoint → Outcome
  transmit_new peer scan s =
      if same s.last_transmitted_scan_id (some scan.scan_id)
      then running s
      else transmit_scan peer scan s >>= λ s'.
          running (record s' { last_transmitted_scan_id = some scan.scan_id })

  abbrev pub transmit_latest : ℕ → Option PublishedScan → Endpoint → Outcome
  transmit_latest peer none s = running s
  transmit_latest peer (some scan) s = transmit_new peer scan s

  unfoldable pub start_scan : ℕ → Endpoint → Outcome
  start_scan peer s =
      send_to (record { peer = peer; bytes = response answer_measurement_hq [] true })
        (begin_streaming s)
      >>= λ s'. transmit_latest peer s'.latest (see s')

  abbrev pub transmit_to_active : Option ℕ → PublishedScan → Endpoint → Outcome
  transmit_to_active none scan s = running s
  transmit_to_active (some peer) scan s = transmit_new peer scan s

  abbrev pub scan_published : Option PublishedScan → Endpoint → Outcome
  scan_published none s = running s
  scan_published (some scan) s =
      let s' = observe scan s in
      if s'.streaming then transmit_to_active s'.active_peer scan s' else running s'

  -- The third arm of `select!`, which fires while a value is unseen.
  unfoldable pub on_scans_changed : Endpoint → Outcome
  on_scans_changed s = if s.unseen then scan_published s.latest (see s) else running s

  module _ (fl : Float) (sha256 : List ℕ → List ℕ) (config : EndpointConfig fl) where
    abbrev pub configure : ℕ → Option (List ℕ) → Endpoint → Outcome
    configure peer none s = running (count_rejected s)
    configure peer (some payload) s =
        send_to (record { peer = peer; bytes = response answer_get_lidar_conf payload false }) s

    -- The `match` on the code; a guard that fails falls through to the last arm.
    unfoldable pub dispatch : ℕ → Command → Endpoint → Outcome
    dispatch peer c s =
        if c.code == command_stop || c.code == command_reset
        then running (stop_streaming s)
        else if c.code == command_get_device_info && length c.payload == 0
        then send_to (record { peer = peer; bytes = device_info_response sha256 config.sensor_id })
            (stop_streaming s)
        else if c.code == command_get_device_health && length c.payload == 0
        then send_to
            (record { peer = peer; bytes = response answer_device_health (0 ∷ 0 ∷ 0 ∷ []) false })
            (stop_streaming s)
        else if c.code == command_get_lidar_conf
        then configure peer (lidar_configuration_response fl config c.payload) (stop_streaming s)
        else if c.code == command_hq_motor_speed && length c.payload == 2
        then running s
        else if c.code == command_express_scan && valid_scan_request c.payload
        then start_scan peer s
        else running (count_rejected s)

    abbrev pub command_received : ℕ → Option Command → Endpoint → Outcome
    command_received peer none s = running (count_rejected s)
    command_received peer (some c) s = dispatch peer c (switch_peer peer s)

    -- The buffer of `recv_from` cuts a datagram.
    unfoldable pub on_received : List ℕ → ℕ → Endpoint → Outcome
    on_received frame peer s =
        command_received peer (parse_command (take max_command_bytes frame)) (count_received s)

    unfoldable pub step : Event → Endpoint → Outcome
    step (shutdown_changed gone value) s = if gone || value then finished s else running s
    step (received frame peer) s = on_received frame peer s
    step receive_error s = failed s
    step (scans_changed gone) s = if gone then finished s else on_scans_changed s
    step (published scan) s = running (publish scan s)

    unfoldable pub run : List Event → Endpoint → Outcome
    run [] s = running s
    run (e ∷ es) s = elim (step e s) [
      | running s' ↦ run es s'
      | finished s' ↦ finished s'
      | failed s' ↦ failed s'
      | panicked s' ↦ panicked s'
    ]
