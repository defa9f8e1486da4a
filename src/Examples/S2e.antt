-- ===== src/Examples/S2e.antt =====
-- services/simulation-server/src/s2e.rs: a client, a sensor and a few scans. Rates are whole numbers.
use scrap_monitoring_simulat.Examples.Numbers.{numbers}
use scrap_monitoring_simulat.Prelude.{
  ℕ, ◌+◌, ◌<◌, ◌≡◌, ◌≢◌, ◌⊎◌, refl, arith, Bool, true, false, none, some, List, [], ◌∷◌, ◌++◌, All,
  length, get_or, set, take, same, replicate,
}
use scrap_monitoring_simulat.S2e.Command.{Command, parse_command, loop_response_flag}
use scrap_monitoring_simulat.S2e.Command.Frames.{
  encode_command, IsSendable, parse_command-encode_command, encode_command-parse_command,
}
use scrap_monitoring_simulat.S2e.Command.Corruption.{parse_command-set}
use scrap_monitoring_simulat.S2e.Crc.{padded_crc32}
use scrap_monitoring_simulat.S2e.Crc.Detects.{padded_crc32-set}
use scrap_monitoring_simulat.S2e.Encoder.{
  HqSample, HqEncoder, PublishedScan, default, encode, is_gap, hq_capsule_bytes,
}
use scrap_monitoring_simulat.S2e.Encoder.Buffer.{IsSample}
use scrap_monitoring_simulat.S2e.Encoder.Stream.{
  IsPartial, IsCapsule, Promise, continued, pending, stream_nodes, scan_nodes, default-IsPartial,
  encode-Promise,
}
use scrap_monitoring_simulat.S2e.Encoder.Rotations.{encode_all, all_nodes, stream_nodes-encode_all}
use scrap_monitoring_simulat.S2e.Response.{
  EndpointConfig, response, lidar_configuration_response, conf_scan_mode_name,
}
use scrap_monitoring_simulat.S2e.Response.Answers.{
  IsAnswer, IsAnswered, response-IsAnswer, lidar_configuration_response_lem,
}
use scrap_monitoring_simulat.S2e.Endpoint.{
  Endpoint, Datagram, Event, received, published, scans_changed, start, step, run, running, failed,
  transmit_new,
}
use scrap_monitoring_simulat.S2e.Endpoint.Invariant.{Serves, run-start-Serves}
use scrap_monitoring_simulat.S2e.Endpoint.Audience.{Grows, audience, step-Grows}
use scrap_monitoring_simulat.S2e.Endpoint.Transmit.{Transmitted, transmit_new_cases}
use scrap_monitoring_simulat.S2e.Runtime.{Entry, bound, bind_all, publish_to}
use scrap_monitoring_simulat.S2e.Runtime
use scrap_monitoring_simulat.S2e.Runtime.Binding.{
  IsBound, IsPublished, bind_all_lem, publish_to_lem,
}
use scrap_monitoring_simulat.S2e.Response.{validate}

abbrev config : EndpointConfig numbers
config = record {
  sensor_id = 97 ∷ [];
  bind = 1;
  sample_rate_hz = 32000;
  rotation_rate_hz = 10;
  max_distance_m = 40;
}

abbrev digest : List ℕ → List ℕ
digest bytes = replicate 32 7

abbrev net : List Datagram → Datagram → Bool
net log datagram = true

-- The client asks for a scan.
abbrev scan_command : Command
scan_command = record { code = 0x82; payload = 2 ∷ 0 ∷ 0 ∷ 0 ∷ 0 ∷ [] }

abbrev sample : HqSample
sample = record { angle_z_q14 = 16384; dist_mm_q2 = 4000; quality = 200 }

sample-IsSample : IsSample sample
sample-IsSample = record { angle = omega arith; distance = omega arith; quality_byte = omega arith }

abbrev scan : ℕ → PublishedScan
scan scan_id = record { scan_id = scan_id; samples = sample ∷ sample ∷ [] }

parse_command-encode_command_example :
    parse_command (encode_command scan_command) ≡ some scan_command
parse_command-encode_command_example =
    parse_command-encode_command scan_command (omega arith, λ e. absurd (omega (arith, e)))

scan_frame-parsed :
    parse_command (0xa5 ∷ 0x82 ∷ 5 ∷ 2 ∷ 0 ∷ 0 ∷ 0 ∷ 0 ∷ 0x20 ∷ []) ≡ some scan_command
unfolding parse_command
scan_frame-parsed = refl

encode_command-parse_command_example :
    (0xa5 ∷ 0x82 ∷ 5 ∷ 2 ∷ 0 ∷ 0 ∷ 0 ∷ 0 ∷ 0x20 ∷ [] ≡ encode_command scan_command)
    × IsSendable scan_command
encode_command-parse_command_example =
    encode_command-parse_command (0xa5 ∷ 0x82 ∷ 5 ∷ 2 ∷ 0 ∷ 0 ∷ 0 ∷ 0 ∷ 0x20 ∷ []) scan_command
      (ground arith) scan_frame-parsed

scan_frame-length : 8 < length (encode_command scan_command)
unfolding encode_command
scan_frame-length = omega arith

scan_frame-changed : 9 ≢ get_or (encode_command scan_command) 3 0
unfolding encode_command
scan_frame-changed e = omega (arith, e)

parse_command-set_example : parse_command (set (encode_command scan_command) 3 9) ≡ none
parse_command-set_example =
    parse_command-set scan_command 3 9 (omega arith, λ e. absurd (omega (arith, e)))
      (λ e. omega (arith, e)) (omega (arith, scan_frame-length)) scan_frame-changed

padded_crc32-set_example : padded_crc32 (set (1 ∷ 2 ∷ 3 ∷ []) 1 9) ≢ padded_crc32 (1 ∷ 2 ∷ 3 ∷ [])
padded_crc32-set_example =
    padded_crc32-set (1 ∷ 2 ∷ 3 ∷ []) 1 9 (ground arith) (omega arith) (omega arith)
      (λ e. omega (arith, e))

encode-Promise_example :
    (r : HqEncoder × List (List ℕ)) × (encode default (scan 1) ≡ some r)
    × Promise (continued default 1 ++ scan_nodes 0 (sample ∷ sample ∷ [])) (some 1) r
encode-Promise_example =
    encode-Promise default (scan 1) default-IsPartial (sample-IsSample, (sample-IsSample, tt))

default-follows :
    (is_gap (default).last_scan_id 1 ≡ false) × ((is_gap (some 1) 2 ≡ false) × Unit {0})
unfolding default
default-follows = (refl, (refl, tt))

stream_nodes-encode_all_example :
    (r : HqEncoder × List (List ℕ)) × (encode_all default (scan 1 ∷ scan 2 ∷ []) ≡ some r)
    × All IsCapsule r.1
    × IsPartial r.0
    × (stream_nodes r.1 ++ pending r.0 ≡ pending default ++ all_nodes (scan 1 ∷ scan 2 ∷ []))
stream_nodes-encode_all_example =
    stream_nodes-encode_all default (scan 1 ∷ scan 2 ∷ []) default-IsPartial default-follows
      ((sample-IsSample, (sample-IsSample, tt)), ((sample-IsSample, (sample-IsSample, tt)), tt))

response-IsAnswer_example :
    IsAnswer (response 6 (0 ∷ 0 ∷ 0 ∷ []) false) 3 6 (0 ∷ 0 ∷ 0 ∷ [])
    × IsAnswer
        (response 6 (0 ∷ 0 ∷ 0 ∷ []) true)
        (hq_capsule_bytes + loop_response_flag)
        6
        (0 ∷ 0 ∷ 0 ∷ [])
response-IsAnswer_example = response-IsAnswer 6 (0 ∷ 0 ∷ 0 ∷ []) (omega arith)

abbrev query : List ℕ
query = conf_scan_mode_name ∷ 0 ∷ 0 ∷ 0 ∷ 2 ∷ 0 ∷ []

lidar_configuration_response_lem_example :
    (IsAnswered query
      → (value : List ℕ) × (lidar_configuration_response numbers config query
          ≡ some (take 4 query ++ value)))
    × (¬ (IsAnswered query) → lidar_configuration_response numbers config query ≡ none)
lidar_configuration_response_lem_example =
    lidar_configuration_response_lem numbers config query (ground arith)

abbrev events : List Event
events =
    received (0xa5 ∷ 0x82 ∷ 5 ∷ 2 ∷ 0 ∷ 0 ∷ 0 ∷ 0 ∷ 0x20 ∷ []) 9
    ∷ published (scan 1)
    ∷ scans_changed false
    ∷ []

run-start-Serves_example : Serves (run net numbers digest config events start)
run-start-Serves_example =
    run-start-Serves net numbers digest config events
      (tt, ((sample-IsSample, (sample-IsSample, tt)), (tt, tt)))

abbrev serving : Endpoint
serving = record {
  active_peer = some 9;
  streaming = true;
  last_observed_scan_id = none;
  last_transmitted_scan_id = none;
  encoder = default;
  counters = record {
    received_commands = 1;
    rejected_commands = 0;
    published_scans = 1;
    transmitted_capsules = 0;
    skipped_scans = 0;
  };
  latest = some (scan 1);
  unseen = true;
  sent = [];
}

step-Grows_example :
    Grows
      (audience (scans_changed false) serving)
      []
      (step net numbers digest config (scans_changed false) serving)
step-Grows_example = step-Grows net numbers digest config (scans_changed false) serving

transmit_new_cases_example :
    ((same none (some 1) ≡ true) × (transmit_new net 9 (scan 1) serving ≡ running serving))
    ⊎ ((s' : Endpoint) × (transmit_new net 9 (scan 1) serving ≡ failed s'))
    ⊎ ((s' : Endpoint) × (same none (some 1) ≡ false)
        × (transmit_new net 9 (scan 1) serving ≡ running s')
        × Transmitted net 9 (scan 1) serving s')
transmit_new_cases_example =
    transmit_new_cases net 9 (scan 1) serving default-IsPartial
      (sample-IsSample, (sample-IsSample, tt))

abbrev scanners : List (EndpointConfig numbers)
scanners = config ∷ record config { sensor_id = 98 ∷ []; bind = 2 } ∷ []

abbrev entries : List Entry
entries =
    record { sensor_id = 97 ∷ []; endpoint = start }
    ∷ record { sensor_id = 98 ∷ []; endpoint = start }
    ∷ []

scanners-bound : bind_all numbers (λ address. true) scanners ≡ bound entries
unfolding bind_all Runtime.are_unique Runtime.has_id Runtime.has_address Runtime.all_valid
    Runtime.unbound Runtime.spawn Runtime.insert Runtime.same_id Runtime.precedes validate
scanners-bound = refl

bind_all_lem_example :
    (a : EndpointConfig numbers) × (b : EndpointConfig numbers) × (scanners ≡ a ∷ b ∷ [])
    × IsBound numbers (λ address. true) a b entries
bind_all_lem_example = bind_all_lem numbers (λ address. true) scanners entries scanners-bound

publish_to_lem_example :
    ((after : List Entry) × (publish_to (98 ∷ []) (scan 1) entries ≡ some after)
      × IsPublished (98 ∷ []) (scan 1) entries after)
    ⊎ ((publish_to (98 ∷ []) (scan 1) entries ≡ none) × All (λ e. e.sensor_id ≢ 98 ∷ []) entries)
publish_to_lem_example = publish_to_lem (98 ∷ []) (scan 1) entries
