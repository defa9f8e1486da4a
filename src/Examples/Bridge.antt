-- ===== src/Examples/Bridge.antt =====
-- services/camera-edge-bridge: runs of the bridge on a small frame.
use scrap_monitoring_simulat.Results.{ok}
use scrap_monitoring_simulat.Prelude.{
  ℕ, ◌+◌, ◌-◌, ◌*◌, ◌%◌, ◌^◌, ◌≤◌, ◌<◌, ◌≡◌, ◌↔◌, refl, Bool, true, false, ◌&&◌, Option, none, some,
  List, [], ◌∷◌, if◌then◌else◌, drop, length, min, max, All, arith,
}
use scrap_monitoring_simulat.Bridge.Backoff.{
  ExponentialBackoff, next_delay, after, reset, next_delay-after,
}
use scrap_monitoring_simulat.Bridge.Backoff
use scrap_monitoring_simulat.Bridge.Config.{
  Config, Variable, Uri, ws, stream_path, from_lookup, ServerUrl, default_device, from_millis,
}
use scrap_monitoring_simulat.Bridge.Config.Bounds.{IsBounded, from_lookup-IsBounded}
use scrap_monitoring_simulat.Bridge.Descriptor.{
  StreamDescriptor, Parsed, parsed, parse_descriptor, version_1, parse_descriptor_iff,
}
use scrap_monitoring_simulat.Bridge.Limits.{max_descriptor_bytes}
use scrap_monitoring_simulat.Bridge.Device.{
  Node, V4l2Capability, open_device, valid, IsUsable, open_device_iff,
}
use scrap_monitoring_simulat.Bridge.Jpeg.{validate_jpeg}
use scrap_monitoring_simulat.Bridge.Jpeg
use scrap_monitoring_simulat.Bridge.Jpeg.Grammar.{HasFrame}
use scrap_monitoring_simulat.Bridge.Jpeg.Header.{IsFrame, validate_jpeg-IsFrame}
use scrap_monitoring_simulat.Bridge.Jpeg.Total.{Ends, validate_jpeg-Ends}
use scrap_monitoring_simulat.Bridge.Descriptor
use scrap_monitoring_simulat.Bridge.Device
use scrap_monitoring_simulat.Bridge.Session
use scrap_monitoring_simulat.Bridge.Session.Reconnect
use scrap_monitoring_simulat.Bridge.Session.Rounds
use scrap_monitoring_simulat.Bridge.Config
use scrap_monitoring_simulat.Bridge.Session.{
  SessionProcessor, went_on, poll, next_periodic_deadline, frame_interval,
}
use scrap_monitoring_simulat.Bridge.Session.Rounds.{Round, Read, text, binary, close, run_session}
use scrap_monitoring_simulat.Bridge.Session.Pace.{next_periodic_deadline_lem, poll-poll}
use scrap_monitoring_simulat.Bridge.Session.Reconnect.{
  Attempt, Answer, refused, established, attempt, left, run, connect, Glance, sleep_until_shutdown,
}
use scrap_monitoring_simulat.Bridge.Session.Renewal.{wrote_any, attempt-left}
use scrap_monitoring_simulat.Bridge.Session.Delays.{IsBetween, run-IsBetween}

-- A start of the image, a start of the frame of 1920 by 1080, and an end of the image.
abbrev frame : List ℕ
frame = 0xff ∷ 0xd8 ∷ 0xff ∷ 0xc0 ∷ 0 ∷ 8 ∷ 8 ∷ 4 ∷ 0x38 ∷ 7 ∷ 0x80 ∷ 1 ∷ 0xff ∷ 0xd9 ∷ []

abbrev reads_version_1 : List ℕ → Option StreamDescriptor
reads_version_1 json = some version_1

abbrev takes_all : List (List ℕ) → List ℕ → Option ℕ
takes_all frames frame = some (length frame)

abbrev latest : ℕ
latest = 2 ^ 90

abbrev timeout : ℕ
timeout = 1000000000

abbrev round : ℕ → Read → Round
round now message = record {
  is_shutdown = false;
  first_poll = now;
  message = message;
  received_at = now;
  last_poll = now + 5;
}

abbrev rounds : List Round
rounds = round 0 (text (123 ∷ [])) ∷ round 10 (binary frame) ∷ round 40000000 close ∷ []

abbrev backoff : ExponentialBackoff
backoff = record { initial = 500; maximum = 30000; next = 2000 }

abbrev device_format : List ℕ
device_format = 0x80 ∷ 7 ∷ 0 ∷ 0 ∷ 0x38 ∷ 4 ∷ 0 ∷ 0 ∷ 77 ∷ 74 ∷ 80 ∷ 71 ∷ []

abbrev capability : V4l2Capability
capability = record { capabilities = 0x81000002; device_caps = 0x01000002 }

abbrev node : Node
node = record {
  is_char_device = some true;
  opens = true;
  capability = some capability;
  format = some device_format;
}

abbrev one_attempt : Attempt
one_attempt = record {
  stopping = false;
  addresses = some (refused ∷ established ∷ []);
  node = node;
  started_at = 0;
  rounds = rounds;
  sleeps_at = 0;
  glances = record { flag = false; now = 0 } ∷ record { flag = false; now = 600 } ∷ [];
}

one_attempt-left :
    attempt reads_version_1 latest takes_all timeout one_attempt backoff
    ≡ left (record { initial = 500; maximum = 30000; next = 500 })
unfolding attempt reset connect Reconnect.first_connected open_device Device.validate_device
    Device.effective_capabilities Device.check_format Device.width Device.height Device.pixel_format
    Reconnect.after_session run_session Rounds.run_rounds Rounds.turn poll Session.new
    Rounds.on_read Session.handle_text Descriptor.is_unsupported parse_descriptor
    Descriptor.same_text Device.write_frame Jpeg.dimensions Jpeg.ends_with_eoi Jpeg.frame_segment
    Jpeg.is_standalone Jpeg.is_start_of_frame Jpeg.marker_found Jpeg.read Jpeg.read_u16 Jpeg.scan
    Jpeg.segment Jpeg.skip_fill Jpeg.starts_with_soi validate_jpeg Rounds.reset_if_written
    Rounds.stream_timed_out Session.handle_binary next_periodic_deadline Session.polled
    Session.store_frame
one_attempt-left = refl

attempt-left_example : record { initial = 500; maximum = 30000; next = 500 } ≡ (
    if connect one_attempt.addresses
      && wrote_any reads_version_1 latest takes_all timeout backoff (
          run_session reads_version_1 latest takes_all timeout one_attempt.started_at
            one_attempt.rounds backoff)
    then reset backoff
    else backoff)
attempt-left_example =
    attempt-left reads_version_1 latest takes_all timeout backoff one_attempt
      (record { initial = 500; maximum = 30000; next = 500 }) one_attempt-left

run-IsBetween_example :
    All
      (IsBetween 500 30000)
      (run reads_version_1 latest takes_all timeout 500 30000 node
        (one_attempt ∷ one_attempt ∷ [])).delays
run-IsBetween_example =
    run-IsBetween 500 30000 (omega arith) (omega arith) reads_version_1 latest takes_all timeout
      node (one_attempt ∷ one_attempt ∷ [])

frame-accepted : validate_jpeg frame ≡ Jpeg.ok tt
unfolding validate_jpeg Jpeg.starts_with_soi Jpeg.ends_with_eoi Jpeg.dimensions Jpeg.scan Jpeg.read
    Jpeg.marker_found Jpeg.skip_fill Jpeg.is_standalone Jpeg.segment Jpeg.read_u16
    Jpeg.is_start_of_frame Jpeg.frame_segment
frame-accepted = refl

validate_jpeg-IsFrame_example :
    ((validate_jpeg frame ≡ Jpeg.ok tt) ↔ IsFrame frame)
    × ((Jpeg.dimensions frame ≡ Jpeg.ok (1920, 1080)) ↔ HasFrame 1920 1080 (drop 2 frame))
validate_jpeg-IsFrame_example = validate_jpeg-IsFrame frame 1920 1080

validate_jpeg-Ends_example : Ends (validate_jpeg frame)
validate_jpeg-Ends_example = validate_jpeg-Ends frame

next_periodic_deadline_lem_example :
    (next : ℕ) × (next_periodic_deadline reads_version_1 latest takes_all 10 100000005 ≡ some next)
    × (100000005 < next)
    × (next ≤ max 100000005 10 + frame_interval)
    × ((next - 10) % frame_interval ≡ 0)
    × (10 < next)
next_periodic_deadline_lem_example =
    next_periodic_deadline_lem reads_version_1 latest takes_all 10 100000005 (omega arith)
      (omega arith)

-- Less than an interval before the latest `Instant`, the sum panics, though the deadline exists.
no_deadline_at_the_end : next_periodic_deadline reads_version_1 40000000 takes_all 0 20000000 ≡ none
unfolding next_periodic_deadline
no_deadline_at_the_end = refl

abbrev waiting : Session.Session
waiting = record {
  processor = record {
    descriptor_received = true;
    latest_frame = some frame;
    next_write = some 10;
    wrote_frame = true;
  };
  frames = frame ∷ [];
}

abbrev written : Session.Session
written = record {
  processor = record {
    descriptor_received = true;
    latest_frame = some frame;
    next_write = some 33333343;
    wrote_frame = true;
  };
  frames = frame ∷ frame ∷ [];
}

waiting-written : poll reads_version_1 latest takes_all 20 waiting ≡ went_on written
unfolding poll Session.polled Device.write_frame next_periodic_deadline
waiting-written = refl

poll-poll_example : poll reads_version_1 latest takes_all 15 written ≡ went_on written
poll-poll_example =
    poll-poll reads_version_1 latest takes_all waiting written 20 15 (omega arith) waiting-written

next_delay-after_example :
    ((next_delay (after 3 (Backoff.new 500 30000))).0 ≡ min (500 * 2 ^ 3) 30000)
    × ((next_delay (reset (after 3 (Backoff.new 500 30000)))).0 ≡ 500)
next_delay-after_example = next_delay-after 500 30000 3 (omega arith) (omega arith)

open_device_iff_example : (open_device node ≡ valid) ↔ (
    (node.is_char_device ≡ some true)
    × (node.opens ≡ true)
    × ((c : V4l2Capability) × (raw_data : List ℕ) × (node.capability ≡ some c)
        × (node.format ≡ some raw_data)
        × IsUsable c raw_data))
open_device_iff_example = open_device_iff node

parse_descriptor_iff_example :
    (parse_descriptor reads_version_1 (123 ∷ []) ≡ parsed version_1)
    ↔ ((1 ≤ max_descriptor_bytes) × (some version_1 ≡ some version_1) × (version_1 ≡ version_1))
parse_descriptor_iff_example = parse_descriptor_iff reads_version_1 (123 ∷ []) version_1

abbrev reads_url : List ℕ → Option Uri
reads_url raw = some (record {
  scheme = some ws;
  authority = some (104 ∷ 58 ∷ 49 ∷ []);
  host_part = some (104 ∷ []);
  port_u16 = some 1;
  path = stream_path;
  query = none;
})

abbrev reads_first : List ℕ → Option ℕ
reads_first [] = none
reads_first (b ∷ bytes) = some b

abbrev writes_one : ℕ → List ℕ
writes_one n = n ∷ []

abbrev is_absolute : List ℕ → Bool
is_absolute path = true

abbrev environment : Variable → Option (List ℕ)
environment Variable.server_url = some (119 ∷ [])
environment name = none

abbrev configuration : Config
configuration = record {
  url = record { raw = 119 ∷ []; host = 104 ∷ []; port = 1 };
  device_path = default_device;
  connect_timeout = from_millis 5000;
  io_timeout = from_millis 1000;
  reconnect_initial = from_millis 500;
  reconnect_max = from_millis 30000;
}

configuration-accepted :
    from_lookup reads_url reads_first writes_one is_absolute environment ≡ ok configuration
unfolding from_lookup Config.required Config.parse_server_url Config.parse_milliseconds Config.ok_or
    Config.ensure Config.non_empty Config.is_ws Config.contains Descriptor.same_text
configuration-accepted = refl

from_lookup-IsBounded_example : IsBounded configuration
from_lookup-IsBounded_example =
    from_lookup-IsBounded reads_url reads_first writes_one is_absolute environment configuration
      configuration-accepted
