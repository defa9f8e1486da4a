-- ===== src/Bridge/Session.antt =====
-- services/camera-edge-bridge/src/bridge.rs: a session on one connection. An `Instant` or a
-- `Duration` is its number of nanoseconds. What the socket, the clock, the shutdown flag and the
-- device answer is in the `Round` of the loop; the frames that were written are kept, the newest
-- first.

pub mod Rounds
pub mod Reconnect
pub mod Invariant
pub mod Pace
pub mod Renewal
pub mod Delays
use scrap_monitoring_simulat.Prelude.{
  ℕ, zero, suc, ◌+◌, ◌-◌, ◌*◌, ◌/◌, ◌≤◌, ◌<◌, Bool, true, false, ◌&&◌, Option, none, some, List, [],
  ◌∷◌, if◌then◌else◌, ltb, leb, u64_max, min,
}
use scrap_monitoring_simulat.Bridge.Backoff.{ExponentialBackoff, reset}
use scrap_monitoring_simulat.Bridge.Descriptor.{
  StreamDescriptor, Parsed, parsed, rejected, parse_descriptor,
}
use scrap_monitoring_simulat.Bridge.Device.{Checked, valid, invalid, write_frame}
use scrap_monitoring_simulat.Bridge.Jpeg.{Scan, ok, err, panicked, stuck, validate_jpeg}

-- `Duration::from_secs_f64(1.0 / 30.0)`, rounded to nanoseconds.
abbrev pub frame_interval : ℕ
frame_interval = 33333333

pub data SessionError : Type 0 where
  connection protocol device : SessionError

pub data SessionOutcome : Type 0 where
  shutdown : SessionOutcome
  disconnected : Bool → SessionOutcome

pub record SessionProcessor : Type 0 where
  pub descriptor_received : Bool
  pub latest_frame : Option (List ℕ)
  pub next_write : Option ℕ
  pub wrote_frame : Bool

unfoldable pub new : SessionProcessor
new = record {
  descriptor_received = false;
  latest_frame = none;
  next_write = none;
  wrote_frame = false;
}

-- The processor and the frames that its sink has taken.
pub record Session : Type 0 where
  pub processor : SessionProcessor
  pub frames : List (List ℕ)

-- `crashed` is a panic: a read out of bounds in `validate_jpeg`, or an `Instant` beyond the latest one.
pub data Stepped : Type 0 where
  went_on : Session → Stepped
  failed : SessionError → Session → Stepped
  crashed : Stepped

infixl 5 ◌>>=◌
abbrev pub ◌>>=◌ : Stepped → (Session → Stepped) → Stepped
went_on s >>= f = f s
failed e s >>= f = failed e s
crashed >>= f = crashed

-- The crate's calls: the parser of the descriptor's JSON, the latest `Instant` that exists, and what
-- `File::write` answers, behind the frames that were written.
module _ (from_str : List ℕ → Option StreamDescriptor) (latest_instant : ℕ)
    (write : List (List ℕ) → List ℕ → Option ℕ) where
  -- The argument of `unwrap_or` is computed first, and panics (`none`) beyond the latest `Instant`.
  unfoldable pub next_periodic_deadline : ℕ → ℕ → Option ℕ
  next_periodic_deadline deadline now =
      let elapsed_periods = (now - deadline) / frame_interval in
      let advance = frame_interval * (elapsed_periods + 1) in
      if ltb latest_instant (now + frame_interval)
      then none
      else if leb advance u64_max && leb (deadline + advance) latest_instant
      then some (deadline + advance)
      else some (now + frame_interval)

  -- The end of `poll`, with what the sink answered.
  unfoldable pub polled : ℕ → ℕ → List ℕ → Checked → Session → Stepped
  polled deadline now frame (invalid e) s = failed device s
  polled deadline now frame valid s = elim (next_periodic_deadline deadline now) [
    | none ↦ crashed
    | some next ↦ went_on (record {
      processor = record s.processor { wrote_frame = true; next_write = some next };
      frames = frame ∷ s.frames;
    })
  ]

  unfoldable pub poll : ℕ → Session → Stepped
  poll now s = elim s.processor.next_write [
    | none ↦ went_on s
    | some deadline ↦ if ltb now deadline then went_on s else elim s.processor.latest_frame [
      | none ↦ went_on s
      | some frame ↦ polled deadline now frame (write_frame (write s.frames frame) frame) s
    ]
  ]

  unfoldable pub handle_text : List ℕ → Session → Stepped
  handle_text text s =
      if s.processor.descriptor_received
      then failed protocol s
      else elim (parse_descriptor from_str text) [
        | rejected e ↦ failed protocol s
        | parsed d ↦
            went_on (record s { processor = record s.processor { descriptor_received = true } })
      ]

  -- `get_or_insert`.
  abbrev pub get_or_insert : Option ℕ → ℕ → Option ℕ
  get_or_insert none now = some now
  get_or_insert (some deadline) now = some deadline

  unfoldable pub store_frame : List ℕ → ℕ → Session → Session
  store_frame frame now s = record s {
    processor = record s.processor {
      latest_frame = some frame;
      next_write = get_or_insert s.processor.next_write now;
    };
  }

  unfoldable pub handle_binary : List ℕ → ℕ → Session → Stepped
  handle_binary frame now s =
      if s.processor.descriptor_received
      then elim (validate_jpeg frame) [
        | ok _ ↦ poll now (store_frame frame now s)
        | err e ↦ failed protocol s
        | panicked ↦ crashed
        | stuck ↦ crashed
      ]
      else failed protocol s
