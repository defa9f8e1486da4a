-- ===== src/Bridge/Session/Reconnect.antt =====
-- services/camera-edge-bridge/src/bridge.rs: `connect`, `sleep_until_shutdown` and `run`, which
-- connects again behind every session. A list of attempts is what `run` meets.
use scrap_monitoring_simulat.Prelude.{
  ℕ, ◌+◌, ◌-◌, Bool, true, false, Option, none, some, List, [], ◌∷◌, if◌then◌else◌, leb, ltb, min,
  not,
}
use scrap_monitoring_simulat.Bridge.Backoff.{ExponentialBackoff, reset, next_delay}
use scrap_monitoring_simulat.Bridge.Backoff
use scrap_monitoring_simulat.Bridge.Descriptor.{StreamDescriptor}
use scrap_monitoring_simulat.Bridge.Device.{valid, invalid, Node, open_device}
use scrap_monitoring_simulat.Bridge.Session.{connection, protocol, device, shutdown, disconnected}
use scrap_monitoring_simulat.Bridge.Session.Rounds.{
  Round, Turn, again, ended, erred, aborted, run_session,
}

-- What an address answers: no connection, a connection whose options cannot be set, one whose
-- handshake fails, and a WebSocket.
pub data Answer : Type 0 where
  refused options_failed handshake_failed established : Answer

-- Whether `connect` gives a socket; `none` is a host that does not resolve.
unfoldable pub first_connected : List Answer → Bool
first_connected [] = false
first_connected (refused ∷ answers) = first_connected answers
first_connected (options_failed ∷ answers) = false
first_connected (handshake_failed ∷ answers) = false
first_connected (established ∷ answers) = true

unfoldable pub connect : Option (List Answer) → Bool
connect none = false
connect (some answers) = first_connected answers

abbrev pub shutdown_poll : ℕ
shutdown_poll = 100000000

-- A glance at the shutdown flag and then at the clock.
pub record Glance : Type 0 where
  pub flag : Bool
  pub now : ℕ

-- How the sleep ends: with the answer of the function, or not yet; and the naps it took.
pub record Slept : Type 0 where
  pub answer : Option Bool
  pub naps : List ℕ

unfoldable pub sleep_until : ℕ → List Glance → Slept
sleep_until deadline [] = record { answer = none; naps = [] }
sleep_until deadline (g ∷ glances) =
    let rest = sleep_until deadline glances in
    if g.flag
    then record { answer = some true; naps = [] }
    else if leb deadline g.now
    then record { answer = some false; naps = [] }
    else record rest { naps = min (deadline - g.now) shutdown_poll ∷ rest.naps }

-- The sum of an `Instant` and a `Duration` panics (`none`) beyond the latest `Instant`.
unfoldable pub sleep_until_shutdown : ℕ → ℕ → ℕ → List Glance → Option Slept
sleep_until_shutdown latest_instant duration now glances =
    if ltb latest_instant (now + duration)
    then none
    else some (sleep_until (now + duration) glances)

-- One round of the loop of `run`.
pub record Attempt : Type 0 where
  pub stopping : Bool
  pub addresses : Option (List Answer)
  pub node : Node
  pub started_at : ℕ
  pub rounds : List Round
  pub sleeps_at : ℕ
  pub glances : List Glance

pub data RunOutcome : Type 0 where
  stopped device_failed still_running panicked : RunOutcome

-- How `run` ends, and the delays it has waited or waits for.
pub record Run : Type 0 where
  pub outcome : RunOutcome
  pub delays : List ℕ

abbrev finished : RunOutcome → Run
finished outcome = record { outcome = outcome; delays = [] }

-- What is left of a round of the loop: nothing if `run` ends there, else the backoff.
pub data Left : Type 0 where
  left : ExponentialBackoff → Left
  over : RunOutcome → Left

module _ (from_str : List ℕ → Option StreamDescriptor) (latest_instant : ℕ)
    (write : List (List ℕ) → List ℕ → Option ℕ) (io_timeout : ℕ) where
  -- The `match` on what the session ended with.
  unfoldable pub after_session : Turn → Left
  after_session (again l) = over still_running
  after_session (ended shutdown l) = over stopped
  after_session (ended (disconnected wrote_frame) l) =
      left (if wrote_frame then reset l.backoff else l.backoff)
  after_session (erred connection l) = left l.backoff
  after_session (erred protocol l) = left l.backoff
  after_session (erred device l) = over device_failed
  after_session aborted = over panicked

  unfoldable pub attempt : Attempt → ExponentialBackoff → Left
  attempt a backoff =
      if not (connect a.addresses) then left backoff else elim (open_device a.node) [
        | invalid e ↦ over device_failed
        | valid ↦
            after_session
              (run_session from_str latest_instant write io_timeout a.started_at a.rounds backoff)
      ]

  -- Behind an attempt: the delay, the sleep and the next attempts.
  unfoldable pub wait_and : (ExponentialBackoff → Run) → Attempt → Left → Run
  wait_and next a (over outcome) = finished outcome
  wait_and next a (left backoff) =
      let (delay, backoff_after) = next_delay backoff in
      let rest = next backoff_after in
      elim (sleep_until_shutdown latest_instant delay a.sleeps_at a.glances) [
        | none ↦ record { outcome = panicked; delays = delay ∷ [] }
        | some slept ↦ elim slept.answer [
          | none ↦ record { outcome = still_running; delays = delay ∷ [] }
          | some true ↦ record { outcome = stopped; delays = delay ∷ [] }
          | some false ↦ record rest { delays = delay ∷ rest.delays }
        ]
      ]

  unfoldable pub run_attempts : List Attempt → ExponentialBackoff → Run
  run_attempts [] backoff = finished still_running
  run_attempts (a ∷ attempts) backoff =
      if a.stopping
      then finished stopped
      else wait_and (run_attempts attempts) a (attempt a backoff)

  -- `run`: the device is opened once before the loop.
  unfoldable pub run : ℕ → ℕ → Node → List Attempt → Run
  run reconnect_initial reconnect_max node attempts = elim (open_device node) [
    | invalid e ↦ finished device_failed
    | valid ↦ run_attempts attempts (Backoff.new reconnect_initial reconnect_max)
  ]
