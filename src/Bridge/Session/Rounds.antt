-- ===== src/Bridge/Session/Rounds.antt =====
-- services/camera-edge-bridge/src/bridge.rs: `run_session`, the loop of a session. A list of rounds
-- is what the loop meets; behind the last of them it still runs.
use scrap_monitoring_simulat.Prelude.{
  ℕ, ◌-◌, Bool, true, false, Option, List, [], ◌∷◌, if◌then◌else◌, leb,
}
use scrap_monitoring_simulat.Bridge.Backoff.{ExponentialBackoff, reset}
use scrap_monitoring_simulat.Bridge.Descriptor.{StreamDescriptor}
use scrap_monitoring_simulat.Bridge.Session.{
  SessionError, connection, SessionOutcome, shutdown, disconnected, Session, Stepped, went_on,
  failed, crashed, new, poll, handle_text, handle_binary,
}

-- What `socket.read()` gives. `control` is a ping, a pong or a raw frame, with what `flush` answers.
pub data Read : Type 0 where
  text binary : List ℕ → Read
  close closed timed_out broken : Read
  control : Bool → Read

-- The shutdown flag, the clock at the two polls and behind the read, and what is read.
pub record Round : Type 0 where
  pub is_shutdown : Bool
  pub first_poll : ℕ
  pub message : Read
  pub received_at : ℕ
  pub last_poll : ℕ

-- The variables of the loop.
pub record Loop : Type 0 where
  pub session : Session
  pub backoff : ExponentialBackoff
  pub last_message_at : ℕ

pub data Turn : Type 0 where
  again : Loop → Turn
  ended : SessionOutcome → Loop → Turn
  erred : SessionError → Loop → Turn
  aborted : Turn

infixl 5 ◌>>=◌
abbrev pub ◌>>=◌ : Turn → (Loop → Turn) → Turn
again l >>= f = f l
ended o l >>= f = ended o l
erred e l >>= f = erred e l
aborted >>= f = aborted

-- A step of the processor in the loop.
abbrev pub within_loop : Loop → Stepped → Turn
within_loop l (went_on s) = again (record l { session = s })
within_loop l (failed e s) = erred e (record l { session = s })
within_loop l crashed = aborted

unfoldable pub stream_timed_out : ℕ → ℕ → ℕ → Bool
stream_timed_out last_message_at now timeout = leb timeout (now - last_message_at)

-- `if processor.wrote_frame { backoff.reset() }`.
unfoldable pub reset_if_written : Loop → Loop
reset_if_written l =
    if l.session.processor.wrote_frame then record l { backoff = reset l.backoff } else l

abbrev pub disconnect : Loop → Turn
disconnect l = ended (disconnected l.session.processor.wrote_frame) l

abbrev pub heard : ℕ → Loop → Loop
heard now l = record l { last_message_at = now }

module _ (from_str : List ℕ → Option StreamDescriptor) (latest_instant : ℕ)
    (write : List (List ℕ) → List ℕ → Option ℕ) (io_timeout : ℕ) where
  -- The `match` on `socket.read()`.
  unfoldable pub on_read : Read → ℕ → Loop → Turn
  on_read (text t) now l =
      within_loop (heard now l) (handle_text from_str latest_instant write t l.session)
  on_read (binary frame) now l =
      within_loop (heard now l) (handle_binary from_str latest_instant write frame now l.session)
      >>= λ k. again (reset_if_written k)
  on_read close now l = disconnect l
  on_read closed now l = disconnect l
  on_read (control true) now l = again (heard now l)
  on_read (control false) now l = erred connection (heard now l)
  on_read timed_out now l =
      if stream_timed_out l.last_message_at now io_timeout then disconnect l else again l
  on_read broken now l = erred connection l

  abbrev pub poll_at : ℕ → Loop → Turn
  poll_at now l = within_loop l (poll from_str latest_instant write now l.session)

  unfoldable pub turn : Round → Loop → Turn
  turn r l =
      if r.is_shutdown
      then ended shutdown l
      else (poll_at r.first_poll l >>= on_read r.message r.received_at >>= poll_at r.last_poll)

  unfoldable pub run_rounds : List Round → Loop → Turn
  run_rounds [] l = again l
  run_rounds (r ∷ rounds) l = turn r l >>= run_rounds rounds

  unfoldable pub run_session : ℕ → List Round → ExponentialBackoff → Turn
  run_session now rounds backoff = run_rounds rounds (record {
    session = record { processor = new; frames = [] };
    backoff = backoff;
    last_message_at = now;
  })
