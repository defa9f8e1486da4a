-- ===== src/Bridge/Session/Renewal.antt =====
-- services/camera-edge-bridge/src/bridge.rs: the delay behind a session. A session that has written
-- a frame leaves the backoff reset, however it ends.
use scrap_monitoring_simulat.Prelude.{
  ℕ, ◌≡◌, refl, inl, inr, Option-cases, arith, Bool, true, false, ◌&&◌, Option, none, List, [], ◌∷◌,
  if◌then◌else◌,
}
use scrap_monitoring_simulat.Bridge.Backoff.{ExponentialBackoff, reset}
use scrap_monitoring_simulat.Bridge.Descriptor.{StreamDescriptor}
use scrap_monitoring_simulat.Bridge.Session.{
  poll, polled, store_frame, handle_text, handle_binary, Session, Stepped, went_on, failed, crashed,
  connection, protocol, device, shutdown, disconnected, new,
}
use scrap_monitoring_simulat.Bridge.Session.Rounds.{
  heard, Read, text, binary, close, closed, timed_out, broken, control, Round, Loop, Turn, again,
  ended, erred, aborted, ◌>>=◌, within_loop, on_read, poll_at, reset_if_written, turn, run_rounds,
  run_session,
}
use scrap_monitoring_simulat.Bridge.Session.Reconnect.{
  Attempt, left, after_session, attempt, connect,
}

-- The processor has written, or it has no deadline.
abbrev IsIdle : Session → Type 0
IsIdle s = s.processor.wrote_frame ≡ false → s.processor.next_write ≡ none

-- The backoff of a session that began with `start`.
abbrev IsLeft : ExponentialBackoff → Loop → Type 0
IsLeft start l = l.backoff ≡ (if l.session.processor.wrote_frame then reset start else start)

abbrev IsKept : ExponentialBackoff → Turn → Type 0
IsKept start (again l) = IsIdle l.session × IsLeft start l
IsKept start (ended shutdown l) = IsLeft start l
IsKept start (ended (disconnected w) l) = IsLeft start l × (w ≡ l.session.processor.wrote_frame)
IsKept start (erred device l) = Unit
IsKept start (erred connection l) = IsLeft start l
IsKept start (erred protocol l) = IsLeft start l
IsKept start aborted = Unit

-- A step that may write: it wrote before, or it is idle and does nothing.
abbrev IsStill : Session → Stepped → Type 0
IsStill s (went_on t) = IsIdle t × (t.processor.wrote_frame ≡ s.processor.wrote_frame)
IsStill s (failed device t) = Unit
IsStill s (failed connection t) = t ≡ s
IsStill s (failed protocol t) = t ≡ s
IsStill s crashed = Unit

-- A frame that comes in: behind it the processor has written.
abbrev IsWriting : Session → Stepped → Type 0
IsWriting s (went_on t) = t.processor.wrote_frame ≡ true
IsWriting s (failed device t) = Unit
IsWriting s (failed connection t) = t ≡ s
IsWriting s (failed protocol t) = t ≡ s
IsWriting s crashed = Unit

module _ (from_str : List ℕ → Option StreamDescriptor) (latest_instant : ℕ)
    (write : List (List ℕ) → List ℕ → Option ℕ) where
  poll-IsStill :
      (now : ℕ) (s : Session) → IsIdle s → IsStill s (poll from_str latest_instant write now s)
  unfolding poll polled
  poll-IsStill now s h = elim (Option-cases s.processor.next_write) [
    | inl n ↦ ground arith
    | inr (deadline, n) ↦ elim (Option-cases s.processor.latest_frame) [
      | inl m ↦ ground arith
      | inr (frame, m) ↦ ground arith
    ]
  ]

  handle_text-IsStill :
      (t : List ℕ) (s : Session)
      → IsIdle s
      → IsStill s (handle_text from_str latest_instant write t s)
  unfolding handle_text
  handle_text-IsStill t s h = ground arith

  handle_binary-IsWriting :
      (frame : List ℕ) (now : ℕ) (s : Session)
      → IsIdle s
      → IsWriting s (handle_binary from_str latest_instant write frame now s)
  unfolding handle_binary poll polled store_frame
  handle_binary-IsWriting frame now s h = elim (Option-cases s.processor.next_write) [
    | inl n ↦ ground arith
    | inr (deadline, n) ↦ ground arith
  ]

  module _ (io_timeout : ℕ) (start : ExponentialBackoff) where
    within-IsKept :
        (l : Loop) (step : Stepped)
        → IsLeft start l
        → IsStill l.session step
        → IsKept start (within_loop l step)
    within-IsKept l (went_on s) h k = ground arith
    within-IsKept l (failed connection s) h k = ground arith
    within-IsKept l (failed protocol s) h k = ground arith
    within-IsKept l (failed device s) h k = tt
    within-IsKept l crashed h k = tt

    bind-IsKept :
        (t : Turn) (f : Loop → Turn)
        → IsKept start t
        → ((l : Loop) → IsIdle l.session → IsLeft start l → IsKept start (f l))
        → IsKept start (t >>= f)
    bind-IsKept (again l) f h k = k l h.0 h.1
    bind-IsKept (ended shutdown l) f h k = h
    bind-IsKept (ended (disconnected w) l) f h k = h
    bind-IsKept (erred connection l) f h k = h
    bind-IsKept (erred protocol l) f h k = h
    bind-IsKept (erred device l) f h k = h
    bind-IsKept aborted f h k = h

    read_frame-IsKept :
        (l : Loop) (step : Stepped)
        → IsLeft start l
        → IsWriting l.session step
        → IsKept start (within_loop l step >>= λ k. again (reset_if_written k))
    unfolding reset_if_written reset
    read_frame-IsKept l (went_on s) h k = ground arith
    read_frame-IsKept l (failed connection s) h k = ground arith
    read_frame-IsKept l (failed protocol s) h k = ground arith
    read_frame-IsKept l (failed device s) h k = tt
    read_frame-IsKept l crashed h k = tt

    on_read-IsKept :
        (message : Read) (now : ℕ) (l : Loop)
        → IsIdle l.session
        → IsLeft start l
        → IsKept start (on_read from_str latest_instant write io_timeout message now l)
    unfolding on_read
    on_read-IsKept (text t) now l i h =
        within-IsKept (heard now l) _ h (handle_text-IsStill t l.session i)
    on_read-IsKept (binary frame) now l i h =
        read_frame-IsKept (heard now l) _ h (handle_binary-IsWriting frame now l.session i)
    on_read-IsKept close now l i h = (h, refl)
    on_read-IsKept closed now l i h = (h, refl)
    on_read-IsKept (control true) now l i h = (i, h)
    on_read-IsKept (control false) now l i h = h
    on_read-IsKept timed_out now l i h = ground arith
    on_read-IsKept broken now l i h = h

    poll_at-IsKept :
        (now : ℕ) (l : Loop)
        → IsIdle l.session
        → IsLeft start l
        → IsKept start (poll_at from_str latest_instant write io_timeout now l)
    poll_at-IsKept now l i h = within-IsKept l _ h (poll-IsStill now l.session i)

    if-IsKept :
        (b : Bool) (t u : Turn)
        → IsKept start t
        → IsKept start u
        → IsKept start (if b then t else u)
    if-IsKept true t u h k = h
    if-IsKept false t u h k = k

    turn-IsKept :
        (r : Round) (l : Loop)
        → IsIdle l.session
        → IsLeft start l
        → IsKept start (turn from_str latest_instant write io_timeout r l)
    unfolding turn
    turn-IsKept r l i h = if-IsKept r.is_shutdown _ _ h (
        bind-IsKept _ _
          (bind-IsKept _ _ (poll_at-IsKept r.first_poll l i h)
            (on_read-IsKept r.message r.received_at))
          (poll_at-IsKept r.last_poll))

    run_rounds-IsKept :
        (rounds : List Round) (l : Loop)
        → IsIdle l.session
        → IsLeft start l
        → IsKept start (run_rounds from_str latest_instant write io_timeout rounds l)
    unfolding run_rounds
    run_rounds-IsKept [] l i h = (i, h)
    run_rounds-IsKept (r ∷ rounds) l i h =
        bind-IsKept _ _ (turn-IsKept r l i h) (run_rounds-IsKept rounds)

    run_session-IsKept :
        (now : ℕ) (rounds : List Round)
        → IsKept start (run_session from_str latest_instant write io_timeout now rounds start)
    unfolding run_session new
    run_session-IsKept now rounds = run_rounds-IsKept rounds _ (λ h. refl) refl

    -- Whether the session wrote a frame to the device.
    abbrev pub wrote_any : Turn → Bool
    wrote_any (again l) = l.session.processor.wrote_frame
    wrote_any (ended o l) = l.session.processor.wrote_frame
    wrote_any (erred e l) = l.session.processor.wrote_frame
    wrote_any aborted = false

    after_session-left :
        (t : Turn) (b : ExponentialBackoff)
        → IsKept start t
        → after_session from_str latest_instant write io_timeout t ≡ left b
        → b ≡ (if wrote_any t then reset start else start)
    unfolding after_session reset
    after_session-left (again l) b h e = ground arith
    after_session-left (ended shutdown l) b h e = ground arith
    after_session-left (ended (disconnected w) l) b h e = ground arith
    after_session-left (erred connection l) b h e = ground arith
    after_session-left (erred protocol l) b h e = ground arith
    after_session-left (erred device l) b h e = ground arith
    after_session-left aborted b h e = ground arith

    -- Behind an attempt that `run` survives, the backoff is reset if a connection was made and its
    -- session wrote a frame, and is untouched otherwise: whether the session ended by a closed or
    -- broken connection, a timeout or a violation of the protocol.
    pub attempt-left :
        (a : Attempt) (b : ExponentialBackoff)
        → attempt from_str latest_instant write io_timeout a start ≡ left b
        → b ≡ (
            if connect a.addresses
              && wrote_any
                  (run_session from_str latest_instant write io_timeout a.started_at a.rounds start)
            then reset start
            else start)
    unfolding attempt
    attempt-left a b e = ground (
      arith,
      after_session-left
          (run_session from_str latest_instant write io_timeout a.started_at a.rounds start) b
          (run_session-IsKept a.started_at a.rounds),
    )
