-- ===== src/Bridge/Session/Pace.antt =====
-- services/camera-edge-bridge/src/bridge.rs: when frames are written.
use scrap_monitoring_simulat.Prelude.{
  ℕ, ◌+◌, ◌-◌, ◌*◌, ◌/◌, ◌%◌, ◌^◌, ◌≤◌, ◌<◌, ◌≡◌, inl, inr, Option-cases, max, arith, Option, some,
  List,
}
use scrap_monitoring_simulat.Bridge.Descriptor.{StreamDescriptor}
use scrap_monitoring_simulat.Bridge.Session.{
  frame_interval, next_periodic_deadline, poll, polled, Session, went_on, frame_interval,
}

module _ (from_str : List ℕ → Option StreamDescriptor) (latest_instant : ℕ)
    (write : List (List ℕ) → List ℕ → Option ℕ) where
  -- For instants that exist with an interval to spare, and less than 2 ^ 63 nanoseconds behind the
  -- deadline, there is a next deadline: it is later than `now`, at most an interval later than `now`
  -- and the old deadline, a whole number of intervals behind the old deadline, and later than it.
  pub next_periodic_deadline_lem :
      (deadline now : ℕ)
      → now - deadline < 2 ^ 63
      → max now deadline + frame_interval ≤ latest_instant
      → (next : ℕ) × (next_periodic_deadline from_str latest_instant write deadline now ≡ some next)
        × (now < next)
        × (next ≤ max now deadline + frame_interval)
        × ((next - deadline) % frame_interval ≡ 0)
        × (deadline < next)
  unfolding next_periodic_deadline
  next_periodic_deadline_lem deadline now h k = (
    deadline + frame_interval * ((now - deadline) / frame_interval + 1),
    ground arith,
    omega arith,
    omega arith,
    omega arith,
    omega arith,
  )

  -- The next deadline is later than `now`, whatever the clock shows.
  next_periodic_deadline-later :
      (deadline now next : ℕ)
      → next_periodic_deadline from_str latest_instant write deadline now ≡ some next
      → now < next
  unfolding next_periodic_deadline
  next_periodic_deadline-later deadline now next e = ground arith

  -- Whatever the clock and the device do: behind a `poll` that went on, a `poll` at the same instant
  -- or an earlier one changes nothing and writes nothing.
  pub poll-poll :
      (s t : Session) (now earlier : ℕ)
      → earlier ≤ now
      → poll from_str latest_instant write now s ≡ went_on t
      → poll from_str latest_instant write earlier t ≡ went_on t
  unfolding poll polled
  poll-poll s t now earlier h e = elim (Option-cases s.processor.next_write) [
    | inl n ↦ ground arith
    | inr (deadline, n) ↦ elim (Option-cases s.processor.latest_frame) [
      | inl m ↦ ground arith
      | inr (frame, m) ↦
          elim (Option-cases (next_periodic_deadline from_str latest_instant write deadline now)) [
            | inl k ↦ ground arith
            | inr (next, k) ↦ ground (arith, next_periodic_deadline-later deadline now next k)
          ]
    ]
  ]
