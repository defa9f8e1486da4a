-- ===== src/Examples/Scene.antt =====
-- services/simulation-server/src/scene_stream.rs: a publisher whose keyframes are numbers.
use scrap_monitoring_simulat.Prelude.{ℕ, ◌+◌, ◌≡◌, Bool, true, false, List, [], ◌∷◌}
use scrap_monitoring_simulat.Scene.Publisher.{
  is_some, new, close, Event, publishes, takes, sends, fails_to_write, run,
}
use scrap_monitoring_simulat.Scene.Publisher.Accounting.{
  IsAccounted, run-new-IsAccounted, close-run,
}

abbrev follows : ℕ → ℕ → Bool
follows left right = true

abbrev events : List (Event false follows)
events =
    publishes 1
    ∷ takes
    ∷ publishes 2
    ∷ publishes 3
    ∷ sends
    ∷ takes
    ∷ fails_to_write
    ∷ publishes 4
    ∷ takes
    ∷ []

run-new-IsAccounted_example : IsAccounted (run false follows events (new 0))
run-new-IsAccounted_example = run-new-IsAccounted false follows 0 events

close-run_example :
    ((close (run false follows events (new 0))).counters.accepted_records
      ≡ (close (run false follows events (new 0))).counters.sent_records
        + (close (run false follows events (new 0))).counters.dropped_records)
    × (is_some (close (run false follows events (new 0))).latest ≡ false)
    × (is_some (close (run false follows events (new 0))).in_flight ≡ false)
close-run_example = close-run false follows 0 events
