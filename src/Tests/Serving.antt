-- ===== src/Tests/Serving.antt =====
-- Two clients at once of `ServeHTTP` in hystrix/eventstream.go.
use hystrix_go.Base.{ℕ, true, false, ◌≡◌, refl, ◌↔◌}
use hystrix_go.EventStream.Serving.{
  Shared, streaming, start, enter, begin_stream, end_stream, leave, Runs, starts, steps, enters,
  registers, unregisters, leaves,
}
use hystrix_go.EventStream.Serving.Owner.{owns, timing_of_owner}

-- The second client comes while the first one streams, and stays when the first one has gone.
abbrev first_streams : Shared
first_streams = begin_stream 1 true (enter 1 start)

abbrev both_stream : Shared
both_stream = begin_stream 2 false (enter 2 first_streams)

abbrev first_gone : Shared
first_gone = leave 1 true (end_stream 1 true both_stream)

first_run : Runs first_streams
unfolding start enter begin_stream
first_run = steps (steps starts (enters 1 refl)) (registers 1 true refl)

both_run : Runs both_stream
unfolding start enter begin_stream
both_run = steps (steps first_run (enters 2 refl)) (registers 2 false refl)

gone_run : Runs first_gone
unfolding start enter begin_stream end_stream
gone_run = steps (steps both_run (unregisters 1 true refl)) (leaves 1 true refl)

-- It goes on streaming, and nothing is collected.
stays_untimed : (first_gone.timing ≡ false) × (first_gone.handlers 2 ≡ streaming false)
unfolding start enter begin_stream end_stream leave
stays_untimed = (refl, refl)

timing_of_owner_example :
    (both_stream.timing ≡ true) ↔ ((p : ℕ) × (owns (both_stream.handlers p) ≡ true))
timing_of_owner_example = timing_of_owner both_run
