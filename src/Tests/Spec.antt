-- ===== src/Tests/Spec.antt =====
-- The abstract breaker and the abstract services at concrete calls.
use Prim.Native.String.{String}
use hystrix_go.Base.{ℕ, ◌≡◌, refl, true, false, Option, none, some, List, [], ◌∷◌, arith, ◌*◌}
use hystrix_go.Base.Dict.{lookup, insert}
use hystrix_go.Circuit.{CircuitBreaker}
use hystrix_go.Circuit.Spec.{Call, new_breaker, answers}
use hystrix_go.Circuit.Spec.Refined.{run_new, run_new-answers}
use hystrix_go.Hystrix.{
  Moments, Caller, admitted, rejected, short_circuited, timed_out, ran, err_max_concurrency,
  err_timeout, try_fallback, primary_event, errors_is,
}
use hystrix_go.Hystrix.Spec.{Act, begins, turned_down, ends, Reply, verdict, result}
use hystrix_go.Hystrix.Program.{Services, serve_names, act_names}
use hystrix_go.Hystrix.Program.Refined.{Agrees, first_memory, act_names-Agrees}
use hystrix_go.Settings.{configure_command, settings_of}
use hystrix_go.Metrics.{percent}
use hystrix_go.Tests.Sample.{second, halves, sample, at_second, ticks, strict, known}

abbrev tell_at : ℕ → String → Call
tell_at s event = Call.tell (record {
  built = s * second;
  at = at_second s;
  primary = event;
  secondary = "";
  start = s * second;
  run_duration = 0;
})

-- Two failures open the circuit, a test passes after the sleep window, and its success closes it.
abbrev day : List Call
day =
    tell_at 100 "failure"
    ∷ Call.ask (ticks 101)
    ∷ tell_at 101 "timeout"
    ∷ Call.ask (ticks 102)
    ∷ Call.ask (ticks 106)
    ∷ Call.ask (ticks 108)
    ∷ tell_at 108 "success"
    ∷ tell_at 109 "failure"
    ∷ Call.ask (ticks 118)
    ∷ Call.ask (ticks 124)
    ∷ []

day_run :
    (answers halves strict day new_breaker).0 ≡ true ∷ false ∷ false ∷ true ∷ false ∷ true ∷ []
unfolding answers percent lookup
day_run = refl

run_new-answers_example :
    (c : CircuitBreaker sample) × (run_new sample false [] "a" known day
      ≡ some (true ∷ false ∷ false ∷ true ∷ false ∷ true ∷ [], known, c))
    × (c.opened ≡ true)
    × (c.opened_or_last_tested_time ≡ 124 * second)
unfolding answers percent lookup
run_new-answers_example =
    run_new-answers sample false [] "a" known day (omega arith) (omega arith) (omega arith)
      (omega arith)

abbrev moments_at : ℕ → Moments
moments_at s = record {
  start = s * second;
  ticks = ticks s;
  run_start = s * second;
  run_end = s * second;
  returned = s * second;
  built = s * second;
  readings = at_second s;
}

abbrev bare : Caller
bare = record { fallback = none; ctx_err = none }

-- Two tickets for the name a: its third command is turned down, and its circuit opens on two failures.
-- The name b has the default settings.
abbrev busy_day : List (String × Act)
busy_day =
    ("a", begins (ticks 100))
    ∷ ("a", begins (ticks 100))
    ∷ ("b", begins (ticks 100))
    ∷ ("a", begins (ticks 100))
    ∷ ("a", turned_down (moments_at 100) bare err_max_concurrency)
    ∷ ("a", ends (moments_at 101) bare timed_out)
    ∷ ("a", begins (ticks 101))
    ∷ ("b", begins (ticks 101))
    ∷ ("b", ends (moments_at 102) bare timed_out)
    ∷ ("a", ends (moments_at 102) bare (ran none))
    ∷ []

abbrev replies : List Reply
replies =
    verdict admitted
    ∷ verdict admitted
    ∷ verdict admitted
    ∷ verdict rejected
    ∷ result (some err_max_concurrency)
    ∷ result (some err_timeout)
    ∷ verdict short_circuited
    ∷ verdict admitted
    ∷ result (some err_timeout)
    ∷ result none
    ∷ []

abbrev replies_of : Option (List Reply × Services) → List Reply
replies_of none = []
replies_of (some (replies, _)) = replies

busy_day_run : replies_of (serve_names halves known busy_day []) ≡ replies
unfolding serve_names percent lookup insert try_fallback primary_event errors_is configure_command
    settings_of
busy_day_run = refl

act_names-Agrees_example :
    Agrees sample false [] known
      (serve_names halves known busy_day [])
      (act_names sample false [] busy_day (first_memory sample false [] known))
unfolding lookup settings_of
act_names-Agrees_example =
    act_names-Agrees sample false [] known busy_day (omega arith) (omega arith)
