-- ===== src/Tests/Hystrix.antt =====
-- Runs of hystrix/hystrix.go.
use hystrix_go.Base.{
  [], ◌∷◌, ◌+◌, ◌*◌, ◌≤◌, ◌≡◌, refl, ◌↔◌, true, Option, none, some, arith, if◌then◌else◌,
}
use hystrix_go.Base.Dict.{lookup}
use hystrix_go.Circuit.{CircuitBreaker, is_open, allow_request}
use hystrix_go.Circuit.Open.{IsCircuit}
use hystrix_go.Hystrix.{
  Err, other, join, wrap, message, admitted, ran, timed_out, Moments, Caller, errors_is,
  try_fallback, err_timeout, do_c_begin,
}
use hystrix_go.Hystrix.Errors.{recovers, try_fallback-none_iff}
use hystrix_go.Hystrix.Run.{Ended, do_c_end-Ended}
use hystrix_go.Hystrix.System.{State, begin, Reach, here, next, fresh, concurrency_bound}
use hystrix_go.Hystrix.System.Progress.{AllEnded, end_progress}
use hystrix_go.Hystrix.Plain.{call_go, call_go-quiet, expired}
use hystrix_go.Metrics.{default_collector, requests}
use hystrix_go.Pool.{acquire}
use hystrix_go.Pool.Tickets.{HasOut}
use hystrix_go.Rolling.Number.{sum, sum_loop, new_number}
use hystrix_go.Settings.{SettingsMap, get_settings, get_settings_loop}
use hystrix_go.MetricCollector.{DefaultMetricCollector}
use hystrix_go.Tests.Sample.{second, sample, at_second, ticks, known, quiet, circuit_with}

abbrev calm : CircuitBreaker sample
calm = circuit_with quiet

calm-IsCircuit : IsCircuit sample quiet calm
calm-IsCircuit = record { named = refl; first = refl }

calm-HasOut : HasOut 0 calm.executor_pool
calm-HasOut = record { sound = refl; word = omega arith; balance = refl }

abbrev busy : CircuitBreaker sample
busy = record calm { executor_pool = record calm.executor_pool { tickets = 1 } }

busy-IsCircuit : IsCircuit sample quiet busy
busy-IsCircuit = record { named = refl; first = refl }

busy-HasOut : HasOut 1 busy.executor_pool
busy-HasOut = record { sound = refl; word = omega arith; balance = refl }

abbrev busy_state : State sample true
busy_state = record { settings = known; circuit = busy; running = 1; turned_down = 0 }

begin_run : do_c_begin sample (ticks 100) known calm ≡ some (admitted, known, busy)
unfolding do_c_begin allow_request is_open requests default_collector get_settings get_settings_loop
    lookup sum sum_loop new_number acquire
begin_run = refl

one_running : Reach sample true (fresh sample true known calm) busy_state
one_running = next here (begin (ticks 100) begin_run)

concurrency_bound_example : (1 ≤ 2) × (busy.executor_pool.tickets + 1 ≡ 2)
concurrency_bound_example =
    concurrency_bound sample true quiet calm known calm-IsCircuit calm-HasOut one_running

abbrev moments : Moments
moments = record {
  start = 100 * second;
  ticks = ticks 100;
  run_start = 100 * second;
  run_end = 101 * second;
  returned = 101 * second;
  built = 101 * second;
  readings = at_second 101;
}

-- The fallback recovers from a timeout only.
abbrev caller : Caller
caller = record {
  fallback = some (λ e. if errors_is e (message "timeout") then none else some (other 7));
  ctx_err = none;
}

end_progress_example : AllEnded sample true 2 ((moments, caller, timed_out) ∷ []) busy
end_progress_example =
    end_progress sample true quiet calm known calm-IsCircuit calm-HasOut one_running
      ((moments, caller, timed_out) ∷ []) refl

do_c_end-Ended_example : Ended sample true moments caller (ran (some (other 3))) quiet 0 busy
do_c_end-Ended_example =
    do_c_end-Ended sample true moments caller quiet 0 busy busy-IsCircuit busy-HasOut
      (ran (some (other 3)))

try_fallback-none_iff_example :
    ((try_fallback caller.fallback err_timeout).1 ≡ none)
    ↔ (recovers caller.fallback err_timeout ≡ true)
try_fallback-none_iff_example = try_fallback-none_iff caller.fallback err_timeout

fallback_run :
    (try_fallback caller.fallback (wrap (other 3))).1 ≡ some (join (other 7) (wrap (other 3)))
unfolding try_fallback errors_is
fallback_run = refl

abbrev give_up : Err → Option Err
give_up e = some (other 7)

gave_up : (try_fallback (some give_up) err_timeout).1 ≡ some (join (other 7) err_timeout)
unfolding try_fallback
gave_up = refl

is_timeout : errors_is err_timeout (message "timeout") ≡ true
unfolding errors_is
is_timeout = refl

call_go-quiet_example :
    (m : SettingsMap) × (c : CircuitBreaker sample) × (call_go Unit tt sample true moments
        (some (λ _. none))
        (expired)
        known
        calm
      ≡ some ([], m, c))
    × (d : DefaultMetricCollector) × IsCircuit sample d c
    × HasOut 0 c.executor_pool
call_go-quiet_example =
    call_go-quiet Unit tt sample true moments (λ _. none) (λ _. refl) quiet 0 known calm expired
      calm-IsCircuit calm-HasOut
