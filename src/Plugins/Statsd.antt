-- ===== src/Plugins/Statsd.antt =====
-- plugins/statsd/collector.go: the names and the calls of the statsd collector.
pub mod Client
use Prim.Native.String
use Prim.Native.String.{String}
use Prim.Native.Char.{Char, code}
use hystrix_go.Base.{ℕ, List, [], ◌∷◌, ◌++◌, ◌==◌, if◌then◌else◌, slt}
use hystrix_go.Float.{Float64}
use hystrix_go.MetricCollector.{MetricResult}
use hystrix_go.Plugins.{Call, inc, gauge, timing_duration, timing}

-- `strings.ReplaceAll` of one character by one other.
unfoldable pub replace_all : Char → Char → String → String
replace_all old new String.[] = String.[]
replace_all old new (String.◌∷◌ c s) =
    let rest = replace_all old new s in
    if code c == code old then String.◌∷◌ new rest else String.◌∷◌ c rest

pub record Collector : Type 0 where
  pub circuit_open_prefix : String
  pub attempts_prefix : String
  pub errors_prefix : String
  pub successes_prefix : String
  pub failures_prefix : String
  pub rejects_prefix : String
  pub short_circuits_prefix : String
  pub timeouts_prefix : String
  pub fallback_successes_prefix : String
  pub fallback_failures_prefix : String
  pub canceled_prefix : String
  pub deadline_prefix : String
  pub total_duration_prefix : String
  pub run_duration_prefix : String
  pub concurrency_in_use_prefix : String

unfoldable pub clean : String → String
unfolding replace_all
clean name = replace_all "." "-" (replace_all ":" "-" (replace_all "/" "-" name))

unfoldable pub new_statsd_collector : String → Collector
new_statsd_collector circuit =
    let name = clean circuit in
    record {
      circuit_open_prefix = String.◌++◌ name ".circuitOpen";
      attempts_prefix = String.◌++◌ name ".attempts";
      errors_prefix = String.◌++◌ name ".errors";
      successes_prefix = String.◌++◌ name ".successes";
      failures_prefix = String.◌++◌ name ".failures";
      rejects_prefix = String.◌++◌ name ".rejects";
      short_circuits_prefix = String.◌++◌ name ".shortCircuits";
      timeouts_prefix = String.◌++◌ name ".timeouts";
      fallback_successes_prefix = String.◌++◌ name ".fallbackSuccesses";
      fallback_failures_prefix = String.◌++◌ name ".fallbackFailures";
      canceled_prefix = String.◌++◌ name ".contextCanceled";
      deadline_prefix = String.◌++◌ name ".contextDeadlineExceeded";
      total_duration_prefix = String.◌++◌ name ".totalDuration";
      run_duration_prefix = String.◌++◌ name ".runDuration";
      concurrency_in_use_prefix = String.◌++◌ name ".concurrencyInUse";
    }

module _ (float : Float64) where
  open float use {F}

  unfoldable pub increment_counter_metric : String → ℕ → List (Call F)
  increment_counter_metric prefix i = if i == 0 then [] else inc prefix i ∷ []

  abbrev set_gauge : String → ℕ → List (Call F)
  set_gauge prefix value = gauge prefix value ∷ []

  abbrev update_timer_metric : String → ℕ → List (Call F)
  update_timer_metric prefix dur = timing_duration prefix dur ∷ []

  abbrev update_timing_metric : String → ℕ → List (Call F)
  update_timing_metric prefix i = timing prefix i ∷ []

  -- The gauge that says whether the circuit is open.
  unfoldable pub circuit_open_gauge : Collector → MetricResult F → List (Call F)
  circuit_open_gauge g r =
      if slt 0 r.successes
      then set_gauge g.circuit_open_prefix 0
      else if slt 0 r.short_circuits
      then set_gauge g.circuit_open_prefix 1
      else []

  unfoldable pub update : Collector → MetricResult F → List (Call F)
  update g r =
      circuit_open_gauge g r
      ++ increment_counter_metric g.attempts_prefix r.attempts
      ++ increment_counter_metric g.errors_prefix r.errors
      ++ increment_counter_metric g.successes_prefix r.successes
      ++ increment_counter_metric g.failures_prefix r.failures
      ++ increment_counter_metric g.rejects_prefix r.rejects
      ++ increment_counter_metric g.short_circuits_prefix r.short_circuits
      ++ increment_counter_metric g.timeouts_prefix r.timeouts
      ++ increment_counter_metric g.fallback_successes_prefix r.fallback_successes
      ++ increment_counter_metric g.fallback_failures_prefix r.fallback_failures
      ++ increment_counter_metric g.canceled_prefix r.context_canceled
      ++ increment_counter_metric g.deadline_prefix r.context_deadline_exceeded
      ++ update_timer_metric g.total_duration_prefix r.total_duration
      ++ update_timer_metric g.run_duration_prefix r.run_duration
      ++ update_timing_metric g.concurrency_in_use_prefix
          (float.to_int (float.times (float.of_int 100) r.concurrency_in_use))
