-- ===== src/Plugins/Graphite.antt =====
-- plugins/graphite/collector.go: the names and the calls of the graphite collector.
--
-- The metrics of go-metrics are external: two tests say whether what is registered under a name is
-- a counter, or a timer.
use Prim.Native.String
use Prim.Native.String.{String}
use hystrix_go.Base.{ℕ, ◌≡◌, Bool, true, List, [], ◌∷◌, ◌++◌, ◌==◌, All, if◌then◌else◌, arith}
use hystrix_go.MetricCollector.{MetricResult}
use hystrix_go.Plugins.{Call, inc, timing_duration, counted, counted-append}
use hystrix_go.Plugins.Counts.{str_eq-append}
use hystrix_go.Plugins.Statsd.{clean}
use text.Mathlib.Text.{◌==◌ as str_eq}

pub record Collector : Type 0 where
  pub attempts_prefix : String
  pub errors_prefix : String
  pub successes_prefix : String
  pub failures_prefix : String
  pub rejects_prefix : String
  pub short_circuits_prefix : String
  pub timeouts_prefix : String
  pub fallback_successes_prefix : String
  pub fallback_failures_prefix : String
  pub total_duration_prefix : String
  pub run_duration_prefix : String

unfoldable pub new_collector : String → Collector
new_collector circuit =
    let name = clean circuit in
    record {
      attempts_prefix = String.◌++◌ name ".attempts";
      errors_prefix = String.◌++◌ name ".errors";
      successes_prefix = String.◌++◌ name ".successes";
      failures_prefix = String.◌++◌ name ".failures";
      rejects_prefix = String.◌++◌ name ".rejects";
      short_circuits_prefix = String.◌++◌ name ".shortCircuits";
      timeouts_prefix = String.◌++◌ name ".timeouts";
      fallback_successes_prefix = String.◌++◌ name ".fallbackSuccesses";
      fallback_failures_prefix = String.◌++◌ name ".fallbackFailures";
      total_duration_prefix = String.◌++◌ name ".totalDuration";
      run_duration_prefix = String.◌++◌ name ".runDuration";
    }

module _ (F : Type 0) (is_counter is_timer : String → Bool) where
  unfoldable pub increment_counter_metric : String → ℕ → List (Call F)
  increment_counter_metric prefix i =
      if i == 0 then [] else if is_counter prefix then inc prefix i ∷ [] else []

  unfoldable pub update_timer_metric : String → ℕ → List (Call F)
  update_timer_metric prefix dur = if is_timer prefix then timing_duration prefix dur ∷ [] else []

  unfoldable pub update : Collector → MetricResult F → List (Call F)
  update g r =
      increment_counter_metric g.attempts_prefix r.attempts
      ++ increment_counter_metric g.errors_prefix r.errors
      ++ increment_counter_metric g.successes_prefix r.successes
      ++ increment_counter_metric g.failures_prefix r.failures
      ++ increment_counter_metric g.rejects_prefix r.rejects
      ++ increment_counter_metric g.short_circuits_prefix r.short_circuits
      ++ increment_counter_metric g.timeouts_prefix r.timeouts
      ++ increment_counter_metric g.fallback_successes_prefix r.fallback_successes
      ++ increment_counter_metric g.fallback_failures_prefix r.fallback_failures
      ++ update_timer_metric g.total_duration_prefix r.total_duration
      ++ update_timer_metric g.run_duration_prefix r.run_duration

  -- The nine counters of a result that graphite gets, under the names of a collector.
  abbrev pub table : Collector → MetricResult F → List (String × ℕ)
  table g r =
      (g.attempts_prefix, r.attempts)
      ∷ (g.errors_prefix, r.errors)
      ∷ (g.successes_prefix, r.successes)
      ∷ (g.failures_prefix, r.failures)
      ∷ (g.rejects_prefix, r.rejects)
      ∷ (g.short_circuits_prefix, r.short_circuits)
      ∷ (g.timeouts_prefix, r.timeouts)
      ∷ (g.fallback_successes_prefix, r.fallback_successes)
      ∷ (g.fallback_failures_prefix, r.fallback_failures)
      ∷ []

  counted-timer :
      (key name : String) (dur : ℕ) → counted {F = F} key (update_timer_metric name dur) ≡ 0
  unfolding update_timer_metric
  counted-timer key name dur = ground arith

  module _ (counters : (name : String) → is_counter name ≡ true) where
    counted-increment :
        (key name : String) (i : ℕ)
        → counted {F = F} key (increment_counter_metric name i) ≡ (if str_eq name key then i else 0)
    unfolding increment_counter_metric
    counted-increment key name i = ground (arith, counters name)

    ruleset counting = (counted-append, counted-increment, counted-timer, str_eq-append)

    -- For a circuit of any name, and where the names belong to counters, the graphite collector
    -- counts each of its nine counters by exactly the amount of the result.
    pub graphite_counts :
        (circuit : String) (r : MetricResult F)
        → let g = new_collector circuit in
          All (λ (name, i). counted name (update g r) ≡ i) (table g r)
    unfolding new_collector update
    graphite_counts circuit r = (
      simp counting (omega arith),
      (
        simp counting (omega arith),
        (
          simp counting (omega arith),
          (
            simp counting (omega arith),
            (
              simp counting (omega arith),
              (
                simp counting (omega arith),
                (
                  simp counting (omega arith),
                  (simp counting (omega arith), (simp counting (omega arith), tt)),
                ),
              ),
            ),
          ),
        ),
      ),
    )
