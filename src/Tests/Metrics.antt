-- ===== src/Tests/Metrics.antt =====
-- Runs of hystrix/metric_collector and of hystrix/metrics.go.
use hystrix_go.Base.{ℕ, ◌+◌, ◌*◌, ◌^◌, ◌≤◌, ◌<◌, ◌≡◌, true, false, List, [], ◌∷◌, arith}
use hystrix_go.Metrics.{CommandExecution, percent}
use hystrix_go.Metrics.Outcome.{Report, history, reported, counters_add_up}
use hystrix_go.Metrics.Percent.{percent_bounds}
use hystrix_go.MetricCollector.{new_default_metric_collector}
use hystrix_go.MetricCollector.Counters.{IsTally, update_all, update_all-IsTally}
use hystrix_go.Rolling.Number.{sum}
use hystrix_go.Rolling.Log.{amount}
use hystrix_go.Tests.Sample.{second, at_second, halves, halves-IsRounding}

abbrev pub failed : CommandExecution ℕ
failed = record {
  start = 99 * second;
  primary_event = "failure";
  secondary_event = "fallback-success";
  run_duration = second;
  concurrency_in_use = 0;
}

abbrev canceled : CommandExecution ℕ
canceled = record failed { primary_event = "context_canceled"; secondary_event = "" }

abbrev commands : List (Report ℕ)
commands =
    record { built = 100 * second; at = at_second 100; execution = failed }
    ∷ record { built = 101 * second; at = at_second 101; execution = canceled }
    ∷ []

update_all-IsTally_example :
    IsTally
      (105 * second)
      (history commands)
      (update_all true (history commands) new_default_metric_collector)
update_all-IsTally_example = update_all-IsTally true (history commands) (105 * second) (omega arith)

reported_small : reported (105 * second) commands < 2 ^ 63
unfolding amount
reported_small = omega arith

counters_add_up_example :
    let d = update_all false (history commands) new_default_metric_collector in
    (sum (105 * second) d.num_requests ≡ reported (105 * second) commands)
    × (sum (105 * second) d.errors
        ≡ sum (105 * second) d.failures
          + sum (105 * second) d.rejects
          + sum (105 * second) d.short_circuits
          + sum (105 * second) d.timeouts)
    × (sum (105 * second) d.successes
          + sum (105 * second) d.errors
          + sum (105 * second) d.context_canceled
          + sum (105 * second) d.context_deadline_exceeded
        ≤ sum (105 * second) d.num_requests)
counters_add_up_example = counters_add_up false commands (105 * second) (omega arith) reported_small

percent_bounds_example :
    (percent halves 4 0 ≡ 0)
    × (percent halves 4 4 ≡ 100)
    × (percent halves 4 1 ≤ percent halves 4 3)
    × (percent halves 4 3 ≤ 100)
percent_bounds_example =
    percent_bounds halves halves-IsRounding 4 (omega arith) (omega arith) 1 3 (omega arith)
      (omega arith)
