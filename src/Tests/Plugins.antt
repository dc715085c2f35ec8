-- ===== src/Tests/Plugins.antt =====
-- Runs of the collectors of the plugins.
use hystrix_go.Base.{ℕ, ◌*◌, ◌≡◌, refl, All}
use hystrix_go.MetricCollector.{MetricResult}
use hystrix_go.Metrics.{build_result}
use hystrix_go.Metrics.Outcome.{build_result-IsOutcome}
use hystrix_go.Plugins.{counted}
use hystrix_go.Plugins.Counts.{statsd_table, statsd_counts}
use hystrix_go.Plugins.Datadog
use hystrix_go.Plugins.Gauge.{shown, circuit_shown, gauges_agree}
use hystrix_go.Plugins.Statsd
use hystrix_go.Plugins.Statsd.{new_statsd_collector, clean, replace_all}
use hystrix_go.Tests.Metrics.{failed}
use hystrix_go.Tests.Sample.{second, halves}

abbrev result : MetricResult ℕ
result = build_result (100 * second) failed

clean_run : clean "api/v1.users:get" ≡ "api-v1-users-get"
unfolding clean replace_all
clean_run = refl

statsd_counts_example :
    let g = new_statsd_collector "a/b" in
    All
      (λ (name, i). counted name (Statsd.update halves g result) ≡ i)
      (statsd_table halves g result)
statsd_counts_example = statsd_counts halves "a/b" result

gauges_agree_example :
    let g = new_statsd_collector "a/b" in
    (shown halves g.circuit_open_prefix (Statsd.update halves g result) 1
      ≡ circuit_shown halves result 1)
    × (shown halves "hystrix.circuitOpen" (Datadog.update halves result) 1
        ≡ circuit_shown halves result 1)
gauges_agree_example =
    gauges_agree halves "a/b" result 1 (build_result-IsOutcome (100 * second) failed)
