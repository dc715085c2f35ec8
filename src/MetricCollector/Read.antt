-- ===== src/MetricCollector/Read.antt =====
-- hystrix/metric_collector/default_metric_collector.go: what the other packages read of a default
-- collector.
use hystrix_go.MetricCollector.{DefaultMetricCollector}
use hystrix_go.Rolling.Number.{Number}
use hystrix_go.Rolling.Timing.{Timing}

abbrev pub num_requests : DefaultMetricCollector → Number
num_requests d = d.num_requests

abbrev pub errors : DefaultMetricCollector → Number
errors d = d.errors

abbrev pub successes : DefaultMetricCollector → Number
successes d = d.successes

abbrev pub failures : DefaultMetricCollector → Number
failures d = d.failures

abbrev pub rejects : DefaultMetricCollector → Number
rejects d = d.rejects

abbrev pub short_circuits : DefaultMetricCollector → Number
short_circuits d = d.short_circuits

abbrev pub timeouts : DefaultMetricCollector → Number
timeouts d = d.timeouts

abbrev pub fallback_successes : DefaultMetricCollector → Number
fallback_successes d = d.fallback_successes

abbrev pub context_canceled : DefaultMetricCollector → Number
context_canceled d = d.context_canceled

abbrev pub context_deadline_exceeded : DefaultMetricCollector → Number
context_deadline_exceeded d = d.context_deadline_exceeded

abbrev pub fallback_failures : DefaultMetricCollector → Number
fallback_failures d = d.fallback_failures

abbrev pub total_duration : DefaultMetricCollector → Timing
total_duration d = d.total_duration

abbrev pub run_duration : DefaultMetricCollector → Timing
run_duration d = d.run_duration
