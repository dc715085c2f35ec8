-- ===== src/Plugins/Deprecated.antt =====
-- plugins/datadog_collector.go, plugins/statsd_collector.go and plugins/graphite_aggregator.go: the
-- older names of the collectors.
use Prim.Native.String.{String}
use hystrix_go.Base.{ℕ, Bool, Option, ◌⊎◌}
use hystrix_go.Plugins.Datadog
use hystrix_go.Plugins.Graphite
use hystrix_go.Plugins.Statsd.Client

abbrev pub dm_circuit_open : String
dm_circuit_open = Datadog.circuit_open

abbrev pub dm_attempts : String
dm_attempts = Datadog.attempts

abbrev pub dm_errors : String
dm_errors = Datadog.errors

abbrev pub dm_successes : String
dm_successes = Datadog.successes

abbrev pub dm_failures : String
dm_failures = Datadog.failures

abbrev pub dm_rejects : String
dm_rejects = Datadog.rejects

abbrev pub dm_short_circuits : String
dm_short_circuits = Datadog.short_circuits

abbrev pub dm_timeouts : String
dm_timeouts = Datadog.timeouts

abbrev pub dm_fallback_successes : String
dm_fallback_successes = Datadog.fallback_successes

abbrev pub dm_fallback_failures : String
dm_fallback_failures = Datadog.fallback_failures

abbrev pub dm_total_duration : String
dm_total_duration = Datadog.total_duration

abbrev pub dm_run_duration : String
dm_run_duration = Datadog.run_duration

abbrev pub DatadogCollector : Type 0 → Type 0
DatadogCollector = Datadog.Collector

module _ {C : Type 0} where
  abbrev pub new_datadog_collector_with_client : C → String → Datadog.Collector C
  new_datadog_collector_with_client client = Datadog.new_collector_with_client client

  module _ {Error : Type 0} (new_buffered : String → ℕ → Error ⊎ C)
      (with_namespace : String → C → C) where
    abbrev pub new_datadog_collector : String → String → Error ⊎ (String → Datadog.Collector C)
    new_datadog_collector addr prefix =
        Datadog.new_collector new_buffered with_namespace addr prefix

abbrev pub wan_statsd_flush_bytes : ℕ
wan_statsd_flush_bytes = Client.wan_statsd_flush_bytes

abbrev pub lan_statsd_flush_bytes : ℕ
lan_statsd_flush_bytes = Client.lan_statsd_flush_bytes

abbrev pub gigabit_statsd_flush_bytes : ℕ
gigabit_statsd_flush_bytes = Client.gigabit_statsd_flush_bytes

module _ (C Rate Error : Type 0) (is_zero : Rate → Bool) (one : Rate)
    (new_client_with_config : Client.ClientConfig → Client.Statter C × Option Error) where
  abbrev pub initialize_statsd_collector :
      Client.CollectorConfig C Rate Error is_zero one new_client_with_config
      → Client.CollectorClient C Rate Error is_zero one new_client_with_config × Option Error
  initialize_statsd_collector config =
      Client.initialize_collector C Rate Error is_zero one new_client_with_config config

abbrev pub new_graphite_collector : String → Graphite.Collector
new_graphite_collector name = Graphite.new_collector name
