-- ===== src/EventStream/Publish.antt =====
-- hystrix/eventstream.go: what `loop` publishes on a tick, `publishMetrics`, `publishThreadPools`
-- and `generateLatencyTimings`.
--
-- `none` stands for a panic. Each reading of the clock is an argument. One goroutine at a time. The
-- call `cb.IsOpen()` may open the circuit, a percentile may store the sorted durations anew, and
-- `getSettings` may store defaults: the circuit and the settings are returned.
pub mod Latency
pub mod Shown
use Prim.Native.String.{String}
use hystrix_go.Base.{
  ℕ, ◌+◌, ◌-◌, ◌%◌, ◌^◌, Bool, true, false, Option, none, some, List, [], ◌∷◌, sdiv,
}
use hystrix_go.Circuit.{CircuitBreaker, Ticks, is_open}
use hystrix_go.EventStream.{Requests, write_to_requests}
use hystrix_go.EventStream.Event.{StreamCmdLatency, StreamCmdMetric, StreamThreadPoolMetric}
use hystrix_go.Float
use hystrix_go.Float.{Float64}
use hystrix_go.MetricCollector.Read
use hystrix_go.MetricCollector.{DefaultMetricCollector, MetricCollector, Env}
use hystrix_go.Metrics.{◌>>=◌, MetricExchange, requests, default_collector, error_percent}
use hystrix_go.Pool.{ExecutorPool, active_count}
use hystrix_go.Rolling.Number.{sum, max}
use hystrix_go.Rolling.Timing.{Timing, percentile, mean}
use hystrix_go.Settings.{Settings, SettingsMap, get_settings}

-- The readings of the clock in one `SortedDurations`.
pub record Stamps : Type 0 where
  pub tested : ℕ
  pub now : ℕ
  pub cached : ℕ

-- The readings of the clock in one `publishMetrics`, the percentiles numbered from 0.
pub record Glance : Type 0 where
  pub now : ℕ
  pub time : ℕ
  pub opening : Ticks
  pub total : ℕ → Stamps
  pub total_mean : Stamps
  pub run : ℕ → Stamps
  pub run_mean : Stamps

-- Go's library: `sort.Sort`, `Duration.Seconds`, `uint32` of a float64, and `json.Marshal`, which
-- returns the text or an error.
pub record GoLibrary (F : Type 0) : Type 0 where
  pub sort : List ℕ → List ℕ
  pub seconds : ℕ → F
  pub to_uint32 : F → ℕ
  pub marshal_command : StreamCmdMetric → Option String
  pub marshal_pool : StreamThreadPoolMetric → Option String

-- `currentTime`, at an instant
unfoldable pub current_time : ℕ → ℕ
current_time now = sdiv now 1000000

module _ (fl : Float64) (sort : List ℕ → List ℕ) where
  -- One call of `r.Percentile`.
  unfoldable pub timing_at : Stamps → Float64.F fl → Timing → Option (ℕ × Timing)
  timing_at at p r = do
    let (r', found) = percentile fl sort at.tested at.now at.cached p r
    t ← found
    some (t, r')

  unfoldable pub generate_latency_timings :
      (ℕ → Stamps) → Timing → Option (StreamCmdLatency × Timing)
  generate_latency_timings at r = do
    (t0, r) ← timing_at (at 0) (fl.of_int 0) r
    (t25, r) ← timing_at (at 1) (fl.of_int 25) r
    (t50, r) ← timing_at (at 2) (fl.of_int 50) r
    (t75, r) ← timing_at (at 3) (fl.of_int 75) r
    (t90, r) ← timing_at (at 4) (fl.of_int 90) r
    (t95, r) ← timing_at (at 5) (fl.of_int 95) r
    (t99, r) ← timing_at (at 6) (fl.of_int 99) r
    (t995, r) ← timing_at (at 7) (fl.plus (fl.of_int 99) fl.half) r
    (t100, r) ← timing_at (at 8) (fl.of_int 100) r
    some (
      record {
        timing0 = t0;
        timing25 = t25;
        timing50 = t50;
        timing75 = t75;
        timing90 = t90;
        timing95 = t95;
        timing99 = t99;
        timing995 = t995;
        timing100 = t100;
      },
      r,
    )

module _ (env : Env) where
  open env use {float}

  -- The collectors after the default one, which stands first, has changed.
  abbrev pub with_default :
      DefaultMetricCollector → List (MetricCollector env) → List (MetricCollector env)
  with_default d [] = []
  with_default d (_ ∷ cs) = MetricCollector.default d ∷ cs

  module _ (go : GoLibrary float.F) where
    open go use {sort, seconds, to_uint32, marshal_command, marshal_pool}

    -- The event of `publishMetrics`, from what its calls return.
    unfoldable pub command_event :
        Glance
        → DefaultMetricCollector
        → String
        → ℕ
        → Bool
        → StreamCmdLatency
        → ℕ
        → StreamCmdLatency
        → ℕ
        → Settings
        → Settings
        → Settings
        → StreamCmdMetric
    command_event at d name err_pct opened latency_total total_mean latency_execute run_mean s s'
          s'' =
        record {
          type = "HystrixCommand";
          name = name;
          group = name;
          execution_isolation_thread_pool_key_override = "";
          execution_isolation_strategy = "THREAD";
          rolling_count_timeout = sum at.now (Read.timeouts d);
          rolling_count_fallback_success = sum at.now (Read.fallback_successes d);
          error_pct = err_pct;
          time = current_time at.time;
          rolling_count_collapsed_requests = 0;
          rolling_count_exceptions_thrown = 0;
          rolling_count_failure = sum at.now (Read.failures d);
          rolling_count_fallback_failure = sum at.now (Read.fallback_failures d);
          rolling_count_fallback_rejection = 0;
          error_count = sum at.now (Read.errors d);
          rolling_count_responses_from_cache = 0;
          rolling_count_semaphore_rejected = 0;
          rolling_count_short_circuited = sum at.now (Read.short_circuits d);
          rolling_count_success = sum at.now (Read.successes d);
          rolling_count_thread_pool_rejected = sum at.now (Read.rejects d);
          request_count = sum at.now (Read.num_requests d);
          current_concurrent_execution_count = 0;
          latency_total = latency_total;
          latency_execute = latency_execute;
          latency_execute_mean = run_mean;
          fallback_isolation_semaphore_max_concurrent_requests = 0;
          circuit_breaker_request_volume_threshold = s''.request_volume_threshold % 2 ^ 32;
          circuit_breaker_sleep_window =
              to_uint32 (float.times (seconds s'.sleep_window) (float.of_int 1000));
          circuit_breaker_error_threshold_percent = s.error_percent_threshold % 2 ^ 32;
          rolling_stats_window = 10000;
          latency_total_mean = total_mean;
          execution_isolation_semaphore_max_concurrent_requests = 0;
          reporting_hosts = 1;
          execution_isolation_thread_timeout = 0;
          execution_isolation_thread_interrupt_on_timeout = false;
          circuit_breaker_open = opened;
          circuit_breaker_enabled = true;
          circuit_breaker_force_closed = false;
          circuit_breaker_force_open = false;
          request_cache_enabled = false;
          request_log_enabled = false;
        }

    -- The event, the settings and the circuit after `publishMetrics` has made it.
    unfoldable pub command_metric :
        Glance
        → SettingsMap
        → CircuitBreaker env
        → Option (StreamCmdMetric × SettingsMap × CircuitBreaker env)
    command_metric at settings cb = do
      _ ← requests env cb.metrics
      d ← default_collector env cb.metrics
      err_pct ← error_percent env at.now cb.metrics
      (opened, settings, cb) ← is_open env at.opening settings cb
      (latency_total, total) ← generate_latency_timings float sort at.total (Read.total_duration d)
      let (total, total_mean) =
          mean sort at.total_mean.tested at.total_mean.now at.total_mean.cached total
      (latency_execute, run) ← generate_latency_timings float sort at.run (Read.run_duration d)
      let (run, run_mean) = mean sort at.run_mean.tested at.run_mean.now at.run_mean.cached run
      (s, settings) ← get_settings cb.name settings
      (s', settings) ← get_settings cb.name settings
      (s'', settings) ← get_settings cb.name settings
      some (
        command_event at d cb.name err_pct opened latency_total total_mean latency_execute run_mean
            s s' s'',
        settings,
        record cb {
          metrics = record cb.metrics {
            metric_collectors =
                with_default (record d { total_duration = total; run_duration = run })
                  cb.metrics.metric_collectors;
          };
        },
      )

    -- `json.Marshal` and `writeToRequests`: whether there is no error, and the requests.
    abbrev pub send_event : Option String → Requests → Bool × Requests
    send_event none clients = (false, clients)
    send_event (some event_bytes) clients = (true, write_to_requests event_bytes clients)

    unfoldable pub publish_metrics :
        Glance
        → SettingsMap
        → CircuitBreaker env
        → Requests
        → Option ((Bool × Requests) × SettingsMap × CircuitBreaker env)
    publish_metrics at settings cb clients = do
      (event, settings, cb) ← command_metric at settings cb
      some (send_event (marshal_command event) clients, settings, cb)
