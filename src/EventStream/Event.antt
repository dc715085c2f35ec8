-- ===== src/EventStream/Event.antt =====
-- hystrix/eventstream.go: `streamCmdMetric`, `streamCmdLatency`, `streamThreadPoolMetric`, the
-- payloads of the events.
use Prim.Native.String.{String}
use hystrix_go.Base.{ℕ, Bool}

pub record StreamCmdLatency : Type 0 where
  pub timing0 : ℕ
  pub timing25 : ℕ
  pub timing50 : ℕ
  pub timing75 : ℕ
  pub timing90 : ℕ
  pub timing95 : ℕ
  pub timing99 : ℕ
  pub timing995 : ℕ
  pub timing100 : ℕ

pub record StreamCmdMetric : Type 0 where
  pub type : String
  pub name : String
  pub group : String
  pub execution_isolation_thread_pool_key_override : String
  pub execution_isolation_strategy : String
  pub rolling_count_timeout : ℕ
  pub rolling_count_fallback_success : ℕ
  pub error_pct : ℕ
  pub time : ℕ
  pub rolling_count_collapsed_requests : ℕ
  pub rolling_count_exceptions_thrown : ℕ
  pub rolling_count_failure : ℕ
  pub rolling_count_fallback_failure : ℕ
  pub rolling_count_fallback_rejection : ℕ
  pub error_count : ℕ
  pub rolling_count_responses_from_cache : ℕ
  pub rolling_count_semaphore_rejected : ℕ
  pub rolling_count_short_circuited : ℕ
  pub rolling_count_success : ℕ
  pub rolling_count_thread_pool_rejected : ℕ
  pub request_count : ℕ
  pub current_concurrent_execution_count : ℕ
  pub latency_total : StreamCmdLatency
  pub latency_execute : StreamCmdLatency
  pub latency_execute_mean : ℕ
  pub fallback_isolation_semaphore_max_concurrent_requests : ℕ
  pub circuit_breaker_request_volume_threshold : ℕ
  pub circuit_breaker_sleep_window : ℕ
  pub circuit_breaker_error_threshold_percent : ℕ
  pub rolling_stats_window : ℕ
  pub latency_total_mean : ℕ
  pub execution_isolation_semaphore_max_concurrent_requests : ℕ
  pub reporting_hosts : ℕ
  pub execution_isolation_thread_timeout : ℕ
  pub execution_isolation_thread_interrupt_on_timeout : Bool
  pub circuit_breaker_open : Bool
  pub circuit_breaker_enabled : Bool
  pub circuit_breaker_force_closed : Bool
  pub circuit_breaker_force_open : Bool
  pub request_cache_enabled : Bool
  pub request_log_enabled : Bool

pub record StreamThreadPoolMetric : Type 0 where
  pub type : String
  pub name : String
  pub reporting_hosts : ℕ
  pub current_active_count : ℕ
  pub current_completed_task_count : ℕ
  pub current_core_pool_size : ℕ
  pub current_largest_pool_size : ℕ
  pub current_maximum_pool_size : ℕ
  pub current_pool_size : ℕ
  pub current_queue_size : ℕ
  pub current_task_count : ℕ
  pub rolling_max_active_threads : ℕ
  pub rolling_count_threads_executed : ℕ
  pub rolling_stats_window : ℕ
  pub queue_size_rejection_threshold : ℕ
