-- ===== src/EventStream/Loop.antt =====
-- hystrix/eventstream.go: `publishThreadPools`, and what `loop` does on a tick.
--
-- `none` stands for a panic. One goroutine at a time.
pub mod Tick
use hystrix_go.Base.{ℕ, Bool, Option, some, List, [], ◌∷◌}
use hystrix_go.Circuit.{CircuitBreaker}
use hystrix_go.EventStream.{Requests}
use hystrix_go.EventStream.Event.{StreamThreadPoolMetric}
use hystrix_go.MetricCollector.{Env}
use hystrix_go.Metrics.{◌>>=◌}
use hystrix_go.Pool.{ExecutorPool, active_count}
use hystrix_go.Rolling.Number.{sum, max}
use hystrix_go.Settings.{SettingsMap}
use hystrix_go.EventStream.Publish.{Glance, GoLibrary, send_event, publish_metrics}

module _ (env : Env) where
  open env use {float}

  module _ (go : GoLibrary float.F) where
    open go use {marshal_pool}

    -- The event of `publishThreadPools`.
    unfoldable pub pool_metric : ℕ → ExecutorPool → StreamThreadPoolMetric
    pool_metric now pool = record {
      type = "HystrixThreadPool";
      name = pool.name;
      reporting_hosts = 1;
      current_active_count = active_count pool;
      current_completed_task_count = 0;
      current_core_pool_size = pool.max;
      current_largest_pool_size = pool.max;
      current_maximum_pool_size = pool.max;
      current_pool_size = pool.max;
      current_queue_size = 0;
      current_task_count = 0;
      rolling_max_active_threads = max now pool.max_active_requests;
      rolling_count_threads_executed = sum now pool.executed;
      rolling_stats_window = 10000;
      queue_size_rejection_threshold = 0;
    }

    unfoldable pub publish_thread_pools : ℕ → ExecutorPool → Requests → Bool × Requests
    publish_thread_pools now pool clients =
        send_event env go (marshal_pool (pool_metric now pool)) clients

    -- The readings of the clock for one circuit in a round of `loop`.
    pub record Round : Type 0 where
      pub command : Glance
      pub pool : ℕ

    -- One tick of `loop`: the circuits in the order in which Go walks the map, each with its
    -- readings of the clock. An error is logged, and the loop goes on.
    unfoldable pub publish_all :
        List (Round × CircuitBreaker env)
        → SettingsMap
        → Requests
        → Option (List (CircuitBreaker env) × SettingsMap × Requests)
    publish_all [] settings clients = some ([], settings, clients)
    publish_all ((at, cb) ∷ rest) settings clients = do
      ((_, clients), settings, cb) ← publish_metrics env go at.command settings cb clients
      let (_, clients) = publish_thread_pools at.pool cb.executor_pool clients
      (cbs, settings, clients) ← publish_all rest settings clients
      some (cb ∷ cbs, settings, clients)
