-- ===== src/Circuit.antt =====
-- hystrix/circuit.go: the circuit breaker of one command.
--
-- An operation takes the settings and the circuit and returns them; `none` stands for a panic. Each
-- reading of the clock is an argument. One goroutine at a time: a compare-and-swap succeeds exactly
-- if its test holds. Log lines are left out.
pub mod Open
pub mod Trial
pub mod Create
pub mod Report
pub mod Shared
pub mod Race
pub mod Spec
use Prim.Native.String.{String}
use text.Mathlib.Text.{◌==◌ as str_eq}
use hystrix_go.Base.{
  ℕ, zero, suc, ◌+◌, Bool, true, false, not, ◌&&◌, Option, none, some, List, [], ◌∷◌, ltb,
  if◌then◌else◌, slt, add64,
}
use hystrix_go.MetricCollector.{Env, Readings, Registry}
use hystrix_go.Metrics.{
  ◌>>=◌, CommandExecution, MetricExchange, new_metric_exchange, update_exchange, reset_exchange,
  requests, is_healthy,
}
use hystrix_go.Pool.{ExecutorPool, new_executor_pool, active_count}
use hystrix_go.Rolling.Number.{sum}
use hystrix_go.Settings.{SettingsMap, get_settings}

-- The readings of the clock in one `AllowRequest`: in `IsOpen`, in `setOpen`, in `allowSingleTest`.
pub record Ticks : Type 0 where
  pub checked : ℕ
  pub opened : ℕ
  pub tested : ℕ

module _ (env : Env) where
  open env use {float}

  pub record CircuitBreaker : Type 0 where
    pub name : String
    pub executor_pool : ExecutorPool
    pub metrics : MetricExchange env
    pub opened_or_last_tested_time : ℕ
    pub opened : Bool

  unfoldable pub new_circuit_breaker :
      String → Registry env → SettingsMap → Option (CircuitBreaker × SettingsMap)
  new_circuit_breaker name registry settings = do
    (pool, settings') ← new_executor_pool name settings
    some (
      record {
        name = name;
        executor_pool = pool;
        metrics = new_metric_exchange env name registry;
        opened_or_last_tested_time = 0;
        opened = false;
      },
      settings',
    )

  unfoldable pub set_open : ℕ → CircuitBreaker → CircuitBreaker
  set_open now c =
      if c.opened then c else record c { opened = true; opened_or_last_tested_time = now }

  unfoldable pub set_close : CircuitBreaker → CircuitBreaker
  set_close c =
      if c.opened then record c { opened = false; metrics = reset_exchange env c.metrics } else c

  unfoldable pub is_open :
      Ticks → SettingsMap → CircuitBreaker → Option (Bool × SettingsMap × CircuitBreaker)
  is_open at settings c = if c.opened then some (true, settings, c) else do
    reqs ← requests env c.metrics
    (s, settings') ← get_settings c.name settings
    if ltb (sum at.checked reqs) s.request_volume_threshold then some (false, settings', c) else do
      (healthy, settings'') ← is_healthy env at.checked settings' c.metrics
      some (if healthy then (false, settings'', c) else (true, settings'', set_open at.opened c))

  unfoldable pub allow_single_test :
      ℕ → SettingsMap → CircuitBreaker → Option (Bool × SettingsMap × CircuitBreaker)
  allow_single_test now settings c = do
    (s, settings') ← get_settings c.name settings
    some (
        if slt (add64 c.opened_or_last_tested_time s.sleep_window) now
        then (true, settings', record c { opened_or_last_tested_time = now })
        else (false, settings', c))

  unfoldable pub allow_request :
      Ticks → SettingsMap → CircuitBreaker → Option (Bool × SettingsMap × CircuitBreaker)
  allow_request at settings c = do
    (is_opened, settings', c') ← is_open at settings c
    if is_opened then allow_single_test at.tested settings' c' else some (true, settings', c')

  -- `float64(ActiveCount()) / float64(Max)`
  unfoldable pub concurrency_in_use : ExecutorPool → float.F
  concurrency_in_use p =
      if slt 0 p.max
      then float.over (float.of_int (active_count p)) (float.of_int p.max)
      else float.of_int 0

  -- `reportEvent`: whether it reports without an error, and the circuit.
  unfoldable pub report_event :
      Bool → ℕ → Readings → String → String → ℕ → ℕ → CircuitBreaker → Bool × CircuitBreaker
  report_event timing built at primary secondary start run_duration c =
      if str_eq primary ""
      then (false, c)
      else let c' = if str_eq primary "success" && c.opened then set_close c else c in
        (
          true,
          record c' {
            metrics =
                update_exchange env timing built at
                  (record {
                    start = start;
                    primary_event = primary;
                    secondary_event = secondary;
                    run_duration = run_duration;
                    concurrency_in_use = concurrency_in_use c'.executor_pool;
                  })
                  c'.metrics;
          },
        )

  -- The exported `ReportEvent`.
  unfoldable pub report_events :
      Bool → ℕ → Readings → List String → ℕ → ℕ → CircuitBreaker → Bool × CircuitBreaker
  report_events timing built at [] start run_duration c = (true, c)
  report_events timing built at (p ∷ []) start run_duration c =
      report_event timing built at p "" start run_duration c
  report_events timing built at (p ∷ s ∷ _) start run_duration c =
      report_event timing built at p s start run_duration c
