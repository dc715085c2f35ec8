-- ===== src/Metrics.antt =====
-- hystrix/metrics.go: how a finished command becomes a result, and how the results decide whether
-- a circuit is healthy.
--
-- `none` stands for a panic. Instants are nanoseconds since 1970; each reading of the clock is an
-- argument.
pub mod Outcome
pub mod Percent
use Prim.Native.String.{String}
use text.Mathlib.Text.{◌==◌ as str_eq}
use hystrix_go.Base.{
  ℕ, ◌+◌, ◌-◌, ◌%◌, ◌^◌, Bool, true, false, Option, none, some, List, [], ◌∷◌, map, if◌then◌else◌,
  slt,
}
use hystrix_go.Float.{Float64}
use hystrix_go.MetricCollector.Read
use hystrix_go.MetricCollector.{
  MetricResult, DefaultMetricCollector, MetricCollector, Readings, Registry, Env, update, reset,
  initialize_metric_collectors,
}
use hystrix_go.Rolling.Number.{Number, sum}
use hystrix_go.Settings.{Settings, SettingsMap, get_settings}

infixl 5 ◌>>=◌
abbrev pub ◌>>=◌ : {A B : Type 0} → Option A → (A → Option B) → Option B
none >>= f = none
some a >>= f = f a

pub record CommandExecution (F : Type 0) : Type 0 where
  pub start : ℕ
  pub primary_event : String
  pub secondary_event : String
  pub run_duration : ℕ
  pub concurrency_in_use : F

-- `time.Since`, between two instants that an `int64` can hold.
abbrev pub since : ℕ → ℕ → ℕ
since start now = (now + 2 ^ 64 - start) % 2 ^ 64

module _ {F : Type 0} where
  -- The result before the two `switch` statements.
  unfoldable pub attempt : ℕ → CommandExecution F → MetricResult F
  attempt now e = record {
    attempts = 1;
    errors = 0;
    successes = 0;
    failures = 0;
    rejects = 0;
    short_circuits = 0;
    timeouts = 0;
    fallback_successes = 0;
    fallback_failures = 0;
    context_canceled = 0;
    context_deadline_exceeded = 0;
    total_duration = since e.start now;
    run_duration = e.run_duration;
    concurrency_in_use = e.concurrency_in_use;
  }

  -- `switch e.PrimaryEvent`
  unfoldable pub primary : String → MetricResult F → MetricResult F
  primary event r =
      if str_eq event "success"
      then record r { successes = 1 }
      else if str_eq event "failure"
      then record r { failures = 1; errors = 1 }
      else if str_eq event "rejected"
      then record r { rejects = 1; errors = 1 }
      else if str_eq event "short-circuit"
      then record r { short_circuits = 1; errors = 1 }
      else if str_eq event "timeout"
      then record r { timeouts = 1; errors = 1 }
      else if str_eq event "context_canceled"
      then record r { context_canceled = 1 }
      else if str_eq event "context_deadline_exceeded"
      then record r { context_deadline_exceeded = 1 }
      else r

  -- `switch e.SecondaryEvent`
  unfoldable pub secondary : String → MetricResult F → MetricResult F
  secondary event r =
      if str_eq event "fallback-success"
      then record r { fallback_successes = 1 }
      else if str_eq event "fallback-failure"
      then record r { fallback_failures = 1 }
      else r

  unfoldable pub build_result : ℕ → CommandExecution F → MetricResult F
  build_result now e = secondary e.secondary_event (primary e.primary_event (attempt now e))

-- `ErrorPercent` of what its two sums are.
unfoldable pub percent : Float64 → ℕ → ℕ → ℕ
percent fl reqs errs =
    let err_pct =
      if slt 0 reqs
      then fl.times (fl.over (fl.of_int errs) (fl.of_int reqs)) (fl.of_int 100)
      else fl.of_int 0 in
    fl.to_int (fl.plus err_pct fl.half)

module _ (env : Env) where
  open env use {float}

  pub record MetricExchange : Type 0 where
    pub name : String
    pub metric_collectors : List (MetricCollector env)

  unfoldable pub new_metric_exchange : String → Registry env → MetricExchange
  new_metric_exchange name registry = record {
    name = name;
    metric_collectors = initialize_metric_collectors env name registry;
  }

  -- Both panics: no collector, or another one in the first place.
  abbrev pub default_of : List (MetricCollector env) → Option DefaultMetricCollector
  default_of [] = none
  default_of (MetricCollector.default d ∷ _) = some d
  default_of (MetricCollector.custom _ ∷ _) = none

  unfoldable pub default_collector : MetricExchange → Option DefaultMetricCollector
  default_collector m = default_of m.metric_collectors

  -- `Update`: `built` is the instant at which the result is built.
  unfoldable pub update_exchange :
      Bool → ℕ → Readings → CommandExecution float.F → MetricExchange → MetricExchange
  update_exchange timing built at e m =
      let result = build_result built e in
      record m { metric_collectors = map (update env timing at result) m.metric_collectors }

  unfoldable pub reset_exchange : MetricExchange → MetricExchange
  reset_exchange m = record m { metric_collectors = map (reset env) m.metric_collectors }

  unfoldable pub requests : MetricExchange → Option Number
  unfolding default_collector
  requests m = do d ← default_collector m; some (Read.num_requests d)

  unfoldable pub error_percent : ℕ → MetricExchange → Option ℕ
  unfolding requests default_collector
  error_percent now m = do
    reqs ← requests m
    d ← default_collector m
    some (percent float (sum now reqs) (sum now (Read.errors d)))

  unfoldable pub is_healthy : ℕ → SettingsMap → MetricExchange → Option (Bool × SettingsMap)
  unfolding error_percent
  is_healthy now settings m = do
    pct ← error_percent now m
    (s, settings') ← get_settings m.name settings
    some (slt pct s.error_percent_threshold, settings')
