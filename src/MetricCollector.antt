-- ===== src/MetricCollector.antt =====
-- hystrix/metric_collector: the results that are reported, the default collector and the registry.
--
-- A collector that a plugin registers is a value of the parameter type `Custom`, with its two
-- methods. Amounts are patterns of `int64`. Each reading of the clock is an argument.
pub mod Counters
pub mod Read
use Prim.Native.String.{String}
use hystrix_go.Base.{ℕ, Bool, true, false, List, [], ◌∷◌, ◌++◌, map, if◌then◌else◌}
use hystrix_go.Float.{Float64}
use hystrix_go.Rolling.Number
use hystrix_go.Rolling.Number.{Number}
use hystrix_go.Rolling.Timing
use hystrix_go.Rolling.Timing.{Timing}

pub record MetricResult (F : Type 0) : Type 0 where
  pub attempts : ℕ
  pub errors : ℕ
  pub successes : ℕ
  pub failures : ℕ
  pub rejects : ℕ
  pub short_circuits : ℕ
  pub timeouts : ℕ
  pub fallback_successes : ℕ
  pub fallback_failures : ℕ
  pub context_canceled : ℕ
  pub context_deadline_exceeded : ℕ
  pub total_duration : ℕ
  pub run_duration : ℕ
  pub concurrency_in_use : F

pub record DefaultMetricCollector : Type 0 where
  pub num_requests : Number
  pub errors : Number
  pub successes : Number
  pub failures : Number
  pub rejects : Number
  pub short_circuits : Number
  pub timeouts : Number
  pub context_canceled : Number
  pub context_deadline_exceeded : Number
  pub fallback_successes : Number
  pub fallback_failures : Number
  pub total_duration : Timing
  pub run_duration : Timing

unfoldable pub new_default_metric_collector : DefaultMetricCollector
new_default_metric_collector = record {
  num_requests = Number.new_number;
  errors = Number.new_number;
  successes = Number.new_number;
  failures = Number.new_number;
  rejects = Number.new_number;
  short_circuits = Number.new_number;
  timeouts = Number.new_number;
  context_canceled = Number.new_number;
  context_deadline_exceeded = Number.new_number;
  fallback_successes = Number.new_number;
  fallback_failures = Number.new_number;
  total_duration = Timing.new_timing;
  run_duration = Timing.new_timing;
}

-- The readings of the clock in one `Update`: its own, and two in each `Timing.Add`.
pub record Readings : Type 0 where
  pub now : ℕ
  pub total_current : ℕ
  pub total_removed : ℕ
  pub run_current : ℕ
  pub run_removed : ℕ

module _ {F : Type 0} where
  -- `Update`, where `timing` is `DefaultMetricCollectorTimingEnabled`.
  unfoldable pub update_default :
      Bool → Readings → MetricResult F → DefaultMetricCollector → DefaultMetricCollector
  update_default timing at r d = record {
    num_requests = Number.increment_at at.now r.attempts d.num_requests;
    errors = Number.increment_at at.now r.errors d.errors;
    successes = Number.increment_at at.now r.successes d.successes;
    failures = Number.increment_at at.now r.failures d.failures;
    rejects = Number.increment_at at.now r.rejects d.rejects;
    short_circuits = Number.increment_at at.now r.short_circuits d.short_circuits;
    timeouts = Number.increment_at at.now r.timeouts d.timeouts;
    context_canceled = Number.increment_at at.now r.context_canceled d.context_canceled;
    context_deadline_exceeded =
        Number.increment_at at.now r.context_deadline_exceeded d.context_deadline_exceeded;
    fallback_successes = Number.increment_at at.now r.fallback_successes d.fallback_successes;
    fallback_failures = Number.increment_at at.now r.fallback_failures d.fallback_failures;
    total_duration =
        if timing
        then Timing.add at.total_current at.total_removed r.total_duration d.total_duration
        else d.total_duration;
    run_duration =
        if timing
        then Timing.add at.run_current at.run_removed r.run_duration d.run_duration
        else d.run_duration;
  }

unfoldable pub reset_default : DefaultMetricCollector → DefaultMetricCollector
reset_default d = record {
  num_requests = Number.reset d.num_requests;
  errors = Number.reset d.errors;
  successes = Number.reset d.successes;
  failures = Number.reset d.failures;
  rejects = Number.reset d.rejects;
  short_circuits = Number.reset d.short_circuits;
  timeouts = Number.reset d.timeouts;
  context_canceled = Number.reset d.context_canceled;
  context_deadline_exceeded = Number.reset d.context_deadline_exceeded;
  fallback_successes = Number.reset d.fallback_successes;
  fallback_failures = Number.reset d.fallback_failures;
  total_duration = Timing.reset d.total_duration;
  run_duration = Timing.reset d.run_duration;
}

-- What the program takes from outside: floats, and the collectors of plugins.
pub record Env : Type 1 where
  pub float : Float64
  pub Custom : Type 0
  pub custom_update : MetricResult float.F → Custom → Custom
  pub custom_reset : Custom → Custom

module _ (e : Env) where
  open e use {float, Custom, custom_update, custom_reset}

  -- A value of the interface `MetricCollector`.
  pub data MetricCollector : Type 0 where
    default : DefaultMetricCollector → MetricCollector
    custom : Custom → MetricCollector

  -- The methods of the interface. Only the first collector of a circuit is the default one, so the
  -- readings belong to it.
  unfoldable pub update : Bool → Readings → MetricResult float.F → MetricCollector → MetricCollector
  update timing at r (default d) = default (update_default timing at r d)
  update timing at r (custom c) = custom (custom_update r c)

  unfoldable pub reset : MetricCollector → MetricCollector
  reset (default d) = default (reset_default d)
  reset (custom c) = custom (custom_reset c)

  -- `metricCollectorRegistry.registry`
  abbrev pub Registry : Type 0
  Registry = List (String → MetricCollector)

  unfoldable pub initial_registry : Registry
  initial_registry = (λ _. default new_default_metric_collector) ∷ []

  unfoldable pub register : (String → MetricCollector) → Registry → Registry
  register init registry = registry ++ init ∷ []

  unfoldable pub initialize_metric_collectors : String → Registry → List MetricCollector
  unfolding reset
  initialize_metric_collectors name registry = map (λ init. reset (init name)) registry
