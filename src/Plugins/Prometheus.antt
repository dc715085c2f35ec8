-- ===== src/Plugins/Prometheus.antt =====
-- plugins/prometheus/collector.go, options.go: the Prometheus collector.
--
-- The client library is external: a vector of metrics is known by what it is made of, and the metric of
-- a vector for a circuit by the vector and the circuit's name. A registerer is a parameter: it takes
-- a vector or refuses it, which makes `MustRegister` panic, here `none`. What `Update` does is the
-- list of its calls of the library, in their order. That the library panics on buckets which are not
-- in increasing order is left out.
pub mod Once
pub mod Counts
use Prim.Native.String
use Prim.Native.String.{String}
use hystrix_go.Base.{ℕ, Option, none, some, List, [], ◌∷◌, ◌++◌, if◌then◌else◌, slt}
use hystrix_go.Float.{Float64}
use hystrix_go.MetricCollector.{MetricResult}
use hystrix_go.Metrics.{◌>>=◌}

pub record Options (F : Type 0) : Type 0 where
  pub histogram_buckets : List F

-- The loop of `buildOptions`, with the options so far.
unfoldable pub apply_options : {F : Type 0} → List (Options F → Options F) → Options F → Options F
apply_options [] opt = opt
apply_options (o ∷ opts) opt = apply_options opts (o opt)

unfoldable pub build_options : {F : Type 0} → List (Options F → Options F) → Options F
unfolding apply_options
build_options opts = apply_options opts (record { histogram_buckets = [] })

unfoldable pub with_histogram_buckets : {F : Type 0} → List F → Options F → Options F
with_histogram_buckets buckets c = record { histogram_buckets = buckets }

-- What a vector is made of, with the one label `command_name`.
pub data Vec (F : Type 0) : Type 0 where
  counter_vec : (subsystem name help : String) → Vec F
  gauge_vec : (subsystem name help : String) → Vec F
  histogram_vec : (subsystem name help : String) → List F → Vec F

-- `c.attempts.With(lbls)`: the metric of a vector for a circuit
abbrev pub Metric : Type 0 → Type 0
Metric F = Vec F × String

-- A call of the client library.
pub data Call (F : Type 0) : Type 0 where
  add : Metric F → F → Call F
  observe : Metric F → F → Call F
  set : Metric F → F → Call F

-- `V` is a vector in `collectorVec`, and a metric in `collector`.
pub record Vectors (V : Type 0) : Type 0 where
  pub attempts : V
  pub successes : V
  pub errors : V
  pub failures : V
  pub rejects : V
  pub short_circuits : V
  pub timeouts : V
  pub fallback_successes : V
  pub fallback_failures : V
  pub context_deadline_exceeded : V
  pub context_canceled : V
  pub total_duration : V
  pub run_duration : V
  pub concurrency_in_use : V

unfoldable pub collector : {F : Type 0} → Vectors (Vec F) → String → Vectors (Metric F)
collector c cmd_name = record {
  attempts = (c.attempts, cmd_name);
  successes = (c.successes, cmd_name);
  errors = (c.errors, cmd_name);
  failures = (c.failures, cmd_name);
  rejects = (c.rejects, cmd_name);
  short_circuits = (c.short_circuits, cmd_name);
  timeouts = (c.timeouts, cmd_name);
  fallback_successes = (c.fallback_successes, cmd_name);
  fallback_failures = (c.fallback_failures, cmd_name);
  context_deadline_exceeded = (c.context_deadline_exceeded, cmd_name);
  context_canceled = (c.context_canceled, cmd_name);
  total_duration = (c.total_duration, cmd_name);
  run_duration = (c.run_duration, cmd_name);
  concurrency_in_use = (c.concurrency_in_use, cmd_name);
}

-- `seconds` is `Duration.Seconds`.
module _ (float : Float64) (seconds : ℕ → Float64.F float) where
  open float use {F, of_int}

  -- `if result.Attempts > 0 { c.attempts.Add(float64(result.Attempts)) }`
  abbrev pub add_positive : Metric F → ℕ → List (Call F)
  add_positive m i = if slt 0 i then add m (of_int i) ∷ [] else []

  unfoldable pub update : Vectors (Metric F) → MetricResult F → List (Call F)
  update c r =
      add_positive c.attempts r.attempts
      ++ add_positive c.successes r.successes
      ++ add_positive c.errors r.errors
      ++ add_positive c.failures r.failures
      ++ add_positive c.rejects r.rejects
      ++ add_positive c.short_circuits r.short_circuits
      ++ add_positive c.timeouts r.timeouts
      ++ add_positive c.fallback_successes r.fallback_successes
      ++ add_positive c.fallback_failures r.fallback_failures
      ++ add_positive c.context_deadline_exceeded r.context_deadline_exceeded
      ++ add_positive c.context_canceled r.context_canceled
      ++ observe c.total_duration (seconds r.total_duration)
        ∷ observe c.run_duration (seconds r.run_duration)
        ∷ set c.concurrency_in_use r.concurrency_in_use
        ∷ []

-- `prometheus.Registerer`: `register` gives none where `MustRegister` panics.
pub record Registerer (F : Type 0) : Type 1 where
  pub R : Type 0
  pub register : Vec F → R → Option R

module _ {F : Type 0} (reg : Registerer F) where
  open reg use {R, register}

  unfoldable pub new_counter_vec : R → String → Options F → Option (Vec F × R)
  new_counter_vec r metric o = do
    let vec =
        counter_vec "hystrix" metric (String.◌++◌ "[counter] subsystem: hystrix, metric: " metric)
    r' ← register vec r
    some (vec, r')

  unfoldable pub new_gauge_vec : R → String → Options F → Option (Vec F × R)
  new_gauge_vec r metric o = do
    let vec = gauge_vec "hystrix" metric (String.◌++◌ "[gauge] subsystem: hystrix, metric: " metric)
    r' ← register vec r
    some (vec, r')

  unfoldable pub new_histogram_vec : R → String → Options F → Option (Vec F × R)
  new_histogram_vec r metric o = do
    let vec =
        histogram_vec "hystrix" metric
          (String.◌++◌ "[histogram] subsystem: hystrix, metric: " metric) o.histogram_buckets
    r' ← register vec r
    some (vec, r')

  -- The vectors of `NewCollector`, and the registerer after that.
  unfoldable pub new_collector : R → List (Options F → Options F) → Option (Vectors (Vec F) × R)
  new_collector r opts = do
    let o = build_options opts
    (attempts, r) ← new_counter_vec r "attempts" o
    (successes, r) ← new_counter_vec r "successes" o
    (errors, r) ← new_counter_vec r "errors" o
    (failures, r) ← new_counter_vec r "failures" o
    (rejects, r) ← new_counter_vec r "rejects" o
    (short_circuits, r) ← new_counter_vec r "short_circuits" o
    (timeouts, r) ← new_counter_vec r "timeouts" o
    (fallback_successes, r) ← new_counter_vec r "fallback_successes" o
    (fallback_failures, r) ← new_counter_vec r "fallback_failures" o
    (context_deadline_exceeded, r) ← new_counter_vec r "context_deadline_exceeded" o
    (context_canceled, r) ← new_counter_vec r "context_canceled" o
    (total_duration, r) ← new_histogram_vec r "total_duration" o
    (run_duration, r) ← new_histogram_vec r "run_duration" o
    (concurrency_in_use, r) ← new_gauge_vec r "concurrency_in_use" o
    some (
      record {
        attempts = attempts;
        successes = successes;
        errors = errors;
        failures = failures;
        rejects = rejects;
        short_circuits = short_circuits;
        timeouts = timeouts;
        fallback_successes = fallback_successes;
        fallback_failures = fallback_failures;
        context_deadline_exceeded = context_deadline_exceeded;
        context_canceled = context_canceled;
        total_duration = total_duration;
        run_duration = run_duration;
        concurrency_in_use = concurrency_in_use;
      },
      r,
    )

  -- `RegisterCollector`: the registry of collectors gets one that makes the collector of a circuit.
  unfoldable pub register_collector :
      R
      → List (Options F → Options F)
      → List (String → Vectors (Metric F))
      → Option (List (String → Vectors (Metric F)) × R)
  register_collector r opts registry = do
    (c, r) ← new_collector r opts
    some (registry ++ collector c ∷ [], r)
