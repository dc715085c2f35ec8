-- ===== src/Circuit/Report.antt =====
-- What a reported event does to a circuit.
use Prim.Native.String.{String}
use text.Mathlib.Text.{◌==◌ as str_eq}
use text.Mathlib.TextEquality.{eq_iff}
use hystrix_go.Base.{
  ℕ, ◌≡◌, ◌≢◌, refl, Bool, true, false, not, ◌&&◌, some, List, [], ◌∷◌, map, if◌then◌else◌, arith,
  by_cases,
}
use hystrix_go.Circuit.{CircuitBreaker, set_close, concurrency_in_use, report_event}
use hystrix_go.Circuit.Open.{IsCircuit}
use hystrix_go.Pool.{ExecutorPool}
use mathlib.Core.Path.{subst}
use hystrix_go.MetricCollector.{
  DefaultMetricCollector, MetricCollector, Readings, Env, update_default, reset_default, update,
  reset, MetricResult,
}
use hystrix_go.Metrics.{CommandExecution, build_result, default_of, update_exchange, reset_exchange}

module _ (env : Env) where
  open env use {float}

  default_of-update :
      (timing : Bool) (at : Readings) (r : MetricResult float.F) (d : DefaultMetricCollector)
      (cs : List (MetricCollector env))
      → default_of env cs ≡ some d
      → default_of env (map (update env timing at r) cs) ≡ some (update_default timing at r d)
  unfolding update
  default_of-update timing at r d [] h = cc
  default_of-update timing at r d (MetricCollector.default x ∷ cs) h = let e : x ≡ d = cc in rw e
  default_of-update timing at r d (MetricCollector.custom x ∷ cs) h = cc

  pub default_of-reset :
      (d : DefaultMetricCollector) (cs : List (MetricCollector env))
      → default_of env cs ≡ some d
      → default_of env (map (reset env) cs) ≡ some (reset_default d)
  unfolding reset
  default_of-reset d [] h = cc
  default_of-reset d (MetricCollector.default x ∷ cs) h = let e : x ≡ d = cc in rw e
  default_of-reset d (MetricCollector.custom x ∷ cs) h = cc

  -- The default collector of a circuit whose collectors have seen an execution.
  updated-IsCircuit :
      (timing : Bool) (built : ℕ) (at : Readings) (e : CommandExecution float.F)
      (d : DefaultMetricCollector) (c : CircuitBreaker env)
      → IsCircuit env d c
      → IsCircuit env
          (update_default timing at (build_result built e) d)
          (record c { metrics = update_exchange env timing built at e c.metrics })
  unfolding update_exchange
  updated-IsCircuit timing built at e d c wf = record {
    named = wf.named;
    first =
        default_of-update timing at (build_result built e) d c.metrics.metric_collectors wf.first;
  }

  module _ (timing : Bool) (built : ℕ) (at : Readings) (primary secondary : String)
      (start run_duration : ℕ) (c : CircuitBreaker env) where
    -- The execution that is reported.
    abbrev pub execution : CommandExecution float.F
    execution = record {
      start = start;
      primary_event = primary;
      secondary_event = secondary;
      run_duration = run_duration;
      concurrency_in_use = concurrency_in_use env c.executor_pool;
    }

    abbrev pub closes : Bool
    closes = str_eq primary "success" && c.opened

    -- The circuit after `setClose`, if that is called.
    abbrev before : CircuitBreaker env
    before = if closes then set_close env c else c

    abbrev cleared : DefaultMetricCollector → DefaultMetricCollector
    cleared d = if closes then reset_default d else d

    before-IsCircuit :
        (d : DefaultMetricCollector) → IsCircuit env d c → IsCircuit env (cleared d) before
    unfolding set_close reset_exchange
    before-IsCircuit d wf =
        by_cases closes
          (λ h. ground (arith, default_of-reset d c.metrics.metric_collectors wf.first, wf.named))
          (λ h. rw h wf)

    before_lem :
        (before.opened ≡ (c.opened && not (str_eq primary "success")))
        × (before.opened_or_last_tested_time ≡ c.opened_or_last_tested_time)
        × (before.executor_pool ≡ c.executor_pool)
    unfolding set_close
    before_lem = ground arith

    -- The default collector after the report.
    abbrev pub reported_to : DefaultMetricCollector → DefaultMetricCollector
    reported_to d =
        update_default timing at (build_result built execution)
          (if closes then reset_default d else d)

    abbrev pub reported : Bool × CircuitBreaker env
    reported = report_event env timing built at primary secondary start run_duration c

    run_by : ExecutorPool → CommandExecution float.F
    run_by p = record execution { concurrency_in_use = concurrency_in_use env p }

    reported-IsCircuit :
        (d : DefaultMetricCollector)
        → IsCircuit env d c
        → IsCircuit env (reported_to d) (record before {
          metrics =
              update_exchange env timing built at (run_by before.executor_pool) before.metrics;
        })
    unfolding run_by
    reported-IsCircuit d wf =
        subst
          (λ p.
            IsCircuit env (update_default timing at (build_result built (run_by p)) (cleared d))
              (record before {
                metrics =
                    update_exchange env timing built at (run_by before.executor_pool)
                      before.metrics;
              }))
          before_lem.2
          (updated-IsCircuit timing built at (run_by before.executor_pool) (cleared d) before
            (before-IsCircuit d wf))

    pub report_event-name : reported.1.name ≡ c.name
    unfolding report_event set_close
    report_event-name = ground arith

    pub report_event-executor_pool : reported.1.executor_pool ≡ c.executor_pool
    unfolding report_event set_close
    report_event-executor_pool = ground arith

    -- A report without a primary event is an error and changes nothing.
    pub report_event-empty : primary ≡ "" → reported ≡ (false, c)
    unfolding report_event
    report_event-empty e = rw ((eq_iff primary "").1 e)

    -- A report with a primary event, on a circuit with its default collector in the first place,
    -- is recorded in that collector. It closes the circuit exactly if it is a success on an open
    -- circuit, and then the counters start from zero. It opens no circuit, and leaves the tickets
    -- and the time of the last test alone.
    pub report_event_lem :
        (d : DefaultMetricCollector)
        → IsCircuit env d c
        → primary ≢ ""
        → (reported.0 ≡ true)
          × (reported.1.opened ≡ (c.opened && not (str_eq primary "success")))
          × (reported.1.opened_or_last_tested_time ≡ c.opened_or_last_tested_time)
          × (reported.1.executor_pool ≡ c.executor_pool)
          × IsCircuit env (reported_to d) reported.1
    unfolding report_event run_by
    report_event_lem d wf ne =
        by_cases (str_eq primary "") (λ h. absurd (ne ((eq_iff primary "").0 h)))
          (λ h. rw h (refl, before_lem.0, before_lem.1, before_lem.2, reported-IsCircuit d wf))
