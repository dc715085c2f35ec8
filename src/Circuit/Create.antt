-- ===== src/Circuit/Create.antt =====
-- A new circuit (hystrix/circuit.go): its collectors and its tickets.
use Prim.Native.String.{String}
use hystrix_go.Base.{◌^◌, ◌<◌, ◌≡◌, refl, false, some, List, [], ◌∷◌, ◌++◌}
use hystrix_go.Base.Dict.{lookup}
use hystrix_go.Circuit.{CircuitBreaker, new_circuit_breaker}
use hystrix_go.Circuit.Open.{IsCircuit}
use hystrix_go.MetricCollector.{
  DefaultMetricCollector, MetricCollector, Env, Registry, new_default_metric_collector,
  reset_default, initial_registry, register, initialize_metric_collectors,
}
use hystrix_go.Metrics.{default_of, new_metric_exchange}
use hystrix_go.Pool.Tickets.{HasOut, new_executor_pool_lem}
use hystrix_go.Settings.{SettingsMap}
use hystrix_go.Settings.Lookup.{found}

module _ (env : Env) where
  -- The registry after any calls of `Register`.
  abbrev pub register_all : List (String → MetricCollector env) → Registry env → Registry env
  register_all [] registry = registry
  register_all (i ∷ is) registry = register_all is (register env i registry)

  abbrev pub empty_default : DefaultMetricCollector
  empty_default = reset_default new_default_metric_collector

  register_all-first :
      (is : List (String → MetricCollector env)) (name : String) (rest : Registry env)
      → default_of env (
          initialize_metric_collectors env name
            (register_all is ((λ _. MetricCollector.default new_default_metric_collector) ∷ rest)))
        ≡ some empty_default
  unfolding register initialize_metric_collectors
  register_all-first [] name rest = refl
  register_all-first (i ∷ is) name rest = register_all-first is name (rest ++ i ∷ [])

  -- Whatever plugins have registered, `newCircuitBreaker` succeeds for settings with a number of
  -- tickets of zero or more: the circuit goes by the name, is closed, was never tested, has an empty default collector
  -- in the first place, so that `DefaultCollector` does not panic, and holds all of its tickets.
  pub new_circuit_breaker_lem :
      (is : List (String → MetricCollector env)) (name : String) (m : SettingsMap)
      → (found name (lookup name m) m).0.max_concurrent_requests < 2 ^ 63
      → (c : CircuitBreaker env) × (new_circuit_breaker env name
            (register_all is (initial_registry env))
            m
          ≡ some (c, (found name (lookup name m) m).1))
        × IsCircuit env empty_default c
        × HasOut 0 c.executor_pool
        × (c.executor_pool.max ≡ (found name (lookup name m) m).0.max_concurrent_requests)
        × (c.opened ≡ false)
        × (c.opened_or_last_tested_time ≡ 0)
        × (c.name ≡ name)
  unfolding new_circuit_breaker new_metric_exchange initial_registry
  new_circuit_breaker_lem is name m small =
      let (p, e, tickets, max) = new_executor_pool_lem name m small in
      let c : CircuitBreaker env = record {
        name = name;
        executor_pool = p;
        metrics = new_metric_exchange env name (register_all is (initial_registry env));
        opened_or_last_tested_time = 0;
        opened = false;
      } in
      (
        c,
        rw e,
        record { named = refl; first = register_all-first is name [] },
        tickets,
        max,
        refl,
        refl,
        refl,
      )
