-- ===== src/Circuit/Shared.antt =====
-- hystrix/circuit.go: GetCircuit and Flush.
--
-- The map holds pointers: places in a list of all circuits that were ever made. `GetCircuit` loads
-- the map twice, at first without the mutex; the first load is an argument, since other goroutines
-- may change the map between the two.
pub mod Lookups
pub mod Silent
pub mod Flushed
use Prim.Native.String.{String}
use hystrix_go.Base.{
  ℕ, zero, suc, Bool, true, false, Option, none, some, List, [], ◌∷◌, ◌++◌, length,
}
use hystrix_go.Base.Dict.{lookup, insert}
use hystrix_go.Circuit.{CircuitBreaker, new_circuit_breaker}
use hystrix_go.MetricCollector.{Env, Registry}
use hystrix_go.Metrics.{◌>>=◌, reset_exchange}
use hystrix_go.Pool.{reset_metrics}
use hystrix_go.Settings.{SettingsMap}

abbrev pub Table : Type 0
Table = List (String × ℕ)

abbrev pub change_at : {A : Type 0} → (A → A) → ℕ → List A → List A
change_at f n [] = []
change_at f zero (c ∷ cs) = f c ∷ cs
change_at f (suc n) (c ∷ cs) = c ∷ change_at f n cs

module _ (env : Env) where
  pub record Circuits : Type 0 where
    pub made : List (CircuitBreaker env)
    pub table : Table

  -- The circuit, whether this call made it, the settings and the circuits.
  unfoldable pub get_circuit :
      String
      → Registry env
      → Table
      → SettingsMap
      → Circuits
      → Option ((ℕ × Bool) × SettingsMap × Circuits)
  get_circuit name registry loaded settings s = elim (lookup name loaded) [
    | some cb ↦ some ((cb, false), settings, s)
    | none ↦ elim (lookup name s.table) [
      | some cb ↦ some ((cb, false), settings, s)
      | none ↦ do
        (cb, settings') ← new_circuit_breaker env name registry settings
        let place = length s.made
        some (
          (place, true),
          settings',
          record { made = s.made ++ cb ∷ []; table = insert name place s.table },
        )
    ]
  ]

  abbrev pub flushed : CircuitBreaker env → CircuitBreaker env
  flushed c = record c {
    metrics = reset_exchange env c.metrics;
    executor_pool = reset_metrics c.executor_pool;
  }

  unfoldable pub flush_loop : Table → List (CircuitBreaker env) → List (CircuitBreaker env)
  flush_loop [] made = made
  flush_loop ((_, cb) ∷ cbs) made = flush_loop cbs (change_at flushed cb made)

  unfoldable pub flush : Circuits → Circuits
  unfolding flush_loop
  flush s = record { made = flush_loop s.table s.made; table = [] }
