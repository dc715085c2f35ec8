-- ===== src/Circuit/Shared/Flushed.antt =====
-- What `Flush` leaves of the circuits.
use Prim.Native.String.{String}
use hystrix_go.Base.{
  ℕ, zero, suc, ◌≡◌, refl, some, List, [], ◌∷◌, get_elem?, ◌==◌, true, false, by_cases, arith, ◌∙◌,
  ap, All,
}
use hystrix_go.Base.Dict.{lookup}
use hystrix_go.Circuit.{CircuitBreaker}
use hystrix_go.Circuit.Open.{IsCircuit}
use hystrix_go.Circuit.Report.{default_of-reset}
use hystrix_go.Circuit.Shared.Silent.{IsSilent, numbers, map_reset-IsSilent}
use hystrix_go.Circuit.Shared.{Table, Circuits, change_at, flushed, flush_loop, flush}
use hystrix_go.MetricCollector.{Env, DefaultMetricCollector, reset_default}
use hystrix_go.Metrics.{reset_exchange}
use hystrix_go.Pool.{reset_metrics}
use hystrix_go.Rolling.Number.{Number, reset}
use hystrix_go.Rolling.Timing.{new_timing}

pub get_elem?-change_at_self :
    {A : Type 0} (f : A → A) (i : ℕ) (xs : List A) (x : A)
    → get_elem? xs i ≡ some x
    → get_elem? (change_at f i xs) i ≡ some (f x)
get_elem?-change_at_self f i [] x h = cc
get_elem?-change_at_self f zero (a ∷ xs) x h = cc
get_elem?-change_at_self f (suc i) (a ∷ xs) x h = get_elem?-change_at_self f i xs x h

pub get_elem?-change_at_other :
    {A : Type 0} (f : A → A) (i j : ℕ) (xs : List A)
    → (i == j) ≡ false
    → get_elem? (change_at f i xs) j ≡ get_elem? xs j
get_elem?-change_at_other f i j [] h = refl
get_elem?-change_at_other f zero zero (a ∷ xs) h = absurd (ground (arith, h))
get_elem?-change_at_other f zero (suc j) (a ∷ xs) h = refl
get_elem?-change_at_other f (suc i) zero (a ∷ xs) h = refl
get_elem?-change_at_other f (suc i) (suc j) (a ∷ xs) h =
    get_elem?-change_at_other f i j xs (ground (arith, h))

module _ (env : Env) where
  flushed-IsCircuit :
      (d : DefaultMetricCollector) (c : CircuitBreaker env)
      → IsCircuit env d c
      → IsCircuit env (reset_default d) (flushed env c)
  unfolding reset_exchange
  flushed-IsCircuit d c wf = record {
    named = wf.named;
    first = default_of-reset env d c.metrics.metric_collectors wf.first;
  }

  -- The place holds a circuit with this default collector, these metrics of its pool, and else the
  -- state of `c`.
  record Holds (made : List (CircuitBreaker env)) (cb : ℕ) (d : DefaultMetricCollector)
      (active executed : Number) (c : CircuitBreaker env) : Type 0 where
    circuit : CircuitBreaker env
    there : get_elem? made cb ≡ some circuit
    active_kept : circuit.executor_pool.max_active_requests ≡ active
    executed_kept : circuit.executor_pool.executed ≡ executed
    well : IsCircuit env d circuit
    name : circuit.name ≡ c.name
    opened : circuit.opened ≡ c.opened
    tested : circuit.opened_or_last_tested_time ≡ c.opened_or_last_tested_time
    tickets : circuit.executor_pool.tickets ≡ c.executor_pool.tickets
    max : circuit.executor_pool.max ≡ c.executor_pool.max

  flush_one :
      (made : List (CircuitBreaker env)) (cb : ℕ) (d : DefaultMetricCollector) (x y : Number)
      (c : CircuitBreaker env)
      → Holds made cb d x y c
      → Holds (change_at (flushed env) cb made) cb (reset_default d) (reset x) (reset y) c
  unfolding reset_metrics
  flush_one made cb d x y c h = record {
    circuit = flushed env h.circuit;
    there = get_elem?-change_at_self (flushed env) cb made h.circuit h.there;
    active_kept = ap reset h.active_kept;
    executed_kept = ap reset h.executed_kept;
    well = flushed-IsCircuit d h.circuit h.well;
    name = h.name;
    opened = h.opened;
    tested = h.tested;
    tickets = h.tickets;
    max = h.max;
  }

  flush_one_other :
      (made : List (CircuitBreaker env)) (p cb : ℕ) (d : DefaultMetricCollector) (x y : Number)
      (c : CircuitBreaker env)
      → (p == cb) ≡ false
      → Holds made cb d x y c
      → Holds (change_at (flushed env) p made) cb d x y c
  flush_one_other made p cb d x y c ne h = record {
    circuit = h.circuit;
    there = get_elem?-change_at_other (flushed env) p cb made ne ∙ h.there;
    active_kept = h.active_kept;
    executed_kept = h.executed_kept;
    well = h.well;
    name = h.name;
    opened = h.opened;
    tested = h.tested;
    tickets = h.tickets;
    max = h.max;
  }

  flush_one_at :
      (made : List (CircuitBreaker env)) (p cb : ℕ) (d : DefaultMetricCollector) (x y : Number)
      (c : CircuitBreaker env)
      → (p == cb) ≡ true
      → Holds made cb d x y c
      → Holds (change_at (flushed env) p made) cb (reset_default d) (reset x) (reset y) c
  flush_one_at made p cb d x y c e h =
      let same : p ≡ cb = ground (arith, e) in rw same (flush_one made cb d x y c h)

  -- A circuit that was emptied stays so.
  flush_loop-emptied :
      (t : Table) (made : List (CircuitBreaker env)) (cb : ℕ) (d : DefaultMetricCollector)
      (x y : Number) (c : CircuitBreaker env)
      → Holds made cb (reset_default d) (reset x) (reset y) c
      → Holds (flush_loop env t made) cb (reset_default d) (reset x) (reset y) c
  unfolding flush_loop reset_default hystrix_go.Rolling.Number.reset hystrix_go.Rolling.Timing.reset
  flush_loop-emptied [] made cb d x y c h = h
  flush_loop-emptied ((_, p) ∷ t) made cb d x y c h =
      flush_loop-emptied t (change_at (flushed env) p made) cb d x y c (
        by_cases (p == cb) (λ e. flush_one_at made p cb (reset_default d) (reset x) (reset y) c e h)
          (λ e. flush_one_other made p cb (reset_default d) (reset x) (reset y) c e h))

  flush_loop-entered :
      (t : Table) (n : String) (made : List (CircuitBreaker env)) (cb : ℕ)
      (d : DefaultMetricCollector) (x y : Number) (c : CircuitBreaker env)
      → lookup n t ≡ some cb
      → Holds made cb d x y c
      → Holds (flush_loop env t made) cb (reset_default d) (reset x) (reset y) c
  unfolding flush_loop lookup
  flush_loop-entered [] n made cb d x y c e h = absurd cc
  flush_loop-entered ((k, p) ∷ t) n made cb d x y c e h =
      by_cases (p == cb)
        (λ here.
          flush_loop-emptied t (change_at (flushed env) p made) cb d x y c
            (flush_one_at made p cb d x y c here h))
        (λ away.
          flush_loop-entered t n (change_at (flushed env) p made) cb d x y c
            (ground (arith, e, away)) (flush_one_other made p cb d x y c away h))

  -- The circuit at the place has counted nothing, and has else the state of `c`.
  pub record IsFlushed (made : List (CircuitBreaker env)) (cb : ℕ) (c : CircuitBreaker env)
      : Type 0 where
    pub circuit : CircuitBreaker env
    pub there : get_elem? made cb ≡ some circuit
    pub collector : DefaultMetricCollector
    pub well : IsCircuit env collector circuit
    pub counted : All IsSilent (numbers collector circuit.executor_pool)
    pub total : collector.total_duration ≡ new_timing
    pub run : collector.run_duration ≡ new_timing
    pub name : circuit.name ≡ c.name
    pub opened : circuit.opened ≡ c.opened
    pub tested : circuit.opened_or_last_tested_time ≡ c.opened_or_last_tested_time
    pub tickets : circuit.executor_pool.tickets ≡ c.executor_pool.tickets
    pub max : circuit.executor_pool.max ≡ c.executor_pool.max

  Holds-IsFlushed :
      (made : List (CircuitBreaker env)) (cb : ℕ) (d : DefaultMetricCollector) (x y : Number)
      (c : CircuitBreaker env)
      → Holds made cb (reset_default d) (reset x) (reset y) c
      → IsFlushed made cb c
  unfolding reset_default new_timing hystrix_go.Rolling.Timing.reset
  Holds-IsFlushed made cb d x y c h = record {
    circuit = h.circuit;
    there = h.there;
    collector = reset_default d;
    well = h.well;
    counted =
        rw (h.active_kept, h.executed_kept)
          (map_reset-IsSilent
            (numbers d (record h.circuit.executor_pool { max_active_requests = x; executed = y })));
    total = refl;
    run = refl;
    name = h.name;
    opened = h.opened;
    tested = h.tested;
    tickets = h.tickets;
    max = h.max;
  }

  -- `Flush` empties the map. A circuit that a name led to, with its default collector in the
  -- first place, loses what that collector and its pool counted: at any time the sum and the
  -- maximum of each of the eleven counters, of the pool's active requests and of its executed
  -- ones are zero, and the two timings are as in a new collector. The circuit keeps its name, its
  -- state, the time of its last test and its tickets.
  pub flush_lem :
      (s : Circuits env) (n : String) (cb : ℕ) (d : DefaultMetricCollector) (c : CircuitBreaker env)
      → lookup n s.table ≡ some cb
      → get_elem? s.made cb ≡ some c
      → IsCircuit env d c
      → ((flush env s).table ≡ []) × IsFlushed (flush env s).made cb c
  unfolding flush
  flush_lem s n cb d c e there wf = (
    refl,
    Holds-IsFlushed (flush_loop env s.table s.made) cb d c.executor_pool.max_active_requests
        c.executor_pool.executed c
        (flush_loop-entered s.table n s.made cb d c.executor_pool.max_active_requests
          c.executor_pool.executed c e
          (record {
            circuit = c;
            there = there;
            active_kept = refl;
            executed_kept = refl;
            well = wf;
            name = refl;
            opened = refl;
            tested = refl;
            tickets = refl;
            max = refl;
          })),
  )
