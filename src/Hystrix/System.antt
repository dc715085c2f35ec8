-- ===== src/Hystrix/System.antt =====
-- Any number of commands on one circuit, in any order.
--
-- A command is two steps: `DoC` up to the goroutine, and what follows the second `select`, or the
-- report of a command that is turned down. Between the two other commands begin and end, and
-- `Configure` may change the settings. Each step is taken as one atomic action.
pub mod Progress
use Prim.Native.String.{String}
use mathlib.Core.Path.{subst}
use hystrix_go.Base.{ℕ, suc, ◌+◌, ◌≤◌, ◌≡◌, refl, Bool, Option, none, some, List, arith, ◌∙◌}
use hystrix_go.Circuit.{Ticks, CircuitBreaker}
use hystrix_go.Circuit.Open.{IsCircuit}
use hystrix_go.Hystrix.{
  Err, Admission, short_circuited, rejected, admitted, Completion, Moments, Caller, do_c_begin,
  do_c_end, do_c_refused,
}
use hystrix_go.Hystrix.Frame.{Begun, Begins, do_c_begin-Begins, out_after, Explains}
use hystrix_go.Hystrix.Run.{do_c_end-Ended, error_with_fallback-Recorded}
use hystrix_go.MetricCollector.{DefaultMetricCollector, Env}
use hystrix_go.Pool.Tickets.{HasOut}
use hystrix_go.Settings.{Settings, SettingsMap, CommandConfig, configure, get_settings}

module _ (env : Env) (timing : Bool) where
  pub record State : Type 0 where
    pub settings : SettingsMap
    pub circuit : CircuitBreaker env
    pub running : ℕ
    pub turned_down : ℕ

  abbrev pub down_after : Admission → ℕ → ℕ
  down_after admitted n = n
  down_after short_circuited n = suc n
  down_after rejected n = suc n

  pub data Step (s : State) : State → Type 0 where
    begin :
        (at : Ticks) {a : Admission} {m : SettingsMap} {c : CircuitBreaker env}
        → do_c_begin env at s.settings s.circuit ≡ some (a, m, c)
        → Step s (record {
          settings = m;
          circuit = c;
          running = out_after env a s.running;
          turned_down = down_after a s.turned_down;
        })
    -- `getSettings(name).Timeout`
    look_up :
        {x : Settings} {m : SettingsMap}
        → get_settings s.circuit.name s.settings ≡ some (x, m)
        → Step s (record s { settings = m })
    refuse :
        (t : Moments) (k : Caller) (err : Err) {n : ℕ}
        → s.turned_down ≡ suc n
        → Step s
            (record s { circuit = (do_c_refused env timing t k err s.circuit).1; turned_down = n })
    end :
        (t : Moments) (k : Caller) (done : Completion) {n : ℕ} {r : Option Err}
        {c : CircuitBreaker env}
        → s.running ≡ suc n
        → do_c_end env timing t k done s.circuit ≡ some (r, c)
        → Step s (record s { circuit = c; running = n })
    reconfigure :
        (cmds : List (String × CommandConfig))
        → Step s (record s { settings = configure cmds s.settings })

  pub data Reach (s : State) : State → Type 0 where
    here : Reach s s
    next : {t u : State} → Reach s t → Step t u → Reach s u

  -- The circuit is sound, and the tickets that are out are those of the running commands.
  pub record Inv (max : ℕ) (s : State) : Type 0 where
    pub collector : DefaultMetricCollector
    pub well : IsCircuit env collector s.circuit
    pub tickets : HasOut s.running s.circuit.executor_pool
    pub fixed : s.circuit.executor_pool.max ≡ max

  begin-Inv :
      (max : ℕ) (s : State) (at : Ticks) (a : Admission) (m : SettingsMap) (c : CircuitBreaker env)
      (down : ℕ)
      → Inv max s
      → do_c_begin env at s.settings s.circuit ≡ some (a, m, c)
      → Inv max (record {
        settings = m;
        circuit = c;
        running = out_after env a s.running;
        turned_down = down;
      })
  begin-Inv max s at a m c down inv e =
      let begun : Begun env inv.collector s.running s.circuit a c =
        subst (λ r. Begins env inv.collector s.running s.circuit r) e
          (do_c_begin-Begins env inv.collector s.running s.circuit inv.well inv.tickets at
            s.settings) in
      record {
        collector = inv.collector;
        well = begun.well;
        tickets = begun.tickets;
        fixed = begun.max ∙ inv.fixed;
      }

  pub end-Inv :
      (max n : ℕ) (s : State) (t : Moments) (k : Caller) (done : Completion) (r : Option Err)
      (c : CircuitBreaker env)
      → Inv max s
      → s.running ≡ suc n
      → do_c_end env timing t k done s.circuit ≡ some (r, c)
      → Inv max (record s { circuit = c; running = n })
  end-Inv max n s t k done r c inv e f =
      let ended =
        do_c_end-Ended env timing t k inv.collector n s.circuit inv.well (rw e at inv.tickets)
          done in
      let at_end : Inv max (record s { circuit = ended.after; running = n }) = record {
        collector = _;
        well = ended.recorded.well;
        tickets = rw ended.recorded.pool ended.tickets;
        fixed = rw ended.recorded.pool (ended.kept ∙ inv.fixed);
      } in
      subst (λ x. Inv max (record s { circuit = x; running = n })) (cc (ended.returns, f)) at_end

  refuse-Inv :
      (max n : ℕ) (s : State) (t : Moments) (k : Caller) (err : Err)
      → Inv max s
      → Inv max
          (record s { circuit = (do_c_refused env timing t k err s.circuit).1; turned_down = n })
  unfolding do_c_refused
  refuse-Inv max n s t k err inv =
      let recorded =
        (error_with_fallback-Recorded env timing t k 0 err inv.collector s.circuit inv.well).1 in
      record {
        collector = _;
        well = recorded.well;
        tickets = rw recorded.pool inv.tickets;
        fixed = rw recorded.pool inv.fixed;
      }

  Step-Inv : {s u : State} (max : ℕ) → Inv max s → Step s u → Inv max u
  Step-Inv {s} max inv (begin at {a} {m} {c} e) = begin-Inv max s at a m c _ inv e
  Step-Inv max inv (look_up e) = record {
    collector = inv.collector;
    well = inv.well;
    tickets = inv.tickets;
    fixed = inv.fixed;
  }
  Step-Inv {s} max inv (refuse t k err {n} e) = refuse-Inv max n s t k err inv
  Step-Inv {s} max inv (end t k done {n} {r} {c} e f) = end-Inv max n s t k done r c inv e f
  Step-Inv max inv (reconfigure cmds) = record {
    collector = inv.collector;
    well = inv.well;
    tickets = inv.tickets;
    fixed = inv.fixed;
  }

  pub Reach-Inv : {s u : State} (max : ℕ) → Inv max s → Reach s u → Inv max u
  Reach-Inv max inv here = inv
  Reach-Inv max inv (next r st) = Step-Inv max (Reach-Inv max inv r) st

  -- What a verdict that `Begins` describes says about the tickets.
  verdict :
      (d : DefaultMetricCollector) (out max : ℕ) (c : CircuitBreaker env)
      (r : Option (Admission × SettingsMap × CircuitBreaker env))
      → c.executor_pool.max ≡ max
      → Begins env d out c r
      → (a : Admission) × (m : SettingsMap) × (c' : CircuitBreaker env) × (r ≡ some (a, m, c'))
        × Explains env a out max
  verdict d out max c none e h = absurd h
  verdict d out max c (some (a, m, c')) e h =
      (a, m, c', refl, subst (λ x. Explains env a out x) e h.reason)

  -- A circuit before any command.
  abbrev pub fresh : SettingsMap → CircuitBreaker env → State
  fresh m c = record { settings = m; circuit = c; running = 0; turned_down = 0 }

  module _ (d : DefaultMetricCollector) (c : CircuitBreaker env) (m : SettingsMap) {s : State}
      (wf : IsCircuit env d c) (tickets : HasOut 0 c.executor_pool)
      (reach : Reach (fresh m c) s) where
    reached : Inv c.executor_pool.max s
    reached =
        Reach-Inv c.executor_pool.max
          (record { collector = d; well = wf; tickets = tickets; fixed = refl }) reach

    -- However commands begin and end and settings change, a sound circuit never runs more commands
    -- than it had tickets at first, and the tickets in the channel are those that no running command
    -- has.
    pub concurrency_bound :
        (s.running ≤ c.executor_pool.max)
        × (s.circuit.executor_pool.tickets + s.running ≡ c.executor_pool.max)
    concurrency_bound = omega (arith, reached.tickets.balance, reached.fixed)

    -- However commands have begun and ended on a sound circuit, a new command gets a verdict,
    -- without a panic. It is turned down for want of a ticket only when as many commands run as
    -- the circuit had tickets at first, and let run only when fewer do.
    pub admission_exact :
        (at : Ticks)
        → (a : Admission) × (m' : SettingsMap) × (c' : CircuitBreaker env) × (do_c_begin env at
              s.settings s.circuit
            ≡ some (a, m', c'))
          × Explains env a s.running c.executor_pool.max
    admission_exact at =
        let inv = reached in
        verdict inv.collector s.running c.executor_pool.max s.circuit
          (do_c_begin env at s.settings s.circuit) inv.fixed
          (do_c_begin-Begins env inv.collector s.running s.circuit inv.well inv.tickets at
            s.settings)
