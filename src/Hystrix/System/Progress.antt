-- ===== src/Hystrix/System/Progress.antt =====
-- How the commands end that run on one circuit.
use hystrix_go.Base.{ℕ, ◌≡◌, refl, Bool, Option, some, List, [], ◌∷◌, map, length, arith}
use hystrix_go.Circuit.{CircuitBreaker}
use hystrix_go.Circuit.Open.{IsCircuit}
use hystrix_go.Hystrix.{Err, Completion, Moments, Caller, do_c_end}
use hystrix_go.Hystrix.Run.{answer, do_c_end-Ended}
use hystrix_go.Hystrix.System.{State, Reach, Inv, end-Inv, Reach-Inv, fresh}
use hystrix_go.MetricCollector.{DefaultMetricCollector, Env}
use hystrix_go.Metrics.{◌>>=◌}
use hystrix_go.Pool.Tickets.{HasOut}
use hystrix_go.Settings.{SettingsMap}

-- How one command ends: when, for whom, and what `select` receives.
abbrev pub Ending : Type 0
Ending = Moments × Caller × Completion

module _ (env : Env) (timing : Bool) where
  -- Commands end one after the other: what their callers get, and the circuit after that.
  unfoldable pub end_all :
      List Ending → CircuitBreaker env → Option (List (Option Err) × CircuitBreaker env)
  end_all [] c = some ([], c)
  end_all ((t, k, done) ∷ ends) c = do
    (r, c) ← do_c_end env timing t k done c
    (rs, c) ← end_all ends c
    some (r ∷ rs, c)

  abbrev pub answer_of : Ending → Option Err
  answer_of (t, k, done) = answer env timing t k done

  -- All commands have ended, and every ticket is in the channel.
  pub record AllEnded (max : ℕ) (ends : List Ending) (c : CircuitBreaker env) : Type 0 where
    pub after : CircuitBreaker env
    pub returns : end_all ends c ≡ some (map answer_of ends, after)
    pub tickets : after.executor_pool.tickets ≡ max

  end_all-AllEnded :
      (max : ℕ) (ends : List Ending) (s : State env timing)
      → Inv env timing max s
      → s.running ≡ length ends
      → AllEnded max ends s.circuit
  unfolding end_all
  end_all-AllEnded max [] s inv e = record {
    after = s.circuit;
    returns = refl;
    tickets = omega (arith, inv.tickets.balance, inv.fixed, e);
  }
  end_all-AllEnded max ((t, k, done) ∷ ends) s inv e =
      let ended =
        do_c_end-Ended env timing t k inv.collector (length ends) s.circuit inv.well
          (rw e at inv.tickets) done in
      let rest =
        end_all-AllEnded max ends (record s { circuit = ended.after; running = length ends })
          (end-Inv env timing max (length ends) s t k done (answer env timing t k done) ended.after
            inv e ended.returns)
          refl in
      record {
        after = rest.after;
        returns = rw (ended.returns, rest.returns) refl;
        tickets = rest.tickets;
      }

  -- However commands have begun and ended and settings have changed on a sound circuit, those that
  -- run can all end, in any order and each with any completion: no ticket blocks, each caller
  -- gets the error of its own completion after the fallback, or none, and then every
  -- ticket is in the channel again.
  pub end_progress :
      (d : DefaultMetricCollector) (c : CircuitBreaker env) (m : SettingsMap) {s : State env timing}
      → IsCircuit env d c
      → HasOut 0 c.executor_pool
      → Reach env timing (fresh env timing m c) s
      → (ends : List Ending) → s.running ≡ length ends
      → AllEnded c.executor_pool.max ends s.circuit
  end_progress d c m {s} wf tickets reach ends e =
      end_all-AllEnded c.executor_pool.max ends s
        (Reach-Inv env timing c.executor_pool.max
          (record { collector = d; well = wf; tickets = tickets; fixed = refl }) reach)
        e
