-- ===== src/Hystrix/Whole.antt =====
-- `DoC` from its beginning to its end, on a circuit that nothing else happens to meanwhile.
use hystrix_go.Base.{ℕ, ◌≡◌, refl, Bool, Option, none, some, ◌∙◌}
use hystrix_go.Base.Dict.{lookup}
use hystrix_go.Circuit.{CircuitBreaker}
use hystrix_go.Circuit.Open.{IsCircuit}
use hystrix_go.Hystrix.{
  Err, Admission, short_circuited, rejected, admitted, Completion, Moments, Caller,
  err_circuit_open, err_max_concurrency, try_fallback, error_with_fallback, do_c_begin,
  do_c_refused, do_c,
}
use hystrix_go.Hystrix.Frame.{Begun, Begins, Explains, do_c_begin-Begins}
use hystrix_go.Hystrix.Run.{answer, do_c_end-Ended, error_with_fallback-Recorded}
use hystrix_go.MetricCollector.{DefaultMetricCollector, Env}
use hystrix_go.Pool.Tickets.{HasOut}
use hystrix_go.Settings.{SettingsMap}
use hystrix_go.Settings.Lookup.{found, get_settings_total}

module _ (env : Env) (timing : Bool) (t : Moments) (k : Caller) (done : Completion) where
  -- What the caller gets after each verdict.
  abbrev pub answer_after : Admission → Option Err
  answer_after short_circuited = (try_fallback k.fallback err_circuit_open).1
  answer_after rejected = (try_fallback k.fallback err_max_concurrency).1
  answer_after admitted = answer env timing t k done

  pub record Done (out : ℕ) (c : CircuitBreaker env)
      (r : Option (Option Err × SettingsMap × CircuitBreaker env)) : Type 0 where
    pub verdict : Admission
    pub reason : Explains env verdict out c.executor_pool.max
    pub settings : SettingsMap
    pub after : CircuitBreaker env
    pub returns : r ≡ some (answer_after verdict, settings, after)
    pub collector : DefaultMetricCollector
    pub well : IsCircuit env collector after
    pub tickets : HasOut out after.executor_pool

  module _ (m : SettingsMap) (d : DefaultMetricCollector) (out : ℕ) (c : CircuitBreaker env) where
    after_refusal :
        (a : Admission) (err : Err) (m1 : SettingsMap) (c1 : CircuitBreaker env)
        → do_c env timing t k done m c
          ≡ some
              ((do_c_refused env timing t k err c1).0, m1, (do_c_refused env timing t k err c1).1)
        → answer_after a ≡ (try_fallback k.fallback err).1
        → Explains env a out c.executor_pool.max
        → IsCircuit env d c1
        → HasOut out c1.executor_pool
        → Done out c (do_c env timing t k done m c)
    unfolding do_c_refused
    after_refusal a err m1 c1 path answered reason well tickets =
        let (same, recorded) = error_with_fallback-Recorded env timing t k 0 err d c1 well in
        record {
          verdict = a;
          reason = reason;
          settings = m1;
          after = (error_with_fallback env timing t k 0 err c1).1;
          returns = path ∙ rw (answered, same) refl;
          collector = _;
          well = recorded.well;
          tickets = rw recorded.pool tickets;
        }

    by_verdict :
        (a : Admission) (m1 : SettingsMap) (c1 : CircuitBreaker env)
        → do_c_begin env t.ticks m c ≡ some (a, m1, c1)
        → Begun env d out c a c1
        → Done out c (do_c env timing t k done m c)
    unfolding do_c do_c_refused
    by_verdict short_circuited m1 c1 e begun =
        after_refusal short_circuited err_circuit_open m1 c1 (rw (do_c, e) refl) refl begun.reason
          begun.well begun.tickets
    by_verdict rejected m1 c1 e begun =
        after_refusal rejected err_max_concurrency m1 c1 (rw (do_c, e) refl) refl begun.reason
          begun.well begun.tickets
    by_verdict admitted m1 c1 e begun =
        let ended = do_c_end-Ended env timing t k d out c1 begun.well begun.tickets done in
        record {
          verdict = admitted;
          reason = begun.reason;
          settings = (found c1.name (lookup c1.name m1) m1).1;
          after = ended.after;
          returns = rw (do_c, e, get_settings_total c1.name m1, ended.returns) refl;
          collector = _;
          well = ended.recorded.well;
          tickets = rw ended.recorded.pool ended.tickets;
        }

    by_begin :
        (r : Option (Admission × SettingsMap × CircuitBreaker env))
        → do_c_begin env t.ticks m c ≡ r
        → Begins env d out c r
        → Done out c (do_c env timing t k done m c)
    by_begin none e h = absurd h
    by_begin (some (a, m1, c1)) e h = by_verdict a m1 c1 e h

    -- `DoC` on a sound circuit always returns, when nothing else happens to the circuit
    -- meanwhile. The caller gets what the fallback makes of an open circuit, of a lack of tickets
    -- or of the error of the run, and no error after a success. It is turned down for want of a
    -- ticket only if all are out, and runs only if not all are. Afterwards as many tickets are
    -- out as before, and the circuit is sound again.
    pub do_c_lem :
        IsCircuit env d c → HasOut out c.executor_pool → Done out c (do_c env timing t k done m c)
    do_c_lem wf tickets =
        by_begin (do_c_begin env t.ticks m c) refl
          (do_c_begin-Begins env d out c wf tickets t.ticks m)
