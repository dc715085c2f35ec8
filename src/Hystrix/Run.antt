-- ===== src/Hystrix/Run.antt =====
-- A whole command: what it returns, what it reports, and its ticket.
use Prim.Native.String.{String}
use text.Mathlib.Text.{◌==◌ as str_eq}
use hystrix_go.Base.{
  ℕ, suc, ◌≡◌, ◌≢◌, refl, Bool, true, false, not, ◌&&◌, Option, none, some, if◌then◌else◌, ◌∙◌,
}
use hystrix_go.Circuit.{CircuitBreaker}
use hystrix_go.Circuit.Open.{IsCircuit}
use hystrix_go.Circuit.Report.{report_event_lem, execution}
use hystrix_go.Hystrix.{
  Err, Completion, ran, ctx_done, timed_out, Moments, Caller, err_timeout, primary_event,
  try_fallback, report, error_with_fallback, give_back, do_c_end,
}
use hystrix_go.Hystrix.Errors.{primary_event-failed, primary_event-ne, not-eq}
use hystrix_go.MetricCollector.{
  DefaultMetricCollector, MetricResult, Env, update_default, reset_default,
}
use hystrix_go.Metrics.{build_result, since, ◌>>=◌}
use mathlib.Core.Path.{subst}
use hystrix_go.Metrics.Outcome.{IsOutcome, build_result-IsOutcome, successes-build_result}
use hystrix_go.Pool.{ExecutorPool}
use hystrix_go.Pool.Tickets.{HasOut, return_ticket_lem}

module _ (env : Env) (timing : Bool) (t : Moments) where
  open env use {float}

  -- One result is recorded, as a success or not. A success on an open circuit closes it and starts
  -- the counters anew.
  pub record Recorded (success : Bool) (d : DefaultMetricCollector) (c c' : CircuitBreaker env)
      : Type 0 where
    pub result : MetricResult float.F
    pub outcome : IsOutcome result
    pub counted : result.successes ≡ (if success then 1 else 0)
    pub well :
        IsCircuit env
          (update_default timing t.readings result
            (if success && c.opened then reset_default d else d))
          c'
    pub opened : c'.opened ≡ (c.opened && not success)
    pub tested : c'.opened_or_last_tested_time ≡ c.opened_or_last_tested_time
    pub pool : c'.executor_pool ≡ c.executor_pool

  report-Recorded :
      (primary secondary : String) (run_duration : ℕ) (d : DefaultMetricCollector)
      (c : CircuitBreaker env)
      → primary ≢ ""
      → IsCircuit env d c
      → Recorded
          (str_eq primary "success")
          d
          c
          (report env timing t primary secondary run_duration c)
  unfolding report
  report-Recorded primary secondary run_duration d c ne wf =
      let facts =
        (report_event_lem env timing t.built t.readings primary secondary t.start run_duration c d
          wf ne) in
      record {
        result =
            build_result t.built
              (execution env timing t.built t.readings primary secondary t.start run_duration c);
        outcome = build_result-IsOutcome _ _;
        counted = successes-build_result _ _;
        well = facts.4;
        opened = facts.1;
        tested = facts.2;
        pool = facts.3;
      }

  pub error_with_fallback-Recorded :
      (k : Caller) (run_duration : ℕ) (err : Err) (d : DefaultMetricCollector)
      (c : CircuitBreaker env)
      → IsCircuit env d c
      → ((error_with_fallback env timing t k run_duration err c).0
          ≡ (try_fallback k.fallback err).1)
        × Recorded false d c (error_with_fallback env timing t k run_duration err c).1
  unfolding error_with_fallback
  error_with_fallback-Recorded k run_duration err d c wf =
      let secondary = (try_fallback k.fallback err).0 in
      let primary = primary_event k.ctx_err err in
      (
        refl,
        subst (λ b. Recorded b d c (report env timing t primary secondary run_duration c))
            (primary_event-failed k.ctx_err err).1
            (report-Recorded primary secondary run_duration d c (primary_event-ne k.ctx_err err)
              wf),
      )

  pub give_back_lem :
      (now out : ℕ) (c : CircuitBreaker env)
      → HasOut (suc out) c.executor_pool
      → (p : ExecutorPool) × (give_back env now c ≡ some (record c { executor_pool = p }))
        × HasOut out p
        × (p.max ≡ c.executor_pool.max)
  unfolding give_back
  give_back_lem now out c h =
      let (p, e, left, kept) = return_ticket_lem now h in (p, rw e, left, kept)

  -- Whether the run function returned in time without an error.
  abbrev pub succeeds : Completion → Bool
  succeeds (ran none) = true
  succeeds _ = false

  -- What the caller gets.
  abbrev pub answer : Caller → Completion → Option Err
  answer k (ran none) = none
  answer k (ran (some err)) = (try_fallback k.fallback err).1
  answer k (ctx_done err) = (try_fallback k.fallback err).1
  answer k timed_out = (try_fallback k.fallback err_timeout).1

  pub record Ended (k : Caller) (done : Completion) (d : DefaultMetricCollector) (out : ℕ)
      (c : CircuitBreaker env) : Type 0 where
    pub after : CircuitBreaker env
    pub pool : ExecutorPool
    pub returns : do_c_end env timing t k done c ≡ some (answer k done, after)
    pub tickets : HasOut out pool
    pub kept : pool.max ≡ c.executor_pool.max
    pub recorded : Recorded (succeeds done) d (record c { executor_pool = pool }) after

  module _ (k : Caller) (d : DefaultMetricCollector) (out : ℕ) (c : CircuitBreaker env)
      (wf : IsCircuit env d c) (tickets : HasOut (suc out) c.executor_pool) where
    end_failed :
        (k' : Caller) (run_duration : ℕ) (err : Err) (done : Completion)
        → do_c_end env timing t k done c ≡ (
            give_back env t.returned c >>= λ c'.
            some (error_with_fallback env timing t k' run_duration err c'))
        → succeeds done ≡ false
        → answer k done ≡ (try_fallback k'.fallback err).1
        → Ended k done d out c
    end_failed k' run_duration err done path failed answered =
        let (p, e, left, kept) = give_back_lem t.returned out c tickets in
        let c' : CircuitBreaker env = record c { executor_pool = p } in
        let (same, recorded) =
          error_with_fallback-Recorded k' run_duration err d c'
            (record { named = wf.named; first = wf.first }) in
        record {
          after = (error_with_fallback env timing t k' run_duration err c').1;
          pool = p;
          returns = path ∙ rw (e, answered, same);
          tickets = left;
          kept = kept;
          recorded = rw failed recorded;
        }

    -- A command that runs on a sound circuit, with its ticket out, comes to an end whatever
    -- `select` receives: its ticket goes back, one result is recorded, and the caller gets no
    -- error after a run that returns in time without one, and otherwise what the fallback makes
    -- of the error of the run, of the context or of the timeout.
    pub do_c_end-Ended : (done : Completion) → Ended k done d out c
    unfolding do_c_end
    do_c_end-Ended (ran none) =
        let (p, e, left, kept) = give_back_lem t.returned out c tickets in
        let c' : CircuitBreaker env = record c { executor_pool = p } in
        record {
          after = _;
          pool = p;
          returns = rw e;
          tickets = left;
          kept = kept;
          recorded =
              report-Recorded "success" "" (since t.run_start t.run_end) d c'
                (not-eq "success" "" refl) (record { named = wf.named; first = wf.first });
        }
    do_c_end-Ended (ran (some err)) =
        end_failed k (since t.run_start t.run_end) err (ran (some err)) refl refl refl
    do_c_end-Ended (ctx_done err) =
        end_failed (record k { ctx_err = some err }) 0 err (ctx_done err) refl refl refl
    do_c_end-Ended timed_out = end_failed k 0 err_timeout timed_out refl refl refl
