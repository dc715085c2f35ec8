-- ===== src/Hystrix/Spec/Ends.antt =====
-- The end of a command (hystrix/hystrix.go) on a circuit that stands for an abstract service.
use Prim.Native.String.{String}
use hystrix_go.Base.{ℕ, suc, ◌≤◌, ◌≡◌, refl, Bool, none, some, arith, ◌∙◌}
use hystrix_go.Circuit.Report.{report_event-executor_pool, report_event-name}
use hystrix_go.Circuit.Spec.{Breaker, hear}
use hystrix_go.Circuit.Spec.Asked.{IsRefined}
use hystrix_go.Circuit.Spec.Heard.{hear-IsRefined}
use hystrix_go.Hystrix.{
  Err, Completion, ran, ctx_done, timed_out, Moments, Caller, Circuit, err_timeout, primary_event,
  try_fallback, error_with_fallback, report, give_back, do_c_refused, do_c_end,
}
use hystrix_go.Hystrix.Run.{give_back_lem}
use hystrix_go.Hystrix.Spec.{Service, event_of, fail, finish}
use hystrix_go.MetricCollector.{Env}
use hystrix_go.Metrics.{◌>>=◌, since}
use hystrix_go.Pool.{return_ticket}
use hystrix_go.Pool.Tickets.{HasOut}
use hystrix_go.Rolling.Log.{unix}
use hystrix_go.Settings.{Settings, SettingsMap}
use hystrix_go.Hystrix.Spec.Begins.{IsServing, with_pool, with_pool-IsRefined}

module _ (env : Env) (m : SettingsMap) (s : Settings) where
  open env use {float}

  -- Without a running command the channel is full, and a ticket cannot be sent into it.
  give_back-none :
      (now : ℕ) (c : Circuit env) → HasOut 0 c.executor_pool → give_back env now c ≡ none
  unfolding give_back return_ticket
  give_back-none now c held = ground arith

  module _ (timing : Bool) (last : ℕ) (t : Moments) (le : last ≤ unix t.readings.now) where
    reports :
        (primary secondary : String) (run_duration n : ℕ) (c : Circuit env) (b : Breaker)
        → IsRefined env m s last c b
        → HasOut n c.executor_pool
        → c.executor_pool.max ≡ s.max_concurrent_requests
        → IsServing env m s
            (unix t.readings.now)
            (report env timing t primary secondary run_duration c)
            (record { breaker = hear (event_of t primary secondary run_duration) b; running = n })
          × ((report env timing t primary secondary run_duration c).name ≡ c.name)
    unfolding report
    reports primary secondary run_duration n c b r tickets max =
        let same =
          report_event-executor_pool env timing t.built t.readings primary secondary t.start
            run_duration c in
        (
          record {
            breaker =
                hear-IsRefined env timing m s last (event_of t primary secondary run_duration) c b r
                  le;
            tickets = rw same tickets;
            max = rw same max;
          },
          report_event-name env timing t.built t.readings primary secondary t.start run_duration c,
        )

  module _ (timing : Bool) (last : ℕ) (t : Moments) (le : last ≤ unix t.readings.now) where
    -- A failed command.
    fails :
        (k : Caller) (run_duration : ℕ) (err : Err) (n : ℕ) (c : Circuit env) (b : Breaker)
        → IsRefined env m s last c b
        → HasOut n c.executor_pool
        → c.executor_pool.max ≡ s.max_concurrent_requests
        → ((error_with_fallback env timing t k run_duration err c).0
            ≡ (fail t k run_duration err b).0)
          × IsServing env m s
              (unix t.readings.now)
              (error_with_fallback env timing t k run_duration err c).1
              (record { breaker = (fail t k run_duration err b).1; running = n })
          × ((error_with_fallback env timing t k run_duration err c).1.name ≡ c.name)
    unfolding error_with_fallback
    fails k run_duration err n c b r held max =
        let (serving, named) =
          reports timing last t le (primary_event k.ctx_err err) (try_fallback k.fallback err).0
            run_duration n c b r held max in
        (refl, serving, named)

    pub turned_down-serve :
        (k : Caller) (err : Err) (c : Circuit env) (v : Service)
        → IsServing env m s last c v
        → ((do_c_refused env timing t k err c).0 ≡ (fail t k 0 err v.breaker).0)
          × IsServing env m s
              (unix t.readings.now)
              (do_c_refused env timing t k err c).1
              (record { breaker = (fail t k 0 err v.breaker).1; running = v.running })
          × ((do_c_refused env timing t k err c).1.name ≡ c.name)
    unfolding do_c_refused
    turned_down-serve k err c v r = fails k 0 err v.running c v.breaker r.breaker r.tickets r.max

    pub none_running :
        (k : Caller) (done : Completion) (c : Circuit env)
        → HasOut 0 c.executor_pool
        → do_c_end env timing t k done c ≡ none
    unfolding do_c_end
    none_running k (ran none) c held = rw (give_back-none t.returned c held) refl
    none_running k (ran (some err)) c held = rw (give_back-none t.returned c held) refl
    none_running k (ctx_done err) c held = rw (give_back-none t.returned c held) refl
    none_running k timed_out c held = rw (give_back-none t.returned c held) refl

    module _ (k : Caller) (n : ℕ) (c : Circuit env) (b : Breaker) (r : IsRefined env m s last c b)
        (held : HasOut (suc n) c.executor_pool)
        (max : c.executor_pool.max ≡ s.max_concurrent_requests) where
      abbrev pub Finishes : Completion → Type 0
      Finishes done =
          (c' : Circuit env) × (do_c_end env timing t k done c ≡ some ((finish t k done b).0, c'))
          × IsServing env m s (unix t.readings.now) c'
              (record { breaker = (finish t k done b).1; running = n })
          × (c'.name ≡ c.name)

      finish_failed :
          (k' : Caller) (run_duration : ℕ) (err : Err) (done : Completion)
          → do_c_end env timing t k done c ≡ (
              give_back env t.returned c >>= λ c'.
              some (error_with_fallback env timing t k' run_duration err c'))
          → finish t k done b ≡ fail t k' run_duration err b
          → Finishes done
      finish_failed k' run_duration err done path same =
          let (p, e, left, kept) = give_back_lem env timing t t.returned n c held in
          let (said, serving, named) =
            fails k' run_duration err n (with_pool env m s c p) b
              (with_pool-IsRefined env m s last c b p r) left (kept ∙ max) in
          (
            (error_with_fallback env timing t k' run_duration err (with_pool env m s c p)).1,
            path ∙ rw (e, same, said) refl,
            rw same serving,
            named,
          )

      pub finish-serve : (done : Completion) → Finishes done
      unfolding do_c_end
      finish-serve (ran none) =
          let (p, e, left, kept) = give_back_lem env timing t t.returned n c held in
          let (serving, named) =
            reports timing last t le "success" "" (since t.run_start t.run_end) n
              (with_pool env m s c p) b (with_pool-IsRefined env m s last c b p r) left
              (kept ∙ max) in
          (_, rw e refl, serving, named)
      finish-serve (ran (some err)) =
          finish_failed k (since t.run_start t.run_end) err (ran (some err)) refl refl
      finish-serve (ctx_done err) =
          finish_failed (record k { ctx_err = some err }) 0 err (ctx_done err) refl refl
      finish-serve timed_out = finish_failed k 0 err_timeout timed_out refl refl
