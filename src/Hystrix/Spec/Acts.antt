-- ===== src/Hystrix/Spec/Acts.antt =====
-- A part of a command (hystrix/hystrix.go) on a circuit that stands for an abstract service.
use hystrix_go.Base.{
  ℕ, zero, suc, ◌^◌, ◌≤◌, ◌<◌, ◌≡◌, refl, Bool, true, false, Option, none, some, length, arith,
}
use hystrix_go.Circuit.Spec.{Breaker, answer}
use hystrix_go.Circuit.Spec.Refined.{length-answer, length-hear}
use hystrix_go.Hystrix.{
  do_c_refused, Err, Completion, ran, ctx_done, timed_out, Moments, Caller, Circuit, err_timeout,
  primary_event, try_fallback,
}
use hystrix_go.Hystrix.Spec.{
  Act, begins, turned_down, ends, Reply, Service, event_of, fail, finish, take, end_running, serve,
  act,
}
use hystrix_go.Hystrix.Spec.Begins.{IsServing, begins-serve}
use hystrix_go.Hystrix.Spec.Ends.{turned_down-serve, none_running, finish-serve}
use hystrix_go.MetricCollector.{Env}
use hystrix_go.Metrics.{since}
use hystrix_go.Rolling.Log.{unix}
use hystrix_go.Settings.{Settings, SettingsMap}

-- A part does not come in a second before `from`, and its times of a test are below 2^62.
abbrev pub Comes : ℕ → Act → Type 0
Comes from (begins at) = (from ≤ unix at.checked) × (at.opened < 2 ^ 62) × (at.tested < 2 ^ 62)
Comes from (turned_down t k err) = from ≤ unix t.readings.now
Comes from (ends t k done) = from ≤ unix t.readings.now

-- The second of the last report after a part.
abbrev pub reported_at : ℕ → Act → ℕ
reported_at from (begins at) = from
reported_at from (turned_down t k err) = unix t.readings.now
reported_at from (ends t k done) = unix t.readings.now

module _ (env : Env) (timing : Bool) (m : SettingsMap) (s : Settings)
    (short : s.sleep_window < 2 ^ 62) where
  open env use {float}

  -- The same reply on both sides, and a circuit of the same name that stands for the service after
  -- it, with at most one report more than `n`; or both come to nothing.
  abbrev pub Acts :
      ℕ
      → ℕ
      → Circuit env
      → Option (Reply × Service)
      → Option (Reply × SettingsMap × Circuit env)
      → Type 0
  Acts last n c none y = y ≡ none
  Acts last n c (some (reply, v)) y =
      (c' : Circuit env) × (y ≡ some (reply, m, c'))
      × IsServing env m s last c' v
      × (c'.name ≡ c.name)
      × (length v.breaker.reports ≤ suc n)

  take-breaker : (allowed : Bool) (b : Breaker) (n : ℕ) → (take float s allowed b n).1.breaker ≡ b
  take-breaker false b n = refl
  take-breaker true b n = ground arith

  length-fail :
      (t : Moments) (k : Caller) (run_duration : ℕ) (err : Err) (b : Breaker)
      → length (fail t k run_duration err b).1.reports ≤ suc (length b.reports)
  length-fail t k run_duration err b =
      length-hear env timing m s short
        (event_of t (primary_event k.ctx_err err) (try_fallback k.fallback err).0 run_duration) b

  length-finish :
      (t : Moments) (k : Caller) (done : Completion) (b : Breaker)
      → length (finish t k done b).1.reports ≤ suc (length b.reports)
  length-finish t k (ran none) b =
      length-hear env timing m s short (event_of t "success" "" (since t.run_start t.run_end)) b
  length-finish t k (ran (some err)) b = length-fail t k (since t.run_start t.run_end) err b
  length-finish t k (ctx_done err) b = length-fail t (record k { ctx_err = some err }) 0 err b
  length-finish t k timed_out b = length-fail t k 0 err_timeout b

  ends-Acts :
      (t : Moments) (k : Caller) (done : Completion) (last n : ℕ) (c : Circuit env) (b : Breaker)
      → IsServing env m s last c (record { breaker = b; running = n })
      → last ≤ unix t.readings.now
      → Acts
          (unix t.readings.now)
          (length b.reports)
          c
          (end_running n (finish t k done b))
          (act env timing (ends t k done) m c)
  ends-Acts t k done last zero c b r le =
      rw (none_running env m s timing last t le k done c r.tickets) refl
  ends-Acts t k done last (suc n) c b r le =
      let (c', e, r', named) =
        finish-serve env m s timing last t le k n c b r.breaker r.tickets r.max done in
      (c', rw e refl, r', named, length-finish t k done b)

  pub act-serve :
      (a : Act) (last : ℕ) (c : Circuit env) (v : Service)
      → IsServing env m s last c v
      → Comes last a
      → length v.breaker.reports < 2 ^ 63
      → Acts
          (reported_at last a)
          (length v.breaker.reports)
          c
          (serve float s a v)
          (act env timing a m c)
  act-serve (begins at) last c v r comes few =
      let (c', e, r', named) =
        begins-serve env m s short timing last at c v r comes.0 comes.1 comes.2 few in
      let (allowed, b) = answer float s at v.breaker in
      (
        c',
        e,
        r',
        named,
        rw (take-breaker allowed b v.running, length-answer env timing m s short at v.breaker)
            (omega arith),
      )
  act-serve (turned_down t k err) last c v r comes few =
      let (e, r', named) = turned_down-serve env m s timing last t comes k err c v r in
      ((do_c_refused env timing t k err c).1, rw e refl, r', named, length-fail t k 0 err v.breaker)
  act-serve (ends t k done) last c v r comes few =
      ends-Acts t k done last v.running c v.breaker r comes
