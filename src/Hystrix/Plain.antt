-- ===== src/Hystrix/Plain.antt =====
-- hystrix/hystrix.go: `Do` and `Go`, whose functions take no context.
--
-- They run with `context.Background()`, which never ends: it has no error, and `select` receives the
-- result of the run function or the timeout.
use hystrix_go.Base.{ℕ, ◌≡◌, refl, Bool, Option, none, some, List, []}
use hystrix_go.Hystrix.{
  Err, Circuit, Caller, Fallback, Completion, Moments, Admission, short_circuited, rejected,
  admitted, err_circuit_open, err_max_concurrency, err_timeout, try_fallback, ran, timed_out, do_c,
  go_c,
}
use hystrix_go.Circuit.{CircuitBreaker}
use hystrix_go.Circuit.Open.{IsCircuit}
use hystrix_go.Hystrix.Whole.{answer_after, do_c_lem}
use hystrix_go.MetricCollector.{Env, DefaultMetricCollector}
use hystrix_go.Pool.Tickets.{HasOut}
use hystrix_go.Metrics.{◌>>=◌}
use hystrix_go.Settings.{SettingsMap}

-- `fallbackFunc` and `fallbackFuncC`.
abbrev pub FallbackFunc : Type 0
FallbackFunc = Err → Option Err

module _ (Context : Type 0) (background : Context) where
  abbrev pub FallbackFuncC : Type 0
  FallbackFuncC = Context → Err → Option Err

  -- A nil fallback stays nil.
  abbrev pub fallback_c : Option FallbackFunc → Option FallbackFuncC
  fallback_c none = none
  fallback_c (some fallback) = some (λ _ err. fallback err)

  -- What `DoC` calls.
  abbrev pub in_background : Option FallbackFuncC → Fallback
  in_background none = none
  in_background (some fallback) = some (fallback background)

  -- What `select` receives.
  pub data Received : Type 0 where
    returned : Option Err → Received
    expired : Received

  abbrev pub completion : Received → Completion
  completion (returned err) = ran err
  completion expired = timed_out

  module _ (env : Env) where
    -- `Do`
    unfoldable pub call_do :
        Bool
        → Moments
        → Option FallbackFunc
        → Received
        → SettingsMap
        → Circuit env
        → Option (Option Err × SettingsMap × Circuit env)
    call_do timing t fallback received m c =
        do_c env timing t
          (record { fallback = in_background (fallback_c fallback); ctx_err = none })
          (completion received) m c

    -- `Go`, when its command is over: what is in the channel that it returned.
    unfoldable pub call_go :
        Bool
        → Moments
        → Option FallbackFunc
        → Received
        → SettingsMap
        → Circuit env
        → Option (List Err × SettingsMap × Circuit env)
    unfolding call_do
    call_go timing t fallback received m c = do
      (err, m, c) ← call_do timing t fallback received m c
      some (go_c err, m, c)

  in_background-fallback_c :
      (fallback : Option FallbackFunc) → in_background (fallback_c fallback) ≡ fallback
  in_background-fallback_c none = refl
  in_background-fallback_c (some fallback) = refl

  module _ (env : Env) (timing : Bool) (t : Moments) (fallback : Option FallbackFunc)
      (m : SettingsMap) (c : Circuit env) where
    -- `Do` is `DoC` with the same fallback.
    pub call_do-do_c :
        (received : Received)
        → call_do env timing t fallback received m c
          ≡ do_c env timing t
              (record { fallback = fallback; ctx_err = none })
              (completion received)
              m
              c
    unfolding call_do
    call_do-do_c received = rw (in_background-fallback_c fallback) refl

  -- A fallback that always succeeds.
  quiet_fallback :
      (f : FallbackFunc) (err : Err) → f err ≡ none → (try_fallback (some f) err).1 ≡ none
  unfolding try_fallback
  quiet_fallback f err h = rw (try_fallback, h) refl

  module _ (env : Env) (timing : Bool) (t : Moments) (f : FallbackFunc)
      (works : (err : Err) → f err ≡ none) where
    abbrev caller : Caller
    caller = record { fallback = some f; ctx_err = none }

    answer_after-none :
        (received : Received) (a : Admission)
        → answer_after env timing t caller (completion received) a ≡ none
    answer_after-none received short_circuited =
        quiet_fallback f err_circuit_open (works err_circuit_open)
    answer_after-none received rejected =
        quiet_fallback f err_max_concurrency (works err_max_concurrency)
    answer_after-none (returned none) admitted = refl
    answer_after-none (returned (some err)) admitted = quiet_fallback f err (works err)
    answer_after-none expired admitted = quiet_fallback f err_timeout (works err_timeout)

    -- `Go` with a fallback that always succeeds leaves its channel empty, on a sound circuit to which nothing else
    -- happens meanwhile, whether the command runs and with what result, times out or is turned down.
    pub call_go-quiet :
        (d : DefaultMetricCollector) (out : ℕ) (m : SettingsMap) (c : CircuitBreaker env)
        (received : Received)
        → IsCircuit env d c
        → HasOut out c.executor_pool
        → (m' : SettingsMap) × (c' : CircuitBreaker env) × (call_go env timing t
              (some f)
              received
              m
              c
            ≡ some ([], m', c'))
          × (d' : DefaultMetricCollector) × IsCircuit env d' c'
          × HasOut out c'.executor_pool
    unfolding call_go go_c
    call_go-quiet d out m c received wf tickets =
        let done = do_c_lem env timing t caller (completion received) m d out c wf tickets in
        (
          done.settings,
          done.after,
          rw
              (
                call_do-do_c env timing t (some f) m c received,
                done.returns,
                answer_after-none received done.verdict,
              )
              refl,
          done.collector,
          done.well,
          done.tickets,
        )
