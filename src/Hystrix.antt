-- ===== src/Hystrix.antt =====
-- hystrix/hystrix.go: the execution of a command on its circuit.
--
-- The run function and the fallback are called for their results alone: what `select` receives is
-- an argument, and a fallback is a function from the error. An error of the program's users is a
-- number; it may wrap other errors, as `fmt.Errorf` makes them. `none` stands for a panic or for
-- a send that blocks.
pub mod Errors
pub mod Frame
pub mod Run
pub mod System
pub mod Whole
pub mod Spec
pub mod Plain
pub mod Program
use Prim.Native.String.{String}
use text.Mathlib.Text.{◌==◌ as str_eq}
use hystrix_go.Base.{
  ℕ, ◌+◌, Bool, true, false, ◌||◌, Option, none, some, List, [], ◌∷◌, ◌==◌, if◌then◌else◌,
}
use hystrix_go.Circuit.{Ticks, CircuitBreaker, allow_request, report_event}
use hystrix_go.MetricCollector.{Env, Readings}
use hystrix_go.Metrics.{◌>>=◌, since}
use hystrix_go.Pool.{ExecutorPool, acquire, return_ticket}
use hystrix_go.Settings.{SettingsMap, get_settings}

-- An `error` that is not nil.
pub data Err : Type 0 where
  circuit_error : String → Err
  canceled : Err
  deadline_exceeded : Err
  other : ℕ → Err
  wrap : Err → Err
  join : Err → Err → Err

abbrev pub err_max_concurrency : Err
err_max_concurrency = circuit_error "max concurrency"

abbrev pub err_circuit_open : Err
err_circuit_open = circuit_error "circuit open"

abbrev pub err_timeout : Err
err_timeout = circuit_error "timeout"

-- The targets that the program compares with.
pub data Target : Type 0 where
  message : String → Target
  context_canceled : Target
  context_deadline : Target

-- `errors.Is`: the error itself or one that it wraps.
unfoldable pub errors_is : Err → Target → Bool
errors_is (circuit_error m) (message t) = str_eq m t
errors_is canceled context_canceled = true
errors_is deadline_exceeded context_deadline = true
errors_is (wrap e) t = errors_is e t
errors_is (join e f) t = errors_is e t || errors_is f t
errors_is _ _ = false

-- `errors.Is` of an error that may be nil.
abbrev pub opt_is : Option Err → Target → Bool
opt_is none t = false
opt_is (some e) t = errors_is e t

-- The `switch` of `errorWithFallback`.
unfoldable pub primary_event : Option Err → Err → String
primary_event ctx_err err =
    if errors_is err (message "circuit open")
    then "short-circuit"
    else if errors_is err (message "max concurrency")
    then "rejected"
    else if errors_is err (message "timeout")
    then "timeout"
    else if opt_is ctx_err context_canceled
    then "context_canceled"
    else if opt_is ctx_err context_deadline
    then "context_deadline_exceeded"
    else "failure"

abbrev pub Fallback : Type 0
Fallback = Option (Err → Option Err)

-- `tryFallback`: the event and the error that is returned. The text of the joined error is left out.
unfoldable pub try_fallback : Fallback → Err → String × Option Err
try_fallback none err = ("", some err)
try_fallback (some fallback) err = elim (fallback err) [
  | some fallback_err ↦ ("fallback-failure", some (join fallback_err err))
  | none ↦ ("fallback-success", none)
]

-- How far `DoC` gets before it runs the command.
pub data Admission : Type 0 where
  short_circuited rejected admitted : Admission

-- What `select` receives: the result of the run function, the end of the context with its error,
-- or the timeout.
pub data Completion : Type 0 where
  ran : Option Err → Completion
  ctx_done : Err → Completion
  timed_out : Completion

-- The readings of the clock in one `DoC`.
pub record Moments : Type 0 where
  pub start : ℕ
  pub ticks : Ticks
  pub run_start : ℕ
  pub run_end : ℕ
  pub returned : ℕ
  pub built : ℕ
  pub readings : Readings

-- What a caller brings: the fallback, and the error of the context when a failure is reported.
pub record Caller : Type 0 where
  pub fallback : Fallback
  pub ctx_err : Option Err

module _ (env : Env) where
  abbrev pub Circuit : Type 0
  Circuit = CircuitBreaker env

  -- `command.reportEvent`; an error of the circuit is only logged.
  unfoldable pub report : Bool → Moments → String → String → ℕ → Circuit → Circuit
  report timing t primary secondary run_duration c =
      (report_event env timing t.built t.readings primary secondary t.start run_duration c).1

  unfoldable pub error_with_fallback :
      Bool → Moments → Caller → ℕ → Err → Circuit → Option Err × Circuit
  error_with_fallback timing t k run_duration err c =
      let (secondary_event, err') = try_fallback k.fallback err in
      (err', report timing t (primary_event k.ctx_err err) secondary_event run_duration c)

  -- `DoC` up to the goroutine that runs the command.
  unfoldable pub do_c_begin :
      Ticks → SettingsMap → Circuit → Option (Admission × SettingsMap × Circuit)
  do_c_begin at m c = do
    (allowed, m', c') ← allow_request env at m c
    some (
        if allowed
        then (let (got, pool) = acquire c'.executor_pool in
            (if got then admitted else rejected, m', record c' { executor_pool = pool }))
        else (short_circuited, m', c'))

  -- What follows when `DoC` does not run the command.
  unfoldable pub do_c_refused : Bool → Moments → Caller → Err → Circuit → Option Err × Circuit
  do_c_refused timing t k err c = error_with_fallback timing t k 0 err c

  -- `cmd.circuit.executorPool.Return(cmd.ticket)`
  unfoldable pub give_back : ℕ → Circuit → Option Circuit
  give_back now c = do
    pool ← return_ticket true now c.executor_pool
    some (record c { executor_pool = pool })

  -- The second `select` of `DoC`, for a command that runs.
  unfoldable pub do_c_end :
      Bool → Moments → Caller → Completion → Circuit → Option (Option Err × Circuit)
  do_c_end timing t k (ran none) c = do
    c' ← give_back t.returned c
    some (none, report timing t "success" "" (since t.run_start t.run_end) c')
  do_c_end timing t k (ran (some err)) c = do
    c' ← give_back t.returned c
    some (error_with_fallback timing t k (since t.run_start t.run_end) err c')
  do_c_end timing t k (ctx_done err) c = do
    c' ← give_back t.returned c
    some (error_with_fallback timing t (record k { ctx_err = some err }) 0 err c')
  do_c_end timing t k timed_out c = do
    c' ← give_back t.returned c
    some (error_with_fallback timing t k 0 err_timeout c')

  -- `DoC` after `GetCircuit`, when nothing else happens on the circuit meanwhile.
  unfoldable pub do_c :
      Bool
      → Moments
      → Caller
      → Completion
      → SettingsMap
      → Circuit
      → Option (Option Err × SettingsMap × Circuit)
  do_c timing t k done m c = do
    (admission, m', c') ← do_c_begin t.ticks m c
    elim admission [
      | short_circuited ↦
          let (err, c'') = do_c_refused timing t k err_circuit_open c' in some (err, m', c'')
      | rejected ↦
          let (err, c'') = do_c_refused timing t k err_max_concurrency c' in some (err, m', c'')
      | admitted ↦ do
        (_, m'') ← get_settings c'.name m'
        (err, c'') ← do_c_end timing t k done c'
        some (err, m'', c'')
    ]

-- What `GoC` leaves in the channel that it returns.
unfoldable pub go_c : Option Err → List Err
go_c none = []
go_c (some err) = err ∷ []
