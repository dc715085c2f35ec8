-- ===== src/LoadTest/Handle.antt =====
-- loadtest/service/main.go: `handle`, with the goroutine of `hystrix.Go` and that of the run function.
--
-- A request is answered while the command may still run. Each step is one operation on a channel, or a
-- step of `DoC` (hystrix/hystrix.go). The context is `context.Background()`, which never ends. The
-- run function returns nil, and so does the fallback.
pub mod Left
pub mod Answered
use hystrix_go.Base.{ℕ, zero, suc, ◌≡◌, Option, none, some, List, [], ◌∷◌}
use hystrix_go.Hystrix.{
  Err, Fallback, err_circuit_open, err_max_concurrency, err_timeout, try_fallback, go_c,
}

-- The goroutine of the run function.
pub data Runner : Type 0 where
  unstarted sleeping slept : Runner

-- The goroutine of `hystrix.Go`: `falls_back` with the error that the fallback is called for.
pub data Caller : Type 0 where
  asks : Caller
  waits : Caller
  falls_back : Err → Caller
  finished : Caller

-- The handler: it waits, or it has answered.
pub data Answer : Type 0 where
  pending ok internal_server_error : Answer

pub record Request : Type 0 where
  pub runner : Runner
  pub caller : Caller
  pub done : ℕ  -- how many the channel holds
  pub err_chan : List Err
  pub answer : Answer

unfoldable pub arrive : Request
arrive = record { runner = unstarted; caller = asks; done = 0; err_chan = []; answer = pending }

-- The fallback of `handle`, after its send.
abbrev pub fallback : Fallback
fallback = some (λ _. none)

-- What `GoC` sends when `DoC` returns an error.
abbrev pub finish : Option Err → Request → Request
finish err r = record r { caller = finished; err_chan = go_c err }

-- A send is a step only if there is room: `done` has room for one.
pub data Step : Request → Request → Type 0 where
  short_circuit :
      {r : Request} → r.caller ≡ asks → Step r (record r { caller = falls_back err_circuit_open })
  reject :
      {r : Request}
      → r.caller ≡ asks
      → Step r (record r { caller = falls_back err_max_concurrency })
  start_run :
      {r : Request} → r.caller ≡ asks → Step r (record r { caller = waits; runner = sleeping })
  time_out :
      {r : Request} → r.caller ≡ waits → Step r (record r { caller = falls_back err_timeout })
  run_sends :
      {r : Request}
      → r.runner ≡ sleeping
      → r.done ≡ 0
      → Step r (record r { runner = slept; done = 1 })
  run_returns : {r : Request} → r.caller ≡ waits → r.runner ≡ slept → Step r (finish none r)
  fallback_sends :
      {r : Request} (err : Err)
      → r.caller ≡ falls_back err
      → r.done ≡ 0
      → Step r (finish (try_fallback fallback err).1 (record r { done = 1 }))
  answer_ok :
      {r : Request} {n : ℕ}
      → r.answer ≡ pending
      → r.done ≡ suc n
      → Step r (record r { answer = ok; done = n })
  answer_error :
      {r : Request} (err : Err) {rest : List Err}
      → r.answer ≡ pending
      → r.err_chan ≡ err ∷ rest
      → Step r (record r { answer = internal_server_error; err_chan = rest })

pub data Runs : Request → Type 0 where
  arrives : Runs arrive
  steps : {r r' : Request} → Runs r → Step r r' → Runs r'
