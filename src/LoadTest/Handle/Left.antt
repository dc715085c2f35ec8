-- ===== src/LoadTest/Handle/Left.antt =====
-- How many steps a request to the load test service (loadtest/service/main.go) has left.
use hystrix_go.Base.{ℕ, ◌+◌, ◌<◌, arith}
use hystrix_go.LoadTest.Handle.{
  Runner, unstarted, sleeping, slept, Caller, asks, waits, falls_back, finished, Answer, pending,
  ok, internal_server_error, Request, arrive, Step, short_circuit, reject, start_run, time_out,
  run_sends, run_returns, fallback_sends, answer_ok, answer_error,
}

-- The steps that are left.
abbrev runner_left : Runner → ℕ
runner_left unstarted = 0
runner_left sleeping = 1
runner_left slept = 0

abbrev caller_left : Caller → ℕ
caller_left asks = 4
caller_left waits = 2
caller_left (falls_back _) = 1
caller_left finished = 0

abbrev answer_left : Answer → ℕ
answer_left pending = 1
answer_left ok = 0
answer_left internal_server_error = 0

abbrev pub left : Request → ℕ
left r = runner_left r.runner + caller_left r.caller + answer_left r.answer

-- Every step leaves fewer, so that a request takes at most five.
pub Step-left : {r r' : Request} → Step r r' → left r' < left r
unfolding arrive
Step-left (short_circuit e) = rw e (omega arith)
Step-left (reject e) = rw e (omega arith)
Step-left (start_run e) = rw e (omega arith)
Step-left (time_out e) = rw e (omega arith)
Step-left (run_sends e h) = rw e (omega arith)
Step-left (run_returns e h) = rw e (omega arith)
Step-left (fallback_sends err e h) = rw e (omega arith)
Step-left (answer_ok e h) = rw e (omega arith)
Step-left (answer_error err e h) = rw e (omega arith)
