-- ===== src/Circuit/Spec.antt =====
-- What a circuit breaker promises: an abstract breaker that keeps the commands reported since it last
-- closed, one by one, and calls of `AllowRequest` and `reportEvent` of hystrix/circuit.go in any
-- order.
pub mod Window
pub mod Asked
pub mod Heard
pub mod Refined
use Prim.Native.String.{String}
use text.Mathlib.Text.{◌==◌ as str_eq}
use hystrix_go.Base.{
  ℕ, ◌+◌, Bool, true, false, not, ◌&&◌, ◌||◌, Option, some, List, [], ◌∷◌, ◌++◌, leb, ltb, slt,
  if◌then◌else◌,
}
use hystrix_go.Circuit.{Ticks, CircuitBreaker, allow_request, report_event}
use hystrix_go.Float.{Float64}
use hystrix_go.MetricCollector.{Env, Readings}
use hystrix_go.Metrics.{◌>>=◌, percent}
use hystrix_go.Rolling.Log.{unix}
use hystrix_go.Settings.{Settings, SettingsMap}

-- A report of a finished command, with its readings of the clock.
pub record Event : Type 0 where
  pub built : ℕ
  pub at : Readings
  pub primary : String
  pub secondary : String
  pub start : ℕ
  pub run_duration : ℕ

pub data Call : Type 0 where
  ask : Ticks → Call
  tell : Event → Call

-- The commands that were reported: the instant, and whether it counts as an error.
abbrev pub Reports : Type 0
Reports = List (ℕ × Bool)

pub record Breaker : Type 0 where
  pub reports : Reports
  pub opened : Bool
  -- when it opened or was last tested
  pub tested : ℕ

abbrev pub new_breaker : Breaker
new_breaker = record { reports = []; opened = false; tested = 0 }

-- In the second of `now` or one of the ten before it.
abbrev pub is_recent : ℕ → ℕ → Bool
is_recent now t = leb (unix now) (unix t + 10)

abbrev pub recent_requests : ℕ → Reports → ℕ
recent_requests now [] = 0
recent_requests now ((t, _) ∷ log) = (if is_recent now t then 1 else 0) + recent_requests now log

abbrev pub recent_errors : ℕ → Reports → ℕ
recent_errors now [] = 0
recent_errors now ((t, error) ∷ log) =
    (if is_recent now t && error then 1 else 0) + recent_errors now log

-- The events that count as errors.
abbrev pub is_error : String → Bool
is_error event =
    str_eq event "failure"
    || str_eq event "rejected"
    || str_eq event "short-circuit"
    || str_eq event "timeout"

-- A report of a command that does, or does not, close the breaker, which then forgets what was
-- reported before.
abbrev pub record_event : Event → Bool → Breaker → Breaker
record_event e closes b =
    let b' = if closes then record b { opened = false; reports = [] } else b in
    record b' { reports = b'.reports ++ (e.at.now, is_error e.primary) ∷ [] }

-- A success closes an open breaker.
abbrev pub hear : Event → Breaker → Breaker
hear e b =
    if str_eq e.primary "" then b else record_event e (str_eq e.primary "success" && b.opened) b

module _ (float : Float64) (s : Settings) where
  -- Enough requests, and too large a share of errors.
  abbrev pub breaks : ℕ → Reports → Bool
  breaks now log =
      leb s.request_volume_threshold (recent_requests now log)
      && not (
          slt (percent float (recent_requests now log) (recent_errors now log))
            s.error_percent_threshold)

  -- An open breaker lets a test through when the sleep window has passed.
  abbrev pub test : ℕ → Breaker → Bool × Breaker
  test now b =
      if ltb (b.tested + s.sleep_window) now then (true, record b { tested = now }) else (false, b)

  abbrev pub answer : Ticks → Breaker → Bool × Breaker
  answer at b =
      if b.opened
      then test at.tested b
      else if breaks at.checked b.reports
      then test at.tested (record b { opened = true; tested = at.opened })
      else (true, b)

  -- The answers to calls, and the breaker after them.
  unfoldable pub answers : List Call → Breaker → List Bool × Breaker
  answers [] b = ([], b)
  answers (ask at ∷ calls) b =
      let rest = answers calls (answer at b).1 in ((answer at b).0 ∷ rest.0, rest.1)
  answers (tell e ∷ calls) b = answers calls (hear e b)

module _ (env : Env) (timing : Bool) where
  -- The calls on a circuit, one after the other.
  unfoldable pub run_calls :
      List Call
      → SettingsMap
      → CircuitBreaker env
      → Option (List Bool × SettingsMap × CircuitBreaker env)
  run_calls [] m c = some ([], m, c)
  run_calls (ask at ∷ calls) m c = do
    (allowed, m, c) ← allow_request env at m c
    (rest, m, c) ← run_calls calls m c
    some (allowed ∷ rest, m, c)
  run_calls (tell e ∷ calls) m c =
      run_calls calls m
        (report_event env timing e.built e.at e.primary e.secondary e.start e.run_duration c).1
