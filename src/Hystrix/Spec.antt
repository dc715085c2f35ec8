-- ===== src/Hystrix/Spec.antt =====
-- What the commands of one name promise: an abstract service with an abstract breaker and the number
-- of commands that run, and the parts of `DoC` (hystrix/hystrix.go) of any number of commands in any
-- order.
pub mod Begins
pub mod Ends
pub mod Acts
pub mod Refined
use Prim.Native.String.{String}
use hystrix_go.Base.{
  ℕ, zero, suc, Bool, true, false, Option, none, some, List, [], ◌∷◌, ltb, if◌then◌else◌,
}
use hystrix_go.Circuit.{Ticks}
use hystrix_go.Circuit.Spec.{Event, Breaker, new_breaker, answer, hear}
use hystrix_go.Float.{Float64}
use hystrix_go.Hystrix.{
  Err, Admission, short_circuited, rejected, admitted, Completion, ran, ctx_done, timed_out,
  Moments, Caller, Circuit, err_timeout, primary_event, try_fallback, do_c_begin, do_c_refused,
  do_c_end,
}
use hystrix_go.MetricCollector.{Env}
use hystrix_go.Metrics.{◌>>=◌, since}
use hystrix_go.Settings.{Settings, SettingsMap}

-- A part of a command: it asks to run, it is turned down with an error, or it ends.
pub data Act : Type 0 where
  begins : Ticks → Act
  turned_down : Moments → Caller → Err → Act
  ends : Moments → Caller → Completion → Act

-- What a part comes to: the verdict, or what the caller gets.
pub data Reply : Type 0 where
  verdict : Admission → Reply
  result : Option Err → Reply

pub record Service : Type 0 where
  pub breaker : Breaker
  pub running : ℕ

abbrev pub new_service : Service
new_service = record { breaker = new_breaker; running = 0 }

abbrev pub event_of : Moments → String → String → ℕ → Event
event_of t primary secondary run_duration = record {
  built = t.built;
  at = t.readings;
  primary = primary;
  secondary = secondary;
  start = t.start;
  run_duration = run_duration;
}

-- A failed command: the fallback answers, and the event of the error is reported.
abbrev pub fail : Moments → Caller → ℕ → Err → Breaker → Option Err × Breaker
fail t k run_duration err b =
    let (secondary, err') = try_fallback k.fallback err in
    (err', hear (event_of t (primary_event k.ctx_err err) secondary run_duration) b)

abbrev pub finish : Moments → Caller → Completion → Breaker → Option Err × Breaker
finish t k (ran none) b = (none, hear (event_of t "success" "" (since t.run_start t.run_end)) b)
finish t k (ran (some err)) b = fail t k (since t.run_start t.run_end) err b
finish t k (ctx_done err) b = fail t (record k { ctx_err = some err }) 0 err b
finish t k timed_out b = fail t k 0 err_timeout b

-- Only a command that runs can end.
abbrev pub end_running : ℕ → Option Err × Breaker → Option (Reply × Service)
end_running zero _ = none
end_running (suc n) (err, b) = some (result err, record { breaker = b; running = n })

module _ (float : Float64) (s : Settings) where
  -- A command runs if the breaker lets it through and fewer run than the settings allow.
  abbrev pub take : Bool → Breaker → ℕ → Reply × Service
  take false b n = (verdict short_circuited, record { breaker = b; running = n })
  take true b n =
      if ltb n s.max_concurrent_requests
      then (verdict admitted, record { breaker = b; running = suc n })
      else (verdict rejected, record { breaker = b; running = n })

  abbrev pub admit : Ticks → Service → Reply × Service
  admit at v = let (allowed, b) = answer float s at v.breaker in take allowed b v.running

  abbrev pub serve : Act → Service → Option (Reply × Service)
  serve (begins at) v = some (admit at v)
  serve (turned_down t k err) v =
      let (err', b) = fail t k 0 err v.breaker in
      some (result err', record { breaker = b; running = v.running })
  serve (ends t k done) v = end_running v.running (finish t k done v.breaker)

  unfoldable pub serve_all : List Act → Service → Option (List Reply × Service)
  serve_all [] v = some ([], v)
  serve_all (a ∷ acts) v = do
    (reply, v) ← serve a v
    (replies, v) ← serve_all acts v
    some (reply ∷ replies, v)

module _ (env : Env) (timing : Bool) where
  abbrev pub act : Act → SettingsMap → Circuit env → Option (Reply × SettingsMap × Circuit env)
  act (begins at) m c = do (admission, m, c) ← do_c_begin env at m c; some (verdict admission, m, c)
  act (turned_down t k err) m c =
      let (err', c) = do_c_refused env timing t k err c in some (result err', m, c)
  act (ends t k done) m c = do (err, c) ← do_c_end env timing t k done c; some (result err, m, c)

  -- The parts of the commands on one circuit, one after the other.
  unfoldable pub act_all :
      List Act → SettingsMap → Circuit env → Option (List Reply × SettingsMap × Circuit env)
  act_all [] m c = some ([], m, c)
  act_all (a ∷ acts) m c = do
    (reply, m, c) ← act a m c
    (replies, m, c) ← act_all acts m c
    some (reply ∷ replies, m, c)
