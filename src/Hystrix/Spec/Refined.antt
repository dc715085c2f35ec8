-- ===== src/Hystrix/Spec/Refined.antt =====
-- The commands of hystrix/hystrix.go on one circuit against the abstract service.
use Prim.Native.String.{String}
use hystrix_go.Base.{
  ℕ, suc, ◌+◌, ◌^◌, ◌≤◌, ◌<◌, ◌≡◌, refl, Bool, Option, none, some, List, [], ◌∷◌, length, arith,
}
use hystrix_go.Base.Dict.{lookup}
use hystrix_go.Circuit.{new_circuit_breaker}
use hystrix_go.Circuit.Create.{register_all, empty_default, new_circuit_breaker_lem}
use hystrix_go.Circuit.Spec.Window.{reset-IsCounted}
use hystrix_go.Hystrix.{Circuit}
use hystrix_go.Hystrix.Spec.{Act, Reply, Service, new_service, serve, act, serve_all, act_all}
use hystrix_go.Hystrix.Spec.Acts.{Comes, reported_at, Acts, act-serve}
use hystrix_go.Hystrix.Spec.Begins.{IsServing}
use hystrix_go.MetricCollector.{MetricCollector, Env, initial_registry}
use hystrix_go.Metrics.{◌>>=◌}
use hystrix_go.Pool.{active_count}
use hystrix_go.Pool.Tickets.{active_count-eq}
use hystrix_go.Settings.{Settings, SettingsMap}
use hystrix_go.Settings.Lookup.{found, lookup-found}

-- No part comes in a second before that of an earlier report, and the times of tests are below
-- 2^62.
abbrev pub IsTimely : ℕ → List Act → Type 0
IsTimely from [] = Unit
IsTimely from (a ∷ acts) = Comes from a × IsTimely (reported_at from a) acts

module _ (env : Env) where
  open env use {float}

  -- The same replies, and a circuit that is open, was tested and has tickets out like the service;
  -- or both come to nothing.
  abbrev pub Agrees :
      SettingsMap
      → Option (List Reply × Service)
      → Option (List Reply × SettingsMap × Circuit env)
      → Type 0
  Agrees m none r = r ≡ none
  Agrees m (some (replies, v)) r =
      (c : Circuit env) × (r ≡ some (replies, m, c))
      × (c.opened ≡ v.breaker.opened)
      × (c.opened_or_last_tested_time ≡ v.breaker.tested)
      × (active_count c.executor_pool ≡ v.running)

  module _ (timing : Bool) (m : SettingsMap) (s : Settings) (short : s.sleep_window < 2 ^ 62) where
    Agrees-cons :
        (reply : Reply) (x : Option (List Reply × Service))
        (y : Option (List Reply × SettingsMap × Circuit env))
        → Agrees m x y
        → Agrees m (x >>= λ r. some (reply ∷ r.0, r.1)) (y >>= λ r. some (reply ∷ r.0, r.1, r.2))
    Agrees-cons reply none y h = rw h refl
    Agrees-cons reply (some (replies, v)) y (c, e, o, t, n) = (c, rw e refl, o, t, n)

    -- A part, and what follows it.
    Agrees-act :
        (acts : List Act) (last n : ℕ) (c : Circuit env) (x : Option (Reply × Service))
        (y : Option (Reply × SettingsMap × Circuit env))
        → Acts env timing m s short last n c x y
        → ((c' : Circuit env) (v : Service)
            → IsServing env m s last c' v
            → length v.breaker.reports ≤ suc n
            → Agrees m (serve_all float s acts v) (act_all env timing acts m c'))
        → Agrees m
            (x >>= λ r. serve_all float s acts r.1 >>= λ q. some (r.0 ∷ q.0, q.1))
            (y >>= λ r. act_all env timing acts r.1 r.2 >>= λ q. some (r.0 ∷ q.0, q.1, q.2))
    Agrees-act acts last n c none y h rest = rw h refl
    Agrees-act acts last n c (some (reply, v)) y (c', e, r, _, le) rest =
        rw e (Agrees-cons reply _ _ (rest c' v r le))

    serve_all-Agrees :
        (acts : List Act) (last : ℕ) (c : Circuit env) (v : Service)
        → IsServing env m s last c v
        → IsTimely last acts
        → length v.breaker.reports + length acts < 2 ^ 63
        → Agrees m (serve_all float s acts v) (act_all env timing acts m c)
    unfolding serve_all act_all
    serve_all-Agrees [] last c v r timely few =
        (c, refl, r.breaker.opened_lem, r.breaker.tested_lem, active_count-eq r.tickets)
    serve_all-Agrees (a ∷ acts) last c v r timely few =
        Agrees-act acts (reported_at last a) (length v.breaker.reports) c (serve float s a v)
          (act env timing a m c)
          (act-serve env timing m s short a last c v r timely.0 (omega arith))
          λ c' v' r' le. serve_all-Agrees acts (reported_at last a) c' v' r' timely.1 (omega arith)

  -- A circuit that is made after any calls of `Register`, and the parts of commands on it.
  abbrev pub act_new :
      Bool
      → List (String → MetricCollector env)
      → String
      → SettingsMap
      → List Act
      → Option (List Reply × SettingsMap × Circuit env)
  act_new timing is name m acts = do
    (c, m') ← new_circuit_breaker env name (register_all env is (initial_registry env)) m
    act_all env timing acts m' c

  -- Any number of commands on a new circuit, their parts in any order: each part comes to the
  -- same as with the abstract service of the name's settings. A command runs exactly if the abstract
  -- breaker lets it through and fewer run than the settings allow; a caller gets the error that the
  -- service gives. Afterwards the circuit is open exactly if the abstract breaker is, with the same time
  -- of its opening or last test, and as many tickets are out as commands run. An end
  -- without a running command comes to nothing in both. The conditions: a number of tickets of zero or
  -- more, a sleep window and times of tests below 2^62, fewer than 2^63 parts, and no part in a second before
  -- that of an earlier report.
  pub act_new-Agrees :
      (timing : Bool) (is : List (String → MetricCollector env)) (name : String) (m : SettingsMap)
      (acts : List Act)
      → let (s, m') = found name (lookup name m) m in
        s.max_concurrent_requests < 2 ^ 63
        → s.sleep_window < 2 ^ 62
        → IsTimely 0 acts
        → length acts < 2 ^ 63
        → Agrees m' (serve_all float s acts new_service) (act_new timing is name m acts)
  act_new-Agrees timing is name m acts small short timely few =
      let (s, m') = found name (lookup name m) m in
      let (c, made, circuit, tickets, max, closed, untested, named) =
        new_circuit_breaker_lem env is name m small in
      rw made (
        serve_all-Agrees timing m' s short acts 0 c new_service
          (record {
            breaker = record {
              collector = empty_default env;
              circuit = circuit;
              counted = reset-IsCounted 0 _;
              opened_lem = closed;
              tested_lem = untested;
              early = omega arith;
              known = rw named (lookup-found name m);
            };
            tickets = tickets;
            max = max;
          })
          timely (omega arith))
