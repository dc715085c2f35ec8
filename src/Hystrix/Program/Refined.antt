-- ===== src/Hystrix/Program/Refined.antt =====
-- Commands of any names in one memory (hystrix/hystrix.go, hystrix/circuit.go, hystrix/settings.go)
-- against one abstract service for each name.
use Prim.Native.String.{String}
use hystrix_go.Base.{
  ℕ, suc, ◌^◌, ◌<◌, ◌≡◌, refl, Bool, Option, none, some, List, [], ◌∷◌, length, get_elem?, arith,
}
use hystrix_go.Base.Dict.{lookup}
use hystrix_go.Hystrix.{Circuit}
use hystrix_go.Hystrix.Spec.{Act, Reply, Service}
use hystrix_go.Hystrix.Spec.Acts.{Comes, reported_at}
use hystrix_go.Hystrix.Program.{
  Services, open_service, settings_at, serve_open, serve_names, Memory, open_circuit, act_at,
  act_names,
}
use hystrix_go.Hystrix.Program.Opened.{Opens, open_lem}
use hystrix_go.Hystrix.Program.Served.{Inv, Entry, Live, Acted, moved, act_at-Acted}
use hystrix_go.MetricCollector.{MetricCollector, Env}
use hystrix_go.Metrics.{◌>>=◌}
use hystrix_go.Pool.{active_count}
use hystrix_go.Pool.Tickets.{active_count-eq}
use hystrix_go.Settings.{SettingsMap}

module _ (env : Env) (timing : Bool) (is : List (String → MetricCollector env))
    (initial : SettingsMap) where
  open env use {float}

  -- The settings of each name allow zero or more tickets and a sleep window below 2^62, and no part
  -- comes in a second before that of an earlier report of the same name.
  abbrev pub IsTimely : (String → ℕ) → List (String × Act) → Type 0
  IsTimely last [] = Unit
  IsTimely last ((n, a) ∷ acts) =
      ((settings_at float initial n).max_concurrent_requests < 2 ^ 63)
      × ((settings_at float initial n).sleep_window < 2 ^ 62)
      × Comes (last n) a
      × IsTimely (moved env timing is initial n (reported_at (last n) a) last) acts

  -- The circuit of a name, if it has one, is open, was tested and has tickets out like its service.
  abbrev pub Shows : List (Circuit env) → Option Service → Option ℕ → Type 0
  Shows made none none = Unit
  Shows made none (some cb) = ⊥
  Shows made (some v) none = ⊥
  Shows made (some v) (some cb) =
      (c : Circuit env) × (get_elem? made cb ≡ some c)
      × (c.opened ≡ v.breaker.opened)
      × (c.opened_or_last_tested_time ≡ v.breaker.tested)
      × (active_count c.executor_pool ≡ v.running)

  abbrev pub Agrees :
      Option (List Reply × Services) → Option (List Reply × Memory env timing is) → Type 0
  Agrees none y = y ≡ none
  Agrees (some (replies, vs)) y =
      (w : Memory env timing is) × (y ≡ some (replies, w))
      × ((n : String) → Shows w.circuits.made (lookup n vs) (lookup n w.circuits.table))

  Entry-Shows :
      (last left : ℕ) (m : SettingsMap) (made : List (Circuit env)) (n : String)
      (found_v : Option Service) (found_cb : Option ℕ)
      → Entry env timing is initial last left m made n found_v found_cb
      → Shows made found_v found_cb
  Entry-Shows last left m made n none none e = tt
  Entry-Shows last left m made n none (some cb) e = e
  Entry-Shows last left m made n (some v) none e = e
  Entry-Shows last left m made n (some v) (some cb) e =
      let r = e.serving in
      (e.circuit, e.there, r.breaker.opened_lem, r.breaker.tested_lem, active_count-eq r.tickets)

  Agrees-cons :
      (reply : Reply) (x : Option (List Reply × Services))
      (y : Option (List Reply × Memory env timing is))
      → Agrees x y
      → Agrees (x >>= λ r. some (reply ∷ r.0, r.1)) (y >>= λ r. some (reply ∷ r.0, r.1))
  Agrees-cons reply none y h = rw h refl
  Agrees-cons reply (some (replies, vs)) y (w, e, shows) = (w, rw e refl, shows)

  module _ (acts : List (String × Act)) (last : String → ℕ) (left : ℕ)
      (rest : (w : Memory env timing is) (vs : Services)
        → Inv env timing is initial last left w vs
        → Agrees (serve_names float initial acts vs) (act_names env timing is acts w)) where
    Agrees-act :
        (x : Option (Reply × Services)) (y : Option (Reply × Memory env timing is))
        → Acted env timing is initial last left x y
        → Agrees
            (x >>= λ r. serve_names float initial acts r.1 >>= λ q. some (r.0 ∷ q.0, q.1))
            (y >>= λ r. act_names env timing is acts r.1 >>= λ q. some (r.0 ∷ q.0, q.1))
    Agrees-act none y h = rw h refl
    Agrees-act (some (reply, vs)) y (w, e, inv) = rw e (Agrees-cons reply _ _ (rest w vs inv))

    -- A part of a command of `n`, when its circuit is found.
    by_open :
        (n : String) (a : Act) (last' : String → ℕ) (vs : Services)
        (y : Option (ℕ × Memory env timing is))
        → ((settings_at float initial n).sleep_window < 2 ^ 62)
        → Comes (last' n) a
        → last ≡ moved env timing is initial n (reported_at (last' n) a) last'
        → Opens env timing is initial last' (suc left) n vs y
        → Agrees
            (serve_open float initial n a vs >>= λ r.
              serve_names float initial acts r.1 >>= λ q. some (r.0 ∷ q.0, q.1))
            (y >>= λ o. act_at env timing is o.0 a o.1 >>= λ r.
              act_names env timing is acts r.1 >>= λ q. some (r.0 ∷ q.0, q.1))
    by_open n a last' vs none short comes now e = rw e refl
    by_open n a last' vs (some (cb, w)) short comes now opened =
        let live : Live env timing is initial (last' n) (suc left) w.settings w.circuits.made n
            opened.service cb =
          rw (opened.known, opened.tabled) at (opened.inv n) in
        Agrees-act (serve_open float initial n a vs) (act_at env timing is cb a w) (
          rw now (
            act_at-Acted env timing is initial last' left w vs opened.inv n opened.service cb live
              opened.tabled short a opened.known comes))

  names-Agrees :
      (acts : List (String × Act)) (last : String → ℕ) (w : Memory env timing is) (vs : Services)
      → Inv env timing is initial last (length acts) w vs
      → IsTimely last acts
      → length acts < 2 ^ 63
      → Agrees (serve_names float initial acts vs) (act_names env timing is acts w)
  unfolding serve_names act_names
  names-Agrees [] last w vs inv timely few = (
    w,
    refl,
    λ n.
        Entry-Shows (last n) 0 w.settings w.circuits.made n (lookup n vs)
          (lookup n w.circuits.table) (inv n),
  )
  names-Agrees ((n, a) ∷ acts) last w vs inv timely few =
      let last' = moved env timing is initial n (reported_at (last n) a) last in
      by_open acts last' (length acts)
        (λ w' vs' inv'. names-Agrees acts last' w' vs' inv' timely.3 (omega arith)) n a last
        (open_service n a vs) (open_circuit env timing is n a w) timely.1 timely.2 refl
        (open_lem env timing is initial last (suc (length acts)) w vs inv n timely.0 few a)

  -- No circuit has been made yet.
  abbrev pub first_memory : Memory env timing is
  first_memory = record { settings = initial; circuits = record { made = []; table = [] } }

  -- Any number of commands of any names, their parts in any order, on circuits that `GetCircuit`
  -- makes when a name is first used: every part comes to the same as with one abstract service for each name,
  -- which knows nothing of the others. So the commands of one name have no influence on what becomes of
  -- those of another. Afterwards the circuit of a name is open exactly if its service's breaker is,
  -- with the same time of its opening or last test, and as many of its tickets are out as commands of the name
  -- run. The conditions: settings with zero or more tickets and a sleep window below 2^62 for the names
  -- that are used, times of tests below 2^62, fewer than 2^63 parts, and no part in a second before that
  -- of an earlier report of the same name.
  pub act_names-Agrees :
      (acts : List (String × Act))
      → IsTimely (λ _. 0) acts
      → length acts < 2 ^ 63
      → Agrees (serve_names float initial acts []) (act_names env timing is acts first_memory)
  unfolding lookup
  act_names-Agrees acts timely few =
      names-Agrees acts (λ _. 0) first_memory [] (λ n. refl) timely few
