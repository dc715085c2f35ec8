-- ===== src/Circuit/Spec/Refined.antt =====
-- The circuit breaker of hystrix/circuit.go against the abstract one.
use Prim.Native.String.{String}
use text.Mathlib.Text.{◌==◌ as str_eq}
use hystrix_go.Base.{
  ℕ, suc, ◌+◌, ◌^◌, ◌≤◌, ◌<◌, ◌≡◌, refl, Bool, true, false, ◌&&◌, Option, some, List, [], ◌∷◌,
  length, length-append, arith, by_cases,
}
use hystrix_go.Base.Dict.{lookup}
use hystrix_go.Circuit.{Ticks, CircuitBreaker, new_circuit_breaker}
use hystrix_go.Circuit.Create.{register_all, empty_default, new_circuit_breaker_lem}
use hystrix_go.Circuit.Spec.{
  Event, Call, Breaker, new_breaker, answer, hear, answers, record_event, run_calls, is_error,
}
use hystrix_go.Circuit.Spec.Window.{reset-IsCounted}
use hystrix_go.Circuit.Trial.{tested}
use hystrix_go.MetricCollector.{MetricCollector, Env, initial_registry}
use hystrix_go.Metrics.{◌>>=◌}
use hystrix_go.Rolling.Log.{unix}
use hystrix_go.Settings.{Settings, SettingsMap}
use hystrix_go.Settings.Lookup.{found, lookup-found}
use hystrix_go.Circuit.Spec.Asked.{IsRefined, ask-Answered}
use hystrix_go.Circuit.Spec.Heard.{heard, hear-IsRefined}

-- No call comes in a second before that of an earlier report, and the times of tests are below 2^62.
abbrev pub IsTimely : ℕ → List Call → Type 0
IsTimely from [] = Unit
IsTimely from (Call.ask at ∷ calls) =
    (from ≤ unix at.checked) × (at.opened < 2 ^ 62) × (at.tested < 2 ^ 62) × IsTimely from calls
IsTimely from (Call.tell e ∷ calls) = (from ≤ unix e.at.now) × IsTimely (unix e.at.now) calls

module _ (env : Env) where
  open env use {float}

  module _ (timing : Bool) (m : SettingsMap) (s : Settings) (short : s.sleep_window < 2 ^ 62) where
    pub length-answer : (at : Ticks) (b : Breaker) → (answer float s at b).1.reports ≡ b.reports
    length-answer at b = ground arith

    length-record_event :
        (e : Event) (b : Breaker) (k : Bool)
        → length (record_event e k b).reports ≤ suc (length b.reports)
    length-record_event e b true = omega arith
    length-record_event e b false =
        omega (arith, length-append b.reports ((e.at.now, is_error e.primary) ∷ []))

    pub length-hear : (e : Event) (b : Breaker) → length (hear e b).reports ≤ suc (length b.reports)
    length-hear e b =
        by_cases (str_eq e.primary "") (λ h. rw h (omega arith))
          (λ h. rw h (length-record_event e b (str_eq e.primary "success" && b.opened)))

    -- A circuit that stands for an abstract breaker answers like it.
    run_calls-answers :
        (calls : List Call) (last : ℕ) (c : CircuitBreaker env) (b : Breaker)
        → IsRefined env m s last c b
        → IsTimely last calls
        → length b.reports + length calls < 2 ^ 63
        → (c' : CircuitBreaker env) × (run_calls env timing calls m c
            ≡ some ((answers float s calls b).0, m, c'))
          × (c'.opened ≡ (answers float s calls b).1.opened)
          × (c'.opened_or_last_tested_time ≡ (answers float s calls b).1.tested)
    unfolding run_calls answers
    run_calls-answers [] last c b r timely few = (c, refl, r.opened_lem, r.tested_lem)
    run_calls-answers (Call.ask at ∷ calls) last c b r timely few =
        let (c', e, r') =
          ask-Answered env m s short last at c b r timely.0 timely.1 timely.2 (omega arith) in
        let (c'', e', o, t) =
          run_calls-answers calls last c' (answer float s at b).1 r' timely.3
            (rw (length-answer at b) (omega arith)) in
        (c'', rw (e, e') refl, o, t)
    run_calls-answers (Call.tell e ∷ calls) last c b r timely few =
        run_calls-answers calls (unix e.at.now) (heard env timing m s last e c b r timely.0)
          (hear e b) (hear-IsRefined env timing m s last e c b r timely.0) timely.1
          (omega (arith, length-hear e b))

  -- A circuit that is made after any calls of `Register`, and the calls on it.
  abbrev pub run_new :
      Bool
      → List (String → MetricCollector env)
      → String
      → SettingsMap
      → List Call
      → Option (List Bool × SettingsMap × CircuitBreaker env)
  run_new timing is name m calls = do
    (c, m') ← new_circuit_breaker env name (register_all env is (initial_registry env)) m
    run_calls env timing calls m' c

  -- A circuit that is made for any name and any registered plugins answers every sequence of
  -- `AllowRequest` and `reportEvent` like the abstract breaker with the settings of the name, which
  -- keeps every report since it last closed. The settings are then stored, nothing panics, and the
  -- circuit is open exactly if the abstract breaker is, with the same time of its opening or last
  -- test. The conditions: a number of tickets of zero or more, a sleep window and times of tests
  -- below 2^62, fewer than 2^63 calls, and no call in a second before that of an earlier report.
  pub run_new-answers :
      (timing : Bool) (is : List (String → MetricCollector env)) (name : String) (m : SettingsMap)
      (calls : List Call)
      → let (s, m') = found name (lookup name m) m in
        s.max_concurrent_requests < 2 ^ 63
        → s.sleep_window < 2 ^ 62
        → IsTimely 0 calls
        → length calls < 2 ^ 63
        → (c : CircuitBreaker env) × (run_new timing is name m calls
            ≡ some ((answers float s calls new_breaker).0, m', c))
          × (c.opened ≡ (answers float s calls new_breaker).1.opened)
          × (c.opened_or_last_tested_time ≡ (answers float s calls new_breaker).1.tested)
  run_new-answers timing is name m calls small short timely few =
      let (s, m') = found name (lookup name m) m in
      let (c, made, circuit, _, _, closed, untested, named) =
        new_circuit_breaker_lem env is name m small in
      let (c', ran, opened, tested) =
        run_calls-answers timing m' s short calls 0 c new_breaker
          (record {
            collector = empty_default env;
            circuit = circuit;
            counted = reset-IsCounted 0 _;
            opened_lem = closed;
            tested_lem = untested;
            early = omega arith;
            known = rw named (lookup-found name m);
          })
          timely (omega arith) in
      (c', rw (made, ran) refl, opened, tested)
