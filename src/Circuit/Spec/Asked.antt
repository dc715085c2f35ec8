-- ===== src/Circuit/Spec/Asked.antt =====
-- What a circuit that stands for an abstract breaker answers.
use mathlib.Core.Path.{subst}
use hystrix_go.Base.{
  ℕ, ◌+◌, ◌^◌, ◌≤◌, ◌<◌, ◌≡◌, refl, Bool, true, false, some, if◌then◌else◌, slt, ltb, add64, length,
  arith, by_cases, ap₂, sym, ◌∙◌,
}
use hystrix_go.Base.Dict.{lookup}
use hystrix_go.Circuit.{Ticks, CircuitBreaker, allow_request}
use hystrix_go.Circuit.Open.{IsCircuit, trips}
use hystrix_go.Circuit.Spec.{Breaker, breaks, test, answer}
use hystrix_go.Circuit.Spec.Window.{IsCounted, IsCounted-later, sum-requests, sum-errors}
use hystrix_go.Circuit.Trial.{tested, allow_request_lem}
use hystrix_go.MetricCollector.{DefaultMetricCollector, Env}
use hystrix_go.Rolling.Log.{unix}
use hystrix_go.Settings.{Settings, SettingsMap}
use hystrix_go.Settings.Lookup.{found}

passes :
    (t window now : ℕ)
    → t < 2 ^ 62
    → window < 2 ^ 62
    → now < 2 ^ 62
    → slt (add64 t window) now ≡ ltb (t + window) now
passes t window now ht hw hn = ground arith

module _ (env : Env) where
  open env use {float}

  -- The circuit stands for the abstract breaker, and its settings are `s`.
  pub record IsRefined (m : SettingsMap) (s : Settings) (last : ℕ) (c : CircuitBreaker env)
      (b : Breaker) : Type 0 where
    pub collector : DefaultMetricCollector
    pub circuit : IsCircuit env collector c
    pub counted : IsCounted last b.reports collector
    pub opened_lem : c.opened ≡ b.opened
    pub tested_lem : c.opened_or_last_tested_time ≡ b.tested
    pub early : b.tested < 2 ^ 62
    pub known : lookup c.name m ≡ some s

  pub IsRefined-later :
      (m : SettingsMap) (s : Settings) (last to : ℕ) (c : CircuitBreaker env) (b : Breaker)
      → IsRefined m s last c b
      → last ≤ to
      → IsRefined m s to c b
  IsRefined-later m s last to c b r le = record {
    collector = r.collector;
    circuit = r.circuit;
    counted = IsCounted-later last to b.reports r.collector r.counted le;
    opened_lem = r.opened_lem;
    tested_lem = r.tested_lem;
    early = r.early;
    known = r.known;
  }

  module _ (m : SettingsMap) (s : Settings) (short : s.sleep_window < 2 ^ 62) where
    -- The circuit after an answer, and what it stands for.
    abbrev Answered : ℕ → Bool × SettingsMap × CircuitBreaker env → Bool × Breaker → Type 0
    Answered last (allowed, m', c) (allowed', b) =
        (allowed ≡ allowed') × (m' ≡ m) × IsRefined m s last c b

    test-Answered :
        (last now : ℕ) (c : CircuitBreaker env) (b : Breaker)
        → IsRefined m s last c b
        → now < 2 ^ 62
        → Answered last (tested env now s m c) (test float s now b)
    test-Answered last now c b r small =
        let e : slt (add64 c.opened_or_last_tested_time s.sleep_window) now
            ≡ ltb (b.tested + s.sleep_window) now =
          rw (r.tested_lem) (passes b.tested s.sleep_window now r.early short small) in
        by_cases (ltb (b.tested + s.sleep_window) now)
          (λ h.
            rw (e, h)
              (
                refl,
                refl,
                record {
                  collector = r.collector;
                  circuit = record { named = r.circuit.named; first = r.circuit.first };
                  counted = r.counted;
                  opened_lem = r.opened_lem;
                  tested_lem = refl;
                  early = small;
                  known = r.known;
                },
              ))
          (λ h. rw (e, h) (refl, refl, r))

    trips-breaks :
        (last now : ℕ) (c : CircuitBreaker env) (b : Breaker) (r : IsRefined m s last c b)
        → last ≤ unix now
        → length b.reports < 2 ^ 63
        → trips env now s r.collector ≡ breaks float s now b.reports
    trips-breaks last now c b r le few =
        rw
          (
            sum-requests last b.reports r.collector r.counted now le few,
            sum-errors last b.reports r.collector r.counted now le few,
          )
          refl

    abbrev opened_at : ℕ → CircuitBreaker env → CircuitBreaker env
    opened_at now c = record c { opened = true; opened_or_last_tested_time = now }

    -- The two answers, when the circuit is open or not, and trips or not.
    abbrev asked :
        Ticks → CircuitBreaker env → Bool → Bool → Bool × SettingsMap × CircuitBreaker env
    asked at c o k =
        if o
        then tested env at.tested s m c
        else if k
        then tested env at.tested s m (opened_at at.opened c)
        else (true, m, c)

    abbrev told : Ticks → Breaker → Bool → Bool → Bool × Breaker
    told at b o k =
        if o
        then test float s at.tested b
        else if k
        then test float s at.tested (record b { opened = true; tested = at.opened })
        else (true, b)

    module _ (last : ℕ) (at : Ticks) (c : CircuitBreaker env) (b : Breaker)
        (r : IsRefined m s last c b) where
      module _ (le : last ≤ unix at.checked) (few : length b.reports < 2 ^ 63) where
        ask-asked :
            allow_request env at m c
            ≡ some (asked at c c.opened (breaks float s at.checked b.reports))
        ask-asked =
            let e : found c.name (lookup c.name m) m ≡ (s, m) = rw (r.known) refl in
            simp (e, trips-breaks last at.checked c b r le few) at
              (allow_request_lem env at m r.collector c r.circuit)

      module _ (early : at.opened < 2 ^ 62) (early' : at.tested < 2 ^ 62) where
        asked-told : (o k : Bool) → Answered last (asked at c o k) (told at b o k)
        asked-told true k = test-Answered last at.tested c b r early'
        asked-told false false = (refl, refl, r)
        asked-told false true =
            test-Answered last at.tested (opened_at at.opened c)
              (record b { opened = true; tested = at.opened })
              (record {
                collector = r.collector;
                circuit = record { named = r.circuit.named; first = r.circuit.first };
                counted = r.counted;
                opened_lem = refl;
                tested_lem = refl;
                early = early;
                known = r.known;
              })
              early'

        asked-Answered : (k : Bool) → Answered last (asked at c c.opened k) (told at b b.opened k)
        asked-Answered k =
            subst (λ o. Answered last (asked at c o k) (told at b b.opened k)) (sym r.opened_lem)
              (asked-told b.opened k)

    pub ask-Answered :
        (last : ℕ) (at : Ticks) (c : CircuitBreaker env) (b : Breaker)
        → IsRefined m s last c b
        → last ≤ unix at.checked
        → at.opened < 2 ^ 62
        → at.tested < 2 ^ 62
        → length b.reports < 2 ^ 63
        → (c' : CircuitBreaker env) × (allow_request env at m c
            ≡ some ((answer float s at b).0, m, c'))
          × IsRefined m s last c' (answer float s at b).1
    ask-Answered last at c b r le early early' few =
        let k = breaks float s at.checked b.reports in
        let (e, e', r') = asked-Answered last at c b r early early' k in
        (
          (asked at c c.opened k).2,
          ask-asked last at c b r le few ∙ ap₂ (λ x y. some (x, y, (asked at c c.opened k).2)) e e',
          r',
        )
