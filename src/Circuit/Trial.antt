-- ===== src/Circuit/Trial.antt =====
-- What an open circuit lets through.
use hystrix_go.Base.{
  ℕ, ◌+◌, ◌^◌, ◌≤◌, ◌<◌, ◌≡◌, refl, true, false, Option, some, List, [], ◌∷◌, if◌then◌else◌, slt,
  add64, arith, by_cases, All, Bool, ap, sym, ◌∙◌,
}
use hystrix_go.Base.Dict.{lookup}
use hystrix_go.Circuit.{Ticks, CircuitBreaker, is_open, allow_single_test, allow_request}
use hystrix_go.Circuit.Open.{IsCircuit, trips, settings_for, is_open_lem}
use hystrix_go.MetricCollector.{Env, DefaultMetricCollector}
use hystrix_go.Metrics.{◌>>=◌}
use hystrix_go.Settings.{Settings, SettingsMap}
use hystrix_go.Settings.Lookup.{get_settings_total, get_settings_again}

module _ (env : Env) where
  -- `AllowRequest` on an open circuit: a request is let through exactly if the sleep window has
  -- passed since the circuit opened or was last tested, and then its time is stored.
  pub allow_request-opened :
      (at : Ticks) (m : SettingsMap) (c : CircuitBreaker env)
      → c.opened ≡ true
      → let (s, m') = settings_for env c m in
        allow_request env at m c
        ≡ some (
            if slt (add64 c.opened_or_last_tested_time s.sleep_window) at.tested
            then (true, m', record c { opened_or_last_tested_time = at.tested })
            else (false, m', c))
  unfolding allow_request is_open allow_single_test
  allow_request-opened at m c h = ground (arith, get_settings_total c.name m)

  -- `AllowRequest` on a closed circuit with its default collector in the first place: it lets the
  -- request through and changes nothing, unless the circuit trips. Then it opens, and the request
  -- is let through only if the sleep window has passed between the two readings of the clock.
  pub allow_request-closed :
      (at : Ticks) (m : SettingsMap) (d : DefaultMetricCollector) (c : CircuitBreaker env)
      → IsCircuit env d c
      → c.opened ≡ false
      → let (s, m') = settings_for env c m in
        let c' = record c { opened = true; opened_or_last_tested_time = at.opened } in
        allow_request env at m c
        ≡ some (
            if trips env at.checked s d
            then if slt (add64 at.opened s.sleep_window) at.tested
              then (true, m', record c' { opened_or_last_tested_time = at.tested })
              else (false, m', c')
            else (true, m', c))
  unfolding allow_request allow_single_test
  allow_request-closed at m d c wf h =
      ground (arith, is_open_lem env d c wf at m, get_settings_again c.name m)

  -- What `allowSingleTest` makes of an open circuit.
  abbrev pub tested :
      ℕ → Settings → SettingsMap → CircuitBreaker env → Bool × SettingsMap × CircuitBreaker env
  tested now s m c =
      if slt (add64 c.opened_or_last_tested_time s.sleep_window) now
      then (true, m, record c { opened_or_last_tested_time = now })
      else (false, m, c)

  -- `AllowRequest`, on a circuit with its default collector in the first place. An open circuit, and
  -- one that trips, which opens it at the second reading of the clock, lets the request through
  -- exactly if the sleep window has passed at the third reading since the circuit opened or was last
  -- tested; then that reading is stored. Any other circuit lets it through and is left as it is.
  pub allow_request_lem :
      (at : Ticks) (m : SettingsMap) (d : DefaultMetricCollector) (c : CircuitBreaker env)
      → IsCircuit env d c
      → let (s, m') = settings_for env c m in
        allow_request env at m c
        ≡ some (
            if c.opened
            then tested at.tested s m' c
            else if trips env at.checked s d
            then tested at.tested s m'
                (record c { opened = true; opened_or_last_tested_time = at.opened })
            else (true, m', c))
  allow_request_lem at m d c wf =
      let (s, m') = settings_for env c m in
      let answer : Bool → Bool × SettingsMap × CircuitBreaker env = λ b.
        if b
        then tested at.tested s m' c
        else if trips env at.checked s d
        then tested at.tested s m'
            (record c { opened = true; opened_or_last_tested_time = at.opened })
        else (true, m', c) in
      by_cases c.opened (λ h. allow_request-opened at m c h ∙ ap (λ b. some (answer b)) (sym h))
        (λ h. allow_request-closed at m d c wf h ∙ ap (λ b. some (answer b)) (sym h))

  -- Requests one after the other, and how many of them are let through.
  unfoldable pub allow_all :
      List Ticks → SettingsMap → CircuitBreaker env → Option (ℕ × SettingsMap × CircuitBreaker env)
  allow_all [] m c = some (0, m, c)
  allow_all (at ∷ ats) m c = do
    (allowed, m', c') ← allow_request env at m c
    (n, m'', c'') ← allow_all ats m' c'
    some ((if allowed then 1 else 0) + n, m'', c'')

  -- No request comes before `from` or later than the sleep window after it.
  abbrev pub AreWithin : ℕ → ℕ → List Ticks → Type 0
  AreWithin from window = All (λ at. (from ≤ at.tested) × (at.tested ≤ from + window))

  within-le :
      (from last window : ℕ) (ats : List Ticks)
      → from ≤ last
      → AreWithin from window ats
      → All (λ at. at.tested ≤ last + window) ats
  within-le from last window [] le h = tt
  within-le from last window (at ∷ ats) le h = (omega arith, within-le from last window ats le h.1)

  module _ (m : SettingsMap) (s : Settings) where
    -- Nothing is let through within the window after the last test.
    allow_all-refused :
        (ats : List Ticks) (c : CircuitBreaker env)
        → lookup c.name m ≡ some s
        → c.opened ≡ true
        → c.opened_or_last_tested_time + s.sleep_window < 2 ^ 63
        → All (λ at. at.tested ≤ c.opened_or_last_tested_time + s.sleep_window) ats
        → allow_all ats m c ≡ some (0, m, c)
    unfolding allow_all
    allow_all-refused [] c known h small within = refl
    allow_all-refused (at ∷ ats) c known h small within =
        ground
          (arith, allow_request-opened at m c h, allow_all-refused ats c known h small within.1)

    -- Of any number of requests on an open circuit with known settings that come within one sleep
    -- window, one after the other, at most one is let through, for times below 2^63. The circuit
    -- stays open.
    pub allow_all-single :
        (ats : List Ticks) (from : ℕ) (c : CircuitBreaker env)
        → lookup c.name m ≡ some s
        → c.opened ≡ true
        → from + s.sleep_window + s.sleep_window < 2 ^ 63
        → c.opened_or_last_tested_time + s.sleep_window < 2 ^ 63
        → AreWithin from s.sleep_window ats
        → (n : ℕ) × (c' : CircuitBreaker env) × (allow_all ats m c ≡ some (n, m, c'))
          × (n ≤ 1)
          × (c'.opened ≡ true)
    unfolding allow_all
    allow_all-single [] from c known h small small' within = (0, c, refl, omega arith, h)
    allow_all-single (at ∷ ats) from c known h small small' within =
        by_cases (slt (add64 c.opened_or_last_tested_time s.sleep_window) at.tested)
          (λ passed.
            let c' : CircuitBreaker env = record c { opened_or_last_tested_time = at.tested } in
            (
              1,
              c',
              ground (
                arith,
                allow_request-opened at m c h,
                allow_all-refused ats c' known h (omega arith)
                    (within-le from at.tested s.sleep_window ats within.0.0 within.1),
              ),
              omega arith,
              h,
            ))
          (λ early.
            let (n, c', e, le, o) = allow_all-single ats from c known h small small' within.1 in
            (n, c', ground (arith, allow_request-opened at m c h, e), le, o))
