-- ===== src/Plugins/Counts.antt =====
-- What the collectors of the plugins count.
use Prim.Native.String
use Prim.Native.String.{String}
use text.Mathlib.Text.{◌==◌ as str_eq}
use text.Mathlib.TextEquality.{eq_iff}
use text.Mathlib.TextLemmas.{append_cancel_left}
use hystrix_go.Base.{
  ℕ, ◌≡◌, refl, Bool, true, false, List, [], ◌∷◌, if◌then◌else◌, arith, by_cases, All, ap,
}
use hystrix_go.Float.{Float64}
use hystrix_go.MetricCollector.{MetricResult}
use hystrix_go.Metrics.Outcome.{IsOutcome}
use hystrix_go.Plugins.{Call, counted, counted-append}
use hystrix_go.Plugins.Datadog
use hystrix_go.Plugins.Statsd
use hystrix_go.Plugins.Statsd.{new_statsd_collector, increment_counter_metric, circuit_open_gauge}

str_eq_self : (a : String) → str_eq a a ≡ true
str_eq_self a = (eq_iff a a).1 refl

-- Names with the same beginning differ exactly if their ends do.
pub str_eq-append : (n a b : String) → str_eq (String.◌++◌ n a) (String.◌++◌ n b) ≡ str_eq a b
str_eq-append n a b =
    by_cases (str_eq a b)
      (λ same.
        rw same (
          (eq_iff (String.◌++◌ n a) (String.◌++◌ n b)).1
            (ap (String.◌++◌ n) ((eq_iff a b).0 same))))
      (λ other. rw other (
        by_cases (str_eq (String.◌++◌ n a) (String.◌++◌ n b))
          (λ same. absurd (
            let e =
              append_cancel_left n a b ((eq_iff (String.◌++◌ n a) (String.◌++◌ n b)).0 same) in
            let f = (eq_iff a b).1 e in cc))
          (λ h. h)))

module _ (float : Float64) where
  open float use {F}

  counted-increment :
      (key name : String) (i : ℕ)
      → counted key (increment_counter_metric float name i) ≡ (if str_eq name key then i else 0)
  unfolding increment_counter_metric
  counted-increment key name i = ground arith

  counted-gauge :
      (key : String) (g : Statsd.Collector) (r : MetricResult F)
      → counted key (circuit_open_gauge float g r) ≡ 0
  unfolding circuit_open_gauge
  counted-gauge key g r = ground arith

  -- The eleven counters of a result under the names of a collector.
  abbrev pub statsd_table : Statsd.Collector → MetricResult F → List (String × ℕ)
  statsd_table g r =
      (g.attempts_prefix, r.attempts)
      ∷ (g.errors_prefix, r.errors)
      ∷ (g.successes_prefix, r.successes)
      ∷ (g.failures_prefix, r.failures)
      ∷ (g.rejects_prefix, r.rejects)
      ∷ (g.short_circuits_prefix, r.short_circuits)
      ∷ (g.timeouts_prefix, r.timeouts)
      ∷ (g.fallback_successes_prefix, r.fallback_successes)
      ∷ (g.fallback_failures_prefix, r.fallback_failures)
      ∷ (g.canceled_prefix, r.context_canceled)
      ∷ (g.deadline_prefix, r.context_deadline_exceeded)
      ∷ []

  ruleset counting = (counted-append, counted-increment, counted-gauge, str_eq-append)

  -- For a circuit of any name, the statsd collector counts each of the eleven counters of a
  -- result, under the name that it has for it, by exactly the amount of the result.
  pub statsd_counts :
      (circuit : String) (r : MetricResult F)
      → let g = new_statsd_collector circuit in
        All (λ (name, i). counted name (Statsd.update float g r) ≡ i) (statsd_table g r)
  unfolding new_statsd_collector Statsd.update
  statsd_counts circuit r = (
    simp counting (omega arith),
    (
      simp counting (omega arith),
      (
        simp counting (omega arith),
        (
          simp counting (omega arith),
          (
            simp counting (omega arith),
            (
              simp counting (omega arith),
              (
                simp counting (omega arith),
                (
                  simp counting (omega arith),
                  (
                    simp counting (omega arith),
                    (simp counting (omega arith), (simp counting (omega arith), tt)),
                  ),
                ),
              ),
            ),
          ),
        ),
      ),
    ),
  )

  counted-if :
      (key : String) (b : Bool) (calls : List (Call F))
      → counted key (if b then calls else []) ≡ (if b then counted key calls else 0)
  counted-if key true calls = refl
  counted-if key false calls = refl

  -- The nine counters that Datadog gets, which has no names for the two of the context.
  abbrev pub datadog_table : MetricResult F → List (String × ℕ)
  datadog_table r =
      ("hystrix.attempts", r.attempts)
      ∷ ("hystrix.errors", r.errors)
      ∷ ("hystrix.successes", r.successes)
      ∷ ("hystrix.failures", r.failures)
      ∷ ("hystrix.rejects", r.rejects)
      ∷ ("hystrix.shortCircuits", r.short_circuits)
      ∷ ("hystrix.timeouts", r.timeouts)
      ∷ ("hystrix.fallbackSuccesses", r.fallback_successes)
      ∷ ("hystrix.fallbackFailures", r.fallback_failures)
      ∷ []

  -- The Datadog collector counts each of its nine counters by exactly the amount of the result,
  -- for any result of one attempt with at most one outcome.
  pub datadog_counts :
      (r : MetricResult F)
      → IsOutcome r
      → All (λ (name, i). counted name (Datadog.update float r) ≡ i) (datadog_table r)
  unfolding Datadog.update
  datadog_counts r h = (
    simp (counted-append, counted-if) (ground (arith, h)),
    (
      simp (counted-append, counted-if) (ground (arith, h)),
      (
        simp (counted-append, counted-if) (ground (arith, h)),
        (
          simp (counted-append, counted-if) (ground (arith, h)),
          (
            simp (counted-append, counted-if) (ground (arith, h)),
            (
              simp (counted-append, counted-if) (ground (arith, h)),
              (
                simp (counted-append, counted-if) (ground (arith, h)),
                (
                  simp (counted-append, counted-if) (ground (arith, h)),
                  (simp (counted-append, counted-if) (ground (arith, h)), tt),
                ),
              ),
            ),
          ),
        ),
      ),
    ),
  )
