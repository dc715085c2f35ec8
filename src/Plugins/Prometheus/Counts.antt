-- ===== src/Plugins/Prometheus/Counts.antt =====
-- What the Prometheus collector counts.
use Prim.Native.String.{String}
use text.Mathlib.Text.{◌==◌ as str_eq}
use hystrix_go.Base.{
  ℕ, ◌≡◌, refl, Bool, ◌&&◌, List, [], ◌∷◌, ◌++◌, if◌then◌else◌, slt, All, arith, by_cases, ap,
}
use hystrix_go.Float.{Float64}
use hystrix_go.MetricCollector.{MetricResult}
use hystrix_go.Plugins.Prometheus.{
  Options, Vec, Call, add, observe, set, collector, add_positive, update,
}
use hystrix_go.Plugins.Prometheus.Once.{full_name, vectors}

-- What is added to the counter of a name and a circuit, call by call.
abbrev pub added : {F : Type 0} → String → String → List (Call F) → List F
added n circuit [] = []
added n circuit (add (v, c) x ∷ calls) =
    let rest = added n circuit calls in
    if str_eq (full_name v) n && str_eq c circuit then x ∷ rest else rest
added n circuit (observe m x ∷ calls) = added n circuit calls
added n circuit (set m x ∷ calls) = added n circuit calls

added-append :
    {F : Type 0} (n circuit : String) (first rest : List (Call F))
    → added n circuit (first ++ rest) ≡ added n circuit first ++ added n circuit rest
added-append n circuit [] rest = refl
added-append n circuit (add (v, c) x ∷ calls) rest =
    by_cases (str_eq (full_name v) n && str_eq c circuit)
      (λ e. rw e (ap (◌∷◌ x) (added-append n circuit calls rest)))
      (λ e. rw e (added-append n circuit calls rest))
added-append n circuit (observe m x ∷ calls) rest = added-append n circuit calls rest
added-append n circuit (set m x ∷ calls) rest = added-append n circuit calls rest

module _ (float : Float64) (seconds : ℕ → Float64.F float) where
  open float use {F, of_int}

  -- What is added for an amount.
  abbrev pub amount : Bool → ℕ → List F
  amount same i = if same && slt 0 i then of_int i ∷ [] else []

  added-add_positive :
      (n circuit : String) (v : Vec F) (c : String) (i : ℕ)
      → added n circuit (add_positive float seconds (v, c) i)
        ≡ amount (str_eq (full_name v) n && str_eq c circuit) i
  added-add_positive n circuit v c i = ground arith

  -- The eleven counters of a result.
  abbrev pub table : MetricResult F → List (String × ℕ)
  table r =
      ("hystrix_attempts", r.attempts)
      ∷ ("hystrix_successes", r.successes)
      ∷ ("hystrix_errors", r.errors)
      ∷ ("hystrix_failures", r.failures)
      ∷ ("hystrix_rejects", r.rejects)
      ∷ ("hystrix_short_circuits", r.short_circuits)
      ∷ ("hystrix_timeouts", r.timeouts)
      ∷ ("hystrix_fallback_successes", r.fallback_successes)
      ∷ ("hystrix_fallback_failures", r.fallback_failures)
      ∷ ("hystrix_context_deadline_exceeded", r.context_deadline_exceeded)
      ∷ ("hystrix_context_canceled", r.context_canceled)
      ∷ []

  ruleset counting = (added-append, added-add_positive)

  -- With the vectors that `NewCollector` makes, the collector of a circuit adds each of the eleven
  -- counters of a result, if it is positive, to the counter that has its name and belongs to the
  -- circuit, once and as a float64, and adds nothing to the counters of any other circuit.
  pub prometheus_counts :
      (o : Options F) (cmd_name circuit : String) (r : MetricResult F)
      → All
          (λ (n, i).
            added n circuit (update float seconds (collector (vectors o) cmd_name) r)
            ≡ amount (str_eq cmd_name circuit) i)
          (table r)
  unfolding update collector
  prometheus_counts o cmd_name circuit r = (
    simp counting (ground arith),
    (
      simp counting (ground arith),
      (
        simp counting (ground arith),
        (
          simp counting (ground arith),
          (
            simp counting (ground arith),
            (
              simp counting (ground arith),
              (
                simp counting (ground arith),
                (
                  simp counting (ground arith),
                  (
                    simp counting (ground arith),
                    (simp counting (ground arith), (simp counting (ground arith), tt)),
                  ),
                ),
              ),
            ),
          ),
        ),
      ),
    ),
  )
