-- ===== src/Metrics/Outcome.antt =====
-- The outcome that a command counts for, and how the counters of a circuit add up.
use Prim.Native.String.{String}
use text.Mathlib.Text.{◌==◌ as str_eq}
use hystrix_go.Base.{
  ℕ, ◌+◌, ◌^◌, ◌≤◌, ◌<◌, ◌≡◌, refl, Bool, List, [], ◌∷◌, ap, ap₂, arith, if◌then◌else◌, by_cases,
}
use hystrix_go.MetricCollector.{MetricResult, Readings, new_default_metric_collector}
use hystrix_go.MetricCollector.Counters.{History, log_of, IsTimely, update_all, update_all-IsTally}
use hystrix_go.Metrics.{CommandExecution, build_result, primary, secondary, attempt}
use hystrix_go.Rolling.Log.{unix, log_sum, amount}
use hystrix_go.Rolling.Number.{sum}

-- One attempt with at most one outcome, and the errors are the four outcomes that count as such.
pub record IsOutcome {F : Type 0} (r : MetricResult F) : Type 0 where
  pub one : r.attempts ≡ 1
  pub split : r.errors ≡ r.failures + r.rejects + r.short_circuits + r.timeouts
  pub single : r.successes + r.errors + r.context_canceled + r.context_deadline_exceeded ≤ 1
  pub fallback : r.fallback_successes + r.fallback_failures ≤ 1

-- The same before the secondary event is looked at.
record IsPrimary {F : Type 0} (r : MetricResult F) : Type 0 where
  one : r.attempts ≡ 1
  split : r.errors ≡ r.failures + r.rejects + r.short_circuits + r.timeouts
  single : r.successes + r.errors + r.context_canceled + r.context_deadline_exceeded ≤ 1
  no_success : r.fallback_successes ≡ 0
  no_failure : r.fallback_failures ≡ 0

module _ {F : Type 0} where
  primary-IsPrimary :
      (event : String) (now : ℕ) (e : CommandExecution F)
      → IsPrimary (primary event (attempt now e))
  unfolding primary attempt
  primary-IsPrimary event now e =
      by_cases (str_eq event "success") (λ h. rw h (omega arith))
        λ h. rw h (
          by_cases (str_eq event "failure") (λ h. rw h (omega arith))
            λ h. rw h (
              by_cases (str_eq event "rejected") (λ h. rw h (omega arith))
                λ h. rw h (
                  by_cases (str_eq event "short-circuit") (λ h. rw h (omega arith))
                    λ h. rw h (
                      by_cases (str_eq event "timeout") (λ h. rw h (omega arith))
                        λ h. rw h (
                          by_cases (str_eq event "context_canceled") (λ h. rw h (omega arith))
                            λ h. rw h (
                              by_cases (str_eq event "context_deadline_exceeded")
                                (λ h. rw h (omega arith)) λ h. rw h (omega arith)))))))

  -- Whatever its events are, the result of a command is one attempt with at most one outcome. Its
  -- errors are its failures, rejections, short circuits and timeouts: a canceled context or a passed
  -- deadline is none. At most one of the two fallback counters is set.
  pub build_result-IsOutcome : (now : ℕ) (e : CommandExecution F) → IsOutcome (build_result now e)
  unfolding build_result secondary
  build_result-IsOutcome now e =
      let h = primary-IsPrimary e.primary_event now e in
      by_cases (str_eq e.secondary_event "fallback-success") (λ k. rw k (omega (arith, h)))
        λ k. rw k (
          by_cases (str_eq e.secondary_event "fallback-failure") (λ k. rw k (omega (arith, h)))
            λ k. rw k (omega (arith, h)))

module _ {F : Type 0} where
  successes-primary :
      (event : String) (now : ℕ) (e : CommandExecution F)
      → (primary event (attempt now e)).successes ≡ (if str_eq event "success" then 1 else 0)
  unfolding primary attempt
  successes-primary event now e = ground arith

  -- The result counts as a success exactly if its primary event is one.
  pub successes-build_result :
      (now : ℕ) (e : CommandExecution F)
      → (build_result now e).successes ≡ (if str_eq e.primary_event "success" then 1 else 0)
  unfolding build_result secondary
  successes-build_result now e =
      let h = successes-primary e.primary_event now e in
      by_cases (str_eq e.secondary_event "fallback-success") (λ k. rw k h)
        (λ k.
          rw k (by_cases (str_eq e.secondary_event "fallback-failure") (λ k. rw k h) (λ k. rw k h)))

-- One report: its amounts count together or not at all.
amount_split :
    (now t a b c d n : ℕ)
    → a ≡ b + c + d + n
    → amount now t a ≡ amount now t b + amount now t c + amount now t d + amount now t n
unfolding amount
amount_split now t a b c d n h = ground arith

amount_single :
    (now t a b c d : ℕ)
    → a + b + c + d ≤ 1
    → amount now t a + amount now t b + amount now t c + amount now t d ≤ amount now t 1
unfolding amount
amount_single now t a b c d h = ground arith

-- A finished command with its readings of the clock.
pub record Report (F : Type 0) : Type 0 where
  pub built : ℕ
  pub at : Readings
  pub execution : CommandExecution F

module _ {F : Type 0} where
  -- The updates that a list of finished commands makes.
  abbrev pub history : List (Report F) → History F
  history [] = []
  history (c ∷ cs) = (c.at, build_result c.built c.execution) ∷ history cs

  -- How many commands were reported in the window.
  abbrev pub reported : ℕ → List (Report F) → ℕ
  reported now [] = 0
  reported now (c ∷ cs) = amount now c.at.now 1 + reported now cs

  abbrev sums : ℕ → (MetricResult F → ℕ) → List (Report F) → ℕ
  sums now field cs = log_sum now (log_of field (history cs))

  recent-attempts :
      (now : ℕ) (cs : List (Report F)) → sums now (λ r. r.attempts) cs ≡ reported now cs
  recent-attempts now [] = refl
  recent-attempts now (c ∷ cs) =
      ap₂ ◌+◌ (ap (amount now c.at.now) (build_result-IsOutcome c.built c.execution).one)
        (recent-attempts now cs)

  recent-errors :
      (now : ℕ) (cs : List (Report F))
      → sums now (λ r. r.errors) cs
        ≡ sums now (λ r. r.failures) cs
          + sums now (λ r. r.rejects) cs
          + sums now (λ r. r.short_circuits) cs
          + sums now (λ r. r.timeouts) cs
  recent-errors now [] = refl
  recent-errors now (c ∷ cs) =
      let r = build_result c.built c.execution in
      omega (
        arith,
        recent-errors now cs,
        amount_split now c.at.now r.errors r.failures r.rejects r.short_circuits r.timeouts
            (build_result-IsOutcome c.built c.execution).split,
      )

  recent-single :
      (now : ℕ) (cs : List (Report F))
      → sums now (λ r. r.successes) cs
          + sums now (λ r. r.errors) cs
          + sums now (λ r. r.context_canceled) cs
          + sums now (λ r. r.context_deadline_exceeded) cs
        ≤ reported now cs
  recent-single now [] = omega arith
  recent-single now (c ∷ cs) =
      let r = build_result c.built c.execution in
      omega (
        arith,
        recent-single now cs,
        amount_single now c.at.now r.successes r.errors r.context_canceled
            r.context_deadline_exceeded (build_result-IsOutcome c.built c.execution).single,
      )

  -- After any finished commands in the order of their seconds, none later than the present one,
  -- and fewer than 2^63 of them in the window: the requests are the commands reported in the
  -- window, the errors are the failures, rejections, short circuits and timeouts together, and
  -- errors, successes and canceled or expired contexts are no more than the requests.
  pub counters_add_up :
      (timing : Bool) (cs : List (Report F)) (now : ℕ)
      → IsTimely 0 (history cs) (unix now)
      → reported now cs < 2 ^ 63
      → let d = update_all timing (history cs) new_default_metric_collector in
        (sum now d.num_requests ≡ reported now cs)
        × (sum now d.errors
            ≡ sum now d.failures
              + sum now d.rejects
              + sum now d.short_circuits
              + sum now d.timeouts)
        × (sum now d.successes
              + sum now d.errors
              + sum now d.context_canceled
              + sum now d.context_deadline_exceeded
            ≤ sum now d.num_requests)
  counters_add_up timing cs now timely small =
      let tally = update_all-IsTally timing (history cs) now timely in
      rw
        (
          tally.num_requests, tally.errors, tally.failures, tally.rejects, tally.short_circuits,
          tally.timeouts, tally.successes, tally.context_canceled, tally.context_deadline_exceeded,
        )
        (omega (arith, recent-attempts now cs, recent-errors now cs, recent-single now cs))
