-- ===== src/Circuit/Spec/Window.antt =====
-- The counters of a circuit, and the reports that an abstract breaker keeps.
use Prim.Native.String.{String}
use text.Mathlib.Text.{◌==◌ as str_eq}
use text.Mathlib.TextEquality.{eq_iff}
use hystrix_go.Base.{
  ℕ, ◌+◌, ◌^◌, ◌≤◌, ◌<◌, ◌≡◌, refl, Bool, true, false, ◌&&◌, [], ◌∷◌, ◌++◌, if◌then◌else◌, length,
  arith, ap₂, by_cases, ap,
}
use hystrix_go.Circuit.Spec.{Reports, is_recent, recent_requests, recent_errors, is_error}
use hystrix_go.MetricCollector.{DefaultMetricCollector, Readings, update_default, reset_default}
use hystrix_go.Metrics.{CommandExecution, build_result, primary, secondary, attempt}
use hystrix_go.Metrics.Outcome.{build_result-IsOutcome}
use hystrix_go.Rolling.Log.{unix, Log, IsOrdered, amount, log_sum}
use hystrix_go.Rolling.Number.{Number, new_number, increment_at, sum, reset}
use hystrix_go.Rolling.Number.Sum.{increment_all, sum-increment_all}

-- What the two counters were told.
abbrev pub request_log : Reports → Log
request_log [] = []
request_log ((t, _) ∷ log) = (t, 1) ∷ request_log log

abbrev pub error_log : Reports → Log
error_log [] = []
error_log ((t, error) ∷ log) = (t, if error then 1 else 0) ∷ error_log log

log_sum-request_log :
    (now : ℕ) (log : Reports) → log_sum now (request_log log) ≡ recent_requests now log
unfolding amount
log_sum-request_log now [] = refl
log_sum-request_log now ((t, e) ∷ log) = ap₂ ◌+◌ refl (log_sum-request_log now log)

one_error :
    (now t : ℕ) (e : Bool)
    → amount now t (if e then 1 else 0) ≡ (if is_recent now t && e then 1 else 0)
unfolding amount
one_error now t true = ground arith
one_error now t false = ground arith

log_sum-error_log : (now : ℕ) (log : Reports) → log_sum now (error_log log) ≡ recent_errors now log
log_sum-error_log now [] = refl
log_sum-error_log now ((t, e) ∷ log) = ap₂ ◌+◌ (one_error now t e) (log_sum-error_log now log)

recent_requests-le : (now : ℕ) (log : Reports) → recent_requests now log ≤ length log
recent_requests-le now [] = omega arith
recent_requests-le now ((t, e) ∷ log) = ground (arith, recent_requests-le now log)

recent_errors-le : (now : ℕ) (log : Reports) → recent_errors now log ≤ length log
recent_errors-le now [] = omega arith
recent_errors-le now ((t, e) ∷ log) = ground (arith, recent_errors-le now log)

increment_all-append :
    (log : Log) (t n : ℕ) (r : Number)
    → increment_all (log ++ (t, n) ∷ []) r ≡ increment_at t n (increment_all log r)
increment_all-append [] t n r = refl
increment_all-append ((u, m) ∷ log) t n r = increment_all-append log t n (increment_at u m r)

IsOrdered-append :
    (log : Log) (t n from last : ℕ)
    → IsOrdered from log last
    → last ≤ unix t
    → IsOrdered from (log ++ (t, n) ∷ []) (unix t)
IsOrdered-append [] t n from last o le = (omega arith, omega arith)
IsOrdered-append ((u, m) ∷ log) t n from last o le =
    (o.0, IsOrdered-append log t n (unix u) last o.1 le)

IsOrdered-later :
    (log : Log) (from last to : ℕ) → IsOrdered from log last → last ≤ to → IsOrdered from log to
IsOrdered-later [] from last to o le = omega arith
IsOrdered-later ((u, m) ∷ log) from last to o le =
    (o.0, IsOrdered-later log (unix u) last to o.1 le)

request_log-append :
    (log : Reports) (t : ℕ) (e : Bool)
    → request_log (log ++ (t, e) ∷ []) ≡ request_log log ++ (t, 1) ∷ []
request_log-append [] t e = refl
request_log-append (x ∷ log) t e = ap (◌∷◌ (x.0, 1)) (request_log-append log t e)

error_log-append :
    (log : Reports) (t : ℕ) (e : Bool)
    → error_log (log ++ (t, e) ∷ []) ≡ error_log log ++ (t, if e then 1 else 0) ∷ []
error_log-append [] t e = refl
error_log-append (x ∷ log) t e = ap (◌∷◌ (x.0, if x.1 then 1 else 0)) (error_log-append log t e)

-- The two counters hold these reports, the last of which came no later than in second `last`.
pub record IsCounted (last : ℕ) (log : Reports) (d : DefaultMetricCollector) : Type 0 where
  pub requests : d.num_requests ≡ increment_all (request_log log) new_number
  pub errors : d.errors ≡ increment_all (error_log log) new_number
  pub requests_in_order : IsOrdered 0 (request_log log) last
  pub errors_in_order : IsOrdered 0 (error_log log) last

module _ (last : ℕ) (log : Reports) (d : DefaultMetricCollector) (counted : IsCounted last log d)
    (now : ℕ) (le : last ≤ unix now) (few : length log < 2 ^ 63) where
  pub sum-requests : sum now d.num_requests ≡ recent_requests now log
  sum-requests = rw (counted.requests) (
      omega (
        arith,
        sum-increment_all (request_log log) now
            (IsOrdered-later (request_log log) 0 last (unix now) counted.requests_in_order le),
        log_sum-request_log now log,
        recent_requests-le now log,
      ))

  pub sum-errors : sum now d.errors ≡ recent_errors now log
  sum-errors = rw (counted.errors) (
      omega (
        arith,
        sum-increment_all (error_log log) now
            (IsOrdered-later (error_log log) 0 last (unix now) counted.errors_in_order le),
        log_sum-error_log now log,
        recent_errors-le now log,
      ))

module _ {F : Type 0} where
  errors-primary :
      (event : String) (now : ℕ) (e : CommandExecution F)
      → (primary event (attempt now e)).errors ≡ (if is_error event then 1 else 0)
  unfolding primary attempt
  errors-primary event now e =
      by_cases (str_eq event "success") (λ h. rw ((eq_iff event "success").0 h) refl)
        λ h. rw h (
          by_cases (str_eq event "failure") (λ h. rw h refl)
            λ h. rw h (
              by_cases (str_eq event "rejected") (λ h. rw h refl)
                λ h. rw h (
                  by_cases (str_eq event "short-circuit") (λ h. rw h refl)
                    λ h. rw h (
                      by_cases (str_eq event "timeout") (λ h. rw h refl)
                        λ h. rw h (
                          by_cases (str_eq event "context_canceled") (λ h. rw h refl)
                            λ h. rw h (
                              by_cases (str_eq event "context_deadline_exceeded") (λ h. rw h refl)
                                λ h. rw h refl))))))

  errors-build_result :
      (now : ℕ) (e : CommandExecution F)
      → (build_result now e).errors ≡ (if is_error e.primary_event then 1 else 0)
  unfolding build_result secondary
  errors-build_result now e =
      let h = errors-primary e.primary_event now e in
      by_cases (str_eq e.secondary_event "fallback-success") (λ k. rw k h)
        (λ k.
          rw k (by_cases (str_eq e.secondary_event "fallback-failure") (λ k. rw k h) (λ k. rw k h)))

pub IsCounted-later :
    (last to : ℕ) (log : Reports) (d : DefaultMetricCollector)
    → IsCounted last log d
    → last ≤ to
    → IsCounted to log d
IsCounted-later last to log d counted le = record {
  requests = counted.requests;
  errors = counted.errors;
  requests_in_order = IsOrdered-later (request_log log) 0 last to counted.requests_in_order le;
  errors_in_order = IsOrdered-later (error_log log) 0 last to counted.errors_in_order le;
}

-- Counters that were just reset hold no reports.
pub reset-IsCounted : (last : ℕ) (d : DefaultMetricCollector) → IsCounted last [] (reset_default d)
unfolding reset_default reset new_number
reset-IsCounted last d = record {
  requests = refl;
  errors = refl;
  requests_in_order = omega arith;
  errors_in_order = omega arith;
}

module _ {F : Type 0} (timing : Bool) (built : ℕ) (at : Readings) (e : CommandExecution F)
    (last : ℕ) (log : Reports) (d : DefaultMetricCollector) (counted : IsCounted last log d)
    (le : last ≤ unix at.now) where
  -- A finished command adds one report.
  pub update-IsCounted :
      IsCounted
        (unix at.now)
        (log ++ (at.now, is_error e.primary_event) ∷ [])
        (update_default timing at (build_result built e) d)
  unfolding update_default
  update-IsCounted =
      let error = is_error e.primary_event in
      record {
        requests =
            rw
              (
                request_log-append log at.now error,
                increment_all-append (request_log log) at.now 1 new_number,
                counted.requests,
                (build_result-IsOutcome built e).one,
              )
              refl;
        errors =
            rw
              (
                error_log-append log at.now error,
                increment_all-append (error_log log) at.now (if error then 1 else 0) new_number,
                counted.errors,
                errors-build_result built e,
              )
              refl;
        requests_in_order =
            rw (request_log-append log at.now error)
              (IsOrdered-append (request_log log) at.now 1 0 last counted.requests_in_order le);
        errors_in_order = rw (error_log-append log at.now error) (
            IsOrdered-append (error_log log) at.now (if error then 1 else 0) 0 last
              counted.errors_in_order le);
      }
