-- ===== src/Hystrix/Errors.antt =====
-- How errors are classified and returned.
use Prim.Native.String.{String}
use text.Mathlib.Text.{◌==◌ as str_eq}
use text.Mathlib.TextEquality.{eq_iff}
use hystrix_go.Base.{
  ◌≡◌, ◌≢◌, refl, ◌↔◌, inl, inr, Bool, true, false, ◌||◌, Option, none, some, by_cases,
  Option-cases, arith,
}
use hystrix_go.Hystrix.{
  Err, Target, message, context_canceled, context_deadline, err_timeout, errors_is, opt_is,
  primary_event, Fallback, try_fallback, Completion, ran, ctx_done, timed_out, join,
}

pub not-eq : (a b : String) → str_eq a b ≡ false → a ≢ b
not-eq a b h e = let same = (eq_iff a b).1 e in cc

-- No failure is reported as a success, or without an event.
pub primary_event-failed :
    (ctx_err : Option Err) (err : Err)
    → (str_eq (primary_event ctx_err err) "" ≡ false)
      × (str_eq (primary_event ctx_err err) "success" ≡ false)
unfolding primary_event
primary_event-failed ctx_err err =
    by_cases (errors_is err (message "circuit open")) (λ h. rw h (refl, refl))
      λ h. rw h (
        by_cases (errors_is err (message "max concurrency")) (λ h. rw h (refl, refl))
          λ h. rw h (
            by_cases (errors_is err (message "timeout")) (λ h. rw h (refl, refl))
              λ h. rw h (
                by_cases (opt_is ctx_err context_canceled) (λ h. rw h (refl, refl))
                  λ h. rw h (
                    by_cases (opt_is ctx_err context_deadline) (λ h. rw h (refl, refl))
                      λ h. rw h (refl, refl)))))

pub primary_event-ne : (ctx_err : Option Err) (err : Err) → primary_event ctx_err err ≢ ""
primary_event-ne ctx_err err = not-eq _ "" (primary_event-failed ctx_err err).0

-- The error of a completion, if it has one.
abbrev pub failure_of : Completion → Option Err
failure_of (ran r) = r
failure_of (ctx_done err) = some err
failure_of timed_out = some err_timeout

-- Whether the fallback is there and ends without an error of its own.
abbrev pub recovers : Fallback → Err → Bool
recovers none err = false
recovers (some f) err = elim (f err) [ none ↦ true | some _ ↦ false ]

or-true : (b : Bool) → (b || true) ≡ true
or-true true = refl
or-true false = refl

-- The caller gets no error exactly if the fallback recovers.
pub try_fallback-none_iff :
    (fallback : Fallback) (err : Err)
    → ((try_fallback fallback err).1 ≡ none) ↔ (recovers fallback err ≡ true)
unfolding try_fallback
try_fallback-none_iff none err = ((λ h. cc), (λ h. cc))
try_fallback-none_iff (some f) err = ((λ h. ground arith), (λ h. ground arith))

-- An error that the caller gets still is, for `errors.Is`, everything that the error of the run is.
pub errors_is-try_fallback :
    (fallback : Fallback) (err e : Err) (t : Target)
    → (try_fallback fallback err).1 ≡ some e
    → errors_is err t ≡ true
    → errors_is e t ≡ true
unfolding try_fallback errors_is
errors_is-try_fallback none err e t h i = let same : err ≡ e = cc in rw (← same) i
errors_is-try_fallback (some f) err e t h i = elim (Option-cases (f err)) [
  | inl done ↦ ground arith
  | inr (x, failed) ↦
      let same : join x err ≡ e = ground arith in rw (← same) (rw i (or-true (errors_is x t)))
]
