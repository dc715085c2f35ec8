-- ===== src/MetricCollector/Counters.antt =====
-- The counters of the default collector against the history of its updates.
use hystrix_go.Base.{ℕ, ◌%◌, ◌^◌, ◌≤◌, ◌≡◌, refl, Bool, List, [], ◌∷◌}
use hystrix_go.MetricCollector.{
  MetricResult, DefaultMetricCollector, Readings, new_default_metric_collector, update_default,
  reset_default,
}
use hystrix_go.Rolling.Log.{unix, Log, IsOrdered, log_sum}
use hystrix_go.Rolling.Number.{Number, sum, new_number}
use hystrix_go.Rolling.Timing
use hystrix_go.Rolling.Number.Sum.{increment_all, sum-increment_all, sum-reset}

-- The updates of a collector, in order.
abbrev pub History : Type 0 → Type 0
History F = List (Readings × MetricResult F)

-- What one counter was told.
abbrev pub log_of : {F : Type 0} → (MetricResult F → ℕ) → History F → Log
log_of field [] = []
log_of field ((at, r) ∷ h) = (at.now, field r) ∷ log_of field h

-- The sum of one field over the updates in the window.
abbrev pub recent : {F : Type 0} → ℕ → (MetricResult F → ℕ) → History F → ℕ
recent now field h = log_sum now (log_of field h) % 2 ^ 64

-- Every counter of `d` reads, at `now`, what a history of updates gives for its field.
pub record IsTally {F : Type 0} (now : ℕ) (h : History F) (d : DefaultMetricCollector)
    : Type 0 where
  pub num_requests : sum now d.num_requests ≡ recent now (λ r. r.attempts) h
  pub errors : sum now d.errors ≡ recent now (λ r. r.errors) h
  pub successes : sum now d.successes ≡ recent now (λ r. r.successes) h
  pub failures : sum now d.failures ≡ recent now (λ r. r.failures) h
  pub rejects : sum now d.rejects ≡ recent now (λ r. r.rejects) h
  pub short_circuits : sum now d.short_circuits ≡ recent now (λ r. r.short_circuits) h
  pub timeouts : sum now d.timeouts ≡ recent now (λ r. r.timeouts) h
  pub context_canceled : sum now d.context_canceled ≡ recent now (λ r. r.context_canceled) h
  pub context_deadline_exceeded :
      sum now d.context_deadline_exceeded ≡ recent now (λ r. r.context_deadline_exceeded) h
  pub fallback_successes : sum now d.fallback_successes ≡ recent now (λ r. r.fallback_successes) h
  pub fallback_failures : sum now d.fallback_failures ≡ recent now (λ r. r.fallback_failures) h

-- Every counter of `d'` is that of `d` after the increments of a history.
record IsReplay {F : Type 0} (h : History F) (d d' : DefaultMetricCollector) : Type 0 where
  num_requests : d'.num_requests ≡ increment_all (log_of (λ r. r.attempts) h) d.num_requests
  errors : d'.errors ≡ increment_all (log_of (λ r. r.errors) h) d.errors
  successes : d'.successes ≡ increment_all (log_of (λ r. r.successes) h) d.successes
  failures : d'.failures ≡ increment_all (log_of (λ r. r.failures) h) d.failures
  rejects : d'.rejects ≡ increment_all (log_of (λ r. r.rejects) h) d.rejects
  short_circuits :
      d'.short_circuits ≡ increment_all (log_of (λ r. r.short_circuits) h) d.short_circuits
  timeouts : d'.timeouts ≡ increment_all (log_of (λ r. r.timeouts) h) d.timeouts
  context_canceled :
      d'.context_canceled ≡ increment_all (log_of (λ r. r.context_canceled) h) d.context_canceled
  context_deadline_exceeded :
      d'.context_deadline_exceeded
      ≡ increment_all (log_of (λ r. r.context_deadline_exceeded) h) d.context_deadline_exceeded
  fallback_successes :
      d'.fallback_successes
      ≡ increment_all (log_of (λ r. r.fallback_successes) h) d.fallback_successes
  fallback_failures :
      d'.fallback_failures ≡ increment_all (log_of (λ r. r.fallback_failures) h) d.fallback_failures

-- The instants do not go back, and none is after `to`.
abbrev pub IsTimely : {F : Type 0} → ℕ → History F → ℕ → Type 0
IsTimely from [] to = from ≤ to
IsTimely from ((at, _) ∷ h) to = (from ≤ unix at.now) × IsTimely (unix at.now) h to

module _ {F : Type 0} where
  unfoldable pub update_all : Bool → History F → DefaultMetricCollector → DefaultMetricCollector
  update_all timing [] d = d
  update_all timing ((at, r) ∷ h) d = update_all timing h (update_default timing at r d)

  log_of-IsOrdered :
      (field : MetricResult F → ℕ) (h : History F) (from to : ℕ)
      → IsTimely from h to
      → IsOrdered from (log_of field h) to
  log_of-IsOrdered field [] from to o = o
  log_of-IsOrdered field ((at, r) ∷ h) from to o =
      (o.0, log_of-IsOrdered field h (unix at.now) to o.1)

  update_all-IsReplay :
      (timing : Bool) (h : History F) (d : DefaultMetricCollector)
      → IsReplay h d (update_all timing h d)
  unfolding update_all update_default
  update_all-IsReplay timing [] d = record {
    num_requests = refl;
    errors = refl;
    successes = refl;
    failures = refl;
    rejects = refl;
    short_circuits = refl;
    timeouts = refl;
    context_canceled = refl;
    context_deadline_exceeded = refl;
    fallback_successes = refl;
    fallback_failures = refl;
  }
  update_all-IsReplay timing ((at, r) ∷ h) d =
      let ih = update_all-IsReplay timing h (update_default timing at r d) in
      record {
        num_requests = ih.num_requests;
        errors = ih.errors;
        successes = ih.successes;
        failures = ih.failures;
        rejects = ih.rejects;
        short_circuits = ih.short_circuits;
        timeouts = ih.timeouts;
        context_canceled = ih.context_canceled;
        context_deadline_exceeded = ih.context_deadline_exceeded;
        fallback_successes = ih.fallback_successes;
        fallback_failures = ih.fallback_failures;
      }

  module _ (timing : Bool) (h : History F) (now : ℕ) (timely : IsTimely 0 h (unix now)) where
    tally :
        (field : MetricResult F → ℕ) {r : Number}
        → r ≡ increment_all (log_of field h) new_number
        → sum now r ≡ recent now field h
    tally field e =
        rw e (sum-increment_all (log_of field h) now (log_of-IsOrdered field h 0 (unix now) timely))

    -- After updates in the order of their seconds, none later than the present one, every counter
    -- of a new collector reads the sum of its own field over the updates of the present second
    -- and the ten before it, modulo 2^64.
    pub update_all-IsTally : IsTally now h (update_all timing h new_default_metric_collector)
    unfolding new_default_metric_collector
    update_all-IsTally =
        let replay = update_all-IsReplay timing h new_default_metric_collector in
        record {
          num_requests = tally (λ r. r.attempts) replay.num_requests;
          errors = tally (λ r. r.errors) replay.errors;
          successes = tally (λ r. r.successes) replay.successes;
          failures = tally (λ r. r.failures) replay.failures;
          rejects = tally (λ r. r.rejects) replay.rejects;
          short_circuits = tally (λ r. r.short_circuits) replay.short_circuits;
          timeouts = tally (λ r. r.timeouts) replay.timeouts;
          context_canceled = tally (λ r. r.context_canceled) replay.context_canceled;
          context_deadline_exceeded =
              tally (λ r. r.context_deadline_exceeded) replay.context_deadline_exceeded;
          fallback_successes = tally (λ r. r.fallback_successes) replay.fallback_successes;
          fallback_failures = tally (λ r. r.fallback_failures) replay.fallback_failures;
        }

-- After a reset every counter reads zero and both timings are new.
pub reset_default_lem :
    (d : DefaultMetricCollector) (now : ℕ)
    → IsTally {F = Unit {0}} now [] (reset_default d)
      × ((reset_default d).total_duration ≡ Timing.new_timing)
      × ((reset_default d).run_duration ≡ Timing.new_timing)
unfolding reset_default Timing.new_timing Timing.reset
reset_default_lem d now = (
  record {
    num_requests = sum-reset now d.num_requests;
    errors = sum-reset now d.errors;
    successes = sum-reset now d.successes;
    failures = sum-reset now d.failures;
    rejects = sum-reset now d.rejects;
    short_circuits = sum-reset now d.short_circuits;
    timeouts = sum-reset now d.timeouts;
    context_canceled = sum-reset now d.context_canceled;
    context_deadline_exceeded = sum-reset now d.context_deadline_exceeded;
    fallback_successes = sum-reset now d.fallback_successes;
    fallback_failures = sum-reset now d.fallback_failures;
  },
  refl,
  refl,
)
