-- ===== src/Rolling/Timing/Race.antt =====
-- hystrix/rolling/rolling_timing.go: calls of Add in one second, with goroutines that interleave.
--
-- The buckets that were ever made for the second have addresses, in the order in which they were made,
-- and the map holds the address of one, or none. A step is a part of Add that holds the mutex: the
-- lookup of `getCurrentBucket`, its creation of a bucket, and the append. `removeOldBuckets` leaves the
-- present second alone.
pub mod Kept
use hystrix_go.Base.{
  ℕ, zero, suc, ◌≡◌, Option, none, some, List, [], ◌∷◌, ◌++◌, ◌==◌, if◌then◌else◌, put,
}

-- Where a goroutine stands in `Add`.
pub data Local : Type 0 where
  idle : Local
  -- it has found no bucket
  missing : ℕ → Local
  -- `getCurrentBucket` has returned this bucket
  holding : ℕ → ℕ → Local

pub record Second : Type 0 where
  pub buckets : ℕ → List ℕ
  -- how many buckets were made
  pub made : ℕ
  -- `r.Buckets` at the second
  pub current : Option ℕ
  pub locals : ℕ → Local
  -- the durations whose `Add` is over, the last one first
  pub finished : List ℕ

-- `r.Buckets[now.Unix()] = &timingBucket{}`
abbrev pub create_bucket : ℕ → ℕ → Second → Second
create_bucket g d s = record s {
  buckets = put s.made [] s.buckets;
  made = suc s.made;
  current = some s.made;
  locals = put g (holding d s.made) s.locals;
}

-- `b.Durations = append(b.Durations, duration)`
abbrev pub append_duration : ℕ → ℕ → ℕ → Second → Second
append_duration g d p s = record s {
  buckets = put p (s.buckets p ++ d ∷ []) s.buckets;
  locals = put g idle s.locals;
  finished = d ∷ s.finished;
}

pub data Step (s : Second) : Second → Type 0 where
  finds :
      (g d p : ℕ)
      → s.locals g ≡ idle
      → s.current ≡ some p
      → Step s (record s { locals = put g (holding d p) s.locals })
  misses :
      (g d : ℕ)
      → s.locals g ≡ idle
      → s.current ≡ none
      → Step s (record s { locals = put g (missing d) s.locals })
  creates : (g d : ℕ) → s.locals g ≡ missing d → Step s (create_bucket g d s)
  appends : (g d p : ℕ) → s.locals g ≡ holding d p → Step s (append_duration g d p s)

pub data Runs (s : Second) : Second → Type 0 where
  start : Runs s s
  after : {t u : Second} → Runs s t → Step t u → Runs s u

-- Before the first `Add` of the second.
abbrev pub untouched : Second
untouched = record {
  buckets = λ _. [];
  made = 0;
  current = none;
  locals = λ _. idle;
  finished = [];
}
