-- ===== src/Tests/TimingRace.antt =====
-- Runs of goroutines in Add of hystrix/rolling/rolling_timing.go.
use hystrix_go.Base.{ℕ, ◌+◌, ◌≡◌, refl, some, [], ◌∷◌, ◌==◌, by_cases, put, count}
use hystrix_go.Rolling.Timing.Race.{
  Second, idle, missing, holding, finds, misses, creates, appends, Runs, start, after, untouched,
}
use hystrix_go.Rolling.Timing.Race.Kept.{total, HoldsOnly, IsSettled, kept_durations}

-- Both goroutines find no bucket and make one: the duration 3 is in the bucket that is lost.
one_lost :
    (s : Second) × Runs untouched s
    × (s.current ≡ some 1)
    × (s.finished ≡ 4 ∷ 3 ∷ [])
    × (s.buckets 1 ≡ 4 ∷ [])
one_lost = (
  _,
  after
      (after
        (after
          (after (after (after start (misses 0 3 refl refl)) (misses 1 4 refl refl))
            (creates 0 3 refl))
          (appends 0 3 0 refl))
        (creates 1 4 refl))
      (appends 1 4 1 refl),
  refl,
  refl,
  refl,
)

one_holds : (g : ℕ) → HoldsOnly 0 (put 0 (holding 3 0) (put 0 (missing 3) (λ _. idle)) g)
one_holds g = by_cases (0 == g) (λ e. rw e refl) (λ e. rw e tt)

-- The first call has made the bucket, and is about to append to it.
one_made : (s : Second) × Runs untouched s × IsSettled 0 s
one_made = (
  _,
  after (after start (misses 0 3 refl refl)) (creates 0 3 refl),
  record { mapped = refl; held = one_holds },
)

-- A second call comes, and both end.
both_kept : (s : Second) × Runs one_made.0 s × (s.finished ≡ 4 ∷ 3 ∷ [])
unfolding one_made
both_kept = (
  _,
  after (after (after start (finds 1 4 0 refl refl)) (appends 0 3 0 refl)) (appends 1 4 0 refl),
  refl,
)

kept_durations_example :
    (both_kept.0.current ≡ some 0)
    × (both_kept.0.made ≡ 1)
    × (total 3 one_made.0.buckets 0 + count 3 (both_kept.0.buckets 0)
        ≡ count 3 both_kept.0.finished)
kept_durations_example = kept_durations 0 one_made.1 one_made.2 both_kept.1 3
