-- ===== src/EventStream/Publish/Latency.antt =====
-- The latencies of an event: what the nine percentiles of `generateLatencyTimings` are.
pub mod Ascending
use hystrix_go.Base.{
  ℕ, suc, ◌+◌, ◌^◌, ◌≤◌, ◌<◌, ◌≡◌, refl, Bool, true, false, Option, none, some, List, length, arith,
  leb, ltb, ◌&&◌, by_cases, sym, ◌∙◌, ap,
}
use hystrix_go.EventStream.Event.{StreamCmdLatency}
use hystrix_go.EventStream.Publish.{Stamps, timing_at, generate_latency_timings}
use hystrix_go.Float
use hystrix_go.Float.{Float64, IsOrdered}
use hystrix_go.Rolling.Timing.{
  Timing, collect, is_fresh, sorted_durations, percentile, percentile_of, mean,
}
use hystrix_go.Rolling.Timing.Percentile.{
  IsPercentile, at_zero, between, Below, from_zero, ordered, AreTimes, percentile_of-some,
  percentile_mono,
}

-- What `SortedDurations` returns is stored.
pub sorted_durations-stored :
    (sort : List ℕ → List ℕ) (at : Stamps) (r : Timing)
    → let (r', ds) = sorted_durations sort at.tested at.now at.cached r in
      r'.cached_sorted_durations ≡ ds
unfolding sorted_durations
sorted_durations-stored sort at r =
    by_cases (is_fresh at.tested r) (λ e. rw e refl) (λ e. rw e refl)

-- At no time are there 2^53 durations.
pub record IsSmall (sort : List ℕ → List ℕ) (r : Timing) : Type 0 where
  pub collected : (now : ℕ) → length (sort (collect now r.buckets)) < 2 ^ 53
  pub stored : length r.cached_sorted_durations < 2 ^ 53

module _ (sort : List ℕ → List ℕ) (at : Stamps) (r : Timing) where
  abbrev after : Timing × List ℕ
  after = sorted_durations sort at.tested at.now at.cached r

  pub sorted_durations-IsSmall : IsSmall sort r → IsSmall sort after.0 × (length after.1 < 2 ^ 53)
  unfolding sorted_durations
  sorted_durations-IsSmall small =
      by_cases (is_fresh at.tested r) (λ e. rw e (small, small.stored))
        (λ e. rw e (
          record { collected = small.collected; stored = small.collected at.now },
          small.collected at.now,
        ))

  pub mean-IsSmall : IsSmall sort r → IsSmall sort (mean sort at.tested at.now at.cached r).0
  unfolding mean
  mean-IsSmall small = (sorted_durations-IsSmall small).0

module _ (fl : Float64) (laws : IsOrdered fl) where
  open fl use {F, of_int, plus, half, le, is_zero}
  open laws use {
    fraction, of_int_le, half_above, half_below, le_trans, zero_is_zero, suc_is_zero, half_is_zero,
  }

  pub whole : (n : ℕ) → (leb 1 n && leb n 100) ≡ true → IsPercentile fl (of_int n)
  whole n h =
      between (of_int_le 1 n (ground (arith, h)) (ground (arith, h)))
        (of_int_le n 100 (ground (arith, h)) (omega arith))

  abbrev pub ninety_nine_and_a_half : F
  ninety_nine_and_a_half = plus (of_int 99) half

  pub almost : IsPercentile fl ninety_nine_and_a_half
  almost =
      between
        (le_trans _ _ _ (of_int_le 1 99 (omega arith) (omega arith)) (half_above 99 (omega arith)))
        (half_below 99 (omega arith))

  module _ (sort : List ℕ → List ℕ) where
    timing_at-some :
        (at : Stamps) (p : F) (r : Timing)
        → IsPercentile fl p
        → IsSmall sort r
        → (t : ℕ) × (r' : Timing) × (timing_at fl sort at p r ≡ some (t, r')) × IsSmall sort r'
    unfolding timing_at percentile
    timing_at-some at p r good small =
        let (small', few) = sorted_durations-IsSmall sort at r small in
        let (r', ds) = sorted_durations sort at.tested at.now at.cached r in
        let (t, e) = percentile_of-some fl fraction p ds good few in (t, r', rw e refl, small')

    -- With fewer than 2^53 durations, no percentile of `generateLatencyTimings` panics.
    pub generate_latency_timings-some :
        (at : ℕ → Stamps) (r : Timing)
        → IsSmall sort r
        → (l : StreamCmdLatency) × (r' : Timing) × (generate_latency_timings fl sort at r
            ≡ some (l, r'))
          × IsSmall sort r'
    unfolding generate_latency_timings
    generate_latency_timings-some at r small =
        let (t0, r0, e0, s0) = timing_at-some (at 0) (of_int 0) r (at_zero zero_is_zero) small in
        let (t1, r1, e1, s1) = timing_at-some (at 1) (of_int 25) r0 (whole 25 refl) s0 in
        let (t2, r2, e2, s2) = timing_at-some (at 2) (of_int 50) r1 (whole 50 refl) s1 in
        let (t3, r3, e3, s3) = timing_at-some (at 3) (of_int 75) r2 (whole 75 refl) s2 in
        let (t4, r4, e4, s4) = timing_at-some (at 4) (of_int 90) r3 (whole 90 refl) s3 in
        let (t5, r5, e5, s5) = timing_at-some (at 5) (of_int 95) r4 (whole 95 refl) s4 in
        let (t6, r6, e6, s6) = timing_at-some (at 6) (of_int 99) r5 (whole 99 refl) s5 in
        let (t7, r7, e7, s7) = timing_at-some (at 7) ninety_nine_and_a_half r6 almost s6 in
        let (t8, r8, e8, s8) = timing_at-some (at 8) (of_int 100) r7 (whole 100 refl) s7 in
        (
          record {
            timing0 = t0;
            timing25 = t1;
            timing50 = t2;
            timing75 = t3;
            timing90 = t4;
            timing95 = t5;
            timing99 = t6;
            timing995 = t7;
            timing100 = t8;
          },
          r8,
          rw (e0, e1, e2, e3, e4, e5, e6, e7, e8) refl,
          s8,
        )
