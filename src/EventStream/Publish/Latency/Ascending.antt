-- ===== src/EventStream/Publish/Latency/Ascending.antt =====
-- The order of the percentiles of an event.
use hystrix_go.Base.{ℕ, suc, ◌≤◌, ◌≡◌, refl, true, some, List, arith, leb, ltb, ◌&&◌, ◌∙◌, ap}
use hystrix_go.EventStream.Event.{StreamCmdLatency}
use hystrix_go.EventStream.Publish.{Stamps, timing_at, generate_latency_timings}
use hystrix_go.Float.{Float64, IsOrdered}
use hystrix_go.Rolling.Timing.{Timing, is_fresh, sorted_durations, percentile, percentile_of}
use hystrix_go.Rolling.Timing.Percentile.{
  IsPercentile, at_zero, Below, from_zero, ordered, AreTimes, percentile_of-some, percentile_mono,
}
use hystrix_go.EventStream.Publish.Latency.{
  sorted_durations-stored, whole, ninety_nine_and_a_half, almost,
}

-- The nine numbers do not fall.
pub record IsAscending (l : StreamCmdLatency) : Type 0 where
  pub to25 : l.timing0 ≤ l.timing25
  pub to50 : l.timing25 ≤ l.timing50
  pub to75 : l.timing50 ≤ l.timing75
  pub to90 : l.timing75 ≤ l.timing90
  pub to95 : l.timing90 ≤ l.timing95
  pub to99 : l.timing95 ≤ l.timing99
  pub to995 : l.timing99 ≤ l.timing995
  pub to100 : l.timing995 ≤ l.timing100

module _ (fl : Float64) (laws : IsOrdered fl) where
  open fl use {F, of_int, plus, half, le, is_zero}
  open laws use {
    fraction, of_int_le, half_above, half_below, le_trans, zero_is_zero, suc_is_zero, half_is_zero,
  }

  step_up : (a b : ℕ) → (leb a b && ltb b 100) ≡ true → Below fl (of_int (suc a)) (of_int (suc b))
  step_up a b h =
      ordered _ _ (suc_is_zero a (ground (arith, h))) (suc_is_zero b (ground (arith, h)))
        (of_int_le 1 (suc a) (omega arith) (ground (arith, h)))
        (of_int_le (suc a) (suc b) (ground (arith, h)) (ground (arith, h)))
        (of_int_le (suc b) 100 (ground (arith, h)) (omega arith))

  to_almost : Below fl (of_int 99) (ninety_nine_and_a_half fl laws)
  to_almost =
      ordered _ _ (suc_is_zero 98 (omega arith)) (half_is_zero 99 (omega arith))
        (of_int_le 1 99 (omega arith) (omega arith)) (half_above 99 (omega arith))
        (half_below 99 (omega arith))

  from_almost : Below fl (ninety_nine_and_a_half fl laws) (of_int 100)
  from_almost =
      ordered _ _ (half_is_zero 99 (omega arith)) (suc_is_zero 99 (omega arith))
        (le_trans _ _ _ (of_int_le 1 99 (omega arith) (omega arith)) (half_above 99 (omega arith)))
        (half_below 99 (omega arith)) (of_int_le 100 100 (omega arith) (omega arith))

  from_start : Below fl (of_int 0) (of_int 25)
  from_start = from_zero _ _ zero_is_zero (whole fl laws 25 refl)

  module _ (sort : List ℕ → List ℕ) where
    percentile_le :
        (p q : F) (ds : List ℕ) (a b : ℕ)
        → Below fl p q
        → AreTimes ds
        → percentile_of fl p ds ≡ some a
        → percentile_of fl q ds ≡ some b
        → a ≤ b
    percentile_le p q ds a b below times e e' =
        let (a', b', f, f', le) = percentile_mono fl laws p q ds below times in
        let same : a' ≡ a = cc in let same' : b' ≡ b = cc in rw (← same, ← same') le

    timing_at-first :
        (at : Stamps) (p : F) (r : Timing) (t : ℕ)
        → let (r', ds) = sorted_durations sort at.tested at.now at.cached r in
          percentile_of fl p ds ≡ some t → timing_at fl sort at p r ≡ some (t, r')
    unfolding timing_at percentile
    timing_at-first at p r t e = rw e refl

    timing_at-again :
        (at : Stamps) (p : F) (r : Timing) (t : ℕ)
        → is_fresh at.tested r ≡ true
        → percentile_of fl p r.cached_sorted_durations ≡ some t
        → timing_at fl sort at p r ≡ some (t, r)
    unfolding timing_at percentile sorted_durations
    timing_at-again at p r t fresh e = rw (fresh, e) refl

    of_list :
        (ds : List ℕ)
        → AreTimes ds
        → (l : StreamCmdLatency) × IsAscending l
          × (percentile_of fl (of_int 0) ds ≡ some l.timing0)
          × (percentile_of fl (of_int 25) ds ≡ some l.timing25)
          × (percentile_of fl (of_int 50) ds ≡ some l.timing50)
          × (percentile_of fl (of_int 75) ds ≡ some l.timing75)
          × (percentile_of fl (of_int 90) ds ≡ some l.timing90)
          × (percentile_of fl (of_int 95) ds ≡ some l.timing95)
          × (percentile_of fl (of_int 99) ds ≡ some l.timing99)
          × (percentile_of fl (ninety_nine_and_a_half fl laws) ds ≡ some l.timing995)
          × (percentile_of fl (of_int 100) ds ≡ some l.timing100)
    of_list ds times =
        let some_of : (p : F) → IsPercentile fl p → (t : ℕ) × (percentile_of fl p ds ≡ some t) =
          λ p good. percentile_of-some fl fraction p ds good times.few in
        let (t0, e0) = some_of _ (at_zero zero_is_zero) in
        let (t1, e1) = some_of _ (whole fl laws 25 refl) in
        let (t2, e2) = some_of _ (whole fl laws 50 refl) in
        let (t3, e3) = some_of _ (whole fl laws 75 refl) in
        let (t4, e4) = some_of _ (whole fl laws 90 refl) in
        let (t5, e5) = some_of _ (whole fl laws 95 refl) in
        let (t6, e6) = some_of _ (whole fl laws 99 refl) in
        let (t7, e7) = some_of _ (almost fl laws) in
        let (t8, e8) = some_of _ (whole fl laws 100 refl) in
        (
          record {
            timing0 = t0;
            timing25 = t1;
            timing50 = t2;
            timing75 = t3;
            timing90 = t4;
            timing95 = t5;
            timing99 = t6;
            timing995 = t7;
            timing100 = t8;
          },
          record {
            to25 = percentile_le _ _ ds t0 t1 from_start times e0 e1;
            to50 = percentile_le _ _ ds t1 t2 (step_up 24 49 refl) times e1 e2;
            to75 = percentile_le _ _ ds t2 t3 (step_up 49 74 refl) times e2 e3;
            to90 = percentile_le _ _ ds t3 t4 (step_up 74 89 refl) times e3 e4;
            to95 = percentile_le _ _ ds t4 t5 (step_up 89 94 refl) times e4 e5;
            to99 = percentile_le _ _ ds t5 t6 (step_up 94 98 refl) times e5 e6;
            to995 = percentile_le _ _ ds t6 t7 to_almost times e6 e7;
            to100 = percentile_le _ _ ds t7 t8 from_almost times e7 e8;
          },
          e0,
          e1,
          e2,
          e3,
          e4,
          e5,
          e6,
          e7,
          e8,
        )

    -- If the clock has not passed the second of the cache when the later percentiles read it, the
    -- nine percentiles are of one list, the one that the first call returns: none panics, they do
    -- not fall, and the timings are left as the first call leaves them. The list is ascending,
    -- with fewer than 2^53 durations, each of whole milliseconds below 2^32, and the float64
    -- keeps order as IsOrdered says.
    pub generate_latency_timings-IsAscending :
        (at : ℕ → Stamps) (r : Timing)
        → let (r', ds) = sorted_durations sort (at 0).tested (at 0).now (at 0).cached r in
          AreTimes ds
          → ((k : ℕ) → is_fresh (at (suc k)).tested r' ≡ true)
          → (l : StreamCmdLatency) × (generate_latency_timings fl sort at r ≡ some (l, r'))
            × IsAscending l
    unfolding generate_latency_timings
    generate_latency_timings-IsAscending at r times fresh =
        let (r', ds) = sorted_durations sort (at 0).tested (at 0).now (at 0).cached r in
        let stored = sorted_durations-stored sort (at 0) r in
        let (l, up, e0, e1, e2, e3, e4, e5, e6, e7, e8) = of_list ds times in
        let again : (k : ℕ) (p : F) (t : ℕ)
            → percentile_of fl p ds ≡ some t
            → timing_at fl sort (at (suc k)) p r' ≡ some (t, r') =
          λ k p t e.
            timing_at-again (at (suc k)) p r' t (fresh k) (ap (percentile_of fl p) stored ∙ e) in
        (
          l,
          rw
              (
                timing_at-first (at 0) _ r _ e0,
                again 0 _ _ e1,
                again 1 _ _ e2,
                again 2 _ _ e3,
                again 3 _ _ e4,
                again 4 _ _ e5,
                again 5 _ _ e6,
                again 6 _ _ e7,
                again 7 _ _ e8,
              )
              refl,
          up,
        )
