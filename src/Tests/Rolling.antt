-- ===== src/Tests/Rolling.antt =====
-- Runs of hystrix/rolling.
use hystrix_go.Base.{
  ℕ, ◌+◌, ◌*◌, ◌/◌, ◌%◌, ◌^◌, ◌<◌, ◌≡◌, refl, ◌↔◌, false, List, [], ◌∷◌, arith, if◌then◌else◌, ltb,
}
use hystrix_go.Rolling.Log.{Log, log_sum, log_max}
use hystrix_go.Rolling.Number.{
  new_number, increment_at, update_max_at, sum, sum_loop, max, max_loop,
}
use hystrix_go.Rolling.Number.Max.{update_max_all, max-update_max_all}
use hystrix_go.Rolling.Number.Sum.{increment_all, sum-increment_all}
use hystrix_go.Rolling.Timing.{
  new_timing, add, get_current_bucket, remove_old_buckets, append_at, remove_old, collect, is_fresh,
  sorted_durations, mean_of,
}
use hystrix_go.Rolling.Timing.Durations.{Call}
use hystrix_go.Rolling.Timing.Mean.{average, mean_of_exact_iff}
use hystrix_go.Rolling.Timing.Sorted.{add_all, sorted_durations_cached}
use hystrix_go.Tests.Sample.{second}

-- Second 111 uses the slot of second 100 again.
abbrev log : Log
log = (100 * second, 5) ∷ (101 * second, 7) ∷ (101 * second, 1) ∷ (111 * second, 2) ∷ []

sum_run : sum (111 * second) (increment_all log new_number) ≡ 10
unfolding sum sum_loop increment_at new_number
sum_run = refl

max_run : max (110 * second) (update_max_all log new_number) ≡ 7
unfolding max max_loop update_max_at new_number
max_run = refl

sum-increment_all_example :
    sum (111 * second) (increment_all log new_number) ≡ log_sum (111 * second) log % 2 ^ 64
sum-increment_all_example = sum-increment_all log (111 * second) (omega arith)

max-update_max_all_example :
    max (111 * second) (update_max_all log new_number) ≡ log_max (111 * second) log
max-update_max_all_example = max-update_max_all log (111 * second) (omega arith) (omega arith)

-- A sort that is enough for the tests: it leaves the list as it is.
abbrev keep : List ℕ → List ℕ
keep ds = ds

abbrev calls : List Call
calls =
    record { current = 100 * second; removed = 100 * second; duration = 3 }
    ∷ record { current = 130 * second; removed = 130 * second; duration = 4 }
    ∷ []

stale : is_fresh (170 * second) (add_all calls new_timing) ≡ false
unfolding new_timing add get_current_bucket remove_old_buckets append_at remove_old
stale = refl

sorted_durations_cached_example :
    let (r', ds) =
      sorted_durations keep
        (170 * second)
        (170 * second)
        (170 * second)
        (add_all calls new_timing) in
    (sorted_durations keep
      (170 * second + 5)
      (170 * second + 5)
      (170 * second + 5)
      (add_all calls r')).1
    ≡ (if ltb (170 * second + 5) (170 * second + 1_000_000_000)
        then ds
        else keep (collect (170 * second + 5) (add_all calls r').buckets))
sorted_durations_cached_example =
    sorted_durations_cached keep calls (170 * second) (170 * second) (170 * second)
      (170 * second + 5) (170 * second + 5) (170 * second + 5) (add_all calls new_timing)
      (omega arith) (omega arith) stale

-- Two calls of five seconds each: the mean is reported as 705 milliseconds.
mean_run : mean_of (5 * second ∷ 5 * second ∷ []) ≡ 705
unfolding mean_of
mean_run = refl

mean_of_exact_iff_example :
    (mean_of (5 * second ∷ 5 * second ∷ []) ≡ average (5 * second ∷ 5 * second ∷ []) / 1000000)
    ↔ (average (5 * second ∷ 5 * second ∷ []) < 2 ^ 32)
mean_of_exact_iff_example = mean_of_exact_iff (5 * second) (5 * second ∷ []) (omega arith)
