-- ===== src/Rolling/Timing/Sorted.antt =====
-- What `SortedDurations` returns, against the calls of `Add`, and how long its cache lasts.
use hystrix_go.Rolling.Log.{unix}
use hystrix_go.Rolling.Timing.{
  Timing, collect, is_fresh, sorted_durations, get_current_bucket, add, remove_old_buckets,
}
use hystrix_go.Rolling.Timing.Durations.{Call, add_call}
use hystrix_go.Base.{
  ℕ, ◌+◌, ◌^◌, ◌≤◌, ◌<◌, ◌≡◌, refl, Bool, false, List, [], ◌∷◌, arith, ltb, if◌then◌else◌, count,
  All,
}

-- The seconds that end less than sixty seconds before the second of `now`.
abbrev pub in_last_minute : ℕ → ℕ → Bool
in_last_minute now k = ltb (unix now) (k + 60)

abbrev pub add_all : List Call → Timing → Timing
add_all [] r = r
add_all (c ∷ log) r = add_all log (add_call c r)

-- No call has removed buckets after `now`.
abbrev pub AreBefore : ℕ → List Call → Type 0
AreBefore now = All (λ c. unix c.removed ≤ unix now)

-- `sort.Sort` leaves every value as often as it was.
abbrev pub Permutes : (List ℕ → List ℕ) → Type 0
Permutes sort = (d : ℕ) (ds : List ℕ) → count d (sort ds) ≡ count d ds

-- Adding a duration leaves the cache alone.
cache-add_all :
    (log : List Call) (r : Timing)
    → ((add_all log r).last_cached_time ≡ r.last_cached_time)
      × ((add_all log r).cached_sorted_durations ≡ r.cached_sorted_durations)
unfolding add get_current_bucket remove_old_buckets
cache-add_all [] r = (refl, refl)
cache-add_all (c ∷ log) r = ground (arith, cache-add_all log (add_call c r))

-- A list that was computed at `cached` is returned again until a second has passed, whatever is
-- added in between; from then on the list is computed anew from what the buckets hold. The times
-- are below 2^63.
pub sorted_durations_cached :
    (sort : List ℕ → List ℕ) (log : List Call) (tested now cached tested' now' cached' : ℕ)
    (r : Timing)
    → cached + 1_000_000_000 < 2 ^ 63
    → tested' < 2 ^ 63
    → is_fresh tested r ≡ false
    → let (r', ds) = sorted_durations sort tested now cached r in
      (sorted_durations sort tested' now' cached' (add_all log r')).1 ≡ (
        if ltb tested' (cached + 1_000_000_000)
        then ds
        else sort (collect now' (add_all log r').buckets))
unfolding sorted_durations
sorted_durations_cached sort log tested now cached tested' now' cached' r small small' stale =
    let ds = sort (collect now r.buckets) in
    let r' : Timing = record r { cached_sorted_durations = ds; last_cached_time = cached } in
    rw stale (ground (arith, cache-add_all log r'))
