-- ===== src/Rolling/Timing.antt =====
-- hystrix/rolling/rolling_timing.go: `Timing`, the durations reported in the last sixty seconds.
--
-- The map of buckets is a list of seconds with their durations, walked in the order of the list.
-- Durations and `LastCachedTime` are patterns of `int64`. Each reading of the clock is an argument,
-- in the order of the readings. One goroutine at a time: the mutex is left out. `sort.Sort` is
-- a parameter. `none` stands for a panic.
pub mod Durations
pub mod Mean
pub mod Sorted
pub mod Percentile
pub mod Race
use hystrix_go.Float
use hystrix_go.Float.{Float64}
use hystrix_go.Rolling.Log.{unix}
use hystrix_go.Base.{
  ℕ, zero, suc, ◌+◌, ◌-◌, ◌/◌, ◌%◌, ◌^◌, ◌≤◌, Bool, true, false, Option, none, some, List, [], ◌∷◌,
  ◌++◌, ltb, leb, ◌==◌, ◌&&◌, if◌then◌else◌, add64, slt, sdiv, length, get_elem?,
}

abbrev pub Buckets : Type 0
Buckets = List (ℕ × List ℕ)

pub record Timing : Type 0 where
  pub buckets : Buckets
  pub cached_sorted_durations : List ℕ
  pub last_cached_time : ℕ

unfoldable pub new_timing : Timing
new_timing = record { buckets = []; cached_sorted_durations = []; last_cached_time = 0 }

-- `timestamp >= now.Unix()-60`
abbrev pub in_window : ℕ → ℕ → Bool
in_window now timestamp = leb (unix now) (timestamp + 60)

-- The loop of `SortedDurations`.
unfoldable pub collect : ℕ → Buckets → List ℕ
collect now [] = []
collect now ((timestamp, ds) ∷ bs) =
    let rest = collect now bs in if in_window now timestamp then ds ++ rest else rest

-- `r.LastCachedTime+time.Second.Nanoseconds() > time.Now().UnixNano()`
abbrev pub is_fresh : ℕ → Timing → Bool
is_fresh now r = slt now (add64 r.last_cached_time 1_000_000_000)

unfoldable pub sorted_durations : (List ℕ → List ℕ) → ℕ → ℕ → ℕ → Timing → Timing × List ℕ
sorted_durations sort tested now cached r =
    if is_fresh tested r
    then (r, r.cached_sorted_durations)
    else let durations = sort (collect now r.buckets) in
      (record r { cached_sorted_durations = durations; last_cached_time = cached }, durations)

abbrev pub exists_key : ℕ → Buckets → Bool
exists_key k [] = false
exists_key k ((j, _) ∷ bs) = if j == k then true else exists_key k bs

-- `getCurrentBucket`: the bucket that it returns is the one in the map at the second of `now`.
unfoldable pub get_current_bucket : ℕ → Timing → Timing
get_current_bucket now r =
    if exists_key (unix now) r.buckets then r else record r { buckets = (unix now, []) ∷ r.buckets }

-- `b.Durations = append(b.Durations, duration)` for the bucket at the key.
unfoldable pub append_at : ℕ → ℕ → Buckets → Buckets
append_at k d [] = []
append_at k d ((j, ds) ∷ bs) = if j == k then (j, ds ++ d ∷ []) ∷ bs else (j, ds) ∷ append_at k d bs

-- The loop of `removeOldBuckets`: a bucket goes if `timestamp <= now.Unix()-60`.
unfoldable pub remove_old : ℕ → Buckets → Buckets
remove_old now [] = []
remove_old now ((timestamp, ds) ∷ bs) =
    let rest = remove_old now bs in
    if leb (timestamp + 60) (unix now) then rest else (timestamp, ds) ∷ rest

unfoldable pub remove_old_buckets : ℕ → Timing → Timing
remove_old_buckets now r = record r { buckets = remove_old now r.buckets }

unfoldable pub add : ℕ → ℕ → ℕ → Timing → Timing
unfolding remove_old_buckets
add current now duration r =
    let r' = get_current_bucket current r in
    remove_old_buckets now (record r' { buckets = append_at (unix current) duration r'.buckets })

-- `r.ordinal`
unfoldable pub ordinal : (fl : Float64) → ℕ → Float64.F fl → ℕ
ordinal fl n percentile =
    if fl.is_zero percentile && ltb 0 n
    then 1
    else fl.to_int (fl.ceil (fl.times (fl.over percentile (fl.of_int 100)) (fl.of_int n)))

-- `uint32(d.Nanoseconds() / 1000000)`
abbrev pub milliseconds : ℕ → ℕ
milliseconds d = sdiv d 1000000 % 2 ^ 32

-- What `Percentile` returns for the durations that it finds; it panics at an index out of range.
unfoldable pub percentile_of : (fl : Float64) → Float64.F fl → List ℕ → Option ℕ
unfolding ordinal
percentile_of fl p [] = some 0
percentile_of fl p (d ∷ ds) =
    let durations = d ∷ ds in
    let pos = (ordinal fl (length durations) p + 2 ^ 64 - 1) % 2 ^ 64 in
    elim (get_elem? durations pos) [ none ↦ none | some d' ↦ some (milliseconds d') ]

unfoldable pub percentile :
    (fl : Float64) → (List ℕ → List ℕ) → ℕ → ℕ → ℕ → Float64.F fl → Timing → Timing × Option ℕ
unfolding sorted_durations percentile_of
percentile fl sort tested now cached p r =
    let (r', durations) = sorted_durations sort tested now cached r in
    (r', percentile_of fl p durations)

unfoldable pub sum_durations : ℕ → List ℕ → ℕ
sum_durations sum [] = sum
sum_durations sum (d ∷ ds) = sum_durations (add64 sum d) ds

-- What `Mean` returns for the durations that it finds, `uint32(sum.Nanoseconds()/length) / 1000000`.
unfoldable pub mean_of : List ℕ → ℕ
unfolding sum_durations
mean_of [] = 0
mean_of (d ∷ ds) =
    let durations = d ∷ ds in sdiv (sum_durations 0 durations) (length durations) % 2 ^ 32 / 1000000

unfoldable pub mean : (List ℕ → List ℕ) → ℕ → ℕ → ℕ → Timing → Timing × ℕ
unfolding sorted_durations mean_of
mean sort tested now cached r =
    let (r', durations) = sorted_durations sort tested now cached r in (r', mean_of durations)

unfoldable pub reset : Timing → Timing
reset r = record { buckets = []; cached_sorted_durations = []; last_cached_time = 0 }
