-- ===== src/Rolling/Number.antt =====
-- hystrix/rolling/rolling.go: `Number`, a counter per second over the last ten seconds.
--
-- An instant is its nanoseconds since 1970, so it is never negative. The eleven slots are a
-- function of the index, of which only the indices below eleven are read or written. One goroutine
-- at a time: the first compare-and-swap of each retry loop succeeds.
pub mod Invariant
pub mod Sum
pub mod Max
pub mod Race
use hystrix_go.Float
use hystrix_go.Float.{Float64}
use hystrix_go.Rolling.Log.{unix}
use hystrix_go.Base.{
  ℕ, zero, suc, ◌+◌, ◌/◌, ◌%◌, ◌≤◌, ◌<◌, ◌≡◌, refl, Bool, true, false, List, [], ◌∷◌, arith, ltb,
  leb, ◌==◌, if◌then◌else◌, add64, slt, sle,
}

abbrev pub number_bucket_size : ℕ
number_bucket_size = 10 + 1

pub record NumberBucket : Type 0 where
  pub key : ℕ
  pub value : ℕ

pub record Number : Type 0 where
  pub buckets : ℕ → NumberBucket

abbrev pub empty_bucket : NumberBucket
empty_bucket = record { key = 0; value = 0 }

-- `r.buckets[i].Store(b)`
abbrev pub store : ℕ → NumberBucket → (ℕ → NumberBucket) → ℕ → NumberBucket
store i b slots j = if i == j then b else slots j

unfoldable pub new_number : Number
new_number = record { buckets = λ _. empty_bucket }

-- `getBucketAt`: the slots after the call, and the bucket that it returns.
unfoldable pub get_bucket_at : ℕ → Number → Number × NumberBucket
get_bucket_at t r =
    let epoch = unix t in
    let i = epoch % number_bucket_size in
    let bucket = r.buckets i in
    let new_bucket : NumberBucket = record { key = epoch; value = 0 } in
    if bucket.key == epoch
    then (r, bucket)
    else (record { buckets = store i new_bucket r.buckets }, new_bucket)

-- A write through the bucket that `getBucketAt` returned, which stands in the slot of `t`.
abbrev pub write_at : ℕ → NumberBucket → Number → Number
write_at t b r = record { buckets = store (unix t % number_bucket_size) b r.buckets }

unfoldable pub increment_at : ℕ → ℕ → Number → Number
unfolding get_bucket_at
increment_at t i r =
    if i == 0
    then r
    else let (r', b) = get_bucket_at t r in write_at t (record b { value = add64 b.value i }) r'

-- `updateMax` of a bucket
unfoldable pub update_max : ℕ → NumberBucket → NumberBucket
update_max n b = if sle n b.value then b else record b { value = n }

unfoldable pub update_max_at : ℕ → ℕ → Number → Number
unfolding get_bucket_at update_max
update_max_at t n r = let (r', b) = get_bucket_at t r in write_at t (update_max n b) r'

-- `bucket.key >= now.Unix() - 10`
abbrev pub is_recent : ℕ → NumberBucket → Bool
is_recent now b = leb (unix now) (b.key + 10)

-- The loop of `Sum` after its first `n` rounds.
unfoldable pub sum_loop : ℕ → ℕ → Number → ℕ
sum_loop zero now r = 0
sum_loop (suc n) now r =
    let sum = sum_loop n now r in
    if is_recent now (r.buckets n) then add64 sum (r.buckets n).value else sum

unfoldable pub sum : ℕ → Number → ℕ
sum now r = sum_loop number_bucket_size now r

-- The loop of `Max` after its first `n` rounds.
unfoldable pub max_loop : ℕ → ℕ → Number → ℕ
max_loop zero now r = 0
max_loop (suc n) now r =
    let max_val = max_loop n now r in
    if is_recent now (r.buckets n)
    then if slt max_val (r.buckets n).value then (r.buckets n).value else max_val
    else max_val

unfoldable pub max : ℕ → Number → ℕ
max now r = max_loop number_bucket_size now r

unfoldable pub reset : Number → Number
reset r = record { buckets = λ _. empty_bucket }

-- `Avg`
unfoldable pub avg : (fl : Float64) → ℕ → Number → Float64.F fl
unfolding sum
avg fl now r = fl.over (fl.of_int (sum now r)) (fl.of_int 10)
