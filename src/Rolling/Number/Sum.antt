-- ===== src/Rolling/Number/Sum.antt =====
-- `Sum` of a `Number` against the history of its increments.
use hystrix_go.Rolling.Log.{unix, Log, IsOrdered, IsOrdered-le, amount, log_sum}
use hystrix_go.Rolling.Number.{
  NumberBucket, Number, number_bucket_size, store, new_number, increment_at, sum_loop, sum, reset,
}
use hystrix_go.Rolling.Number.Invariant.{
  IsRolling, kept, bucket_of, counted, kept-counted, increment_at-store, new_number-IsRolling,
  store-IsRolling,
}
use hystrix_go.Base.{
  ℕ, zero, suc, ◌+◌, ◌%◌, ◌^◌, ◌≤◌, ◌<◌, ◌≡◌, refl, ◌≢◌, [], ◌∷◌, arith, add64, fun_ext,
}
use native.Mathlib.Decide.{ℕ_discrete}

-- The sum over the first `n` slots without the wrap-around.
total : ℕ → ℕ → (ℕ → NumberBucket) → ℕ
total zero now f = 0
total (suc n) now f = total n now f + counted now (f n)

sum_loop-eq-total : (n now : ℕ) (r : Number) → sum_loop n now r ≡ total n now r.buckets % 2 ^ 64
unfolding sum_loop total
sum_loop-eq-total zero now r = refl
sum_loop-eq-total (suc n) now r = ground (arith, sum_loop-eq-total n now r)

total-store_of_le :
    (n now i : ℕ) (b : NumberBucket) (f : ℕ → NumberBucket)
    → n ≤ i
    → total n now (store i b f) ≡ total n now f
unfolding total
total-store_of_le zero now i b f h = refl
total-store_of_le (suc n) now i b f h = ground (arith, total-store_of_le n now i b f)

total-store :
    (n now i : ℕ) (b : NumberBucket) (f : ℕ → NumberBucket)
    → i < n
    → total n now (store i b f) + counted now (f i) ≡ total n now f + counted now b
unfolding total
total-store zero now i b f h = absurd (omega arith)
total-store (suc n) now i b f h = elim (ℕ_discrete i n) [
  | yes e ↦ ground (arith, total-store_of_le n now i b f)
  | no ne ↦ ground (arith, total-store n now i b f)
]

sum-eq-total : (now : ℕ) (r : Number) → sum now r ≡ total number_bucket_size now r.buckets % 2 ^ 64
unfolding sum
sum-eq-total now r = sum_loop-eq-total number_bucket_size now r

-- A non-zero amount replaces the bucket of its slot.
total-increment_at :
    (t now n : ℕ) (r : Number)
    → n ≢ 0
    → total number_bucket_size now (increment_at t n r).buckets
        + counted now (r.buckets (unix t % number_bucket_size))
      ≡ total number_bucket_size now r.buckets + counted now (bucket_of t (add64 (kept t r) n))
total-increment_at t now n r h =
    rw (fun_ext (increment_at-store t n r h))
      (total-store number_bucket_size now (unix t % number_bucket_size) _ r.buckets (omega arith))

increment_at-zero : (t : ℕ) (r : Number) → increment_at t 0 r ≡ r
unfolding increment_at
increment_at-zero t r = refl

-- An increment raises the sum by its amount, as long as that is in the window.
pub sum-increment_at :
    (t now n last : ℕ) (r : Number)
    → IsRolling last r
    → last ≤ unix t
    → unix t ≤ unix now
    → sum now (increment_at t n r) ≡ (sum now r + amount now t n) % 2 ^ 64
unfolding amount
sum-increment_at t now n last r h le le' = elim (ℕ_discrete n 0) [
  | yes e ↦ rw (e, increment_at-zero) (ground (arith, sum-eq-total now r))
  | no ne ↦ ground (
    arith,
    sum-eq-total now r,
    sum-eq-total now (increment_at t n r),
    total-increment_at t now n r ne,
    kept-counted t now last r h le le',
  )
]

pub increment_at-IsRolling :
    (t n last : ℕ) (r : Number)
    → IsRolling last r
    → last ≤ unix t
    → IsRolling (unix t) (increment_at t n r)
increment_at-IsRolling t n last r h le i = elim (ℕ_discrete n 0) [
  | yes e ↦ rw (e, increment_at-zero) (ground (arith, h i))
  | no ne ↦
      rw (increment_at-store t n r ne i)
        (store-IsRolling t last (add64 (kept t r) n) r h le (omega arith) i)
]

-- The `Number` after all increments of a history.
abbrev pub increment_all : Log → Number → Number
increment_all [] r = r
increment_all ((t, n) ∷ log) r = increment_all log (increment_at t n r)

-- From any `Number` in use.
pub sum-increment_all_from :
    (log : Log) (now last : ℕ) (r : Number)
    → IsRolling last r
    → IsOrdered last log (unix now)
    → sum now (increment_all log r) ≡ (sum now r + log_sum now log) % 2 ^ 64
sum-increment_all_from [] now last r h o = ground (arith, sum-eq-total now r)
sum-increment_all_from ((t, n) ∷ log) now last r h o = omega (
  arith,
  sum-increment_at t now n last r h o.0 (IsOrdered-le log o.1),
  sum-increment_all_from log now (unix t) (increment_at t n r)
      (increment_at-IsRolling t n last r h o.0) o.1,
)

total-empty : (n now : ℕ) → total n now new_number.buckets ≡ 0
unfolding total new_number
total-empty zero now = refl
total-empty (suc n) now = ground (arith, total-empty n now)

pub sum-new_number : (now : ℕ) → sum now new_number ≡ 0
sum-new_number now = rw (sum-eq-total, total-empty)

-- After any increments of a new number in the order of their seconds, none later than the present
-- one, `Sum` is the sum of the amounts reported in the present second and the ten before it,
-- modulo 2^64.
pub sum-increment_all :
    (log : Log) (now : ℕ)
    → IsOrdered 0 log (unix now)
    → sum now (increment_all log new_number) ≡ log_sum now log % 2 ^ 64
sum-increment_all log now o =
    omega (
      arith,
      sum-new_number now,
      sum-increment_all_from log now 0 new_number new_number-IsRolling o,
    )

-- A reset counter reads zero at every instant, whatever it held.
pub sum-reset : (now : ℕ) (r : Number) → sum now (reset r) ≡ 0
unfolding reset new_number
sum-reset now r = sum-new_number now
