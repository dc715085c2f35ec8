-- ===== src/Rolling/Number/Invariant.antt =====
-- What every `Number` in use satisfies, and the effect of one write on the slots.
use hystrix_go.Rolling.Log.{unix}
use hystrix_go.Rolling.Number.{
  NumberBucket, Number, number_bucket_size, store, new_number, increment_at, update_max_at,
  is_recent,
}
use hystrix_go.Base.{
  ℕ, ◌+◌, ◌%◌, ◌^◌, ◌≤◌, ◌<◌, ◌≡◌, ◌⊎◌, arith, leb, ◌==◌, if◌then◌else◌, add64, sle, ◌≢◌,
}

-- A bucket in slot `i` was filled no later than in second `last`, and it holds a second of that
-- slot or nothing.
pub record IsKept (last i : ℕ) (b : NumberBucket) : Type 0 where
  pub past : b.key ≤ last
  pub home : (b.key % number_bucket_size ≡ i) ⊎ (b.value ≡ 0)
  pub small : b.value < 2 ^ 64

abbrev pub IsRolling : ℕ → Number → Type 0
IsRolling last r = (i : ℕ) → IsKept last i (r.buckets i)

-- What is left of the slot of `t` for a write at `t`.
abbrev pub kept : ℕ → Number → ℕ
kept t r = let b = r.buckets (unix t % number_bucket_size) in if b.key == unix t then b.value else 0

abbrev pub bucket_of : ℕ → ℕ → NumberBucket
bucket_of t v = record { key = unix t; value = v }

pub increment_at-store :
    (t n : ℕ) (r : Number)
    → n ≢ 0
    → (j : ℕ)
    → (increment_at t n r).buckets j
      ≡ store (unix t % number_bucket_size) (bucket_of t (add64 (kept t r) n)) r.buckets j
unfolding increment_at
increment_at-store t n r h j = ground arith

pub update_max_at-store :
    (t n : ℕ) (r : Number) (j : ℕ)
    → (update_max_at t n r).buckets j
      ≡ store
          (unix t % number_bucket_size)
          (bucket_of t (if sle n (kept t r) then kept t r else n))
          r.buckets
          j
unfolding update_max_at
update_max_at-store t n r j = ground arith

pub new_number-IsRolling : IsRolling 0 new_number
unfolding new_number
new_number-IsRolling i = omega arith

pub store-IsRolling :
    (t last v : ℕ) (r : Number)
    → IsRolling last r
    → last ≤ unix t
    → v < 2 ^ 64
    → (j : ℕ) → IsKept (unix t) j (store (unix t % number_bucket_size) (bucket_of t v) r.buckets j)
store-IsRolling t last v r h le small j = ground (arith, h j)

-- What a bucket adds to the sum and the maximum.
abbrev pub counted : ℕ → NumberBucket → ℕ
counted now b = if is_recent now b then b.value else 0

-- The bucket that a write at `t` throws away is outside the window.
pub kept-counted :
    (t now last : ℕ) (r : Number)
    → IsRolling last r
    → last ≤ unix t
    → unix t ≤ unix now
    → counted now (r.buckets (unix t % number_bucket_size))
      ≡ (if leb (unix now) (unix t + 10) then kept t r else 0)
kept-counted t now last r h le le' = ground (arith, h (unix t % number_bucket_size))
