-- ===== src/Rolling/Number/Max.antt =====
-- `Max` of a `Number` against the history of its `UpdateMax` calls.
use hystrix_go.Rolling.Log.{unix, Log, IsOrdered, IsOrdered-le, IsWords, amount, log_max}
use hystrix_go.Rolling.Number.{
  NumberBucket, Number, number_bucket_size, store, new_number, update_max_at, max_loop, max,
}
use hystrix_go.Rolling.Number.Invariant.{
  IsRolling, IsKept, kept, bucket_of, counted, kept-counted, update_max_at-store,
  new_number-IsRolling, store-IsRolling,
}
use hystrix_go.Base.{
  ℕ, zero, suc, ◌%◌, ◌^◌, ◌≤◌, ◌<◌, ◌≡◌, refl, [], ◌∷◌, arith, if◌then◌else◌, sle, smax, IsNonneg,
  fun_ext, smax_assoc, smax_swap,
}
use native.Mathlib.Decide.{ℕ_discrete}

abbrev at_slots : (ℕ → NumberBucket) → Number
at_slots f = record { buckets = f }

-- The loop never goes below zero, and takes the larger of what it has and the bucket.
max_loop-IsNonneg : (n now last : ℕ) (r : Number) → IsRolling last r → IsNonneg (max_loop n now r)
unfolding max_loop
max_loop-IsNonneg zero now last r h = omega arith
max_loop-IsNonneg (suc n) now last r h = ground (arith, max_loop-IsNonneg n now last r h, h n)

max_loop-suc :
    (n now last : ℕ) (r : Number)
    → IsRolling last r
    → max_loop (suc n) now r ≡ smax (max_loop n now r) (counted now (r.buckets n))
unfolding max_loop
max_loop-suc n now last r h = ground (arith, max_loop-IsNonneg n now last r h)

max_loop-store_of_le :
    (n now i : ℕ) (b : NumberBucket) (f : ℕ → NumberBucket)
    → n ≤ i
    → max_loop n now (at_slots (store i b f)) ≡ max_loop n now (at_slots f)
unfolding max_loop
max_loop-store_of_le zero now i b f h = refl
max_loop-store_of_le (suc n) now i b f h = ground (arith, max_loop-store_of_le n now i b f)

counted-small : (now last i : ℕ) (b : NumberBucket) → IsKept last i b → counted now b < 2 ^ 64
counted-small now last i b h = ground arith

max_loop-empty : (n now : ℕ) → max_loop n now new_number ≡ 0
unfolding max_loop new_number
max_loop-empty zero now = refl
max_loop-empty (suc n) now = ground (arith, max_loop-empty n now)

-- What `updateMax` leaves in the bucket.
abbrev raised : ℕ → ℕ → Number → ℕ
raised t n r = if sle n (kept t r) then kept t r else n

slots_of :
    (t n : ℕ) (r : Number)
    → update_max_at t n r
      ≡ at_slots (store (unix t % number_bucket_size) (bucket_of t (raised t n r)) r.buckets)
slots_of t n r = λ i. record { buckets = fun_ext (update_max_at-store t n r) i }

-- Raising one bucket raises the maximum.
max_loop-store :
    (n now i a last last' : ℕ) (b : NumberBucket) (f : ℕ → NumberBucket)
    → IsRolling last (at_slots f)
    → IsRolling last' (at_slots (store i b f))
    → a < 2 ^ 64
    → counted now b ≡ smax (counted now (f i)) a
    → i < n
    → max_loop n now (at_slots (store i b f)) ≡ smax (max_loop n now (at_slots f)) a
max_loop-store zero now i a last last' b f h h' small e lt = absurd (omega arith)
max_loop-store (suc n) now i a last last' b f h h' small e lt =
    rw
      (
        max_loop-suc n now last' (record { buckets = store i b f }) h',
        max_loop-suc n now last (record { buckets = f }) h,
      )
      (elim (ℕ_discrete i n) [
        | yes same ↦ ground (
          arith,
          max_loop-store_of_le n now i b f,
          smax_assoc (max_loop n now (record { buckets = f })) (counted now (f i)) a,
          max_loop-IsNonneg n now last (record { buckets = f }) h,
          counted-small now last i (f i) (h i),
        )
        | no other ↦ ground (
          arith,
          max_loop-store n now i a last last' b f h h' small e (omega arith),
          smax_swap (max_loop n now (record { buckets = f })) a (counted now (f n)),
          max_loop-IsNonneg n now last (record { buckets = f }) h,
          counted-small now last n (f n) (h n),
        )
      ])

max-IsNonneg : (now last : ℕ) (r : Number) → IsRolling last r → IsNonneg (max now r)
unfolding max
max-IsNonneg now last r h = max_loop-IsNonneg number_bucket_size now last r h

max-new_number : (now : ℕ) → max now new_number ≡ 0
unfolding max
max-new_number now = max_loop-empty number_bucket_size now

module _ (t now n last : ℕ) (r : Number) (h : IsRolling last r) (small : n < 2 ^ 64)
    (le : last ≤ unix t) where
  raised-IsRolling :
      (i : ℕ)
      → IsKept
          (unix t)
          i
          (store (unix t % number_bucket_size) (bucket_of t (raised t n r)) r.buckets i)
  raised-IsRolling =
      store-IsRolling t last (raised t n r) r h le (ground (arith, h (unix t % number_bucket_size)))

  pub update_max_at-IsRolling : IsRolling (unix t) (update_max_at t n r)
  update_max_at-IsRolling = rw (slots_of t n r) raised-IsRolling

  -- A report raises the maximum to its amount, as long as that is in the window.
  pub max-update_max_at :
      unix t ≤ unix now → max now (update_max_at t n r) ≡ smax (max now r) (amount now t n)
  unfolding max amount
  max-update_max_at le' = rw (slots_of t n r) (
      max_loop-store number_bucket_size now (unix t % number_bucket_size) (amount now t n) last
        (unix t) (bucket_of t (raised t n r)) r.buckets h raised-IsRolling (ground arith)
        (ground (arith, kept-counted t now last r h le le')) (omega arith))

-- The `Number` after all reports of a history.
abbrev pub update_max_all : Log → Number → Number
update_max_all [] r = r
update_max_all ((t, n) ∷ log) r = update_max_all log (update_max_at t n r)

log_max-small : (now : ℕ) (log : Log) → IsWords log → log_max now log < 2 ^ 64
unfolding amount
log_max-small now [] w = omega arith
log_max-small now ((t, n) ∷ log) w = ground (arith, log_max-small now log w.1)

-- From any `Number` in use.
pub max-update_max_all_from :
    (log : Log) (now last : ℕ) (r : Number)
    → IsRolling last r
    → IsWords log
    → IsOrdered last log (unix now)
    → max now (update_max_all log r) ≡ smax (max now r) (log_max now log)
unfolding amount
max-update_max_all_from [] now last r h w o = ground (arith, max-IsNonneg now last r h)
max-update_max_all_from ((t, n) ∷ log) now last r h w o =
    rw
      (
        max-update_max_all_from log now (unix t) (update_max_at t n r)
            (update_max_at-IsRolling t now n last r h w.0 o.0) w.1 o.1,
        max-update_max_at t now n last r h w.0 o.0 (IsOrdered-le log o.1),
      )
      (smax_assoc (max now r) (amount now t n) (log_max now log)
        (omega (arith, max-IsNonneg now last r h)) (ground arith) (log_max-small now log w.1))

log_max-IsNonneg : (now : ℕ) (log : Log) → IsWords log → smax 0 (log_max now log) ≡ log_max now log
unfolding amount
log_max-IsNonneg now [] w = refl
log_max-IsNonneg now ((t, n) ∷ log) w =
    ground (arith, log_max-IsNonneg now log w.1, log_max-small now log w.1)

-- After any reports to a new number in the order of their seconds, none later than the present
-- one and each an `int64`, `Max` is the largest amount reported in the present second and the ten
-- before it, and zero if none of them is positive.
pub max-update_max_all :
    (log : Log) (now : ℕ)
    → IsWords log
    → IsOrdered 0 log (unix now)
    → max now (update_max_all log new_number) ≡ log_max now log
max-update_max_all log now w o = rw (
  max-update_max_all_from log now 0 new_number new_number-IsRolling w o,
  max-new_number now,
  log_max-IsNonneg now log w,
)
