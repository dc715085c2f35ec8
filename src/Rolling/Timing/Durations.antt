-- ===== src/Rolling/Timing/Durations.antt =====
-- What `SortedDurations` returns, against the history of the calls of `Add`.
use hystrix_go.Rolling.Log.{unix}
use hystrix_go.Rolling.Timing.{
  Timing, Buckets, in_window, collect, exists_key, get_current_bucket, append_at, remove_old,
  remove_old_buckets, add,
}
use hystrix_go.Base.{
  ℕ, ◌+◌, ◌≤◌, ◌≡◌, refl, Bool, true, false, List, [], ◌∷◌, ◌==◌, arith, if◌then◌else◌, count,
  count-append, Bool-cases, inl, inr,
}

-- How often `d` stands in the buckets whose second passes the test.
abbrev pub held : (ℕ → Bool) → ℕ → Buckets → ℕ
held p d [] = 0
held p d ((k, ds) ∷ bs) = (if p k then count d ds else 0) + held p d bs

-- A call of `Add`: the second in which it takes its bucket, the instant at which it drops the old
-- ones, and the duration.
pub record Call : Type 0 where
  pub current : ℕ
  pub removed : ℕ
  pub duration : ℕ

abbrev pub credit : (ℕ → Bool) → ℕ → Call → ℕ
credit p d c = if p (unix c.current) then if d == c.duration then 1 else 0 else 0

-- How often `d` was reported in a second that passes the test.
abbrev pub reported : (ℕ → Bool) → ℕ → List Call → ℕ
reported p d [] = 0
reported p d (c ∷ log) = credit p d c + reported p d log

pub count-collect :
    (d now : ℕ) (bs : Buckets) → count d (collect now bs) ≡ held (in_window now) d bs
unfolding collect
count-collect d now [] = refl
count-collect d now ((k, ds) ∷ bs) =
    ground (arith, count-collect d now bs, count-append d ds (collect now bs))

held-append_at :
    (p : ℕ → Bool) (d k n : ℕ) (bs : Buckets)
    → exists_key k bs ≡ true
    → held p d (append_at k n bs) ≡ held p d bs + (if p k then if d == n then 1 else 0 else 0)
unfolding append_at
held-append_at p d k n [] h = cc
held-append_at p d k n ((j, ds) ∷ bs) h = elim (Bool-cases (j == k)) [
  | inl e ↦ rw e (ground (arith, count-append d ds (n ∷ [])))
  | inr e ↦ rw e (ground (arith, held-append_at p d k n bs))
]

-- Nothing that a test lets pass is removed, if the test fails on old seconds.
held-remove_old :
    (p : ℕ → Bool) (d now : ℕ) (bs : Buckets)
    → ((k : ℕ) → k + 60 ≤ unix now → p k ≡ false)
    → held p d (remove_old now bs) ≡ held p d bs
unfolding remove_old
held-remove_old p d now [] h = refl
held-remove_old p d now ((k, ds) ∷ bs) h = ground (arith, h k, held-remove_old p d now bs h)

held-remove_old-le :
    (p : ℕ → Bool) (d now : ℕ) (bs : Buckets) → held p d (remove_old now bs) ≤ held p d bs
unfolding remove_old
held-remove_old-le p d now [] = omega arith
held-remove_old-le p d now ((k, ds) ∷ bs) = ground (arith, held-remove_old-le p d now bs)

exists_key-get_current_bucket :
    (t : ℕ) (r : Timing) → exists_key (unix t) (get_current_bucket t r).buckets ≡ true
unfolding get_current_bucket
exists_key-get_current_bucket t r = ground arith

held-get_current_bucket :
    (p : ℕ → Bool) (d t : ℕ) (r : Timing)
    → held p d (get_current_bucket t r).buckets ≡ held p d r.buckets
unfolding get_current_bucket
held-get_current_bucket p d t r = ground arith

abbrev pub add_call : Call → Timing → Timing
add_call c r = add c.current c.removed c.duration r

pub held-add :
    (p : ℕ → Bool) (d : ℕ) (c : Call) (r : Timing)
    → ((k : ℕ) → k + 60 ≤ unix c.removed → p k ≡ false)
    → held p d (add_call c r).buckets ≡ held p d r.buckets + credit p d c
unfolding add remove_old_buckets
held-add p d c r h =
    let r' = get_current_bucket c.current r in
    rw (
      held-remove_old p d c.removed _ h,
      held-append_at p d (unix c.current) c.duration r'.buckets
          (exists_key-get_current_bucket c.current r),
      held-get_current_bucket p d c.current r,
    )

pub held-add-le :
    (p : ℕ → Bool) (d : ℕ) (c : Call) (r : Timing)
    → held p d (add_call c r).buckets ≤ held p d r.buckets + credit p d c
unfolding add remove_old_buckets
held-add-le p d c r =
    let r' = get_current_bucket c.current r in
    omega (
      arith,
      held-remove_old-le p d c.removed (append_at (unix c.current) c.duration r'.buckets),
      held-append_at p d (unix c.current) c.duration r'.buckets
          (exists_key-get_current_bucket c.current r),
      held-get_current_bucket p d c.current r,
    )
