-- ===== src/Metrics/Percent.antt =====
-- The error percentage, from the laws of the floats.
use mathlib.Core.Path.{subst}
use hystrix_go.Base.{ℕ, ◌^◌, ◌≤◌, ◌<◌, ◌≡◌, true, arith, slt}
use hystrix_go.Float.{Float64, IsRounding}
use hystrix_go.Metrics.{percent}

slt-zero : (n : ℕ) → 0 < n → n < 2 ^ 63 → slt 0 n ≡ true
slt-zero n p h = ground arith

module _ (fl : Float64) (laws : IsRounding fl) where
  open fl use {F, of_int, to_int, plus, times, over, half, le}
  open laws use {
    over_mono, over_zero, over_self, times_mono, times_zero, times_one, plus_mono, to_int_half,
    to_int_mono,
  }

  -- With no request the percentage is zero.
  percent-no_requests : (errs : ℕ) → percent fl 0 errs ≡ 0
  unfolding percent
  percent-no_requests errs = to_int_half 0 (omega arith)

  module _ (reqs : ℕ) (pos : 0 < reqs) (small : reqs < 2 ^ 63) where
    percent-eq :
        (errs : ℕ)
        → percent fl reqs errs
          ≡ to_int (plus (times (over (of_int errs) (of_int reqs)) (of_int 100)) half)
    unfolding percent
    percent-eq errs = rw (slt-zero reqs pos small, percent)

    percent-zero : percent fl reqs 0 ≡ 0
    percent-zero =
        rw (percent-eq, over_zero reqs pos small, times_zero, to_int_half 0 (omega arith))

    percent-all : percent fl reqs reqs ≡ 100
    percent-all =
        rw (percent-eq, over_self reqs pos small, times_one, to_int_half 100 (omega arith))

    abbrev scaled : ℕ → F
    scaled errs = plus (times (over (of_int errs) (of_int reqs)) (of_int 100)) half

    scaled_mono : (a b : ℕ) → a ≤ b → b ≤ reqs → le (scaled a) (scaled b)
    scaled_mono a b h h' =
        plus_mono _ _ (times_mono _ _ (over_mono a b reqs h (omega arith) pos small))

    scaled-zero : scaled 0 ≡ plus (of_int 0) half
    scaled-zero = cc (over_zero reqs pos small, times_zero)

    scaled-all : scaled reqs ≡ plus (of_int 100) half
    scaled-all = cc (over_self reqs pos small, times_one)

    percent_mono : (a b : ℕ) → a ≤ b → b ≤ reqs → percent fl reqs a ≤ percent fl reqs b
    percent_mono a b h h' =
        rw (percent-eq a, percent-eq b)
          (to_int_mono (scaled a) (scaled b)
            (subst (λ x. le x (scaled a)) scaled-zero (scaled_mono 0 a (omega arith) (omega arith)))
            (scaled_mono a b h h')
            (subst (λ x. le (scaled b) x) scaled-all (scaled_mono b reqs h' (omega arith))))

    -- With at least one request, fewer than 2^63, no more errors than requests and a float64 that
    -- rounds in order, the percentage lies between zero, which it is with no error, and a
    -- hundred, which it is if every request is an error, and more errors never lower it.
    pub percent_bounds :
        (errs more : ℕ)
        → errs ≤ more
        → more ≤ reqs
        → (percent fl reqs 0 ≡ 0)
          × (percent fl reqs reqs ≡ 100)
          × (percent fl reqs errs ≤ percent fl reqs more)
          × (percent fl reqs more ≤ 100)
    percent_bounds errs more le le' = (
      percent-zero,
      percent-all,
      percent_mono errs more le le',
      rw (← percent-all) (percent_mono more reqs le' (omega arith)),
    )
