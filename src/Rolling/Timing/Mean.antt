-- ===== src/Rolling/Timing/Mean.antt =====
-- `Mean` against the exact average.
use hystrix_go.Rolling.Timing.{sum_durations, mean_of}
use hystrix_go.Base.{ℕ, ◌+◌, ◌/◌, ◌%◌, ◌^◌, ◌≤◌, ◌<◌, ◌≡◌, List, [], ◌∷◌, arith, length, ◌↔◌}

abbrev pub sum : List ℕ → ℕ
sum [] = 0
sum (d ∷ ds) = d + sum ds

pub sum_durations-eq-sum :
    (ds : List ℕ) (s : ℕ) → s + sum ds < 2 ^ 63 → sum_durations s ds ≡ s + sum ds
unfolding sum_durations
sum_durations-eq-sum [] s h = omega arith
sum_durations-eq-sum (d ∷ ds) s h =
    let e : (s + d) % 2 ^ 64 ≡ s + d = omega arith in
    rw e (omega (arith, sum_durations-eq-sum ds (s + d)))

-- Durations that add up to less than 2^63 have the mean of their exact average in nanoseconds,
-- cut to 32 bits before it is turned into milliseconds.
mean_of-eq :
    (d : ℕ) (ds : List ℕ)
    → sum (d ∷ ds) < 2 ^ 63
    → mean_of (d ∷ ds) ≡ sum (d ∷ ds) / length (d ∷ ds) % 2 ^ 32 / 1000000
unfolding mean_of
mean_of-eq d ds h = ground (arith, sum_durations-eq-sum (d ∷ ds) 0)

-- The exact average in nanoseconds.
abbrev pub average : List ℕ → ℕ
average ds = sum ds / length ds

-- For durations that add up to less than 2^63 nanoseconds, `Mean` is their average in whole
-- milliseconds exactly when the average is below 2^32 nanoseconds, some 4.29 seconds.
pub mean_of_exact_iff :
    (d : ℕ) (ds : List ℕ)
    → sum (d ∷ ds) < 2 ^ 63
    → (mean_of (d ∷ ds) ≡ average (d ∷ ds) / 1000000) ↔ (average (d ∷ ds) < 2 ^ 32)
mean_of_exact_iff d ds h =
    (λ e. omega (arith, mean_of-eq d ds h), λ l. omega (arith, mean_of-eq d ds h))

-- `Mean` never exceeds 4294 milliseconds, whatever the durations are.
pub mean_of-le : (ds : List ℕ) → mean_of ds ≤ 4294
unfolding mean_of
mean_of-le [] = omega arith
mean_of-le (d ∷ ds) = omega arith
