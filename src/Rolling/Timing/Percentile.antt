-- ===== src/Rolling/Timing/Percentile.antt =====
-- Where `Percentile` looks in the list of durations.
use hystrix_go.Float.{Float64, IsFraction, IsOrdered}
use hystrix_go.Base.{
  ℕ, suc, ◌+◌, ◌-◌, ◌*◌, ◌%◌, ◌^◌, ◌≤◌, ◌<◌, ◌≡◌, refl, true, false, none, some, List, [], ◌∷◌,
  length, get_elem?, get_elem?_total, arith, by_cases,
}
use hystrix_go.Rolling.Timing.{ordinal, percentile_of, milliseconds}

module _ (fl : Float64) where
  open fl use {F, of_int, le, is_zero}

  -- A percentile that the program asks for: zero, or at least one and at most a hundred.
  pub data IsPercentile (p : F) : Type 0 where
    at_zero : is_zero p ≡ true → IsPercentile p
    between : le (of_int 1) p → le p (of_int 100) → IsPercentile p

  -- An earlier percentile, and a later one.
  pub data Below : F → F → Type 0 where
    from_zero : (p q : F) → is_zero p ≡ true → IsPercentile q → Below p q
    ordered :
        (p q : F)
        → is_zero p ≡ false
        → is_zero q ≡ false
        → le (of_int 1) p
        → le p q
        → le q (of_int 100)
        → Below p q

module _ (fl : Float64) (laws : IsFraction fl) where
  open fl use {F, is_zero}

  ordinal_bounds :
      (p : F) (n : ℕ)
      → IsPercentile fl p
      → 0 < n
      → n < 2 ^ 53
      → (1 ≤ ordinal fl n p) × (ordinal fl n p ≤ n)
  unfolding ordinal
  ordinal_bounds p n (at_zero z) pos small = ground arith
  ordinal_bounds p n (between lo hi) pos small =
      by_cases (is_zero p) (λ e. ground arith)
        (λ e. rw e (
          laws.to_int_between _ n small
            (laws.ceil_positive _ (laws.times_positive _ n pos small (laws.over_positive p lo)))
            (laws.ceil_le _ n (laws.times_le _ n pos small (laws.over_le p hi)))))

  read_at :
      (ds : List ℕ) (pos i x : ℕ)
      → pos ≡ i
      → get_elem? ds i ≡ some x
      → (elim (get_elem? ds pos) [ none ↦ none | some d ↦ some (milliseconds d) ])
        ≡ some (milliseconds x)
  read_at ds pos i x index at = rw (index, at) refl

  percentile_of-at :
      (p : F) (d : ℕ) (ds : List ℕ) (i x : ℕ)
      → ordinal fl (length (d ∷ ds)) p ≡ suc i
      → i < 2 ^ 53
      → get_elem? (d ∷ ds) i ≡ some x
      → percentile_of fl p (d ∷ ds) ≡ some (milliseconds x)
  unfolding percentile_of
  percentile_of-at p d ds i x position small at =
      read_at (d ∷ ds) ((ordinal fl (length (d ∷ ds)) p + 2 ^ 64 - 1) % 2 ^ 64) i x (omega arith) at

  -- Where `Percentile` reads.
  abbrev position : F → List ℕ → ℕ
  position p ds = ordinal fl (length ds) p - 1

  percentile_of-position :
      (p : F) (d : ℕ) (ds : List ℕ)
      → IsPercentile fl p
      → length (d ∷ ds) < 2 ^ 53
      → (x : ℕ) × (get_elem? (d ∷ ds) (position p (d ∷ ds)) ≡ some x)
        × (percentile_of fl p (d ∷ ds) ≡ some (milliseconds x))
  percentile_of-position p d ds good small =
      let (lo, hi) = ordinal_bounds p (length (d ∷ ds)) good (omega arith) small in
      let i = position p (d ∷ ds) in
      let (x, at) = get_elem?_total (d ∷ ds) i (omega arith) in
      (x, at, percentile_of-at p d ds i x (omega arith) (omega arith) at)

  -- With fewer than 2^53 durations `Percentile` does not panic.
  pub percentile_of-some :
      (p : F) (ds : List ℕ)
      → IsPercentile fl p
      → length ds < 2 ^ 53
      → (t : ℕ) × (percentile_of fl p ds ≡ some t)
  unfolding percentile_of
  percentile_of-some p [] good small = (0, refl)
  percentile_of-some p (d ∷ ds) good small =
      let (x, at, e) = percentile_of-position p d ds good small in (milliseconds x, e)

-- Durations in ascending order, fewer than 2^53, each of whole milliseconds below 2^32.
pub record AreTimes (ds : List ℕ) : Type 0 where
  pub ascending : (i j x y : ℕ) → i ≤ j → get_elem? ds i ≡ some x → get_elem? ds j ≡ some y → x ≤ y
  pub short : (i x : ℕ) → get_elem? ds i ≡ some x → x < 2 ^ 32 * 1000000
  pub few : length ds < 2 ^ 53

milliseconds_mono : (x y : ℕ) → x ≤ y → y < 2 ^ 32 * 1000000 → milliseconds x ≤ milliseconds y
milliseconds_mono x y le small = ground arith

module _ (fl : Float64) (laws : IsOrdered fl) where
  open fl use {F, of_int, to_int, over, times, ceil, le, is_zero}
  open laws use {
    fraction, times_of_int_mono, over_hundred_mono, ceil_mono, to_int_mono_up, le_trans,
  }
  open fraction use {over_le, over_positive, times_le, times_positive, ceil_le, ceil_positive}

  ordinal_mono :
      (p q : F) (n : ℕ) → Below fl p q → 0 < n → n < 2 ^ 53 → ordinal fl n p ≤ ordinal fl n q
  unfolding ordinal
  ordinal_mono p q n (from_zero _ _ z good) pos small =
      let bounds = ordinal_bounds fl fraction q n good pos small in ground (arith, z, bounds)
  ordinal_mono p q n (ordered _ _ z z' lo mid hi) pos small =
      rw (z, z')
        (to_int_mono_up _ _ n small
          (ceil_positive _ (times_positive _ n pos small (over_positive p lo)))
          (ceil_mono _ _ (times_of_int_mono _ _ n pos small (over_hundred_mono p q mid)))
          (ceil_le _ n (times_le _ n pos small (over_le q hi))))

  Below-IsPercentile : (p q : F) → Below fl p q → IsPercentile fl p × IsPercentile fl q
  Below-IsPercentile p q (from_zero _ _ z good) = (at_zero z, good)
  Below-IsPercentile p q (ordered _ _ _ _ lo mid hi) =
      (between lo (le_trans p q _ mid hi), between (le_trans _ p q lo mid) hi)

  -- Of two percentiles of the same ascending list of durations, the later one is not the smaller,
  -- and neither call panics: zero and one from one to a hundred, or both from one to a hundred.
  -- The list has fewer than 2^53 durations, each of whole milliseconds below 2^32.
  pub percentile_mono :
      (p q : F) (ds : List ℕ)
      → Below fl p q
      → AreTimes ds
      → (a : ℕ) × (b : ℕ) × (percentile_of fl p ds ≡ some a)
        × (percentile_of fl q ds ≡ some b)
        × (a ≤ b)
  unfolding percentile_of
  percentile_mono p q [] below times = (0, 0, refl, refl, omega arith)
  percentile_mono p q (d ∷ ds) below times =
      let (good, good') = Below-IsPercentile p q below in
      let (x, at, e) = percentile_of-position fl fraction p d ds good times.few in
      let (y, at', e') = percentile_of-position fl fraction q d ds good' times.few in
      let i = position fl fraction p (d ∷ ds) in
      let j = position fl fraction q (d ∷ ds) in
      let later = ordinal_mono p q (length (d ∷ ds)) below (omega arith) times.few in
      let x_le = times.ascending i j x y (omega arith) at at' in
      (milliseconds x, milliseconds y, e, e', milliseconds_mono x y x_le (times.short j y at'))
