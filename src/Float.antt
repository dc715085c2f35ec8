-- ===== src/Float.antt =====
-- Go's float64, which the program uses for the error percentage, the share of tickets in use and
-- the percentiles: a type with the operations that the program calls, and the laws of IEEE 754 that
-- the proofs use.
use hystrix_go.Base.{ℕ, suc, ◌^◌, ◌≤◌, ◌<◌, ◌≡◌, Bool, true, false}

pub record Float64 : Type 1 where
  pub F : Type 0
  -- `float64(n)` of an `int64`, and `int64(x)`, which cuts off the fraction
  pub of_int : ℕ → F
  pub to_int : F → ℕ
  pub plus : F → F → F
  pub times : F → F → F
  pub over : F → F → F
  pub ceil : F → F
  -- `x == 0`
  pub is_zero : F → Bool
  pub half : F
  pub le : F → F → Type 0
  pub positive : F → Type 0

module _ (fl : Float64) where
  open fl use {F, of_int, to_int, plus, times, over, ceil, is_zero, half, le, positive}

  -- Rounding keeps the order, and what can be represented is not rounded.
  pub record IsRounding : Type 0 where
    pub over_mono :
        (a b c : ℕ)
        → a ≤ b
        → b < 2 ^ 63
        → 0 < c
        → c < 2 ^ 63
        → le (over (of_int a) (of_int c)) (over (of_int b) (of_int c))
    pub over_zero : (a : ℕ) → 0 < a → a < 2 ^ 63 → over (of_int 0) (of_int a) ≡ of_int 0
    pub over_self : (a : ℕ) → 0 < a → a < 2 ^ 63 → over (of_int a) (of_int a) ≡ of_int 1
    pub times_mono : (x y : F) → le x y → le (times x (of_int 100)) (times y (of_int 100))
    pub times_zero : times (of_int 0) (of_int 100) ≡ of_int 0
    pub times_one : times (of_int 1) (of_int 100) ≡ of_int 100
    pub plus_mono : (x y : F) → le x y → le (plus x half) (plus y half)
    pub to_int_half : (n : ℕ) → n ≤ 100 → to_int (plus (of_int n) half) ≡ n
    pub to_int_mono :
        (x y : F)
        → le (plus (of_int 0) half) x
        → le x y
        → le y (plus (of_int 100) half)
        → to_int x ≤ to_int y

  -- What a percentile of at least one, and at most a hundred, of a list's length comes to. Integers
  -- below 2^53 are represented.
  pub record IsFraction : Type 0 where
    pub over_le : (x : F) → le x (of_int 100) → le (over x (of_int 100)) (of_int 1)
    pub over_positive : (x : F) → le (of_int 1) x → positive (over x (of_int 100))
    pub times_le :
        (x : F) (n : ℕ) → 0 < n → n < 2 ^ 53 → le x (of_int 1) → le (times x (of_int n)) (of_int n)
    pub times_positive :
        (x : F) (n : ℕ) → 0 < n → n < 2 ^ 53 → positive x → positive (times x (of_int n))
    pub ceil_le : (x : F) (n : ℕ) → le x (of_int n) → le (ceil x) (of_int n)
    pub ceil_positive : (x : F) → positive x → le (of_int 1) (ceil x)
    pub to_int_between :
        (x : F) (n : ℕ)
        → n < 2 ^ 53
        → le (of_int 1) x
        → le x (of_int n)
        → (1 ≤ to_int x) × (to_int x ≤ n)

  -- The order of what the program computes for a percentile.
  pub record IsOrdered : Type 0 where
    pub fraction : IsFraction
    pub zero_is_zero : is_zero (of_int 0) ≡ true
    pub suc_is_zero : (a : ℕ) → a < 2 ^ 52 → is_zero (of_int (suc a)) ≡ false
    pub half_is_zero : (a : ℕ) → a < 2 ^ 52 → is_zero (plus (of_int a) half) ≡ false
    pub of_int_le : (a b : ℕ) → a ≤ b → b < 2 ^ 53 → le (of_int a) (of_int b)
    pub half_above : (a : ℕ) → a < 2 ^ 52 → le (of_int a) (plus (of_int a) half)
    pub half_below : (a : ℕ) → a < 2 ^ 52 → le (plus (of_int a) half) (of_int (suc a))
    pub le_trans : (x y z : F) → le x y → le y z → le x z
    pub over_hundred_mono : (x y : F) → le x y → le (over x (of_int 100)) (over y (of_int 100))
    pub times_of_int_mono :
        (x y : F) (n : ℕ)
        → 0 < n
        → n < 2 ^ 53
        → le x y
        → le (times x (of_int n)) (times y (of_int n))
    pub ceil_mono : (x y : F) → le x y → le (ceil x) (ceil y)
    pub to_int_mono_up :
        (x y : F) (n : ℕ)
        → n < 2 ^ 53
        → le (of_int 1) x
        → le x y
        → le y (of_int n)
        → to_int x ≤ to_int y
