-- ===== src/LoadTest/Delay.antt =====
-- The delay of the load test (loadtest/service/main.go), round by round.
use hystrix_go.Base.{
  ℕ, zero, suc, ◌+◌, ◌-◌, ◌%◌, ◌≡◌, ◌≤◌, ◌<◌, refl, true, false, if◌then◌else◌, leb, arith,
}
use hystrix_go.LoadTest.{Direction, up, down, is_up, rotate_delay, rotations}

-- 35 to 55 in twenty rounds and back in twenty more.
abbrev pub wave : ℕ → ℕ
wave n = let r = n % 40 in if leb r 20 then 35 + r else 75 - r

record Inv (n delay : ℕ) (d : Direction) : Type 0 where
  pub height : delay ≡ wave n
  pub rising : 0 < n % 40 → n % 40 < 20 → is_up d ≡ true
  pub falling : 20 < n % 40 → is_up d ≡ false

rotate-Inv :
    (n delay : ℕ) (d : Direction)
    → Inv n delay d
    → let (d', delay') = rotate_delay (d, delay) in Inv (suc n) delay' d'
unfolding rotate_delay
rotate-Inv n delay up inv = record {
  height = ground (arith, inv.falling, inv.height);
  rising = ground (arith, inv.falling);
  falling = ground (arith, inv.falling, inv.height);
}
rotate-Inv n delay down inv = record {
  height = ground (arith, inv.rising, inv.height);
  rising = ground (arith, inv.rising, inv.height);
  falling = ground (arith, inv.rising, inv.height);
}

rotations-Inv : (n : ℕ) → Inv n (rotations n).1 (rotations n).0
unfolding rotations
rotations-Inv zero = record { height = refl; rising = λ a b. refl; falling = λ a. ground arith }
rotations-Inv (suc n) = rotate-Inv n (rotations n).1 (rotations n).0 (rotations-Inv n)

-- After any number of rounds of `rotateDelay` the delay is where the wave is: it goes from 35 to 55 in
-- twenty rounds and back in twenty more, over and over, so it never leaves these bounds.
pub rotations-wave :
    (n : ℕ) → ((rotations n).1 ≡ wave n) × (35 ≤ (rotations n).1) × ((rotations n).1 ≤ 55)
rotations-wave n = let h = (rotations-Inv n).height in (h, ground (arith, h), ground (arith, h))
