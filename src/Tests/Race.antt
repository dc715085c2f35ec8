-- ===== src/Tests/Race.antt =====
-- Runs of goroutines on the atomic fields of hystrix/circuit.go.
use hystrix_go.Base.{◌*◌, ◌≤◌, ◌≡◌, refl, true, [], ◌∷◌, arith, length}
use hystrix_go.Circuit.Race.{
  Race, tested, stored, swap, Runs, start, after, see_open, mark_open, store_time, read_clock,
  load_time, try_swap, untouched,
}
use hystrix_go.Circuit.Race.Tests.{tests_spaced}
use hystrix_go.Tests.Sample.{second}

-- Goroutine 0 opens the circuit in second 100, goroutine 1 tests it in second 106.
one_test :
    (s : Race) × Runs (5 * second) untouched s
    × (s.writes ≡ tested (106 * second) ∷ stored (100 * second) ∷ [])
unfolding swap
one_test = (
  _,
  after
      (after
        (after
          (after (after (after start (mark_open 0 refl refl)) (store_time 0 (100 * second) refl))
            (see_open 1 refl refl))
          (read_clock 1 (106 * second) refl))
        (load_time 1 (106 * second) refl))
      (try_swap 1 (106 * second) (100 * second) refl refl),
  refl,
)

-- Between the two statements of `setOpen` another goroutine finds the circuit open and the time
-- of before: its test is let through at once.
early_test :
    (s : Race) × Runs (5 * second) untouched s
    × (s.writes ≡ stored (100 * second) ∷ tested (100 * second) ∷ [])
    × (s.opened ≡ true)
unfolding swap
early_test = (
  _,
  after
      (after
        (after
          (after (after (after start (mark_open 0 refl refl)) (see_open 1 refl refl))
            (read_clock 1 (100 * second) refl))
          (load_time 1 (100 * second) refl))
        (try_swap 1 (100 * second) 0 refl refl))
      (store_time 0 (100 * second) refl),
  refl,
  refl,
)

tests_spaced_example : length (106 * second ∷ []) ≤ 1
tests_spaced_example =
    tests_spaced (5 * second) one_test.1 [] (stored (100 * second) ∷ []) (106 * second ∷ [])
      (106 * second) one_test.2 (omega arith) ((omega arith, omega arith), tt)
