-- ===== src/Tests/NumberRace.antt =====
-- Runs of goroutines on one slot of hystrix/rolling/rolling.go.
use hystrix_go.Base.{ℕ, ◌*◌, ◌%◌, ◌^◌, ◌<◌, ◌≡◌, refl, ◌≢◌, [], ◌∷◌, arith}
use hystrix_go.Rolling.Log.{unix}
use hystrix_go.Rolling.Number.{new_number, number_bucket_size}
use hystrix_go.Rolling.Number.Invariant.{kept}
use hystrix_go.Rolling.Number.Race.{
  add, Slot, Runs, start, after, call, load_slot, right_key, swap_slot, swap_fails, add_value,
  quiet,
}
use hystrix_go.Rolling.Number.Race.Linearized.{linearized}
use hystrix_go.Rolling.Number.Race.OneByOne.{one_by_one}
use hystrix_go.Tests.Sample.{second}

abbrev slot : Slot
slot = quiet (new_number.buckets (unix (100 * second) % number_bucket_size))

not_zero : (i : ℕ) → 0 < i → add i ≢ add 0
not_zero i h e = ground arith

-- Both goroutines find the old bucket, and the second one comes too late with its own.
two_increments : (s : Slot) × Runs (unix (100 * second)) slot s × (s.finished ≡ add 2 ∷ add 3 ∷ [])
unfolding new_number
two_increments = (
  _,
  after
      (after
        (after
          (after
            (after
              (after
                (after
                  (after
                    (after (after start (call 0 (add 2) refl (omega arith)))
                      (call 1 (add 3) refl (omega arith)))
                    (load_slot 0 (add 2) refl (not_zero 2 (omega arith))))
                  (load_slot 1 (add 3) refl (not_zero 3 (omega arith))))
                (swap_slot 0 (add 2) 0 refl refl refl))
              (swap_fails 1 (add 3) 0 refl refl (omega arith)))
            (load_slot 1 (add 3) refl (not_zero 3 (omega arith))))
          (right_key 1 (add 3) 1 refl refl))
        (add_value 1 3 1 refl))
      (add_value 0 2 1 refl),
  refl,
)

small_at_first : (new_number.buckets (unix (100 * second) % number_bucket_size)).value < 2 ^ 64
unfolding new_number
small_at_first = omega arith

linearized_example :
    let s = two_increments.0 in
    ((s.buckets s.current).key ≡ unix (100 * second))
    × ((s.buckets s.current).value
        ≡ kept (100 * second) (one_by_one (100 * second) s.finished new_number))
linearized_example =
    linearized (100 * second) new_number (add 2) (add 3 ∷ []) small_at_first two_increments.1
      two_increments.2
