-- ===== src/Circuit/Race/Tests.antt =====
-- The tests that a circuit lets through (hystrix/circuit.go), however goroutines interleave.
use hystrix_go.Base.{
  ℕ, ◌+◌, ◌^◌, ◌≤◌, ◌<◌, ◌≡◌, refl, true, List, [], ◌∷◌, ◌++◌, map, ◌==◌, slt, add64, arith, All,
  length, by_cases,
}
use hystrix_go.Circuit.Race.{
  Write, stored, tested, Race, swap, Next, see_open, mark_open, store_time, read_clock, load_time,
  too_early, try_swap, mark_closed, Runs, start, after, untouched,
}

-- What the last write left in the field.
abbrev pub latest : List Write → ℕ
latest [] = 0
latest (stored t ∷ ws) = t
latest (tested t ∷ ws) = t

module _ (window : ℕ) where
  -- Each test comes later than the window after the write before it.
  abbrev pub Spaced : List Write → Type 0
  Spaced [] = Unit
  Spaced (stored t ∷ ws) = Spaced ws
  Spaced (tested t ∷ ws) = (slt (add64 (latest ws) window) t ≡ true) × Spaced ws

  pub record Kept (s : Race) : Type 0 where
    pub field : s.opened_or_last_tested_time ≡ latest s.writes
    pub spaced : Spaced s.writes

  swap-Kept :
      (now old : ℕ) (s : Race) → slt (add64 old window) now ≡ true → Kept s → Kept (swap old now s)
  unfolding swap
  swap-Kept now old s late k =
      by_cases (s.opened_or_last_tested_time == old)
        (λ same. rw same (record { field = refl; spaced = (ground (arith, k.field), k.spaced) }))
        (λ other. rw other k)

  Next-Kept : {s u : Race} → Kept s → Next window s u → Kept u
  Next-Kept k (see_open p i o) = record { field = k.field; spaced = k.spaced }
  Next-Kept k (mark_open p i o) = record { field = k.field; spaced = k.spaced }
  Next-Kept k (store_time p now i) = record { field = refl; spaced = k.spaced }
  Next-Kept k (read_clock p now i) = record { field = k.field; spaced = k.spaced }
  Next-Kept k (load_time p now i) = record { field = k.field; spaced = k.spaced }
  Next-Kept k (too_early p now old i e) = record { field = k.field; spaced = k.spaced }
  Next-Kept {s} k (try_swap p now old i late) =
      let k' = swap-Kept now old s late k in record { field = k'.field; spaced = k'.spaced }
  Next-Kept k (mark_closed o) = record { field = k.field; spaced = k.spaced }

  Runs-Kept : {s : Race} → Runs window untouched s → Kept s
  Runs-Kept start = record { field = refl; spaced = tt }
  Runs-Kept (after r n) = Next-Kept (Runs-Kept r) n

  dropped : (newer older : List Write) → Spaced (newer ++ older) → Spaced older
  dropped [] older h = h
  dropped (stored t ∷ newer) older h = dropped newer older h
  dropped (tested t ∷ newer) older h = dropped newer older h.1

  one_of :
      (from : ℕ) (ts : List ℕ) (older : List Write)
      → from + window + window < 2 ^ 63
      → All (λ t. (from ≤ t) × (t ≤ from + window)) ts
      → Spaced (map tested ts ++ older)
      → length ts ≤ 1
  one_of from [] older small within h = omega arith
  one_of from (t ∷ []) older small within h = omega arith
  one_of from (t ∷ u ∷ ts) older small within h = absurd (ground (arith, within.0, within.1.0, h.0))

  -- Goroutines interleave in any way on a new circuit, read any times from the clock, and open
  -- and close the circuit at will, while the sleep window stays the same. Of the tests that are
  -- let through one after the other, with no `setOpen` storing its time in between, at most one
  -- lies in any stretch of time of one sleep window, for times below 2^63.
  pub tests_spaced :
      {s : Race}
      → Runs window untouched s
      → (newer older : List Write) (ts : List ℕ) (from : ℕ)
      → s.writes ≡ newer ++ (map tested ts ++ older)
      → from + window + window < 2 ^ 63
      → All (λ t. (from ≤ t) × (t ≤ from + window)) ts
      → length ts ≤ 1
  tests_spaced r newer older ts from e small within =
      one_of from ts older small within
        (dropped newer (map tested ts ++ older) (rw e at (Runs-Kept r).spaced))
