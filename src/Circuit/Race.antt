-- ===== src/Circuit/Race.antt =====
-- hystrix/circuit.go: IsOpen, setOpen, setClose and allowSingleTest, with goroutines that interleave.
--
-- Each load, store and compare-and-swap of the two atomic fields is a step of its own, and so is each
-- reading of the clock. Any goroutine may find the circuit unhealthy or report a success at any time,
-- and the clock may show any time. The sleep window stays the same.
pub mod Tests
use hystrix_go.Base.{ℕ, ◌+◌, Bool, true, false, ◌≡◌, List, [], ◌∷◌, ◌==◌, if◌then◌else◌, slt, add64}

-- Where a goroutine stands in `AllowRequest`.
pub data Local : Type 0 where
  -- outside
  idle : Local
  -- in `setOpen`: it has set `open`, and has not stored the time
  opening : Local
  -- `IsOpen` has returned true
  seen : Local
  -- in `allowSingleTest`: it has read the clock
  clocked : ℕ → Local
  -- then it has loaded the time of the last test
  loaded : ℕ → ℕ → Local

-- What has been written to `openedOrLastTestedTime`, and by whom.
pub data Write : Type 0 where
  stored tested : ℕ → Write

pub record Race : Type 0 where
  pub opened : Bool
  pub opened_or_last_tested_time : ℕ
  pub locals : ℕ → Local
  -- the writes, the last one first
  pub writes : List Write

abbrev pub set_local : ℕ → Local → (ℕ → Local) → ℕ → Local
set_local p l locals q = if p == q then l else locals q

abbrev pub at_local : ℕ → Local → Race → Race
at_local p l s = record s { locals = set_local p l s.locals }

-- The compare-and-swap of `allowSingleTest`, which returns true exactly if it swaps.
unfoldable pub swap : ℕ → ℕ → Race → Race
swap old now s =
    if s.opened_or_last_tested_time == old
    then record s { opened_or_last_tested_time = now; writes = tested now ∷ s.writes }
    else s

module _ (window : ℕ) where
  pub data Next (s : Race) : Race → Type 0 where
    -- `open.Load()`, or the swap of `setOpen` that comes too late
    see_open : (p : ℕ) → s.locals p ≡ idle → s.opened ≡ true → Next s (at_local p seen s)
    -- the swap of `setOpen`
    mark_open :
        (p : ℕ)
        → s.locals p ≡ idle
        → s.opened ≡ false
        → Next s (at_local p opening (record s { opened = true }))
    store_time :
        (p now : ℕ)
        → s.locals p ≡ opening
        → Next s (
            at_local p seen
              (record s { opened_or_last_tested_time = now; writes = stored now ∷ s.writes }))
    read_clock : (p now : ℕ) → s.locals p ≡ seen → Next s (at_local p (clocked now) s)
    load_time :
        (p now : ℕ)
        → s.locals p ≡ clocked now
        → Next s (at_local p (loaded now s.opened_or_last_tested_time) s)
    too_early :
        (p now old : ℕ)
        → s.locals p ≡ loaded now old
        → slt (add64 old window) now ≡ false
        → Next s (at_local p idle s)
    try_swap :
        (p now old : ℕ)
        → s.locals p ≡ loaded now old
        → slt (add64 old window) now ≡ true
        → Next s (at_local p idle (swap old now s))
    -- the swap of `setClose`
    mark_closed : s.opened ≡ true → Next s (record s { opened = false })

  pub data Runs (s : Race) : Race → Type 0 where
    start : Runs s s
    after : {t u : Race} → Runs s t → Next t u → Runs s u

-- A closed circuit that was never tested.
abbrev pub untouched : Race
untouched = record {
  opened = false;
  opened_or_last_tested_time = 0;
  locals = λ _. idle;
  writes = [];
}
