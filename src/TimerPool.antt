-- ===== src/TimerPool.antt =====
-- hystrix/internal/pool/timer_nosync.go and how DoC of hystrix/hystrix.go uses it: timers are used
-- again.
--
-- Commands and timers have numbers. `sync.Pool` and `time.Timer` are not under src/. `Get` gives any
-- timer that is in the pool, or none, and then `NewTimer` makes one; the pool may drop what it holds at
-- any time. How often it holds a timer is a number. A timer that is set fires at some later time, and
-- then its channel holds one value. After `Stop` or `Reset` the channel holds no value from before,
-- as Go documents it from version 1.23 on. A value is known by the command that had set the timer.
pub mod Own
pub mod Ticks
use hystrix_go.Base.{ℕ, suc, ◌≡◌, Option, none, some, List, [], ◌∷◌, ◌==◌, if◌then◌else◌, put}

pub data Clock : Type 0 where
  stopped : Clock
  set : ℕ → Clock
  fired : ℕ → Clock

-- Where the caller of `DoC` stands.
pub data Caller : Type 0 where
  before : Caller
  -- `timerPool.Get` has given it a timer
  taken : ℕ → Caller
  -- in the second `select`
  waiting : ℕ → Caller
  -- at the deferred `ReleaseTimer`
  ended : ℕ → Caller
  -- after `Stop`
  halted : ℕ → Caller
  over : Caller

pub record Shared : Type 0 where
  pub callers : ℕ → Caller
  pub clocks : ℕ → Clock
  pub pool : ℕ → ℕ
  -- the next timer that `NewTimer` makes
  pub fresh : ℕ
  -- which command has received the value of which
  pub received : List (ℕ × ℕ)

-- A command and its timer move on.
abbrev pub moved : ℕ → ℕ → Caller → Clock → Shared → Shared
moved k t c x s = record s { callers = put k c s.callers; clocks = put t x s.clocks }

pub data Step (s : Shared) : Shared → Type 0 where
  -- `AcquireTimer` with an empty pool
  acquire_new :
      (k : ℕ)
      → s.callers k ≡ before
      → Step s (record (moved k s.fresh (waiting s.fresh) (set k) s) { fresh = suc s.fresh })
  -- `AcquireTimer` with a timer of the pool, up to `timer.Reset(d)` and after it
  acquire_pooled :
      (k t : ℕ) {n : ℕ}
      → s.callers k ≡ before
      → s.pool t ≡ suc n
      → Step s (record (moved k t (taken t) (s.clocks t) s) { pool = put t n s.pool })
  reset : (k t : ℕ) → s.callers k ≡ taken t → Step s (moved k t (waiting t) (set k) s)
  -- `sync.Pool` drops a timer.
  drop : (t : ℕ) {n : ℕ} → s.pool t ≡ suc n → Step s (record s { pool = put t n s.pool })
  fire : (t j : ℕ) → s.clocks t ≡ set j → Step s (record s { clocks = put t (fired j) s.clocks })
  -- `case <-timer.C`
  receive :
      (k t j : ℕ)
      → s.callers k ≡ waiting t
      → s.clocks t ≡ fired j
      → Step s (record (moved k t (ended t) stopped s) { received = (k, j) ∷ s.received })
  -- The run function has a result, or the context ends.
  finish : (k t : ℕ) → s.callers k ≡ waiting t → Step s (moved k t (ended t) (s.clocks t) s)
  -- `t.Stop()` and `timerPool.Put(t)` of `ReleaseTimer`
  stop : (k t : ℕ) → s.callers k ≡ ended t → Step s (moved k t (halted t) stopped s)
  put_back :
      (k t : ℕ)
      → s.callers k ≡ halted t
      → Step s (record (moved k t over (s.clocks t) s) { pool = put t (suc (s.pool t)) s.pool })

pub data Runs (s : Shared) : Shared → Type 0 where
  start : Runs s s
  after : {t u : Shared} → Runs s t → Step t u → Runs s u

-- Before any command.
abbrev pub unused : Shared
unused = record {
  callers = λ _. before;
  clocks = λ _. stopped;
  pool = λ _. 0;
  fresh = 0;
  received = [];
}
