-- ===== src/ErrorChan.antt =====
-- hystrix/internal/pool/errorchan_nosync.go and how DoC of hystrix/hystrix.go uses it: the channels
-- on which the results of the run functions come back are used again.
--
-- Commands and channels have numbers. A run function's result is known by the number of its
-- command. `sync.Pool` is not under src/: its `Get` gives any channel that is in it, or none, and then
-- `New` makes one, and it may drop what it holds at any time. How often it holds a channel is
-- a number, so that a channel that is put back twice could be given out twice.
pub mod Own
pub mod Results
use hystrix_go.Base.{ℕ, zero, suc, ◌≡◌, Option, none, some, List, [], ◌∷◌, ◌==◌, if◌then◌else◌, put}

-- Where the caller of `DoC` stands.
pub data Caller : Type 0 where
  before : Caller
  -- in the second `select`, with its channel
  waiting : ℕ → Caller
  -- it has received its result and has not put the channel back
  drained : ℕ → Caller
  over : Caller

-- The goroutine `runChan <- run(ctx)` of a command.
pub data Runner : Type 0 where
  absent : Runner
  running : ℕ → Runner
  sent : Runner

pub record Shared : Type 0 where
  pub callers : ℕ → Caller
  pub runners : ℕ → Runner
  -- the buffer of a channel, of capacity one
  pub buffer : ℕ → Option ℕ
  pub pool : ℕ → ℕ
  -- the next channel that `New` makes
  pub fresh : ℕ
  -- which command has received the result of which
  pub received : List (ℕ × ℕ)

-- `AcquireSingleErrorChan`, and the start of the goroutine.
abbrev pub begin_on : ℕ → ℕ → Shared → Shared
begin_on k ch s = record s {
  callers = put k (waiting ch) s.callers;
  runners = put k (running ch) s.runners;
}

pub data Step (s : Shared) : Shared → Type 0 where
  acquire_new :
      (k : ℕ)
      → s.callers k ≡ before
      → Step s (begin_on k s.fresh (record s { fresh = suc s.fresh }))
  acquire_pooled :
      (k ch : ℕ) {n : ℕ}
      → s.callers k ≡ before
      → s.pool ch ≡ suc n
      → Step s (begin_on k ch (record s { pool = put ch n s.pool }))
  -- `sync.Pool` drops a channel.
  drop : (ch : ℕ) {n : ℕ} → s.pool ch ≡ suc n → Step s (record s { pool = put ch n s.pool })
  -- The run function has returned: a send waits while the buffer is full.
  send :
      (k ch : ℕ)
      → s.runners k ≡ running ch
      → s.buffer ch ≡ none
      → Step s (record s { runners = put k sent s.runners; buffer = put ch (some k) s.buffer })
  receive :
      (k ch j : ℕ)
      → s.callers k ≡ waiting ch
      → s.buffer ch ≡ some j
      → Step s (record s {
        callers = put k (drained ch) s.callers;
        buffer = put ch none s.buffer;
        received = (k, j) ∷ s.received;
      })
  -- `ReleaseSingleErrorChan`
  release :
      (k ch : ℕ)
      → s.callers k ≡ drained ch
      → Step s (record s { callers = put k over s.callers; pool = put ch (suc (s.pool ch)) s.pool })
  -- The context ends or the timer fires: the channel is not put back.
  leave :
      (k ch : ℕ) → s.callers k ≡ waiting ch → Step s (record s { callers = put k over s.callers })

pub data Runs (s : Shared) : Shared → Type 0 where
  start : Runs s s
  after : {t u : Shared} → Runs s t → Step t u → Runs s u

-- Before any command.
abbrev pub unused : Shared
unused = record {
  callers = λ _. before;
  runners = λ _. absent;
  buffer = λ _. none;
  pool = λ _. 0;
  fresh = 0;
  received = [];
}
