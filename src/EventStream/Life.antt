-- ===== src/EventStream/Life.antt =====
-- hystrix/eventstream.go: `StreamHandler`, `Start`, `Stop` and the goroutines that `loop` runs in.
--
-- Channels and loops go by the number of the `Start` that made them. `none` stands for a panic or for
-- nil. A loop reads `sh.done` when it comes to its `select`, and then waits on that channel.
pub mod Ends
use hystrix_go.Base.{
  ℕ, suc, ◌≡◌, Bool, true, false, not, ◌&&◌, Option, none, some, List, [], ◌∷◌, put, if◌then◌else◌,
}
use hystrix_go.EventStream.{Requests, register}
use hystrix_go.Metrics.{◌>>=◌}

pub data Loop : Type 0 where
  absent : Loop
  ready : Loop
  waiting : ℕ → Loop
  returned : Loop

-- `StreamHandler`, with the memory that its channels and loops take.
pub record StreamHandler : Type 0 where
  pub done : Option ℕ
  pub requests : Option Requests
  pub closed : ℕ → Bool
  pub loops : ℕ → Loop
  pub fresh : ℕ  -- how often it was started
  pub ticks : ℕ  -- how often a loop has published

-- `NewStreamHandler`
abbrev pub new_stream_handler : StreamHandler
new_stream_handler = record {
  done = none;
  requests = none;
  closed = λ _. false;
  loops = λ _. absent;
  fresh = 0;
  ticks = 0;
}

-- `Start`: a new map, a new channel and a new loop.
unfoldable pub start : StreamHandler → StreamHandler
start sh = record sh {
  requests = some [];
  done = some sh.fresh;
  loops = put sh.fresh ready sh.loops;
  fresh = suc sh.fresh;
}

-- `Stop`: to close a nil channel, or one that is closed, panics.
unfoldable pub stop : StreamHandler → Option StreamHandler
stop sh = do
  ch ← sh.done
  if sh.closed ch then none else some (record sh { closed = put ch true sh.closed })

-- `register`: to write to a nil map panics.
unfoldable pub register_client : ℕ → StreamHandler → Option StreamHandler
register_client req sh = do
  requests ← sh.requests
  some (record sh { requests = some (register req requests) })

-- What a loop does: it comes to its `select`, publishes, or returns.
pub data Step (publish : Requests → Requests) : StreamHandler → StreamHandler → Type 0 where
  selects :
      {sh : StreamHandler} (p ch : ℕ)
      → sh.loops p ≡ ready
      → sh.done ≡ some ch
      → Step publish sh (record sh { loops = put p (waiting ch) sh.loops })
  publishes :
      {sh : StreamHandler} (p ch : ℕ) (requests : Requests)
      → sh.loops p ≡ waiting ch
      → sh.requests ≡ some requests
      → Step publish sh (record sh {
        loops = put p ready sh.loops;
        requests = some (publish requests);
        ticks = suc sh.ticks;
      })
  returns :
      {sh : StreamHandler} (p ch : ℕ)
      → sh.loops p ≡ waiting ch
      → sh.closed ch ≡ true
      → Step publish sh (record sh { loops = put p returned sh.loops })

pub data Steps (publish : Requests → Requests) : StreamHandler → StreamHandler → Type 0 where
  here : {sh : StreamHandler} → Steps publish sh sh
  next :
      {sh sh' sh'' : StreamHandler}
      → Step publish sh sh'
      → Steps publish sh' sh''
      → Steps publish sh sh''

pub data Call : Type 0 where
  starts stops : Call

-- Calls of `Start` and `Stop`, whatever the loops do between them.
unfoldable pub call_all : List Call → StreamHandler → Option StreamHandler
call_all [] sh = some sh
call_all (starts ∷ calls) sh = call_all calls (start sh)
call_all (stops ∷ calls) sh = do sh' ← stop sh; call_all calls sh'

-- Every `Stop` comes after a `Start` without another `Stop` between the two.
abbrev pub is_proper : Bool → List Call → Bool
is_proper started [] = true
is_proper started (starts ∷ calls) = is_proper true calls
is_proper started (stops ∷ calls) = started && is_proper false calls
