-- ===== src/EventStream/Serving.antt =====
-- hystrix/eventstream.go: `ServeHTTP` of several clients at once, and
-- `DefaultMetricCollectorTimingEnabled`.
--
-- Clients go by the number of their request. A step is one operation on shared memory: the
-- compare-and-swap of the flag, `register`, `unregister`, and the compare-and-swap that is deferred
-- first and so comes last. A handler whose writer cannot flush answers with an error before the
-- first of them, and is no step. Nothing else in the program writes the flag.
pub mod Owner
use hystrix_go.Base.{ℕ, Bool, true, false, ◌≡◌, List, [], ◌∷◌, put, if◌then◌else◌, none}
use hystrix_go.EventStream.{Requests, register, unregister, events_of}

-- Where the handler of a client stands. `owner` says that its compare-and-swap set the flag.
pub data Handler : Type 0 where
  idle : Handler
  entered : Bool → Handler
  streaming : Bool → Handler
  leaving : Bool → Handler

pub record Shared : Type 0 where
  pub timing : Bool
  pub requests : Requests
  pub handlers : ℕ → Handler

unfoldable pub start : Shared
start = record { timing = false; requests = []; handlers = λ _. idle }

-- `CompareAndSwap(false, true)`: it succeeds, and the call that sets the flag back is deferred, exactly if the
-- flag is not set.
unfoldable pub enter : ℕ → Shared → Shared
enter p s =
    if s.timing
    then record s { handlers = put p (entered false) s.handlers }
    else record s { timing = true; handlers = put p (entered true) s.handlers }

unfoldable pub begin_stream : ℕ → Bool → Shared → Shared
begin_stream p owner s = record s {
  requests = register p s.requests;
  handlers = put p (streaming owner) s.handlers;
}

unfoldable pub end_stream : ℕ → Bool → Shared → Shared
end_stream p owner s = record s {
  requests = unregister p s.requests;
  handlers = put p (leaving owner) s.handlers;
}

-- `CompareAndSwap(true, false)`, if it is deferred.
unfoldable pub leave : ℕ → Bool → Shared → Shared
leave p owner s = record s {
  timing = if owner then false else s.timing;
  handlers = put p idle s.handlers;
}

pub data Step : Shared → Shared → Type 0 where
  enters : {s : Shared} (p : ℕ) → s.handlers p ≡ idle → Step s (enter p s)
  registers :
      {s : Shared} (p : ℕ) (owner : Bool)
      → s.handlers p ≡ entered owner
      → Step s (begin_stream p owner s)
  unregisters :
      {s : Shared} (p : ℕ) (owner : Bool)
      → s.handlers p ≡ streaming owner
      → Step s (end_stream p owner s)
  leaves :
      {s : Shared} (p : ℕ) (owner : Bool) → s.handlers p ≡ leaving owner → Step s (leave p owner s)

-- The states that can be reached.
pub data Runs : Shared → Type 0 where
  starts : Runs start
  steps : {s s' : Shared} → Runs s → Step s s' → Runs s'
