-- ===== src/EventStream.antt =====
-- hystrix/eventstream.go: the clients of the stream and what is written to them.
--
-- A request is known by a number, as by its pointer. The channel of a request is the list of the
-- events in it, the oldest first. One operation at a time: the mutex is left out. JSON and
-- HTTP are left out: an event is the text that is sent.
pub mod Clients
pub mod Event
pub mod Publish
pub mod Loop
pub mod Reader
pub mod Serving
pub mod Life
use Prim.Native.String
use Prim.Native.String.{String}
use hystrix_go.Base.{
  ℕ, ◌+◌, Bool, true, false, Option, none, some, List, [], ◌∷◌, ◌++◌, ◌==◌, ltb, if◌then◌else◌,
  length, map,
}

abbrev pub stream_event_buffer_size : ℕ
stream_event_buffer_size = 10

abbrev pub Requests : Type 0
Requests = List (ℕ × List String)

-- `sh.requests[req]`
unfoldable pub events_of : ℕ → Requests → Option (List String)
events_of req [] = none
events_of req ((r, events) ∷ rest) =
    let found = events_of req rest in if r == req then some events else found

-- A request that is there keeps its channel. The two halves have the mutex one after the other, and
-- no other goroutine registers the same request.
unfoldable pub register : ℕ → Requests → Requests
register req requests = elim (events_of req requests) [
  | some events ↦ requests
  | none ↦ (req, []) ∷ requests
]

unfoldable pub unregister : ℕ → Requests → Requests
unregister req [] = []
unregister req ((r, events) ∷ rest) =
    let rest' = unregister req rest in if r == req then rest' else (r, events) ∷ rest'

-- `select { case requestEvents <- dataBytes: default: }`
abbrev pub offer : String → List String → List String
offer data_bytes events =
    if ltb (length events) stream_event_buffer_size then events ++ data_bytes ∷ [] else events

unfoldable pub write_loop : String → Requests → Requests
write_loop data_bytes [] = []
write_loop data_bytes ((r, events) ∷ rest) =
    (r, offer data_bytes events) ∷ write_loop data_bytes rest

unfoldable pub write_to_requests : String → Requests → Requests
unfolding write_loop
write_to_requests event_bytes requests =
    write_loop (String.◌++◌ "data:" (String.◌++◌ event_bytes "\n\n")) requests

unfoldable pub set_events : ℕ → List String → Requests → Requests
set_events req now [] = []
set_events req now ((r, events) ∷ rest) =
    let rest' = set_events req now rest in if r == req then (r, now) ∷ rest else (r, events) ∷ rest'

-- `event := <-events` in `ServeHTTP`: the oldest event; `none` where there is none to receive.
abbrev pub receive_from : ℕ → Requests → Option (List String) → Option (String × Requests)
receive_from req requests none = none
receive_from req requests (some []) = none
receive_from req requests (some (event ∷ events)) = some (event, set_events req events requests)

unfoldable pub receive : ℕ → Requests → Option (String × Requests)
receive req requests = receive_from req requests (events_of req requests)
