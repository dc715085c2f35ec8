-- ===== src/Tests/EventStream.antt =====
-- Runs of hystrix/eventstream.go.
use Prim.Native.String.{String}
use hystrix_go.Base.{◌≤◌, ◌≡◌, refl, none, some, List, [], ◌∷◌, ◌++◌, length, arith}
use hystrix_go.EventStream.{
  Requests, stream_event_buffer_size, events_of, register, write_to_requests, write_loop,
  set_events, receive,
}
use hystrix_go.EventStream.Reader.{read_events, is_payload}
use hystrix_go.EventStream.Reader.RoundTrip.{write_all, received, read_events-write_all}
use hystrix_go.EventStream.Clients.{
  Follows, joins, writes, receives, Selected, framed, stream_in_order,
}

abbrev joined : Requests
joined = register 7 ((3, []) ∷ [])

abbrev after_two : Requests
after_two = write_to_requests "y" (write_to_requests "x" joined)

no_seven : events_of 7 ((3, []) ∷ []) ≡ none
unfolding events_of
no_seven = refl

abbrev left : Requests
left = (7, framed "y" ∷ []) ∷ (3, framed "x" ∷ framed "y" ∷ []) ∷ []

first_received : receive 7 after_two ≡ some (framed "x", left)
unfolding receive register events_of write_to_requests write_loop set_events
first_received = refl

seven : Follows 7 left (framed "x" ∷ framed "y" ∷ []) (framed "x" ∷ [])
seven =
    receives (framed "x") (writes "y" (writes "x" (joins ((3, []) ∷ []) no_seven))) first_received

stream_in_order_example :
    (events : List String) × (events_of 7 left ≡ some events)
    × (length events ≤ stream_event_buffer_size)
    × Selected ((framed "x" ∷ []) ++ events) (framed "x" ∷ framed "y" ∷ [])
stream_in_order_example = stream_in_order seven

read_events-write_all_example :
    (waiting : List String) × (events_of 7 (write_all ("{1}" ∷ "{2}" ∷ []) ((7, []) ∷ []))
      ≡ some waiting)
    × (read_events (received waiting) ≡ ("{1}" ∷ "{2}" ∷ []))
unfolding is_payload events_of
read_events-write_all_example =
    read_events-write_all ("{1}" ∷ "{2}" ∷ []) 7 ((7, []) ∷ []) refl (omega arith)
      (refl, (refl, tt))
