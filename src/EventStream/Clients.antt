-- ===== src/EventStream/Clients.antt =====
-- What each client gets.
use Prim.Native.String
use Prim.Native.String.{String}
use mathlib.Core.Path.{subst}
use mathlib.Core.List.{append_assoc}
use hystrix_go.Base.{
  ℕ, ◌≤◌, ◌≡◌, refl, false, Option, none, some, List, [], ◌∷◌, ◌++◌, ◌==◌, ltb, length,
  length-append, arith, by_cases, Option-cases, inl, inr, ◌∙◌,
}
use hystrix_go.EventStream.{
  Requests, stream_event_buffer_size, events_of, register, unregister, offer, write_loop,
  write_to_requests, set_events, receive_from, receive,
}

-- The text that is sent for an event.
abbrev pub framed : String → String
framed event_bytes = String.◌++◌ "data:" (String.◌++◌ event_bytes "\n\n")

-- One client from its registration on: the requests, what was written since, and what it has
-- received. Other clients come and go and receive.
pub data Follows (req : ℕ) : Requests → List String → List String → Type 0 where
  joins : (rs : Requests) → events_of req rs ≡ none → Follows req (register req rs) [] []
  writes :
      {rs : Requests} {written received : List String} (e : String)
      → Follows req rs written received
      → Follows req (write_to_requests e rs) (written ++ framed e ∷ []) received
  receives :
      {rs rs' : Requests} {written received : List String} (e : String)
      → Follows req rs written received
      → receive req rs ≡ some (e, rs')
      → Follows req rs' written (received ++ e ∷ [])
  other_joins :
      {rs : Requests} {written received : List String} (r : ℕ)
      → Follows req rs written received
      → Follows req (register r rs) written received
  other_leaves :
      {rs : Requests} {written received : List String} (r : ℕ)
      → Follows req rs written received
      → (r == req) ≡ false
      → Follows req (unregister r rs) written received
  other_receives :
      {rs rs' : Requests} {written received : List String} (r : ℕ) (e : String)
      → Follows req rs written received
      → (r == req) ≡ false
      → receive r rs ≡ some (e, rs')
      → Follows req rs' written received

-- The first list is made of some elements of the second, in the same order.
pub data Selected : List String → List String → Type 0 where
  nothing : Selected [] []
  skip : {xs ys : List String} (e : String) → Selected xs ys → Selected xs (ys ++ e ∷ [])
  keep :
      {xs ys : List String} (e : String) → Selected xs ys → Selected (xs ++ e ∷ []) (ys ++ e ∷ [])

-- The channel of a client after something was written.
abbrev offered : String → Option (List String) → Option (List String)
offered data_bytes none = none
offered data_bytes (some events) = some (offer data_bytes events)

pub write_loop_lem :
    (data_bytes : String) (req : ℕ) (rs : Requests)
    → events_of req (write_loop data_bytes rs) ≡ offered data_bytes (events_of req rs)
unfolding write_loop events_of
write_loop_lem data_bytes req [] = refl
write_loop_lem data_bytes req ((r, events) ∷ rest) =
    by_cases (r == req) (λ h. rw h refl) (λ h. rw h (write_loop_lem data_bytes req rest))

set_events_self :
    (req : ℕ) (now before : List String) (rs : Requests)
    → events_of req rs ≡ some before
    → events_of req (set_events req now rs) ≡ some now
unfolding set_events events_of
set_events_self req now before [] h = cc
set_events_self req now before ((r, events) ∷ rest) h =
    by_cases (r == req) (λ e. ground (arith, e))
      (λ e. ground (arith, e, set_events_self req now before rest))

set_events_other :
    (r req : ℕ) (now : List String) (rs : Requests)
    → (r == req) ≡ false
    → events_of req (set_events r now rs) ≡ events_of req rs
unfolding set_events events_of
set_events_other r req now [] ne = refl
set_events_other r req now ((q, events) ∷ rest) ne =
    ground (arith, ne, set_events_other r req now rest ne)

unregister_other :
    (r req : ℕ) (rs : Requests)
    → (r == req) ≡ false
    → events_of req (unregister r rs) ≡ events_of req rs
unfolding unregister events_of
unregister_other r req [] ne = refl
unregister_other r req ((q, events) ∷ rest) ne = ground (arith, ne, unregister_other r req rest ne)

register_other :
    (r req : ℕ) (rs : Requests) (events : List String)
    → events_of req rs ≡ some events
    → events_of req (register r rs) ≡ some events
unfolding register events_of
register_other r req rs events h = elim (Option-cases (events_of r rs)) [
  | inl absent ↦
      rw (register, absent)
        (by_cases (r == req) (λ e. let same : r ≡ req = ground (arith, e) in absurd cc)
          (λ e. rw e h))
  | inr (x, present) ↦ rw (register, present) h
]

-- What a client has not received is in its channel.
record Waiting (req : ℕ) (rs : Requests) (written received : List String) : Type 0 where
  events : List String
  channel : events_of req rs ≡ some events
  room : length events ≤ stream_event_buffer_size
  order : Selected (received ++ events) written

joins-Waiting :
    (req : ℕ) (rs : Requests) → events_of req rs ≡ none → Waiting req (register req rs) [] []
unfolding register events_of
joins-Waiting req rs h = record {
  events = [];
  channel = rw (register, h) (ground arith);
  room = omega arith;
  order = nothing;
}

writes-Waiting :
    (req : ℕ) (rs : Requests) (written received : List String) (e : String)
    → Waiting req rs written received
    → Waiting req (write_to_requests e rs) (written ++ framed e ∷ []) received
unfolding write_to_requests
writes-Waiting req rs written received e w =
    by_cases (ltb (length w.events) stream_event_buffer_size)
      (λ fits. record {
        events = w.events ++ framed e ∷ [];
        channel = write_loop_lem (framed e) req rs ∙ rw (w.channel, fits) refl;
        room = ground (arith, fits, length-append w.events (framed e ∷ []));
        order =
            subst (λ xs. Selected xs (written ++ framed e ∷ []))
              (append_assoc received w.events (framed e ∷ [])) (keep (framed e) w.order);
      })
      (λ full. record {
        events = w.events;
        channel = write_loop_lem (framed e) req rs ∙ rw (w.channel, full) refl;
        room = w.room;
        order = skip (framed e) w.order;
      })

receives-Waiting :
    (req : ℕ) (rs rs' : Requests) (written received : List String) (e : String)
    → Waiting req rs written received
    → receive req rs ≡ some (e, rs')
    → Waiting req rs' written (received ++ e ∷ [])
unfolding receive
receives-Waiting req rs rs' written received e w h =
    first_of w.events w.channel w.room w.order (rw w.channel at h)
  where
    first_of :
        (events : List String)
        → events_of req rs ≡ some events
        → length events ≤ stream_event_buffer_size
        → Selected (received ++ events) written
        → receive_from req rs (some events) ≡ some (e, rs')
        → Waiting req rs' written (received ++ e ∷ [])
    first_of [] there room order got = absurd cc
    first_of (x ∷ xs) there room order got =
        let same : x ≡ e = cc in
        let rest : set_events req xs rs ≡ rs' = cc in
        record {
          events = xs;
          channel = rw (← rest) (set_events_self req xs (x ∷ xs) rs there);
          room = omega (arith, room);
          order = rw (append_assoc received (e ∷ []) xs) (rw same at order);
        }

other_receives-events :
    (r req : ℕ) (rs rs' : Requests) (e : String)
    → (r == req) ≡ false
    → (channel : Option (List String)) → receive_from r rs channel ≡ some (e, rs')
    → events_of req rs' ≡ events_of req rs
other_receives-events r req rs rs' e ne none h = absurd cc
other_receives-events r req rs rs' e ne (some []) h = absurd cc
other_receives-events r req rs rs' e ne (some (x ∷ xs)) h =
    let rest : set_events r xs rs ≡ rs' = cc in rw (← rest) (set_events_other r req xs rs ne)

-- A client's channel that others leave alone.
moved :
    (req : ℕ) (rs rs' : Requests) (written received : List String)
    → events_of req rs' ≡ events_of req rs
    → Waiting req rs written received
    → Waiting req rs' written received
moved req rs rs' written received e w = record {
  events = w.events;
  channel = e ∙ w.channel;
  room = w.room;
  order = w.order;
}

Follows-Waiting :
    {req : ℕ} {rs : Requests} {written received : List String}
    → Follows req rs written received
    → Waiting req rs written received
unfolding receive
Follows-Waiting {req} (joins rs h) = joins-Waiting req rs h
Follows-Waiting {req} (writes {rs} {written} {received} e f) =
    writes-Waiting req rs written received e (Follows-Waiting f)
Follows-Waiting {req} (receives {rs} {rs'} {written} {received} e f h) =
    receives-Waiting req rs rs' written received e (Follows-Waiting f) h
Follows-Waiting {req} (other_joins {rs} {written} {received} r f) =
    let w = Follows-Waiting f in
    record {
      events = w.events;
      channel = register_other r req rs w.events w.channel;
      room = w.room;
      order = w.order;
    }
Follows-Waiting {req} (other_leaves {rs} {written} {received} r f ne) =
    moved req rs (unregister r rs) written received (unregister_other r req rs ne)
      (Follows-Waiting f)
Follows-Waiting {req} (other_receives {rs} {rs'} {written} {received} r e f ne h) =
    moved req rs rs' written received (other_receives-events r req rs rs' e ne (events_of r rs) h)
      (Follows-Waiting f)

-- Whatever other clients do, what a client has received and what waits in its channel are, one after
-- the other, events that were written since it came, in the order in which they were written and
-- framed as the format asks. Never more than ten wait.
pub stream_in_order :
    {req : ℕ} {rs : Requests} {written received : List String}
    → Follows req rs written received
    → (events : List String) × (events_of req rs ≡ some events)
      × (length events ≤ stream_event_buffer_size)
      × Selected (received ++ events) written
stream_in_order f = let w = Follows-Waiting f in (w.events, w.channel, w.room, w.order)
