-- ===== src/EventStream/Reader/RoundTrip.antt =====
-- What is written to a client against what it reads.
use Prim.Native.Char.{Char, code}
use Prim.Native.String
use Prim.Native.String.{String}
use text.Mathlib.TextLemmas.{nil-append, cons-append, append_assoc}
use hystrix_go.Base.{
  ℕ, ◌+◌, ◌≤◌, ◌≡◌, refl, true, none, some, List, [], ◌∷◌, ◌++◌, ◌==◌, length, length-append, ltb,
  ◌<◌, map, All, arith, by_cases, ap, ◌∙◌, sym,
}
use mathlib.Core.List.{append_assoc as list_append_assoc, append-nil as list_append-nil}
use hystrix_go.EventStream.{Requests, stream_event_buffer_size, events_of, write_to_requests}
use hystrix_go.EventStream.Clients.{framed, write_loop_lem}
use hystrix_go.EventStream.Reader.{
  is_end, split, after_prefix, drop_space, take_line, read_lines, read_events, is_line, is_payload,
}

split-line :
    (e t : String)
    → is_line e ≡ true
    → split (String.◌++◌ e (String.◌∷◌ "\n" t)) ≡ (e, (split t).0 ∷ (split t).1)
unfolding is_line split
split-line String.[] t h = rw (nil-append) refl
split-line (String.◌∷◌ c e) t h = rw (cons-append) (
    by_cases (is_end c) (λ k. ground (arith, h, k))
      (λ k. rw k (rw (split-line e t (rw k at h)) refl)))

after_prefix-append : (p s : String) → after_prefix p (String.◌++◌ p s) ≡ some s
unfolding after_prefix
after_prefix-append String.[] s = rw (nil-append) refl
after_prefix-append (String.◌∷◌ c p) s =
    let same : (code c == code c) ≡ true = ground arith in
    rw (cons-append) (rw same (after_prefix-append p s))

is_line-append :
    (a b : String) → is_line a ≡ true → is_line b ≡ true → is_line (String.◌++◌ a b) ≡ true
unfolding is_line
is_line-append String.[] b h k = rw (nil-append) k
is_line-append (String.◌∷◌ c a) b h k =
    rw (cons-append) (
      by_cases (is_end c) (λ e. ground (arith, h, e))
        (λ e. rw e (is_line-append a b (rw e at h) k)))

is_payload-is_line : (e : String) → is_payload e ≡ true → is_line e ≡ true
unfolding is_payload is_line
is_payload-is_line String.[] h = refl
is_payload-is_line (String.◌∷◌ c e) h = ground (arith, h)

drop_space_lem : (e : String) → is_payload e ≡ true → drop_space e ≡ e
unfolding is_payload drop_space
drop_space_lem String.[] h = refl
drop_space_lem (String.◌∷◌ c e) h = ground (arith, h)

take_line-value :
    (c : Char) (s line e : String)
    → String.◌∷◌ c s ≡ line
    → after_prefix "data:" line ≡ some e
    → is_payload e ≡ true
    → take_line none line ≡ (some e, [])
unfolding take_line
take_line-value c s line e shape value good =
    rw (← shape) (rw (shape, value, drop_space_lem e good) refl)

take_line-event :
    (e : String) → is_payload e ≡ true → take_line none (String.◌++◌ "data:" e) ≡ (some e, [])
take_line-event e good =
    take_line-value "d" (String.◌++◌ "ata:" e) (String.◌++◌ "data:" e) e
      (sym (cons-append "d" "ata:" e)) (after_prefix-append "data:" e) good

framed-append :
    (e t : String)
    → String.◌++◌ (framed e) t
      ≡ String.◌++◌ (String.◌++◌ "data:" e) (String.◌∷◌ "\n" (String.◌∷◌ "\n" t))
framed-append e t =
    let ends : String.◌++◌ "\n\n" t ≡ String.◌∷◌ "\n" (String.◌∷◌ "\n" t) =
      cons-append "\n" "\n" t
      ∙ ap (String.◌∷◌ "\n") (cons-append "\n" String.[] t ∙ ap (String.◌∷◌ "\n") (nil-append t)) in
    rw
      (
        append_assoc "data:" (String.◌++◌ e "\n\n") t,
        append_assoc e "\n\n" t,
        append_assoc "data:" e (String.◌∷◌ "\n" (String.◌∷◌ "\n" t)),
        ends,
      )
      refl

read_lines-frame :
    (line e next : String) (rest : List String)
    → take_line none line ≡ (some e, [])
    → read_lines none line (String.[] ∷ next ∷ rest) ≡ e ∷ read_lines none next rest
unfolding read_lines take_line
read_lines-frame line e next rest h = rw h refl

-- The first frame of a text is the first event.
read_events-framed :
    (e t : String)
    → is_payload e ≡ true
    → read_events (String.◌++◌ (framed e) t) ≡ e ∷ read_events t
unfolding read_events is_line
read_events-framed e t good =
    let line = is_line-append "data:" e refl (is_payload-is_line e good) in
    rw
      (
        framed-append,
        split-line (String.◌++◌ "data:" e) (String.◌∷◌ "\n" t) line,
        read_lines-frame (String.◌++◌ "data:" e) e (split t).0 (split t).1 (take_line-event e good),
      )
      refl

-- What a client gets that reads its channel to the end.
abbrev pub received : List String → String
received [] = String.[]
received (event ∷ events) = String.◌++◌ event (received events)

read_events-received :
    (es : List String)
    → All (λ e. is_payload e ≡ true) es
    → read_events (received (map framed es)) ≡ es
unfolding read_events split read_lines
read_events-received [] good = refl
read_events-received (e ∷ es) good =
    read_events-framed e (received (map framed es)) good.0
    ∙ ap (◌∷◌ e) (read_events-received es good.1)

-- `writeToRequests` for one event after another.
abbrev pub write_all : List String → Requests → Requests
write_all [] clients = clients
write_all (e ∷ es) clients = write_all es (write_to_requests e clients)

events_of-write_to_requests :
    (e : String) (req : ℕ) (clients : Requests) (waiting : List String)
    → events_of req clients ≡ some waiting
    → length waiting < stream_event_buffer_size
    → events_of req (write_to_requests e clients) ≡ some (waiting ++ framed e ∷ [])
unfolding write_to_requests
events_of-write_to_requests e req clients waiting channel room =
    let fits : ltb (length waiting) stream_event_buffer_size ≡ true = ground arith in
    write_loop_lem (framed e) req clients ∙ rw (channel, fits) refl

events_of-write_all :
    (es : List String) (req : ℕ) (clients : Requests) (waiting : List String)
    → events_of req clients ≡ some waiting
    → length waiting + length es ≤ stream_event_buffer_size
    → events_of req (write_all es clients) ≡ some (waiting ++ map framed es)
events_of-write_all [] req clients waiting channel room = rw (list_append-nil) channel
events_of-write_all (e ∷ es) req clients waiting channel room =
    let next = events_of-write_to_requests e req clients waiting channel (omega arith) in
    rw (← list_append_assoc waiting (framed e ∷ []) (map framed es)) (
      events_of-write_all es req (write_to_requests e clients) (waiting ++ framed e ∷ []) next
        (omega (arith, length-append waiting (framed e ∷ []))))

-- At most ten events, none with a line feed or a space in front, that are written while nothing
-- waits in a client's channel: the client that reads its channel to the end, as an event stream is
-- read, has these events, in their order.
pub read_events-write_all :
    (es : List String) (req : ℕ) (clients : Requests)
    → events_of req clients ≡ some []
    → length es ≤ stream_event_buffer_size
    → All (λ e. is_payload e ≡ true) es
    → (waiting : List String) × (events_of req (write_all es clients) ≡ some waiting)
      × (read_events (received waiting) ≡ es)
read_events-write_all es req clients channel room good = (
  map framed es,
  events_of-write_all es req clients [] channel (omega arith),
  read_events-received es good,
)
