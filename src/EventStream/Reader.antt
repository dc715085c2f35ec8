-- ===== src/EventStream/Reader.antt =====
-- hystrix/eventstream.go: the text that `writeToRequests` sends, read back as an event stream is
-- read: lines that end with a line feed, `data:` lines whose value belongs to the event, and an
-- empty line that ends it. Carriage returns, other fields and byte order marks, which the program
-- never sends, are left out.
pub mod RoundTrip
use Prim.Native.Char.{Char, code}
use Prim.Native.String
use Prim.Native.String.{String}
use text.Mathlib.TextLemmas.{nil-append, cons-append, append_assoc}
use hystrix_go.Base.{
  ℕ, ◌+◌, ◌≤◌, ◌≡◌, refl, Bool, true, false, not, ◌&&◌, Option, none, some, List, [], ◌∷◌, ◌++◌,
  ◌==◌, if◌then◌else◌, length, length-append, ltb, ◌<◌, map, All, arith, by_cases, ap, ◌∙◌, sym,
}
use mathlib.Core.List.{append_assoc as list_append_assoc, append-nil as list_append-nil}
use hystrix_go.EventStream.{Requests, stream_event_buffer_size, events_of, write_to_requests}
use hystrix_go.EventStream.Clients.{framed, write_loop_lem}

abbrev pub is_end : Char → Bool
is_end c = code c == 10

-- The text up to the first line feed, and the texts between the line feeds after that. The last
-- one is not ended.
unfoldable pub split : String → String × List String
split String.[] = (String.[], [])
split (String.◌∷◌ c s) =
    let rest = split s in
    if is_end c then (String.[], rest.0 ∷ rest.1) else (String.◌∷◌ c rest.0, rest.1)

-- What follows a prefix.
unfoldable pub after_prefix : String → String → Option String
after_prefix String.[] s = some s
after_prefix (String.◌∷◌ c p) String.[] = none
after_prefix (String.◌∷◌ c p) (String.◌∷◌ d s) =
    let rest = after_prefix p s in if code c == code d then rest else none

-- One space after the colon is not part of the value.
unfoldable pub drop_space : String → String
drop_space String.[] = String.[]
drop_space (String.◌∷◌ c s) = if code c == 32 then s else String.◌∷◌ c s

abbrev pub add_line : Option String → String → Option String
add_line none value = some value
add_line (some buffer) value = some (String.◌++◌ buffer (String.◌++◌ "\n" value))

abbrev pub add_value : Option String → Option String → Option String
add_value buffer none = buffer
add_value buffer (some value) = add_line buffer (drop_space value)

-- The data of the event so far after a line, and the event that it ends.
unfoldable pub take_line : Option String → String → Option String × List String
take_line none String.[] = (none, [])
take_line (some buffer) String.[] = (none, buffer ∷ [])
take_line buffer (String.◌∷◌ c s) = (add_value buffer (after_prefix "data:" (String.◌∷◌ c s)), [])

unfoldable pub read_lines : Option String → String → List String → List String
read_lines buffer line [] = []
read_lines buffer line (next ∷ rest) =
    let taken = take_line buffer line in
    let later = read_lines taken.0 next rest in taken.1 ++ later

-- The events of a text.
unfoldable pub read_events : String → List String
unfolding split read_lines
read_events s = let lines = split s in read_lines none lines.0 lines.1

-- No line feed.
unfoldable pub is_line : String → Bool
is_line String.[] = true
is_line (String.◌∷◌ c s) = let rest = is_line s in if is_end c then false else rest

-- A text without a line feed that does not begin with a space, such as JSON is as Go writes it.
unfoldable pub is_payload : String → Bool
unfolding is_line
is_payload String.[] = true
is_payload (String.◌∷◌ c s) = not (code c == 32) && is_line (String.◌∷◌ c s)
