-- ===== src/Runtime/App/Events/Client.antt =====
-- A client of the event stream of app.py: it takes the events back from the body.
use xolis.Base.{
  Bool, Option, none, some, List, [], ◌∷◌, ◌++◌, map, All, ◌==◌, nat_eq, list_eq, if◌then◌else◌,
}
use xolis.Base.Int.{ℤ, pos_part}
use xolis.Text.{Text, codes}
use xolis.Text.Decimal.ReadBack.{read_number}
use xolis.Text.Json.{read_string, new_reader}
use xolis.Text.Utf8.RoundTrip.{IsScalar}
use xolis.Runtime.Stream.{stdout, stderr, CommandEvent, error, start, output, timeout, exit}

-- A message of the stream, by the rules for `text/event-stream`.
pub record Message : Type 0 where
  pub name : Text
  pub payload : Text

-- The lines of a text; what follows the last newline is dropped.
unfoldable pub lines_from : Text → Text → List Text
lines_from line [] = []
lines_from line (c ∷ s) =
    let rest = lines_from (if c == 10 then [] else line ++ (c ∷ [])) s in
    if c == 10 then line ∷ rest else rest

unfoldable pub after : Text → Text → Option Text
after [] s = some s
after (p ∷ prefix) [] = none
after (p ∷ prefix) (c ∷ s) = let rest = after prefix s in if p == c then rest else none

abbrev pub or_else : Text → Option Text → Text
or_else old none = old
or_else old (some s) = s

-- An empty line dispatches the message that the lines before it made.
unfoldable pub dispatch : Text → Text → List Text → List Message
unfolding after
dispatch name payload [] = []
dispatch name payload ([] ∷ lines) =
    record { name = name; payload = payload } ∷ dispatch [] [] lines
dispatch name payload ((c ∷ line) ∷ lines) =
    dispatch (or_else name (after (codes "event: ") (c ∷ line)))
      (or_else payload (after (codes "data: ") (c ∷ line))) lines

-- The value behind a key, up to the brace that ends the object.
unfoldable pub up_to_brace : Text → Text
up_to_brace [] = []
up_to_brace (c ∷ s) = let rest = up_to_brace s in if c == 125 then [] else c ∷ rest

abbrev pub opening : Text → Text
opening key = 123 ∷ 34 ∷ (key ++ (34 ∷ 58 ∷ []))

unfoldable pub read_field : Text → Text → ℤ
unfolding up_to_brace read_number after
read_field key json = read_number (up_to_brace (or_else [] (after (opening key) json)))

unfoldable pub read_text : Text → Text → Text
unfolding after read_string
read_text key json =
    or_else [] (
      read_string new_reader (or_else [] (after (34 ∷ []) (or_else [] (after (opening key) json)))))

unfoldable pub is_named : Text → Message → Bool
unfolding after
is_named name m = name == m.name

unfoldable pub event_of : Message → Option CommandEvent
unfolding is_named read_field read_text
event_of m =
    if is_named (codes "error") m
    then some (error (read_text (codes "message") m.payload))
    else if is_named (codes "start") m
    then some (start (pos_part (read_field (codes "pid") m.payload)))
    else if is_named (codes "stdout") m
    then some (output stdout (read_text (codes "data") m.payload))
    else if is_named (codes "stderr") m
    then some (output stderr (read_text (codes "data") m.payload))
    else if is_named (codes "timeout") m
    then some (timeout (read_text (codes "message") m.payload))
    else if is_named (codes "exit") m
    then some (exit (read_field (codes "exit_code") m.payload))
    else none

-- The events that a client makes of a body.
unfoldable pub read_events : Text → List (Option CommandEvent)
unfolding lines_from dispatch event_of
read_events body = map event_of (dispatch [] [] (lines_from [] body))

-- The texts of an event are Unicode scalar values.
abbrev pub IsReadable : CommandEvent → Type 0
IsReadable (error message) = All IsScalar message
IsReadable (start pid) = Unit
IsReadable (output name text) = All IsScalar text
IsReadable (timeout message) = All IsScalar message
IsReadable (exit code) = Unit
