-- ===== src/Runtime/App/Events/RoundTrip.antt =====
-- A client of the event stream reads the events that app.py sent.
use mathlib.Core.Path.{ap₂}
use xolis.Base.{
  ◌≡◌, refl, ap, sym, ◌∙◌, true, false, some, List, [], ◌∷◌, ◌++◌, map, append_assoc, append-nil,
  All, arith, ◌==◌, nat_eq, list_eq,
}
use xolis.Base.Int.{ℤ, pos, pos_part}
use xolis.Text.{Text, codes}
use xolis.Text.Decimal.{decimal_ℤ}
use xolis.Text.Decimal.ReadBack.{
  read_number, read_number-decimal_ℤ, IsSignOrDigit, decimal_ℤ-IsSignOrDigit,
}
use xolis.Text.Json.{escape_all, dump_string, read_string, new_reader}
use xolis.Text.Utf8.RoundTrip.{IsScalar}
use xolis.Text.Json.RoundTrip.{IsPrintable, read_string-dump, All-append, dump_string-IsPrintable}
use xolis.Runtime.Stream.{stdout, stderr, CommandEvent, error, start, output, timeout, exit}
use xolis.Runtime.App.Events.{event_name, object, event_json, frame, encode_events}
use xolis.Runtime.App.Events.Client.{
  lines_from, after, or_else, dispatch, up_to_brace, opening, read_field, read_text, is_named,
  event_of, read_events, IsReadable,
}

after-append : (prefix s : Text) → after prefix (prefix ++ s) ≡ some s
unfolding after
after-append [] s = refl
after-append (p ∷ prefix) s = let e : (p == p) ≡ true = ground arith in rw e (after-append prefix s)

lines_from-line :
    (line text s : Text)
    → All IsPrintable text
    → lines_from line (text ++ (10 ∷ s)) ≡ (line ++ text) ∷ lines_from [] s
unfolding lines_from
lines_from-line line [] s h = ap (λ l. l ∷ lines_from [] s) (sym (append-nil line))
lines_from-line line (c ∷ text) s h =
    let e : (c == 10) ≡ false = ground arith in
    rw e (
      lines_from-line (line ++ (c ∷ [])) text s h.1
      ∙ ap (λ l. l ∷ lines_from [] s) (append_assoc line (c ∷ []) text))

frame-eq :
    (name json s : Text)
    → frame name json ++ s
      ≡ (codes "event: " ++ name) ++ (10 ∷ ((codes "data: " ++ json) ++ (10 ∷ 10 ∷ s)))
unfolding frame
frame-eq name json s =
    ap (λ t. codes "event: " ++ t)
      (append_assoc name (10 ∷ (codes "data: " ++ (json ++ (10 ∷ 10 ∷ [])))) s
        ∙ ap (λ t. name ++ (10 ∷ (codes "data: " ++ t))) (append_assoc json (10 ∷ 10 ∷ []) s))

lines_from-frame :
    (name json s : Text)
    → All IsPrintable name
    → All IsPrintable json
    → lines_from [] (frame name json ++ s)
      ≡ (codes "event: " ++ name) ∷ (codes "data: " ++ json) ∷ [] ∷ lines_from [] s
unfolding lines_from
lines_from-frame name json s h k =
    ap (lines_from []) (frame-eq name json s)
    ∙ (lines_from-line [] (codes "event: " ++ name) ((codes "data: " ++ json) ++ (10 ∷ 10 ∷ s))
          (All-append (codes "event: ") name (omega arith) h)
        ∙ ap (λ l. (codes "event: " ++ name) ∷ l)
            (lines_from-line [] (codes "data: " ++ json) (10 ∷ s)
              (All-append (codes "data: ") json (omega arith) k)))

dispatch-frame :
    (name json : Text) (lines : List Text)
    → dispatch [] [] ((codes "event: " ++ name) ∷ (codes "data: " ++ json) ∷ [] ∷ lines)
      ≡ record { name = name; payload = json } ∷ dispatch [] [] lines
unfolding dispatch after
dispatch-frame name json lines = refl

object-opening :
    (key value : Text)
    → escape_all key ≡ key
    → object key value ≡ opening key ++ (value ++ (125 ∷ []))
unfolding object dump_string
object-opening key value h =
    ap (λ k. 123 ∷ 34 ∷ ((k ++ (34 ∷ [])) ++ (58 ∷ (value ++ (125 ∷ []))))) h
    ∙ ap (λ t. 123 ∷ 34 ∷ t)
        (append_assoc key (34 ∷ []) (58 ∷ (value ++ (125 ∷ [])))
          ∙ sym (append_assoc key (34 ∷ 58 ∷ []) (value ++ (125 ∷ []))))

after-object :
    (key value : Text)
    → escape_all key ≡ key
    → or_else [] (after (opening key) (object key value)) ≡ value ++ (125 ∷ [])
after-object key value h =
    ap (λ t. or_else [] (after (opening key) t)) (object-opening key value h)
    ∙ ap (or_else []) (after-append (opening key) (value ++ (125 ∷ [])))

read_text-object :
    (key text : Text)
    → escape_all key ≡ key
    → All IsScalar text
    → read_text key (object key (dump_string text)) ≡ text
unfolding read_text dump_string after
read_text-object key text h v =
    ap (λ t. or_else [] (read_string new_reader (or_else [] (after (34 ∷ []) t))))
      (after-object key (dump_string text) h)
    ∙ (ap (λ t. or_else [] (read_string new_reader t))
          (append_assoc (escape_all text) (34 ∷ []) (125 ∷ []))
        ∙ ap (or_else []) (read_string-dump text (125 ∷ []) v))

up_to_brace-append : (s : Text) → All IsSignOrDigit s → up_to_brace (s ++ (125 ∷ [])) ≡ s
unfolding up_to_brace
up_to_brace-append [] h = refl
up_to_brace-append (c ∷ s) h =
    let e : (c == 125) ≡ false = ground arith in rw e (ap (λ t. c ∷ t) (up_to_brace-append s h.1))

read_field-object :
    (key : Text) (z : ℤ) → escape_all key ≡ key → read_field key (object key (decimal_ℤ z)) ≡ z
unfolding read_field
read_field-object key z h =
    ap (λ t. read_number (up_to_brace t)) (after-object key (decimal_ℤ z) h)
    ∙ (ap read_number (up_to_brace-append (decimal_ℤ z) (decimal_ℤ-IsSignOrDigit z))
        ∙ read_number-decimal_ℤ z)

event_name-IsPrintable : (e : CommandEvent) → All IsPrintable (event_name e)
event_name-IsPrintable (error message) = omega arith
event_name-IsPrintable (start pid) = omega arith
event_name-IsPrintable (output stdout text) = omega arith
event_name-IsPrintable (output stderr text) = omega arith
event_name-IsPrintable (timeout message) = omega arith
event_name-IsPrintable (exit code) = omega arith

object-IsPrintable : (key value : Text) → All IsPrintable value → All IsPrintable (object key value)
unfolding object
object-IsPrintable key value k = (
  omega arith,
  All-append (dump_string key) (58 ∷ (value ++ (125 ∷ []))) (dump_string-IsPrintable key)
      (omega arith, All-append value (125 ∷ []) k (omega arith)),
)

wider : (s : Text) → All IsSignOrDigit s → All IsPrintable s
wider [] h = tt
wider (c ∷ s) h = (omega arith, wider s h.1)

decimal_ℤ-IsPrintable : (z : ℤ) → All IsPrintable (decimal_ℤ z)
decimal_ℤ-IsPrintable z = wider (decimal_ℤ z) (decimal_ℤ-IsSignOrDigit z)

event_json-IsPrintable : (e : CommandEvent) → All IsPrintable (event_json e)
unfolding event_json decimal_ℤ
event_json-IsPrintable (error message) =
    object-IsPrintable (codes "message") (dump_string message) (dump_string-IsPrintable message)
event_json-IsPrintable (start pid) =
    object-IsPrintable (codes "pid") (decimal_ℤ (pos pid)) (decimal_ℤ-IsPrintable (pos pid))
event_json-IsPrintable (output name text) =
    object-IsPrintable (codes "data") (dump_string text) (dump_string-IsPrintable text)
event_json-IsPrintable (timeout message) =
    object-IsPrintable (codes "message") (dump_string message) (dump_string-IsPrintable message)
event_json-IsPrintable (exit code) =
    object-IsPrintable (codes "exit_code") (decimal_ℤ code) (decimal_ℤ-IsPrintable code)

-- An event that is framed is the event that a client reads.
event_of-frame :
    (e : CommandEvent)
    → IsReadable e
    → event_of (record { name = event_name e; payload = event_json e }) ≡ some e
unfolding event_of is_named event_json escape_all decimal_ℤ
event_of-frame (error message) v =
    ap (λ t. some (error t)) (read_text-object (codes "message") message refl v)
event_of-frame (start pid) v =
    ap (λ z. some (start (pos_part z))) (read_field-object (codes "pid") (pos pid) refl)
event_of-frame (output stdout text) v =
    ap (λ t. some (output stdout t)) (read_text-object (codes "data") text refl v)
event_of-frame (output stderr text) v =
    ap (λ t. some (output stderr t)) (read_text-object (codes "data") text refl v)
event_of-frame (timeout message) v =
    ap (λ t. some (timeout t)) (read_text-object (codes "message") message refl v)
event_of-frame (exit code) v =
    ap (λ z. some (exit z)) (read_field-object (codes "exit_code") code refl)

-- A client reads from the body of a stream the very events that were sent.
pub read_events-encode_events :
    (events : List CommandEvent)
    → All IsReadable events
    → read_events (encode_events events) ≡ map some events
unfolding read_events encode_events
read_events-encode_events [] v = refl
read_events-encode_events (e ∷ events) v =
    ap (λ l. map event_of (dispatch [] [] l))
      (lines_from-frame (event_name e) (event_json e) (encode_events events)
        (event_name-IsPrintable e) (event_json-IsPrintable e))
    ∙ (ap (map event_of)
          (dispatch-frame (event_name e) (event_json e) (lines_from [] (encode_events events)))
        ∙ ap₂ (λ o l. o ∷ l) (event_of-frame e v.0) (read_events-encode_events events v.1))
