-- ===== src/Runtime/App/Events.antt =====
-- The body of `/execute/stream`: the events as server-sent events with compact JSON, and a client of it.
pub mod Client
pub mod RoundTrip
pub mod Served
use xolis.Base.{
  ℕ, ◌≡◌, refl, ap, sym, ◌∙◌, Bool, true, false, Option, none, some, List, [], ◌∷◌, ◌++◌, map,
  append_assoc, append-nil, All, arith, ◌==◌, nat_eq, if◌then◌else◌,
}
use xolis.Base.Int.{ℤ, pos_part}
use xolis.Text.{Text, codes}
use xolis.Text.Decimal.{decimal, decimal_ℤ}
use xolis.Text.Json.{dump_string}
use xolis.Runtime.Stream.{
  StreamName, stdout, stderr, CommandEvent, error, start, output, timeout, exit,
}

-- `event.event`
abbrev pub event_name : CommandEvent → Text
event_name (error message) = codes "error"
event_name (start pid) = codes "start"
event_name (output stdout text) = codes "stdout"
event_name (output stderr text) = codes "stderr"
event_name (timeout message) = codes "timeout"
event_name (exit code) = codes "exit"

-- `json.dumps({key: value}, separators=(',', ':'))`, the value already dumped
unfoldable pub object : Text → Text → Text
unfolding dump_string
object key value = 123 ∷ (dump_string key ++ (58 ∷ (value ++ (125 ∷ []))))

-- `json.dumps(event.data, separators=(',', ':'))`
unfoldable pub event_json : CommandEvent → Text
unfolding object
event_json (error message) = object (codes "message") (dump_string message)
event_json (start pid) = object (codes "pid") (decimal pid)
event_json (output name text) = object (codes "data") (dump_string text)
event_json (timeout message) = object (codes "message") (dump_string message)
event_json (exit code) = object (codes "exit_code") (decimal_ℤ code)

unfoldable pub frame : Text → Text → Text
frame name json = codes "event: " ++ (name ++ (10 ∷ (codes "data: " ++ (json ++ (10 ∷ 10 ∷ [])))))

-- What `encode_events` yields, in one text.
unfoldable pub encode_events : List CommandEvent → Text
unfolding frame event_json
encode_events [] = []
encode_events (e ∷ events) = frame (event_name e) (event_json e) ++ encode_events events
