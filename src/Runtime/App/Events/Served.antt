-- ===== src/Runtime/App/Events/Served.antt =====
-- The body that the route `/execute/stream` of app.py serves, as its client reads it.
use xolis.Base.{
  ◌≡◌, ◌<◌, inl, inr, Bool, true, false, List, [], ◌∷◌, ◌++◌, map, some, arith, All, Bool-cases,
}
use xolis.Base.Int.{ℤ}
use xolis.Base.Result.{Result, ok, err}
use xolis.Text.{Text, codes}
use xolis.Text.Decimal.{decimal_ℤ}
use xolis.Text.Decimal.ReadBack.{IsSignOrDigit, decimal_ℤ-IsSignOrDigit}
use xolis.Text.Utf8.RoundTrip.{IsScalar, low_plane}
use xolis.Text.Utf8.Scalars.{decode-IsScalar, All-join}
use xolis.Runtime.{RuntimeSettings}
use xolis.Runtime.Command.{InvalidCommand, parse_command}
use xolis.Runtime.Execute.{timeout_message}
use xolis.Runtime.Stream.{
  CommandEvent, Action, Running, StreamSpawn, os_error, started, Piece, stream_command,
  spawned_actions, process_actions, piece_actions, tail_actions, drained_from,
}
use xolis.Runtime.App.{ExecuteRequest, events, execute_stream, answer_stream, stream_events}
use xolis.Runtime.App.Events.{encode_events}
use xolis.Runtime.App.Events.Client.{IsReadable, read_events}
use xolis.Runtime.App.Events.RoundTrip.{read_events-encode_events}

-- The text of the operating system's error, where there is one.
abbrev pub HasReadableError : StreamSpawn → Type 0
HasReadableError (os_error message) = All IsScalar message
HasReadableError (started p) = Unit

low : (t : Text) → All (λ c. c < 0x80) t → All IsScalar t
low [] h = tt
low (c ∷ t) h = (low_plane (omega arith), low t h.1)

signs : (t : Text) → All IsSignOrDigit t → All IsScalar t
signs [] h = tt
signs (c ∷ t) h = (low_plane (omega arith), signs t h.1)

timeout_message-IsScalar : (seconds : ℤ) → All IsScalar (timeout_message seconds)
unfolding timeout_message
timeout_message-IsScalar seconds =
    All-join (codes "command timed out after ") (decimal_ℤ seconds ++ codes " seconds")
      (low (codes "command timed out after ") (omega arith))
      (All-join (decimal_ℤ seconds) (codes " seconds")
        (signs (decimal_ℤ seconds) (decimal_ℤ-IsSignOrDigit seconds))
        (low (codes " seconds") (omega arith)))

tail-IsReadable :
    (seconds : ℤ) (p : Running) (timed_out : Bool)
    → All IsReadable (events (tail_actions seconds p timed_out))
unfolding tail_actions
tail-IsReadable seconds p true = (timeout_message-IsScalar seconds, (tt, tt))
tail-IsReadable seconds p false = elim (Bool-cases p.exits_in_time) [
  | inl e ↦ rw e (tt, tt)
  | inr e ↦ rw e (timeout_message-IsScalar seconds, (tt, tt))
]

pieces-IsReadable :
    (ps : List Piece) (more : List Action)
    → All IsReadable (events more)
    → All IsReadable (events (piece_actions ps ++ more))
unfolding piece_actions
pieces-IsReadable [] more h = h
pieces-IsReadable (p ∷ ps) more h = (decode-IsScalar p.content, pieces-IsReadable ps more h)

spawned-IsReadable :
    (settings : RuntimeSettings) (seconds : ℤ) (child : StreamSpawn)
    → HasReadableError child
    → All IsReadable (events (spawned_actions settings seconds child))
unfolding process_actions
spawned-IsReadable settings seconds (os_error message) h = (
  All-join (codes "Failed to execute command: ") message
      (low (codes "Failed to execute command: ") (omega arith)) h,
  tt,
)
spawned-IsReadable settings seconds (started p) h =
    let drained = drained_from settings p in
    (
      tt,
      pieces-IsReadable drained.pieces (tail_actions seconds p drained.timed_out)
          (tail-IsReadable seconds p drained.timed_out),
    )

answered :
    (sent served : List CommandEvent)
    → answer_stream sent ≡ ok served
    → All IsReadable sent
    → All IsReadable served
answered [] served e h = absurd (ground arith)
answered (first ∷ rest) served e h = let q : served ≡ first ∷ rest = cc in rw q h

module _ (settings : RuntimeSettings) (seconds : ℤ) (child : StreamSpawn)
    (readable : HasReadableError child) where
  served_read :
      (served : List CommandEvent) (r : Result InvalidCommand (List Text))
      → stream_events
          (elim r [ err e ↦ err e | ok args ↦ ok (spawned_actions settings seconds child) ])
        ≡ ok served
      → read_events (encode_events served) ≡ map some served
  served_read served (err e) q = absurd cc
  served_read served (ok args) q = read_events-encode_events served (
      answered (events (spawned_actions settings seconds child)) served q
        (spawned-IsReadable settings seconds child readable))

-- From the body that the route serves for a command, a client reads the very events of the command,
-- whatever bytes it wrote, unless the message of an error of the operating system has surrogates.
pub execute_stream-read :
    (settings : RuntimeSettings) (request : ExecuteRequest) (child : StreamSpawn)
    (served : List CommandEvent)
    → HasReadableError child
    → execute_stream settings request child ≡ ok served
    → read_events (encode_events served) ≡ map some served
unfolding execute_stream stream_command
execute_stream-read settings request child served h e =
    served_read settings request.timeout_seconds child h served
      (parse_command settings request.command request.timeout_seconds) e
