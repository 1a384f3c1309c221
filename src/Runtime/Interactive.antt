-- ===== src/Runtime/Interactive.antt =====
-- interactive.py: one session between a WebSocket client and a process on a pseudo-terminal.
pub mod Streams
pub mod Life
pub mod Cleanup
use xolis.Base.{
  ℕ, zero, suc, ◌+◌, Bool, true, false, ◌&&◌, not, Option, none, some, List, [], ◌∷◌, ◌++◌, length,
  ◌==◌, string_eq, String, if◌then◌else◌,
}
use xolis.Base.Int.{ℤ, pos, ◌-ℤ◌, leb_ℤ}
use xolis.Base.Result.{Result, ok, err, ◌>>=◌}
use xolis.Text.{Text}
use xolis.Runtime.{Bytes, RuntimeSettings}
use xolis.Runtime.Command.{
  InvalidCommand, terminal_size_out_of_range, not_a_start_message, invalid_field_types,
  parse_command,
}
use xolis.Runtime.Capture.{admitted}
use xolis.Runtime.Process.{exit_status}

pub record Size : Type 0 where
  pub rows : ℤ
  pub columns : ℤ

abbrev pub in_range : ℤ → Bool
in_range n = leb_ℤ (pos 1) n && leb_ℤ n (pos 500)

-- `_resize_terminal`: the size that the terminal gets.
unfoldable pub resize_terminal : Size → Result InvalidCommand Size
resize_terminal size =
    if in_range size.rows && in_range size.columns then ok size else err terminal_size_out_of_range

-- A field of a JSON message behind `int(...)`.
pub data Field : Type 0 where
  absent : Field
  integer : ℤ → Field
  -- `int` raises `TypeError` or `ValueError`
  no_integer : Field

abbrev pub int_or : ℤ → Field → Result InvalidCommand ℤ
int_or default absent = ok default
int_or default (integer n) = ok n
int_or default no_integer = err invalid_field_types

pub record StartMessage : Type 0 where
  pub type : Option String
  pub ttl_seconds : Field
  -- `str(start.get("command", ""))`
  pub command : Text
  pub rows : Field
  pub columns : Field

abbrev pub is_start : Option String → Bool
is_start none = false
is_start (some t) = t == "start"

pub record Session : Type 0 where
  pub ttl_seconds : ℤ
  pub arguments : List Text
  pub size : Size

-- The inner `try` of `run_interactive_session`.
unfoldable pub read_start : RuntimeSettings → StartMessage → Result InvalidCommand Session
read_start settings start = if not (is_start start.type) then err not_a_start_message else do
  ttl ← int_or (pos 300) start.ttl_seconds
  arguments ← parse_command settings start.command ttl
  rows ← int_or (pos 24) start.rows
  columns ← int_or (pos 80) start.columns
  ok (record {
    ttl_seconds = ttl;
    arguments = arguments;
    size = record { rows = rows; columns = columns };
  })

-- What goes to the client. Output is written by its bytes, which the wire carries in base64.
pub data ServerMessage : Type 0 where
  started : ℕ → ServerMessage
  output : Bytes → ServerMessage
  output_limit_error unsupported_error : ServerMessage
  command_error : InvalidCommand → ServerMessage
  -- `str(error)` of any other exception
  other_error : ServerMessage
  timeout : ℤ → ServerMessage
  exit : ℤ → ServerMessage

-- What `os.read` on the terminal does.
pub data PtyRead : Type 0 where
  chunk : Bytes → PtyRead
  read_error : PtyRead

pub data OutputResult : Type 0 where
  eof output_limit : OutputResult

pub record Sent : Type 0 where
  pub messages : List ServerMessage
  -- `none` while the task is not done
  pub result : Option OutputResult

abbrev pub send_first : ServerMessage → Sent → Sent
send_first m s = record { messages = m ∷ s.messages; result = s.result }

-- `send_output`, as far as the terminal has been read.
unfoldable pub send_output : ℤ → ℕ → List PtyRead → Sent
send_output maximum emitted [] = record { messages = []; result = none }
send_output maximum emitted (read_error ∷ reads) = record { messages = []; result = some eof }
send_output maximum emitted (chunk [] ∷ reads) = record { messages = []; result = some eof }
send_output maximum emitted (chunk (b ∷ bs) ∷ reads) =
    let kept = admitted maximum emitted (b ∷ bs) in
    let more = send_first (output kept) (send_output maximum (emitted + length kept) reads) in
    if leb_ℤ (maximum -ℤ pos emitted) (pos 0)
    then record { messages = output_limit_error ∷ []; result = some output_limit }
    else more

-- A message from the client.
pub data ClientMessage : Type 0 where
  -- the data, if it is valid base64
  input : Option Bytes → ClientMessage
  -- each field, if it is there and `int` takes it
  resize : Option ℤ → Option ℤ → ClientMessage
  cancel close : ClientMessage
  unsupported : ClientMessage
  -- the connection is gone: `receive_json` raises `WebSocketDisconnect`
  disconnect : ClientMessage

-- What the client's messages do to the terminal.
pub data TerminalAction : Type 0 where
  write : Bytes → TerminalAction
  set_size : Size → TerminalAction

pub data InputResult : Type 0 where
  cancelled closed : InputResult

pub data Raised : Type 0 where
  invalid : InvalidCommand → Raised
  other : Raised
  disconnected : Raised

pub data InputState : Type 0 where
  waiting : InputState
  returned : InputResult → InputState
  failed : Raised → InputState

pub record Received : Type 0 where
  pub actions : List TerminalAction
  pub messages : List ServerMessage
  pub state : InputState

abbrev pub act : TerminalAction → Received → Received
act a r = record r { actions = a ∷ r.actions }

abbrev pub stop : InputState → Received
stop s = record { actions = []; messages = []; state = s }

abbrev pub apply_size : Result InvalidCommand Size → Received → Received
apply_size (ok size) rest = act (set_size size) rest
apply_size (err e) rest = stop (failed (invalid e))

-- `receive_input`, as far as messages have come.
unfoldable pub receive_input : List ClientMessage → Received
unfolding resize_terminal
receive_input [] = stop waiting
receive_input (input none ∷ messages) = stop (failed other)
receive_input (input (some bytes) ∷ messages) = act (write bytes) (receive_input messages)
receive_input (resize (some rows) (some columns) ∷ messages) =
    apply_size (resize_terminal (record { rows = rows; columns = columns }))
      (receive_input messages)
receive_input (resize (some rows) none ∷ messages) = stop (failed other)
receive_input (resize none columns ∷ messages) = stop (failed other)
receive_input (cancel ∷ messages) = stop (returned cancelled)
receive_input (close ∷ messages) = stop (returned closed)
receive_input (disconnect ∷ messages) = stop (failed disconnected)
receive_input (unsupported ∷ messages) =
    let rest = receive_input messages in
    record rest { messages = unsupported_error ∷ rest.messages }
