-- ===== src/Hermes/Session.antt =====
-- `interactive_session` of tools/hermes_demo.py: the client's side of a session.
pub mod Restored
pub mod Traffic
pub mod Typed
use xolis.Base.{
  ℕ, Bool, true, false, not, ◌&&◌, ◌||◌, Option, none, some, List, [], ◌∷◌, ◌++◌, length,
  if◌then◌else◌,
}
use xolis.Base.Int.{ℤ, pos}
use xolis.Text.{Text, codes}
use xolis.Text.Shlex.{join}
use xolis.Runtime.{Bytes}
use xolis.Runtime.Interactive.{Size}

-- What the client sends, each in one frame: JSON with the bytes in base64, or the reply to a ping.
pub data Sent : Type 0 where
  start : Text → ℤ → Size → Sent
  resize : Size → Sent
  input : Bytes → Sent
  close cancel : Sent
  pong : Bytes → Sent

-- The JSON of a text frame, by its type; a field that is missing or has no use is `none`.
pub data Message : Type 0 where
  output : Option Bytes → Message
  exit : Option ℤ → Message
  error timeout other : Message
  not_json : Message

pub data Incoming : Type 0 where
  text : Message → Incoming
  ping : Bytes → Incoming
  closing ignored : Incoming
  -- `read_frame` raises
  broken : Incoming

pub data Failure : Type 0 where
  demo_error os_error value_error keyboard_interrupt : Failure

-- What one round of the loop finds: whether the window has changed and its size, what the standard
-- input has if it is readable (nothing at its end), and the frame if the connection is readable.
pub record Found : Type 0 where
  pub resized : Bool
  pub size : Size
  pub stdin : Option Bytes
  pub frame : Option Incoming

-- A round, or what ends the loop in the middle of one: the user's interrupt, or a call of the system
-- that raises.
pub data Round : Type 0 where
  round : Found → Round
  stopped : Failure → Round

pub record Client : Type 0 where
  pub sent : List Sent
  pub stdout : Bytes

pub data Verdict : Type 0 where
  -- the session has not ended yet
  runs : Verdict
  returns : ℤ → Verdict
  raises : Failure → Verdict

pub record Ran : Type 0 where
  pub verdict : Verdict
  pub client : Client

-- Whether the connection breaks, by the number of messages that were sent.
abbrev pub Wire : Type 0
Wire = ℕ → Bool

abbrev pub fail : Failure → Client → Ran
fail e client = record { verdict = raises e; client = client }

abbrev pub send : Wire → Sent → Client → (Client → Ran) → Ran
send wire m client next =
    if wire (length client.sent)
    then fail os_error client
    else next (record client { sent = client.sent ++ (m ∷ []) })

-- `if resize_requested`
abbrev pub send_resize : Wire → Bool → Size → Client → (Client → Ran) → Ran
send_resize wire true size client next = send wire (resize size) client next
send_resize wire false size client next = next client

-- `if stdin_fd in readable`
abbrev pub send_stdin : Wire → Option Bytes → Client → (Client → Ran) → Ran
send_stdin wire none client next = next client
send_stdin wire (some []) client next = send wire close client next
send_stdin wire (some (b ∷ bs)) client next = send wire (input (b ∷ bs)) client next

abbrev pub handle_message : Message → Client → (Client → Ran) → Ran
handle_message (output (some bytes)) client next =
    next (record client { stdout = client.stdout ++ bytes })
handle_message (output none) client next = fail value_error client
handle_message (exit (some code)) client next = record { verdict = returns code; client = client }
handle_message (exit none) client next = fail value_error client
handle_message error client next = fail demo_error client
handle_message timeout client next = fail demo_error client
handle_message other client next = next client
handle_message not_json client next = fail value_error client

-- `if connection in readable`
abbrev pub handle_frame : Wire → Option Incoming → Client → (Client → Ran) → Ran
handle_frame wire none client next = next client
handle_frame wire (some closing) client next = record { verdict = returns (pos 0); client = client }
handle_frame wire (some (ping payload)) client next = send wire (pong payload) client next
handle_frame wire (some ignored) client next = next client
handle_frame wire (some broken) client next = fail demo_error client
handle_frame wire (some (text m)) client next = handle_message m client next

-- The body of `while True`; `next` is the rounds that follow.
unfoldable pub run_round : Wire → Bool → Found → Client → (Client → Ran) → Ran
run_round wire requested found client next =
    send_resize wire (requested || found.resized) found.size client (λ client.
      send_stdin wire found.stdin client (λ client. handle_frame wire found.frame client next))

unfoldable pub loop : Wire → Bool → List Round → Client → Ran
unfolding run_round
loop wire requested [] client = record { verdict = runs; client = client }
loop wire requested (stopped e ∷ rounds) client = fail e client
loop wire requested (round found ∷ rounds) client =
    run_round wire requested found client (loop wire false rounds)

-- What the session has changed of what it was given.
pub record Held : Type 0 where
  pub connection_open : Bool
  pub handler_installed : Bool
  pub terminal_raw : Bool

pub record Session : Type 0 where
  pub ran : Ran
  pub held : Held

-- How `websocket_connect` ends; it closes the connection that it raises on only if the upgrade is
-- refused.
pub data Connected : Type 0 where
  connected refused unreachable dropped : Connected

pub record World : Type 0 where
  pub connects : Connected
  pub wire : Wire
  pub size : Size
  pub is_tty : Bool
  -- whether `tcgetattr` and `setraw` work
  pub reads_attributes : Bool
  pub sets_raw : Bool
  pub rounds : List Round

pub record SessionArgs : Type 0 where
  pub ttl_seconds : ℤ
  pub hermes_model : Option Text
  pub hermes_provider : Option Text

abbrev pub hermes_command : Option Text → Option Text → List Text
hermes_command (some model) (some provider) =
    codes "hermes" ∷ codes "--model" ∷ model ∷ codes "--provider" ∷ provider ∷ []
hermes_command _ _ = codes "hermes" ∷ []

abbrev pub nothing_held : Held
nothing_held = record { connection_open = false; handler_installed = false; terminal_raw = false }

-- `except KeyboardInterrupt`, where an `OSError` of the last message is suppressed
abbrev pub interrupted : Wire → Client → Ran
interrupted wire client =
    if wire (length client.sent)
    then record { verdict = returns (pos 130); client = client }
    else record {
      verdict = returns (pos 130);
      client = record client { sent = client.sent ++ (cancel ∷ []) };
    }

-- The handlers of the `try`: the exception, and what is given back by `finally`.
abbrev pub conclude : Wire → Held → Verdict → Client → Session
conclude wire held runs client = record {
  ran = record { verdict = runs; client = client };
  held = held;
}
conclude wire held (raises keyboard_interrupt) client = record {
  ran = interrupted wire client;
  held = nothing_held;
}
conclude wire held verdict client = record {
  ran = record { verdict = verdict; client = client };
  held = nothing_held;
}

-- The `try` block.
abbrev pub try_block : World → Client → Ran
try_block world client =
    if world.is_tty && not world.sets_raw
    then fail os_error client
    else loop world.wire true world.rounds client

abbrev pub start_message : World → SessionArgs → Sent
start_message world args =
    start (join (hermes_command args.hermes_model args.hermes_provider)) args.ttl_seconds world.size

abbrev pub no_client : Client
no_client = record { sent = []; stdout = [] }

-- Where the session ends before its `try`, and the connection, if there is one, stays open.
abbrev pub before_try : Failure → Bool → Client → Session
before_try e is_open client = record {
  ran = fail e client;
  held = record nothing_held { connection_open = is_open };
}

abbrev pub after_start : World → Client → Session
after_start world client =
    if world.is_tty && not world.reads_attributes
    then before_try os_error true client
    else (let ran = try_block world client in
        conclude world.wire
          (record { connection_open = true; handler_installed = true; terminal_raw = world.is_tty })
          ran.verdict ran.client)

abbrev pub send_start : World → SessionArgs → Session
send_start world args =
    if world.wire 0
    then before_try os_error true no_client
    else after_start world (record no_client { sent = start_message world args ∷ [] })

abbrev pub after_connect : World → SessionArgs → Connected → Session
after_connect world args connected = send_start world args
after_connect world args refused = before_try demo_error false no_client
after_connect world args unreachable = before_try os_error false no_client
after_connect world args dropped = before_try demo_error true no_client

unfoldable pub interactive_session : World → SessionArgs → Session
unfolding loop
interactive_session world args = after_connect world args world.connects
