-- ===== src/Runtime/Interactive/Life.antt =====
-- `run_interactive_session` of interactive.py around its two tasks: from the first message to the
-- clean-up.
use xolis.Base.{
  ℕ, ◌+◌, Bool, true, false, ◌&&◌, not, Option, none, some, List, [], ◌∷◌, ◌++◌, take, string_eq,
  if◌then◌else◌,
}
use xolis.Base.Int.{ℤ, pos}
use xolis.Base.Result.{Result, ok, err}
use xolis.Runtime.{RuntimeSettings}
use xolis.Runtime.Command.{InvalidCommand}
use xolis.Runtime.Process.{exit_status}
use xolis.Runtime.Interactive.{
  ClientMessage, InputState, OutputResult, PtyRead, Raised, ServerMessage, Session, Size,
  StartMessage, read_start, receive_input, resize_terminal, send_output, started, command_error,
  other_error, timeout, exit, output_limit, invalid, other, disconnected, waiting, returned, failed,
}

pub data ChildState : Type 0 where
  no_child running reaped : ChildState

-- What the session holds of the system.
pub record Resources : Type 0 where
  pub master_open : Bool
  pub slave_open : Bool
  pub child : ChildState
  pub kills : ℕ

-- What raises from the kill on: a cancellation before the process is reaped, or the sending of a last
-- message, behind so many others.
pub data Late : Type 0 where
  unreaped : Raised → Late
  unsent : ℕ → Raised → Late

-- The world that a session meets.
pub record World : Type 0 where
  -- the first message, or what is raised before anything is held: by waiting for the message, by
  -- `mkdir` or by `openpty`
  pub first : Result Raised StartMessage
  -- the process id, unless `create_subprocess_exec` raises
  pub spawned : Option ℕ
  -- what the two tasks see until `asyncio.wait` returns, and whether the process has ended by then
  pub reads : List PtyRead
  pub inputs : List ClientMessage
  pub exited : Bool
  pub returncode : Option ℤ
  -- what the sending of the start message raises, and what else raises before a kill: the output
  -- task, or a cancellation
  pub announcing : Option Raised
  pub interrupted : Option Raised
  pub late : Option Late
  -- what the sending of the error message raises
  pub complaining : Option Raised

-- The `try` block: what it sends, how it ends, and what it holds then.
pub record Body : Type 0 where
  pub messages : List ServerMessage
  pub ended : Result Raised (Unit {0})
  pub resources : Resources

abbrev pub is_waiting : InputState → Bool
is_waiting waiting = true
is_waiting _ = false

abbrev pub is_pending : Option OutputResult → Bool
is_pending none = true
is_pending (some r) = false

-- `timed_out = not done`
unfoldable pub timed_out : InputState → Option OutputResult → Bool → Bool
timed_out input_state output_result exited =
    is_waiting input_state && is_pending output_result && not exited

abbrev pub hit_limit : Option OutputResult → Bool
hit_limit (some output_limit) = true
hit_limit _ = false

abbrev pub is_returned : InputState → Bool
is_returned (returned r) = true
is_returned _ = false

unfoldable pub exit_code : InputState → Option OutputResult → Bool → Option ℤ → ℤ
unfolding timed_out
exit_code input_state output_result exited returncode =
    if timed_out input_state output_result exited
    then pos 124
    else if is_returned input_state
    then pos 130
    else if hit_limit output_result
    then pos 125
    else exit_status returncode

unfoldable pub last_messages :
    ℤ → InputState → Option OutputResult → Bool → Option ℤ → List ServerMessage
unfolding exit_code
last_messages ttl input_state output_result exited returncode =
    let code = exit (exit_code input_state output_result exited returncode) in
    if timed_out input_state output_result exited then timeout ttl ∷ code ∷ [] else code ∷ []

abbrev pub with_child : ChildState → ℕ → Resources
with_child c n = record { master_open = true; slave_open = false; child = c; kills = n }

-- The process is left as it is, ended by itself or running.
abbrev pub left_alone : List ServerMessage → Raised → Bool → Body
left_alone sent r exited = record {
  messages = sent;
  ended = err r;
  resources = with_child (if exited then reaped else running) 0;
}

-- The kill, if the process has not ended, and the last messages.
abbrev pub wrap_up : Option Late → List ServerMessage → List ServerMessage → Bool → Body
wrap_up none sent last exited = record {
  messages = sent ++ last;
  ended = ok tt;
  resources = with_child reaped (if exited then 0 else 1);
}
wrap_up (some (unreaped r)) sent last exited = record {
  messages = sent;
  ended = err r;
  resources = if exited then with_child reaped 0 else with_child running 1;
}
wrap_up (some (unsent n r)) sent last exited = record {
  messages = sent ++ take n last;
  ended = err r;
  resources = with_child reaped (if exited then 0 else 1);
}

-- From the first task that is done, or the end of the time to live, to the end of the `try` block.
unfoldable pub conclude :
    Option Late → ℤ → List ServerMessage → InputState → Option OutputResult → Bool → Option ℤ → Body
unfolding last_messages
conclude late ttl sent (failed r) output_result exited returncode = left_alone sent r exited
conclude late ttl sent input_state output_result exited returncode =
    wrap_up late sent (last_messages ttl input_state output_result exited returncode) exited

-- A step that may raise first.
abbrev pub unless : Option Raised → List ServerMessage → Bool → Body → Body
unless (some r) sent exited body = left_alone sent r exited
unless none sent exited body = body

unfoldable pub converse : RuntimeSettings → World → ℤ → ℕ → Body
unfolding send_output receive_input conclude
converse settings world ttl pid =
    let output = send_output settings.maximum_output_bytes 0 world.reads in
    let received = receive_input world.inputs in
    let sent = started pid ∷ (output.messages ++ received.messages) in
    unless world.announcing [] world.exited (
      unless world.interrupted sent world.exited
        (conclude world.late ttl sent received.state output.result world.exited world.returncode))

abbrev pub nothing_held : Resources
nothing_held = record { master_open = false; slave_open = false; child = no_child; kills = 0 }

-- `create_subprocess_exec`, and the `finally` that closes the slave.
abbrev pub spawn_process : RuntimeSettings → World → ℤ → Option ℕ → Body
spawn_process settings world ttl none = record {
  messages = [];
  ended = err other;
  resources = with_child no_child 0;
}
spawn_process settings world ttl (some pid) = converse settings world ttl pid

-- The terminal is open on both sides when its size is set.
abbrev pub with_terminal : RuntimeSettings → World → ℤ → Result InvalidCommand Size → Body
with_terminal settings world ttl (err e) = record {
  messages = [];
  ended = err (invalid e);
  resources = record { master_open = true; slave_open = true; child = no_child; kills = 0 };
}
with_terminal settings world ttl (ok size) = spawn_process settings world ttl world.spawned

abbrev pub begin_session : RuntimeSettings → World → Result InvalidCommand Session → Body
begin_session settings world (err e) = record {
  messages = [];
  ended = err (invalid e);
  resources = nothing_held;
}
begin_session settings world (ok session) =
    with_terminal settings world session.ttl_seconds (resize_terminal session.size)

unfoldable pub try_session : RuntimeSettings → World → Result Raised StartMessage → Body
unfolding read_start resize_terminal converse
try_session settings world (err r) = record {
  messages = [];
  ended = err r;
  resources = nothing_held;
}
try_session settings world (ok start) = begin_session settings world (read_start settings start)

pub record SessionEnd : Type 0 where
  pub messages : List ServerMessage
  -- what the coroutine raises
  pub raises : Option Raised
  pub resources : Resources

abbrev pub kill_running : ChildState → ℕ → Resources → Resources
kill_running running n r = record r { child = reaped; kills = n + 1 }
kill_running _ n r = r

-- `finally`: the process is killed if it runs, and the master is closed. It is not cancelled itself.
unfoldable pub clean_up : Resources → Resources
clean_up r = record (kill_running r.child r.kills r) { master_open = false }

-- `send_json` in an `except` clause, which may raise in its turn.
abbrev pub complain : Option Raised → List ServerMessage → ServerMessage → Resources → SessionEnd
complain none sent message r = record {
  messages = sent ++ (message ∷ []);
  raises = none;
  resources = r;
}
complain (some e) sent message r = record { messages = sent; raises = some e; resources = r }

-- The `except` clauses.
abbrev pub handle :
    Option Raised → List ServerMessage → Result Raised (Unit {0}) → Resources → SessionEnd
handle complaining sent (ok u) r = record { messages = sent; raises = none; resources = r }
handle complaining sent (err (invalid e)) r = complain complaining sent (command_error e) r
handle complaining sent (err other) r = complain complaining sent other_error r
handle complaining sent (err disconnected) r = record {
  messages = sent;
  raises = some disconnected;
  resources = r;
}

unfoldable pub run_interactive_session : RuntimeSettings → World → SessionEnd
unfolding try_session clean_up
run_interactive_session settings world =
    let body = try_session settings world world.first in
    handle world.complaining body.messages body.ended (clean_up body.resources)
