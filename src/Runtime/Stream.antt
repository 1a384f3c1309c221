-- ===== src/Runtime/Stream.antt =====
-- `stream_command` of core.py: the events of a running command, and the clean-up behind them.
pub mod Output
pub mod Protocol
pub mod Characters
use xolis.Base.{
  ℕ, zero, suc, ◌+◌, Bool, true, false, ◌||◌, Option, List, [], ◌∷◌, ◌++◌, map, length, ltb,
  if◌then◌else◌,
}
use xolis.Base.Int.{ℤ, pos, ◌-ℤ◌, leb_ℤ}
use xolis.Base.Result.{Result, ok, err}
use xolis.Text.{Text, codes}
use xolis.Text.Utf8.{decode}
use xolis.Runtime.{Bytes, RuntimeSettings}
use xolis.Runtime.Command.{InvalidCommand, parse_command}
use xolis.Runtime.Capture.{admitted}
use xolis.Runtime.Process.{exit_status}
use xolis.Runtime.Execute.{timeout_message}

pub data StreamName : Type 0 where
  stdout stderr : StreamName

abbrev pub same : StreamName → StreamName → Bool
same stdout stdout = true
same stderr stderr = true
same _ _ = false

-- `CommandEvent`
pub data CommandEvent : Type 0 where
  error : Text → CommandEvent
  start : ℕ → CommandEvent
  output : StreamName → Text → CommandEvent
  timeout : Text → CommandEvent
  exit : ℤ → CommandEvent

-- What the loop meets on its queue, in the order in which the two readers and the clock bring it.
pub data Arrival : Type 0 where
  item : StreamName → Bytes → Arrival
  reader_done : Arrival
  deadline_passed : Arrival

pub record Emitted : Type 0 where
  pub on_stdout : ℕ
  pub on_stderr : ℕ

abbrev pub emitted_on : Emitted → StreamName → ℕ
emitted_on e stdout = e.on_stdout
emitted_on e stderr = e.on_stderr

abbrev pub add_emitted : Emitted → StreamName → ℕ → Emitted
add_emitted e stdout n = record e { on_stdout = e.on_stdout + n }
add_emitted e stderr n = record e { on_stderr = e.on_stderr + n }

pub record Piece : Type 0 where
  pub name : StreamName
  pub content : Bytes

pub record Drained : Type 0 where
  pub pieces : List Piece
  pub timed_out : Bool

abbrev pub is_full : ℤ → Emitted → StreamName → Bool
is_full maximum e name = leb_ℤ (maximum -ℤ pos (emitted_on e name)) (pos 0)

-- `emitted[name] += len(chunk)` for the part of the chunk that is yielded
unfoldable pub account : ℤ → Emitted → StreamName → Bytes → Emitted
account maximum e name chunk =
    if is_full maximum e name
    then e
    else add_emitted e name (length (admitted maximum (emitted_on e name) chunk))

abbrev pub yield_piece : ℤ → Emitted → StreamName → Bytes → Drained → Drained
yield_piece maximum e name chunk rest = if is_full maximum e name then rest else record {
  pieces =
      record { name = name; content = admitted maximum (emitted_on e name) chunk } ∷ rest.pieces;
  timed_out = rest.timed_out;
}

abbrev pub finished : Drained
finished = record { pieces = []; timed_out = false }

abbrev pub late : Drained
late = record { pieces = []; timed_out = true }

-- The loop `while completed_readers < len(readers)`. When nothing more arrives, the wait for the
-- next item ends at the deadline.
unfoldable pub drain : ℤ → Emitted → ℕ → List Arrival → Drained
drain maximum e completed [] = if ltb completed 2 then late else finished
drain maximum e completed (deadline_passed ∷ rest) = if ltb completed 2 then late else finished
drain maximum e completed (reader_done ∷ rest) =
    let more = drain maximum e (completed + 1) rest in if ltb completed 2 then more else finished
drain maximum e completed (item name chunk ∷ rest) =
    let more =
      yield_piece maximum e name chunk
        (drain maximum (account maximum e name chunk) completed rest) in
    if ltb completed 2 then more else finished

-- What the generator does, in order: events that it yields, and calls on its process.
pub data Action : Type 0 where
  emit : CommandEvent → Action
  kill : Action
  reap : Action

pub record Running : Type 0 where
  pub pid : ℕ
  pub arrivals : List Arrival
  -- whether the process ends before the deadline, once its pipes are closed
  pub exits_in_time : Bool
  pub returncode : Option ℤ

abbrev pub timed_out_tail : ℤ → List Action
timed_out_tail seconds =
    kill ∷ reap ∷ emit (timeout (timeout_message seconds)) ∷ emit (exit (pos 124)) ∷ []

unfoldable pub tail_actions : ℤ → Running → Bool → List Action
tail_actions seconds p true = timed_out_tail seconds
tail_actions seconds p false =
    if p.exits_in_time
    then reap ∷ emit (exit (exit_status p.returncode)) ∷ []
    else timed_out_tail seconds

unfoldable pub piece_actions : List Piece → List Action
piece_actions [] = []
piece_actions (p ∷ ps) = emit (output p.name (decode p.content)) ∷ piece_actions ps

-- What the loop makes of a process, from `emitted = {"stdout": 0, "stderr": 0}`.
abbrev pub drained_from : RuntimeSettings → Running → Drained
drained_from settings p =
    drain settings.maximum_output_bytes (record { on_stdout = 0; on_stderr = 0 }) 0 p.arrivals

unfoldable pub process_actions : RuntimeSettings → ℤ → Running → List Action
unfolding drain account tail_actions piece_actions
process_actions settings seconds p =
    let drained = drained_from settings p in
    emit (start p.pid) ∷ (piece_actions drained.pieces ++ tail_actions seconds p drained.timed_out)

pub data StreamSpawn : Type 0 where
  os_error : Text → StreamSpawn
  started : Running → StreamSpawn

abbrev pub spawned_actions : RuntimeSettings → ℤ → StreamSpawn → List Action
spawned_actions settings seconds (os_error message) =
    emit (error (codes "Failed to execute command: " ++ message)) ∷ []
spawned_actions settings seconds (started p) = process_actions settings seconds p

unfoldable pub stream_command :
    RuntimeSettings → Text → ℤ → StreamSpawn → Result InvalidCommand (List Action)
unfolding process_actions
stream_command settings command seconds child = elim (parse_command settings command seconds) [
  | err e ↦ err e
  | ok args ↦ ok (spawned_actions settings seconds child)
]

-- The actions up to the yield at which the consumer of `events` events closes the generator.
unfoldable pub upto : ℕ → List Action → List Action
upto zero actions = []
upto (suc n) [] = []
upto (suc n) (emit e ∷ actions) = emit e ∷ upto n actions
upto (suc n) (kill ∷ actions) = kill ∷ upto (suc n) actions
upto (suc n) (reap ∷ actions) = reap ∷ upto (suc n) actions

abbrev pub reaped : List Action → Bool
reaped [] = false
reaped (reap ∷ actions) = true
reaped (_ ∷ actions) = reaped actions

-- `finally`, once the process has started: a process with no return code yet is killed and reaped.
-- `exited` says that it has ended by itself when the consumer of `events` events closes the
-- generator. A generator that was never asked for an event has started nothing.
unfoldable pub close_stream : RuntimeSettings → ℤ → Running → ℕ → Bool → List Action
unfolding process_actions upto
close_stream settings seconds p zero exited = []
close_stream settings seconds p (suc n) exited =
    let done = upto (suc n) (process_actions settings seconds p) in
    if reaped done || exited then done else done ++ (kill ∷ reap ∷ [])
