-- ===== src/Runtime/Interactive/Cleanup.antt =====
-- What a session holds when it is over.
use xolis.Base.{
  ℕ, ◌≤◌, ◌⊎◌, ◌≡◌, refl, ap, ◌∙◌, Bool, true, false, not, ◌&&◌, List, [], ◌∷◌, ◌++◌, Option, none,
  some, arith, Bool-cases, inl, inr,
}
use xolis.Base.Int.{ℤ}
use xolis.Base.Result.{Result, ok, err}
use xolis.Runtime.Command.{InvalidCommand}
use xolis.Runtime.{RuntimeSettings}
use xolis.Runtime.Interactive.{
  Size, in_range, resize_terminal, StartMessage, Session, read_start, InputState, OutputResult,
  Raised, invalid, other, disconnected, ServerMessage, failed, waiting, returned, started,
  send_output, receive_input,
}
use xolis.Runtime.Interactive.Life.{
  running, no_child, reaped, Late, unreaped, unsent, left_alone, wrap_up, unless, Resources, World,
  Body, conclude, converse, with_terminal, spawn_process, begin_session, try_session, clean_up,
  handle, run_interactive_session,
}

resources-handle :
    (complaining : Option Raised) (b : Body)
    → (handle complaining b.messages b.ended (clean_up b.resources)).resources
      ≡ clean_up b.resources
resources-handle complaining b = by_ending complaining b.ended
  where
    by_ending :
        (c : Option Raised) (e : Result Raised (Unit {0}))
        → (handle c b.messages e (clean_up b.resources)).resources ≡ clean_up b.resources
    by_ending c (ok u) = refl
    by_ending none (err (invalid e)) = refl
    by_ending (some f) (err (invalid e)) = refl
    by_ending none (err other) = refl
    by_ending (some f) (err other) = refl
    by_ending c (err disconnected) = refl

clean_up-slave : (r : Resources) → (clean_up r).slave_open ≡ r.slave_open
unfolding clean_up
clean_up-slave r = ground arith

pub resources-run :
    (settings : RuntimeSettings) (world : World)
    → (run_interactive_session settings world).resources
      ≡ clean_up (try_session settings world world.first).resources
unfolding run_interactive_session
resources-run settings world =
    resources-handle world.complaining (try_session settings world world.first)

-- What a body may leave to the clean-up: a process is running, or has ended by itself, or has been
-- killed.
data IsTended (exited : Bool) (r : Resources) : Type 0 where
  no_process : r.child ≡ no_child → IsTended exited r
  alive : r.child ≡ running → IsTended exited r
  by_itself : r.child ≡ reaped → exited ≡ true → IsTended exited r
  by_kill : r.child ≡ reaped → 1 ≤ r.kills → IsTended exited r

left_alone-IsTended :
    (sent : List ServerMessage) (r : Raised) (exited : Bool)
    → IsTended exited (left_alone sent r exited).resources
left_alone-IsTended sent r true = by_itself refl refl
left_alone-IsTended sent r false = alive refl

wrap_up-IsTended :
    (late : Option Late) (sent last : List ServerMessage) (exited : Bool)
    → IsTended exited (wrap_up late sent last exited).resources
wrap_up-IsTended none sent last true = by_itself refl refl
wrap_up-IsTended none sent last false = by_kill refl (omega arith)
wrap_up-IsTended (some (unreaped r)) sent last true = by_itself refl refl
wrap_up-IsTended (some (unreaped r)) sent last false = alive refl
wrap_up-IsTended (some (unsent n r)) sent last true = by_itself refl refl
wrap_up-IsTended (some (unsent n r)) sent last false = by_kill refl (omega arith)

conclude-IsTended :
    (late : Option Late) (ttl : ℤ) (sent : List ServerMessage) (s : InputState)
    (o : Option OutputResult) (exited : Bool) (returncode : Option ℤ)
    → IsTended exited (conclude late ttl sent s o exited returncode).resources
unfolding conclude
conclude-IsTended late ttl sent (failed r) o exited returncode = left_alone-IsTended sent r exited
conclude-IsTended late ttl sent waiting o exited returncode = wrap_up-IsTended late sent _ exited
conclude-IsTended late ttl sent (returned r) o exited returncode =
    wrap_up-IsTended late sent _ exited

unless-IsTended :
    (raises : Option Raised) (sent : List ServerMessage) (exited : Bool) (body : Body)
    → IsTended exited body.resources
    → IsTended exited (unless raises sent exited body).resources
unless-IsTended none sent exited body h = h
unless-IsTended (some r) sent exited body h = left_alone-IsTended sent r exited

module _ (settings : RuntimeSettings) (world : World) where
  converse-IsTended :
      (ttl : ℤ) (pid : ℕ) → IsTended world.exited (converse settings world ttl pid).resources
  unfolding converse
  converse-IsTended ttl pid =
      let output = send_output settings.maximum_output_bytes 0 world.reads in
      let received = receive_input world.inputs in
      let sent = started pid ∷ (output.messages ++ received.messages) in
      unless-IsTended world.announcing [] world.exited _ (
        unless-IsTended world.interrupted sent world.exited _ (
          conclude-IsTended world.late ttl sent received.state output.result world.exited
            world.returncode))

  spawn_process-IsTended :
      (ttl : ℤ) (spawned : Option ℕ)
      → IsTended world.exited (spawn_process settings world ttl spawned).resources
  spawn_process-IsTended ttl none = no_process refl
  spawn_process-IsTended ttl (some pid) = converse-IsTended ttl pid

  with_terminal-IsTended :
      (ttl : ℤ) (size : Result InvalidCommand Size)
      → IsTended world.exited (with_terminal settings world ttl size).resources
  with_terminal-IsTended ttl (err e) = no_process refl
  with_terminal-IsTended ttl (ok size) = spawn_process-IsTended ttl world.spawned

  begin_session-IsTended :
      (session : Result InvalidCommand Session)
      → IsTended world.exited (begin_session settings world session).resources
  begin_session-IsTended (err e) = no_process refl
  begin_session-IsTended (ok session) =
      with_terminal-IsTended session.ttl_seconds (resize_terminal session.size)

  try_session-IsTended :
      (first : Result Raised StartMessage)
      → IsTended world.exited (try_session settings world first).resources
  unfolding try_session
  try_session-IsTended (err r) = no_process refl
  try_session-IsTended (ok start) = begin_session-IsTended (read_start settings start)

-- The master side is closed, and the process has not been started, or has ended by itself, or has
-- been killed and reaped.
pub record IsReleased (exited : Bool) (r : Resources) : Type 0 where
  pub closed : r.master_open ≡ false
  pub process : (r.child ≡ no_child) ⊎ ((r.child ≡ reaped) × ((exited ≡ true) ⊎ (1 ≤ r.kills)))

clean_up-IsReleased :
    (exited : Bool) (r : Resources) → IsTended exited r → IsReleased exited (clean_up r)
unfolding clean_up
clean_up-IsReleased exited r (no_process e) = record {
  closed = ground arith;
  process = ground arith;
}
clean_up-IsReleased exited r (alive e) = record { closed = ground arith; process = ground arith }
clean_up-IsReleased exited r (by_itself e x) = record {
  closed = ground arith;
  process = ground arith;
}
clean_up-IsReleased exited r (by_kill e k) = record {
  closed = ground arith;
  process = ground arith;
}

-- However the session's try block ends, by itself, by an error of any of its parts, by a
-- disconnection or by a cancellation, the master side of the terminal is closed in the end, and the
-- process that the session started, if it did, is gone: it ended by itself, or it was killed and
-- reaped. Other processes of its group, and a cancellation of the clean-up, are not spoken of.
pub run_interactive_session-IsReleased :
    (settings : RuntimeSettings) (world : World)
    → IsReleased world.exited (run_interactive_session settings world).resources
run_interactive_session-IsReleased settings world = rw (resources-run settings world) (
    clean_up-IsReleased world.exited (try_session settings world world.first).resources
      (try_session-IsTended settings world world.first))

wrap_up-slave :
    (late : Option Late) (sent last : List ServerMessage) (exited : Bool)
    → (wrap_up late sent last exited).resources.slave_open ≡ false
wrap_up-slave none sent last exited = refl
wrap_up-slave (some (unreaped r)) sent last true = refl
wrap_up-slave (some (unreaped r)) sent last false = refl
wrap_up-slave (some (unsent n r)) sent last exited = refl

conclude-slave :
    (late : Option Late) (ttl : ℤ) (sent : List ServerMessage) (s : InputState)
    (o : Option OutputResult) (exited : Bool) (returncode : Option ℤ)
    → (conclude late ttl sent s o exited returncode).resources.slave_open ≡ false
unfolding conclude
conclude-slave late ttl sent (failed r) o exited returncode = refl
conclude-slave late ttl sent waiting o exited returncode = wrap_up-slave late sent _ exited
conclude-slave late ttl sent (returned r) o exited returncode = wrap_up-slave late sent _ exited

unless-slave :
    (raises : Option Raised) (sent : List ServerMessage) (exited : Bool) (body : Body)
    → body.resources.slave_open ≡ false
    → (unless raises sent exited body).resources.slave_open ≡ false
unless-slave none sent exited body h = h
unless-slave (some r) sent exited body h = refl

spawn_process-slave :
    (settings : RuntimeSettings) (world : World) (ttl : ℤ) (spawned : Option ℕ)
    → (spawn_process settings world ttl spawned).resources.slave_open ≡ false
unfolding converse
spawn_process-slave settings world ttl none = refl
spawn_process-slave settings world ttl (some pid) =
    let output = send_output settings.maximum_output_bytes 0 world.reads in
    let received = receive_input world.inputs in
    let sent = started pid ∷ (output.messages ++ received.messages) in
    unless-slave world.announcing [] world.exited _ (
      unless-slave world.interrupted sent world.exited _ (
        conclude-slave world.late ttl sent received.state output.result world.exited
          world.returncode))

with_terminal-slave :
    (settings : RuntimeSettings) (world : World) (ttl : ℤ) (size : Size)
    → (with_terminal settings world ttl (resize_terminal size)).resources.slave_open
      ≡ not (in_range size.rows && in_range size.columns)
unfolding resize_terminal
with_terminal-slave settings world ttl size =
    elim (Bool-cases (in_range size.rows && in_range size.columns)) [
      | inl e ↦ rw e (spawn_process-slave settings world ttl world.spawned)
      | inr e ↦ rw e
    ]

-- A session whose start message is read leaves the slave side of its terminal open exactly when the
-- rows or the columns are out of range.
pub slave_open-run :
    (settings : RuntimeSettings) (world : World) (start : StartMessage) (session : Session)
    → world.first ≡ ok start
    → read_start settings start ≡ ok session
    → (run_interactive_session settings world).resources.slave_open
      ≡ not (in_range session.size.rows && in_range session.size.columns)
slave_open-run settings world start session first accepted =
    ap (λ r. r.slave_open) (resources-run settings world)
    ∙ (clean_up-slave (try_session settings world world.first).resources
        ∙ (ap (λ f. (try_session settings world f).resources.slave_open) first
            ∙ (unfold try_session in
                ap (λ r. (begin_session settings world r).resources.slave_open) accepted
                ∙ with_terminal-slave settings world session.ttl_seconds session.size)))
