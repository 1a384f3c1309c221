-- ===== src/Runtime/Process.antt =====
-- The child process of a command as the runtime meets it. How the child behaves (what it prints,
-- when it exits) is the argument of the functions that run it.
use xolis.Base.{ℕ, Bool, Option, none, some, List}
use xolis.Base.Int.{ℤ, pos}
use xolis.Text.{Text}
use xolis.Runtime.{Bytes}

pub record Child : Type 0 where
  pub pid : ℕ
  -- what `read` returns, call after call, on each pipe
  pub stdout : Option (List Bytes)
  pub stderr : Option (List Bytes)
  -- whether `process.wait()` returns before the timeout
  pub exits_in_time : Bool
  pub returncode : Option ℤ

-- `asyncio.create_subprocess_exec`
pub data Spawn : Type 0 where
  os_error : Text → Spawn
  started : Child → Spawn

-- What the runtime does to the system, in order.
pub data Effect : Type 0 where
  make_workspace : Effect
  spawn : List Text → Effect
  kill_group : Effect
  wait_process : Effect

-- `process.returncode or 0`
abbrev pub exit_status : Option ℤ → ℤ
exit_status none = pos 0
exit_status (some code) = code
