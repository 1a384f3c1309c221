-- ===== src/Runtime/Execute.antt =====
-- `execute_command` of core.py: one command, its bounded output, and its timeout.
use xolis.Base.{
  ◌≤◌, ◌≡◌, refl, ap, Bool, true, false, not, Option, none, some, List, [], ◌∷◌, ◌++◌, arith,
  length, take, if◌then◌else◌, length-take,
}
use xolis.Base.Int.{ℤ, pos, pos_part}
use xolis.Base.Result.{Result, ok, err}
use xolis.Text.{Text, codes}
use xolis.Text.Decimal.{decimal_ℤ}
use xolis.Text.Utf8.{decode}
use xolis.Text.Utf8.Lengths.{length-decode}
use xolis.Runtime.{Bytes, RuntimeSettings}
use xolis.Runtime.Command.{InvalidCommand, parse_command}
use xolis.Runtime.Capture.{read_limited, read_limited-eq-take, stream_bytes}
use xolis.Runtime.Process.{
  Child, Spawn, os_error, started, Effect, make_workspace, spawn, kill_group, wait_process,
  exit_status,
}

pub record CommandResult : Type 0 where
  pub stdout : Text
  pub stderr : Text
  pub exit_code : ℤ

pub record Executed : Type 0 where
  pub effects : List Effect
  pub result : Result InvalidCommand CommandResult

unfoldable pub timeout_message : ℤ → Text
timeout_message seconds =
    codes "command timed out after " ++ (decimal_ℤ seconds ++ codes " seconds")

-- `f"{stderr}\n{timeout_message}" if stderr else timeout_message`
abbrev pub with_message : Text → Text → Text
with_message [] message = message
with_message (c ∷ s) message = (c ∷ s) ++ (10 ∷ message)

abbrev captured : RuntimeSettings → Option (List Bytes) → Text
captured settings stream = decode (read_limited stream settings.maximum_output_bytes)

module _ (settings : RuntimeSettings) (timeout_seconds : ℤ) where
  unfoldable pub finish_child : List Text → Child → Executed
  finish_child args child =
      if child.exits_in_time
      then record {
        effects = make_workspace ∷ spawn args ∷ [];
        result = ok (record {
          stdout = captured settings child.stdout;
          stderr = captured settings child.stderr;
          exit_code = exit_status child.returncode;
        });
      }
      else record {
        effects = make_workspace ∷ spawn args ∷ kill_group ∷ wait_process ∷ [];
        result = ok (record {
          stdout = captured settings child.stdout;
          stderr = with_message (captured settings child.stderr) (timeout_message timeout_seconds);
          exit_code = pos 124;
        });
      }

  unfoldable pub run_arguments : List Text → Spawn → Executed
  unfolding finish_child
  run_arguments args (os_error message) = record {
    effects = make_workspace ∷ spawn args ∷ [];
    result = ok (record {
      stdout = [];
      stderr = codes "Failed to execute command: " ++ message;
      exit_code = pos 127;
    });
  }
  run_arguments args (started child) = finish_child args child

unfoldable pub execute_command : RuntimeSettings → Text → ℤ → Spawn → Executed
unfolding run_arguments
execute_command settings command timeout_seconds child =
    elim (parse_command settings command timeout_seconds) [
      | err e ↦ record { effects = []; result = err e }
      | ok args ↦ run_arguments settings timeout_seconds args child
    ]

abbrev pub kills : List Effect → Bool
kills [] = false
kills (kill_group ∷ es) = true
kills (_ ∷ es) = kills es

-- What a finished command reports, in terms of what its process did.
pub record Reports (settings : RuntimeSettings) (timeout_seconds : ℤ) (child : Child) (x : Executed)
    : Type 0 where
  pub report : CommandResult
  pub returned : x.result ≡ ok report
  pub output :
      (chunks : List Bytes)
      → child.stdout ≡ some chunks
      → report.stdout ≡ decode (take (pos_part settings.maximum_output_bytes) (stream_bytes chunks))
  -- The error output, and behind it, on a line of its own, the message of a timeout.
  pub errors_in_time :
      (chunks : List Bytes)
      → child.stderr ≡ some chunks
      → child.exits_in_time ≡ true
      → report.stderr ≡ decode (take (pos_part settings.maximum_output_bytes) (stream_bytes chunks))
  pub errors_late :
      (chunks : List Bytes)
      → child.stderr ≡ some chunks
      → child.exits_in_time ≡ false
      → report.stderr
        ≡ with_message
            (decode (take (pos_part settings.maximum_output_bytes) (stream_bytes chunks)))
            (timeout_message timeout_seconds)
  pub output_bound : length report.stdout ≤ pos_part settings.maximum_output_bytes
  pub status :
      report.exit_code ≡ (if child.exits_in_time then exit_status child.returncode else pos 124)
  pub killed : kills x.effects ≡ not child.exits_in_time

-- A rejected command leaves the system alone, and only the parser rejects.
pub execute_command-err :
    (settings : RuntimeSettings) (command : Text) (timeout_seconds : ℤ) (child : Spawn)
    (e : InvalidCommand)
    → (execute_command settings command timeout_seconds child).result ≡ err e
    → (parse_command settings command timeout_seconds ≡ err e)
      × ((execute_command settings command timeout_seconds child).effects ≡ [])
unfolding execute_command
execute_command-err settings command timeout_seconds (os_error m) e h = ground arith
execute_command-err settings command timeout_seconds (started c) e h = ground arith

captured_bound :
    (settings : RuntimeSettings) (stream : Option (List Bytes))
    → length (captured settings stream) ≤ pos_part settings.maximum_output_bytes
captured_bound settings none = unfold read_limited in omega (arith, length-decode [])
captured_bound settings (some chunks) = omega (
  arith,
  length-decode (read_limited (some chunks) settings.maximum_output_bytes),
  ap length (read_limited-eq-take chunks settings.maximum_output_bytes),
  length-take (pos_part settings.maximum_output_bytes) (stream_bytes chunks),
)

finish_child-Reports :
    (settings : RuntimeSettings) (timeout_seconds : ℤ) (args : List Text) (child : Child)
    → Reports settings timeout_seconds child (finish_child settings timeout_seconds args child)
unfolding finish_child
finish_child-Reports settings timeout_seconds args child = record {
  report = record {
    stdout = captured settings child.stdout;
    stderr =
        if child.exits_in_time
        then captured settings child.stderr
        else with_message (captured settings child.stderr) (timeout_message timeout_seconds);
    exit_code = if child.exits_in_time then exit_status child.returncode else pos 124;
  };
  returned = ground arith;
  output = λ chunks p. rw p (ap decode (read_limited-eq-take chunks settings.maximum_output_bytes));
  errors_in_time = λ chunks p e.
      rw (e, p) (ap decode (read_limited-eq-take chunks settings.maximum_output_bytes));
  errors_late = λ chunks p e.
      rw (e, p)
        (ap (λ t. with_message (decode t) (timeout_message timeout_seconds))
          (read_limited-eq-take chunks settings.maximum_output_bytes));
  output_bound = captured_bound settings child.stdout;
  status = refl;
  killed = ground arith;
}

execute_command-started :
    (settings : RuntimeSettings) (command : Text) (timeout_seconds : ℤ) (child : Child)
    (args : List Text)
    → parse_command settings command timeout_seconds ≡ ok args
    → execute_command settings command timeout_seconds (started child)
      ≡ finish_child settings timeout_seconds args child
unfolding execute_command
execute_command-started settings command timeout_seconds child args h = rw (h, execute_command)

-- An accepted command whose process starts reports the decoded first bytes of its standard output,
-- never more characters of it than the limit. If it ended in time it reports the decoded first bytes
-- of its error output and the status of the process, and kills nothing; if it did not, the message
-- of the timeout stands behind the error output, on a line of its own if there is any, the status is
-- 124, and the group is killed.
pub execute_command-Reports :
    (settings : RuntimeSettings) (command : Text) (timeout_seconds : ℤ) (child : Child)
    (args : List Text)
    → parse_command settings command timeout_seconds ≡ ok args
    → Reports settings timeout_seconds child
        (execute_command settings command timeout_seconds (started child))
execute_command-Reports settings command timeout_seconds child args h =
    rw (execute_command-started settings command timeout_seconds child args h)
      (finish_child-Reports settings timeout_seconds args child)
