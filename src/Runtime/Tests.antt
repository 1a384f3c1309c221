-- ===== src/Runtime/Tests.antt =====
-- Runs of the runtime's operations, and instances of its theorems.
use xolis.Base.{
  ◌≡◌, refl, true, false, none, some, List, [], ◌∷◌, arith, take, if◌then◌else◌, ◌==◌, nat_eq,
  list_eq,
}
use xolis.Base.Int.{pos}
use xolis.Base.Result.{ok, err}
use xolis.Text.{Text, codes, is_blank, is_space}
use xolis.Text.Shlex.{split, join}
use xolis.Text.Utf8.{decode}
use xolis.Runtime.{Bytes, FilePath, RuntimeSettings}
use xolis.Runtime.Command.{
  empty_command, parse_command, IsAccepted, parse_command-ok_iff, parse_command-join,
}
use xolis.Runtime.Process.{Child, started}
use xolis.Runtime.Execute.{execute_command, Reports, execute_command-Reports}
use xolis.Runtime.Stream.{
  stdout, stderr, item, reader_done, Arrival, Emitted, Running, StreamSpawn, drain, process_actions,
  spawned_actions, close_stream,
}
use xolis.Runtime.Stream.Output.{pieces_on, received, pieces-drain}
use xolis.Runtime.Stream.Protocol.{
  Phase, read_phases, phases_spawned, close_stream-IsClosed, IsClosed,
}
use xolis.Runtime.Stream.Characters.{event_text, event_text_split}
use xolis.Runtime.Paths.{
  Links, violation, outside_workspace, real_path, parent, resolve_parts, resolve_workspace_path,
}
use xolis.Runtime.Paths.Confined.{IsInside, resolve_workspace_path-IsInside}
use xolis.Runtime.Paths.Plain.{resolve_parts-proper}
use xolis.Runtime.Upload.{Files, Upload, chunk, too_large, write_upload}
use xolis.Runtime.Upload.Atomic.{
  read_fails, read_bytes, IsStored, write_upload_ok, write_upload_err, IsKept, write_upload_total,
}

abbrev settings : RuntimeSettings
settings = record {
  workspace = codes "w" ∷ [];
  maximum_command_timeout_seconds = pos 30;
  maximum_output_bytes = pos 4;
  maximum_upload_bytes = pos 3;
}

abbrev true_command : List Text
true_command = codes "true" ∷ []

true_command-accepted : parse_command settings (codes "true") (pos 5) ≡ ok true_command
unfolding parse_command is_blank is_space split
true_command-accepted = refl

parse_command-ok_iff_example : IsAccepted settings (codes "true") (pos 5) true_command
parse_command-ok_iff_example =
    (parse_command-ok_iff settings (codes "true") (pos 5) true_command).0 true_command-accepted

parse_command-join_example :
    parse_command settings (join (codes "echo" ∷ codes "a 'b'" ∷ [])) (pos 5)
    ≡ ok (codes "echo" ∷ codes "a 'b'" ∷ [])
parse_command-join_example =
    parse_command-join settings (codes "echo") (codes "a 'b'" ∷ []) (pos 5) (omega arith)
      (omega arith)

abbrev slow_child : Child
slow_child = record {
  pid = 7;
  stdout = some (codes "hello" ∷ []);
  stderr = some [];
  exits_in_time = false;
  returncode = none;
}

execute_command-Reports_example :
    Reports settings
      (pos 5)
      slow_child
      (execute_command settings (codes "true") (pos 5) (started slow_child))
execute_command-Reports_example =
    execute_command-Reports settings (codes "true") (pos 5) slow_child true_command
      true_command-accepted

blank-rejected :
    (execute_command settings (codes " ") (pos 5) (started slow_child)).result ≡ err empty_command
unfolding execute_command parse_command is_blank is_space
blank-rejected = refl

abbrev arrivals : List Arrival
arrivals =
    item stdout (codes "abc")
    ∷ item stderr (codes "x")
    ∷ item stdout (codes "de")
    ∷ reader_done
    ∷ reader_done
    ∷ []

abbrev nothing_yet : Emitted
nothing_yet = record { on_stdout = 0; on_stderr = 0 }

pieces-drain_example :
    pieces_on stdout (drain (pos 4) nothing_yet 0 arrivals).pieces
    ≡ take 4 (received stdout 0 arrivals)
pieces-drain_example = pieces-drain (pos 4) stdout nothing_yet 0 arrivals

abbrev running_child : List Arrival → Running
running_child as' = record {
  pid = 7;
  arrivals = as';
  exits_in_time = true;
  returncode = some (pos 0);
}

phases_spawned_example :
    read_phases Phase.before
      (spawned_actions settings (pos 5) (StreamSpawn.started (running_child arrivals)))
    ≡ Phase.over
phases_spawned_example =
    phases_spawned settings (pos 5) (StreamSpawn.started (running_child arrivals))

close_stream-IsClosed_example :
    IsClosed true false
      (process_actions settings (pos 5) (running_child arrivals))
      (close_stream settings (pos 5) (running_child arrivals) 2 false)
close_stream-IsClosed_example =
    close_stream-IsClosed settings (pos 5) (running_child arrivals) 1 false

abbrev split_character : List Arrival
split_character = item stdout (0xc3 ∷ []) ∷ item stdout (0xa9 ∷ []) ∷ reader_done ∷ reader_done ∷ []

event_text_split_example :
    (event_text stdout (process_actions settings (pos 5) (running_child split_character))
      ≡ 0xfffd ∷ 0xfffd ∷ [])
    × (decode (0xc3 ∷ 0xa9 ∷ []) ≡ 0xe9 ∷ [])
event_text_split_example =
    event_text_split settings (pos 5) (running_child split_character) 4 0xe9 refl (omega arith)
      (omega arith) (omega arith) refl

abbrev no_links : Links
no_links p = none

-- A link inside the workspace that leads out of it.
abbrev one_link : Links
one_link p = if p == (codes "w" ∷ codes "l" ∷ []) then some (codes "../etc") else none

abbrev inside : FilePath
inside = codes "w" ∷ codes "f" ∷ []

resolved-inside : resolve_workspace_path one_link 20 settings.workspace (codes "a/../f") ≡ ok inside
unfolding resolve_workspace_path resolve_parts real_path parent
resolved-inside = refl

resolve_workspace_path-IsInside_example : IsInside one_link 20 settings.workspace inside
resolve_workspace_path-IsInside_example =
    resolve_workspace_path-IsInside one_link 20 settings.workspace (codes "a/../f") inside
      resolved-inside

escape-refused :
    resolve_workspace_path one_link 20 settings.workspace (codes "l/passwd")
    ≡ err (violation outside_workspace)
unfolding resolve_workspace_path resolve_parts real_path parent
escape-refused = refl

resolve_parts-proper_example :
    resolve_parts no_links 9 settings.workspace (codes "f" ∷ []) ≡ ok inside
resolve_parts-proper_example =
    resolve_parts-proper no_links (λ p. refl) 9 settings.workspace ((refl, refl), tt) (codes "f") []
      ((refl, refl), tt) (omega arith)

abbrev no_files : Files
no_files p = none

abbrev upload_of : Bytes → Upload
upload_of content = record {
  temporary = codes "w" ∷ codes "t" ∷ [];
  reads = chunk content ∷ [];
  makes_directory = true;
  makes_temporary = true;
  closes = true;
  replaces = true;
  removes = true;
}

stored :
    (write_upload settings no_links 20 (codes "f") (upload_of (1 ∷ 2 ∷ [])) no_files).result
    ≡ ok inside
unfolding write_upload resolve_workspace_path resolve_parts real_path
stored = refl

write_upload_ok_example :
    IsStored settings no_links 20
      (codes "f")
      (upload_of (1 ∷ 2 ∷ []))
      no_files
      inside
      (write_upload settings no_links 20 (codes "f") (upload_of (1 ∷ 2 ∷ [])) no_files).files
write_upload_ok_example =
    write_upload_ok settings no_links 20 (codes "f") (upload_of (1 ∷ 2 ∷ [])) no_files refl inside
      stored

refused :
    (write_upload settings no_links 20 (codes "f") (upload_of (1 ∷ 2 ∷ 3 ∷ 4 ∷ [])) no_files).result
    ≡ err (too_large (pos 3))
unfolding write_upload resolve_workspace_path resolve_parts real_path
refused = refl

write_upload_err_example :
    IsKept settings no_links 20
      (codes "f")
      (upload_of (1 ∷ 2 ∷ 3 ∷ 4 ∷ []))
      no_files
      refl
      (write_upload settings no_links 20
        (codes "f")
        (upload_of (1 ∷ 2 ∷ 3 ∷ 4 ∷ []))
        no_files).files
      inside
write_upload_err_example =
    write_upload_err settings no_links 20 (codes "f") (upload_of (1 ∷ 2 ∷ 3 ∷ 4 ∷ [])) no_files refl
      (too_large (pos 3)) inside refused

resolved-f : resolve_workspace_path no_links 20 settings.workspace (codes "f") ≡ ok inside
unfolding resolve_workspace_path resolve_parts real_path
resolved-f = refl

write_upload_total_example :
    (write_upload settings no_links 20 (codes "f") (upload_of (1 ∷ 2 ∷ [])) no_files).result
    ≡ ok inside
unfolding read_fails read_bytes
write_upload_total_example =
    write_upload_total settings no_links 20 (codes "f") (upload_of (1 ∷ 2 ∷ [])) no_files inside 3
      resolved-f refl refl (omega arith) refl refl refl refl
