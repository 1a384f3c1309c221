-- ===== src/Runtime/SessionTests.antt =====
-- Runs of interactive sessions, of listings and of the HTTP routes, and instances of their theorems.
use xolis.Base.{
  ◌≡◌, ◌≢◌, refl, ◌↔◌, true, false, none, some, List, [], ◌∷◌, take, nat_eq, string_eq,
}
use xolis.Base.Int.{ℤ, pos}
use xolis.Base.Result.{ok}
use xolis.Text.{codes, is_blank, is_space}
use xolis.Text.Shlex.{split}
use xolis.Runtime.{RuntimeSettings}
use xolis.Runtime.Command.{parse_command}
use xolis.Runtime.Paths.{Links, real_path, resolve_parts, resolve_workspace_path}
use xolis.Runtime.Upload.{Upload, chunk}
use xolis.Runtime.Interactive.{
  StartMessage, disconnected, Field, absent, integer, Session, read_start, PtyRead, resize, cancel,
  send_output,
}
use xolis.Runtime.Interactive.Life.{World, run_interactive_session}
use xolis.Runtime.Interactive.Streams.{sent_bytes, pty_bytes, sent_bytes-send_output}
use xolis.Runtime.Interactive.Cleanup.{
  run_interactive_session-IsReleased, IsReleased, slave_open-run,
}
use xolis.Runtime.Listing.{DirEntry, Listed, directory, file, Directories, list_directory}
use xolis.Runtime.Listing.Sorted.{IsListing, list_directory-IsListing}
use xolis.Runtime.App.{ExecuteRequest, download, list_files, exists, upload}
use xolis.Runtime.App.Paths.{IsForbidden, IsViolation, routes-IsForbidden}

abbrev settings : RuntimeSettings
settings = record {
  workspace = codes "w" ∷ [];
  maximum_command_timeout_seconds = pos 30;
  maximum_output_bytes = pos 4;
  maximum_upload_bytes = pos 3;
}

abbrev start_of : Field → StartMessage
start_of rows = record {
  type = some "start";
  ttl_seconds = integer (pos 9);
  command = codes "sh";
  rows = rows;
  columns = absent;
}

abbrev world_of : StartMessage → World
world_of start = record {
  first = ok start;
  spawned = some 7;
  reads = PtyRead.chunk (1 ∷ 2 ∷ []) ∷ PtyRead.chunk (3 ∷ 4 ∷ 5 ∷ []) ∷ [];
  inputs = resize (some (pos 40)) (some (pos 100)) ∷ cancel ∷ [];
  exited = false;
  returncode = none;
  announcing = none;
  interrupted = none;
  late = none;
  complaining = none;
}

sent_bytes-send_output_example :
    sent_bytes (send_output (pos 4) 1 (world_of (start_of absent)).reads).messages
    ≡ take 3 (pty_bytes (world_of (start_of absent)).reads)
sent_bytes-send_output_example = sent_bytes-send_output (pos 4) 1 (world_of (start_of absent)).reads

-- The session is cancelled while it waits for its tasks.
run_interactive_session-IsReleased_example :
    IsReleased false
      (run_interactive_session settings
        (record (world_of (start_of absent)) { interrupted = some disconnected })).resources
run_interactive_session-IsReleased_example =
    run_interactive_session-IsReleased settings
      (record (world_of (start_of absent)) { interrupted = some disconnected })

abbrev session_of : ℤ → Session
session_of rows = record {
  ttl_seconds = pos 9;
  arguments = codes "sh" ∷ [];
  size = record { rows = rows; columns = pos 80 };
}

read-default : read_start settings (start_of absent) ≡ ok (session_of (pos 24))
unfolding read_start parse_command is_blank is_space split
read-default = refl

read-huge : read_start settings (start_of (integer (pos 501))) ≡ ok (session_of (pos 501))
unfolding read_start parse_command is_blank is_space split
read-huge = refl

slave_open-run_example :
    (run_interactive_session settings
      (world_of (start_of (integer (pos 501))))).resources.slave_open
    ≡ true
slave_open-run_example =
    slave_open-run settings (world_of (start_of (integer (pos 501)))) (start_of (integer (pos 501)))
      (session_of (pos 501)) refl read-huge

abbrev no_links : Links
no_links p = none

abbrev entries : List DirEntry
entries =
    record { name = codes "b"; size = 3; mod_time = 5; is_symlink = false; is_dir = false }
    ∷ record { name = codes "a"; size = 0; mod_time = 6; is_symlink = false; is_dir = true }
    ∷ []

abbrev directories : Directories
directories p = some entries

abbrev listed : List Listed
listed =
    record { name = codes "a"; size = 0; type = directory; mod_time = 6 }
    ∷ record { name = codes "b"; size = 3; type = file; mod_time = 5 }
    ∷ []

lists : list_directory settings no_links 20 directories (codes "d") ≡ ok listed
unfolding list_directory resolve_workspace_path resolve_parts real_path
lists = refl

list_directory-IsListing_example : IsListing settings no_links 20 directories (codes "d") listed
list_directory-IsListing_example =
    list_directory-IsListing settings no_links 20 directories (codes "d") listed lists

abbrev small_upload : Upload
small_upload = record {
  temporary = codes "w" ∷ codes "t" ∷ [];
  reads = chunk (1 ∷ []) ∷ [];
  makes_directory = true;
  makes_temporary = true;
  closes = true;
  replaces = true;
  removes = true;
}

routes-IsForbidden_example :
    (IsForbidden (download settings no_links 20 (λ p. true) (codes "/etc"))
      ↔ IsViolation (resolve_workspace_path no_links 20 settings.workspace (codes "/etc")))
    × (IsForbidden (list_files settings no_links 20 directories (codes "/etc"))
        ↔ IsViolation (resolve_workspace_path no_links 20 settings.workspace (codes "/etc")))
    × (IsForbidden (exists settings no_links 20 (λ p. true) (codes "/etc"))
        ↔ IsViolation (resolve_workspace_path no_links 20 settings.workspace (codes "/etc")))
    × (IsForbidden (upload settings no_links 20 (codes "/etc") small_upload (λ p. none)).result ↔ (
        (codes "/etc" ≢ [])
        × IsViolation (resolve_workspace_path no_links 20 settings.workspace (codes "/etc"))))
routes-IsForbidden_example =
    routes-IsForbidden settings no_links 20 (codes "/etc") (λ p. true) (λ p. true) directories
      small_upload (λ p. none)

abbrev blank_request : ExecuteRequest
blank_request = record { command = codes " "; timeout_seconds = pos 5 }
