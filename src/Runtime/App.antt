-- ===== src/Runtime/App.antt =====
-- app.py: the HTTP routes over the operations of the runtime, and the status of each outcome.
pub mod Paths
pub mod Commands
pub mod Events
use xolis.Base.{
  ℕ, ◌≡◌, refl, ap, ◌∙◌, ◌↔◌, Bool, true, false, List, [], ◌∷◌, arith, Bool-cases, inl, inr,
  if◌then◌else◌,
}
use xolis.Base.Int.{ℤ}
use xolis.Base.Result.{Result, ok, err}
use xolis.Text.{Text}
use xolis.Runtime.{FilePath, RuntimeSettings}
use xolis.Runtime.Command.{InvalidCommand, parse_command}
use xolis.Runtime.Process.{Spawn}
use xolis.Runtime.Execute.{CommandResult, execute_command}
use xolis.Runtime.Stream.{Action, CommandEvent, StreamSpawn, stream_command, emit, kill, reap}
use xolis.Runtime.Paths.{
  Links, PathError, PathViolation, violation, out_of_fuel, resolve_workspace_path,
}
use xolis.Runtime.Upload.{
  Files, Upload, UploadError, path_error, too_large, io_error, Stored, write_upload,
}
use xolis.Runtime.Listing.{Listed, ListError, not_a_directory, Directories, list_directory}

pub record ExecuteRequest : Type 0 where
  pub command : Text
  pub timeout_seconds : ℤ

-- What a handler raises: an `HTTPException` with its status, or an exception that it lets through.
pub data HttpError : Type 0 where
  http_exception : ℕ → HttpError
  unhandled : HttpError
  -- not of the program: the model's fuel for links was too small
  unresolved : HttpError

abbrev pub answer_execute : Result InvalidCommand CommandResult → Result HttpError CommandResult
answer_execute (ok result) = ok result
answer_execute (err e) = err (http_exception 400)

unfoldable pub execute : RuntimeSettings → ExecuteRequest → Spawn → Result HttpError CommandResult
execute settings request child =
    answer_execute (execute_command settings request.command request.timeout_seconds child).result

abbrev pub events : List Action → List CommandEvent
events [] = []
events (emit e ∷ actions) = e ∷ events actions
events (_ ∷ actions) = events actions

-- The first event is awaited before the response starts; `encode_events` then yields it and the others.
abbrev pub answer_stream : List CommandEvent → Result HttpError (List CommandEvent)
answer_stream [] = err (http_exception 500)
answer_stream (first ∷ rest) = ok (first ∷ rest)

abbrev pub stream_events :
    Result InvalidCommand (List Action) → Result HttpError (List CommandEvent)
stream_events (err e) = err (http_exception 400)
stream_events (ok actions) = answer_stream (events actions)

unfoldable pub execute_stream :
    RuntimeSettings → ExecuteRequest → StreamSpawn → Result HttpError (List CommandEvent)
execute_stream settings request child =
    stream_events (stream_command settings request.command request.timeout_seconds child)

abbrev pub path_status : PathError → HttpError
path_status (violation v) = http_exception 403
path_status out_of_fuel = unresolved

abbrev pub upload_status : UploadError → HttpError
upload_status (path_error e) = path_status e
upload_status (too_large maximum) = http_exception 413
upload_status io_error = unhandled

abbrev pub answer_upload : Result UploadError FilePath → Result HttpError FilePath
answer_upload (ok p) = ok p
answer_upload (err e) = err (upload_status e)

pub record Uploaded : Type 0 where
  pub result : Result HttpError FilePath
  pub files : Files

unfoldable pub upload : RuntimeSettings → Links → ℕ → Text → Upload → Files → Uploaded
upload settings links fuel [] u files = record { result = err (http_exception 400); files = files }
upload settings links fuel (c ∷ name) u files =
    let s = write_upload settings links fuel (c ∷ name) u files in
    record { result = answer_upload s.result; files = s.files }

abbrev pub answer_path : Result PathError FilePath → Result HttpError FilePath
answer_path (ok p) = ok p
answer_path (err e) = err (path_status e)

unfoldable pub requested_file : RuntimeSettings → Links → ℕ → Text → Result HttpError FilePath
requested_file settings links fuel path =
    answer_path (resolve_workspace_path links fuel settings.workspace path)

abbrev pub download_file : (FilePath → Bool) → Result HttpError FilePath → Result HttpError FilePath
download_file is_file (err e) = err e
download_file is_file (ok p) = if is_file p then ok p else err (http_exception 404)

unfoldable pub download :
    RuntimeSettings → Links → ℕ → (FilePath → Bool) → Text → Result HttpError FilePath
unfolding requested_file
download settings links fuel is_file path =
    download_file is_file (requested_file settings links fuel path)

abbrev pub list_status : ListError → HttpError
list_status (ListError.path_error e) = path_status e
list_status not_a_directory = http_exception 404

abbrev pub answer_list : Result ListError (List Listed) → Result HttpError (List Listed)
answer_list (ok ls) = ok ls
answer_list (err e) = err (list_status e)

unfoldable pub list_files :
    RuntimeSettings → Links → ℕ → Directories → Text → Result HttpError (List Listed)
list_files settings links fuel directories path =
    answer_list (list_directory settings links fuel directories path)

abbrev pub exists_at : (FilePath → Bool) → Result HttpError FilePath → Result HttpError Bool
exists_at there (err e) = err e
exists_at there (ok p) = ok (there p)

unfoldable pub exists :
    RuntimeSettings → Links → ℕ → (FilePath → Bool) → Text → Result HttpError Bool
unfolding requested_file
exists settings links fuel there path = exists_at there (requested_file settings links fuel path)
