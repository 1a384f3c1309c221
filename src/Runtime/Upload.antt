-- ===== src/Runtime/Upload.antt =====
-- `write_upload` of core.py: an upload goes through a temporary file, which takes the place of the
-- destination only when it is complete.
pub mod Atomic
use xolis.Base.{
  ℕ, ◌+◌, ◌≡◌, Bool, true, false, not, ◌&&◌, Option, none, some, List, [], ◌∷◌, ◌++◌, ◌==◌, nat_eq,
  list_eq, length, if◌then◌else◌,
}
use xolis.Base.Int.{ℤ, pos, leb_ℤ}
use xolis.Base.Result.{Result, ok, err}
use xolis.Text.{Text}
use xolis.Runtime.{Bytes, FilePath, RuntimeSettings}
use xolis.Runtime.Paths.{Links, PathError, resolve_workspace_path}

-- The regular files and their contents.
abbrev pub Files : Type 0
Files = FilePath → Option Bytes

unfoldable pub same_path : FilePath → FilePath → Bool
same_path p q = p == q

abbrev pub put : Files → FilePath → Option Bytes → Files
put files p content q = if same_path q p then content else files q

-- What `source.read` does, call after call; `unwritten` is a chunk whose `temporary.write` fails.
pub data Read : Type 0 where
  chunk : Bytes → Read
  read_failed : Read
  unwritten : Bytes → Read

pub data UploadError : Type 0 where
  path_error : PathError → UploadError
  too_large : ℤ → UploadError
  io_error : UploadError

-- The copying ends with the written bytes, and with an error if one was raised.
pub record Copied : Type 0 where
  pub written : Bytes
  pub raised : Option UploadError

unfoldable pub copy : ℤ → ℕ → Bytes → List Read → Copied
copy maximum total written [] = record { written = written; raised = none }
copy maximum total written (chunk [] ∷ rest) = record { written = written; raised = none }
copy maximum total written (read_failed ∷ rest) = record {
  written = written;
  raised = some io_error;
}
copy maximum total written (unwritten [] ∷ rest) = record { written = written; raised = none }
copy maximum total written (unwritten (b ∷ bs) ∷ rest) = record {
  written = written;
  raised =
      if leb_ℤ (pos (total + length (b ∷ bs))) maximum
      then some io_error
      else some (too_large maximum);
}
copy maximum total written (chunk (b ∷ bs) ∷ rest) =
    let total' = total + length (b ∷ bs) in
    let more = copy maximum total' (written ++ (b ∷ bs)) rest in
    if leb_ℤ (pos total') maximum
    then more
    else record { written = written; raised = some (too_large maximum) }

pub record Upload : Type 0 where
  -- the name that `NamedTemporaryFile` makes up
  pub temporary : FilePath
  pub reads : List Read
  -- whether `mkdir`, `NamedTemporaryFile`, its closing, `os.replace` and `unlink` succeed
  pub makes_directory : Bool
  pub makes_temporary : Bool
  pub closes : Bool
  pub replaces : Bool
  pub removes : Bool

pub record Stored : Type 0 where
  pub result : Result UploadError FilePath
  pub files : Files

-- The removal of the temporary file by `finally`; where it fails, its error takes the place of `e`.
unfoldable pub discard : Upload → Files → UploadError → Stored
discard u files e =
    if u.removes
    then record { result = err e; files = put files u.temporary none }
    else record { result = err io_error; files = files }

-- After the copying: the replacement, or the removal of the temporary file.
unfoldable pub settle : FilePath → Upload → Files → Bytes → Option UploadError → Stored
unfolding discard
settle destination u files written (some e) = discard u files e
settle destination u files written none =
    if u.replaces
    then record {
      result = ok destination;
      files = put (put files u.temporary none) destination (some written);
    }
    else discard u files io_error

-- `with` closes the temporary file, which writes what is buffered.
abbrev pub after_close : Upload → Option UploadError → Option UploadError
after_close u raised = if u.closes then raised else some io_error

unfoldable pub store : RuntimeSettings → Upload → Files → Result PathError FilePath → Stored
unfolding copy settle same_path
store settings u files (err e) = record { result = err (path_error e); files = files }
store settings u files (ok destination) =
    let c = copy settings.maximum_upload_bytes 0 [] u.reads in
    if u.makes_directory && u.makes_temporary
    then settle destination u (put files u.temporary (some c.written)) c.written
        (after_close u c.raised)
    else record { result = err io_error; files = files }

unfoldable pub write_upload : RuntimeSettings → Links → ℕ → Text → Upload → Files → Stored
unfolding store
write_upload settings links fuel requested u files =
    store settings u files (resolve_workspace_path links fuel settings.workspace requested)
