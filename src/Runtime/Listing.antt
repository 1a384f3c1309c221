-- ===== src/Runtime/Listing.antt =====
-- `list_directory` of core.py.
pub mod Sorted
use xolis.Base.{
  ℕ, Bool, true, false, ◌&&◌, ◌||◌, Option, none, some, List, [], ◌∷◌, map, ltb, ◌==◌, nat_eq,
  if◌then◌else◌,
}
use xolis.Base.Result.{Result, ok, err}
use xolis.Text.{Text}
use xolis.Text.Sort.{sort_by}
use xolis.Runtime.{FilePath, RuntimeSettings}
use xolis.Runtime.Paths.{Links, PathError, resolve_workspace_path}

-- What the file system says of one directory entry, its own link not followed.
pub record DirEntry : Type 0 where
  pub name : Text
  pub size : ℕ
  -- `st_mtime`, a float, by its 64 bits
  pub mod_time : ℕ
  pub is_symlink : Bool
  -- `is_dir()`, which follows a link
  pub is_dir : Bool

pub data EntryType : Type 0 where
  other directory file : EntryType

pub record Listed : Type 0 where
  pub name : Text
  pub size : ℕ
  pub type : EntryType
  pub mod_time : ℕ

unfoldable pub entry_type : Bool → Bool → EntryType
entry_type true is_dir = other
entry_type false true = directory
entry_type false false = file

unfoldable pub describe : DirEntry → Listed
unfolding entry_type
describe e = record {
  name = e.name;
  size = e.size;
  type = entry_type e.is_symlink e.is_dir;
  mod_time = e.mod_time;
}

-- `sorted(entries, key=lambda item: item.name)`
unfoldable pub sorted : List DirEntry → List DirEntry
unfolding sort_by
sorted entries = sort_by (λ e. e.name) entries

-- The directories of the file system and what they hold.
abbrev pub Directories : Type 0
Directories = FilePath → Option (List DirEntry)

pub data ListError : Type 0 where
  path_error : PathError → ListError
  not_a_directory : ListError

abbrev pub list_entries : Option (List DirEntry) → Result ListError (List Listed)
list_entries none = err not_a_directory
list_entries (some entries) = ok (map describe (sorted entries))

abbrev pub list_resolved : Directories → Result PathError FilePath → Result ListError (List Listed)
list_resolved directories (err e) = err (path_error e)
list_resolved directories (ok path) = list_entries (directories path)

unfoldable pub list_directory :
    RuntimeSettings → Links → ℕ → Directories → Text → Result ListError (List Listed)
unfolding sorted describe
list_directory settings links fuel directories requested =
    list_resolved directories (resolve_workspace_path links fuel settings.workspace requested)
