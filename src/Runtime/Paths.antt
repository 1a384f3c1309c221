-- ===== src/Runtime/Paths.antt =====
-- `resolve_workspace_path` of core.py, with `Path.resolve(strict=False)`: the walk that `realpath`
-- makes through a path's parts. The file system is its symbolic links.
pub mod Confined
pub mod Plain
use xolis.Base.{
  ℕ, zero, suc, ◌≡◌, Bool, true, false, ◌&&◌, ◌||◌, not, Option, none, some, List, [], ◌∷◌, ◌++◌,
  map, ◌==◌, nat_eq, list_eq, contains, if◌then◌else◌,
}
use xolis.Base.Result.{Result, ok, err}
use xolis.Text.{Text, codes}
use xolis.Runtime.{FilePath, RuntimeSettings}

-- The target of the symbolic link at a path, if there is one.
abbrev pub Links : Type 0
Links = FilePath → Option Text

-- `text.split("/")`
abbrev pub push_char : ℕ → List Text → List Text
push_char c [] = (c ∷ []) ∷ []
push_char c (w ∷ ws) = (c ∷ w) ∷ ws

unfoldable pub split_slash : Text → List Text
split_slash [] = [] ∷ []
split_slash (c ∷ s) = let parts = split_slash s in if c == 47 then [] ∷ parts else push_char c parts

abbrev pub is_absolute : Text → Bool
is_absolute [] = false
is_absolute (c ∷ s) = c == 47

abbrev pub is_dot : Text → Bool
is_dot name = name == [] || name == codes "."

abbrev pub is_dot_dot : Text → Bool
is_dot_dot name = name == codes ".."

-- `path[:path.rindex(sep)] or sep`
unfoldable pub parent : FilePath → FilePath
parent [] = []
parent (n ∷ []) = []
parent (n ∷ m ∷ p) = n ∷ parent (m ∷ p)

-- The stack of `realpath`: parts to walk, and marks at which a link's target is walked.
pub data Todo : Type 0 where
  part : Text → Todo
  resolved : FilePath → Todo

-- The links met so far: `none` while the target is walked.
abbrev pub Seen : Type 0
Seen = List (FilePath × Option FilePath)

abbrev pub is_seen : FilePath → Seen → Option (Option FilePath)
is_seen p [] = none
is_seen p ((q, r) ∷ seen) = if p == q then some r else is_seen p seen

pub record Walk : Type 0 where
  pub path : FilePath
  pub rest : List Todo
  pub seen : Seen

-- A part that is a link for the first time: its target goes on the stack.
abbrev pub follow : FilePath → FilePath → List Todo → Seen → Text → Walk
follow path newpath rest seen target = record {
  path = if is_absolute target then [] else path;
  rest = map part (split_slash target) ++ (resolved newpath ∷ rest);
  seen = (newpath, none) ∷ seen;
}

-- A link that was met before: its resolution, or the link itself inside a loop.
abbrev pub again : FilePath → List Todo → Seen → Option FilePath → Walk
again newpath rest seen none = record { path = newpath; rest = rest; seen = seen }
again newpath rest seen (some path) = record { path = path; rest = rest; seen = seen }

unfoldable pub walk_link : FilePath → FilePath → List Todo → Seen → Option Text → Walk
walk_link path newpath rest seen none = record { path = newpath; rest = rest; seen = seen }
walk_link path newpath rest seen (some target) = elim (is_seen newpath seen) [
  | none ↦ follow path newpath rest seen target
  | some r ↦ again newpath rest seen r
]

-- One round of the loop.
unfoldable pub walk_part : Links → FilePath → Text → List Todo → Seen → Walk
unfolding walk_link
walk_part links path name rest seen =
    if is_dot name
    then record { path = path; rest = rest; seen = seen }
    else if is_dot_dot name
    then record { path = parent path; rest = rest; seen = seen }
    else walk_link path (path ++ (name ∷ [])) rest seen (links (path ++ (name ∷ [])))

-- The loop, on fuel: `none` means that the fuel ran out.
unfoldable pub walk : Links → ℕ → FilePath → List Todo → Seen → Option FilePath
walk links fuel path [] seen = some path
walk links zero path (t ∷ rest) seen = none
walk links (suc fuel) path (resolved link ∷ rest) seen =
    walk links fuel path rest ((link, some path) ∷ seen)
walk links (suc fuel) path (part name ∷ rest) seen =
    let w = walk_part links path name rest seen in walk links fuel w.path w.rest w.seen

-- `Path.resolve(strict=False)` of an absolute path given by its parts.
unfoldable pub real_path : Links → ℕ → List Text → Option FilePath
unfolding walk walk_part
real_path links fuel parts = walk links fuel [] (map part parts) []

-- What is left of a path below another: `none` if it does not lie under it.
unfoldable pub below : FilePath → FilePath → Option FilePath
below [] p = some p
below (n ∷ ws) [] = none
below (n ∷ ws) (m ∷ p) = let rest = below ws p in if n == m then rest else none

pub data PathViolation : Type 0 where
  empty_or_nul absolute outside_workspace : PathViolation

pub data PathError : Type 0 where
  violation : PathViolation → PathError
  -- the walk was not given fuel enough
  out_of_fuel : PathError

-- `not resolved.is_relative_to(workspace) or resolved == workspace`, from what is left below it.
abbrev pub accept : FilePath → Option FilePath → Result PathError FilePath
accept path none = err (violation outside_workspace)
accept path (some []) = err (violation outside_workspace)
accept path (some (n ∷ rest)) = ok path

abbrev pub check_resolved : FilePath → Option FilePath → Result PathError FilePath
check_resolved base none = err out_of_fuel
check_resolved base (some path) = accept path (below base path)

abbrev pub resolve_below : Links → ℕ → List Text → Option FilePath → Result PathError FilePath
resolve_below links fuel parts none = err out_of_fuel
resolve_below links fuel parts (some base) =
    check_resolved base (real_path links fuel (base ++ parts))

unfoldable pub resolve_parts : Links → ℕ → FilePath → List Text → Result PathError FilePath
unfolding real_path below
resolve_parts links fuel workspace parts =
    resolve_below links fuel parts (real_path links fuel workspace)

unfoldable pub resolve_workspace_path : Links → ℕ → FilePath → Text → Result PathError FilePath
unfolding resolve_parts split_slash
resolve_workspace_path links fuel workspace requested =
    if requested == [] || contains requested 0
    then err (violation empty_or_nul)
    else if is_absolute requested
    then err (violation absolute)
    else resolve_parts links fuel workspace (split_slash requested)
