-- ===== src/Runtime/Listing/Sorted.antt =====
-- A listing is the directory's entries, in the order of their names.
use mathlib.Core.List.{Perm}
use mathlib.Core.List.Perm
use mathlib.Core.Path.{subst}
use xolis.Base.{ℕ, ◌≡◌, refl, sym, true, Option, none, some, List, [], ◌∷◌, map, nat_eq}
use xolis.Base.Result.{Result, ok, err}
use xolis.Text.{text_le, Text}
use xolis.Text.Sort.Order
use xolis.Text.Sort.Order.{sort-perm, sort-IsSorted}
use xolis.Runtime.{FilePath, RuntimeSettings}
use xolis.Runtime.Paths.{Links, PathError, resolve_workspace_path}
use xolis.Runtime.Listing.{
  DirEntry, Listed, describe, sorted, Directories, list_resolved, list_entries, list_directory,
}

-- Each name is at most the next one.
abbrev pub LeHead : Text → List Listed → Type 0
LeHead a [] = Unit
LeHead a (l ∷ ls) = text_le a l.name ≡ true

abbrev pub IsSorted : List Listed → Type 0
IsSorted [] = Unit
IsSorted (l ∷ ls) = LeHead l.name ls × IsSorted ls

abbrev listed : List DirEntry → List Listed
listed es = map describe es

-- The order of the entries is that of their descriptions.
IsSorted-listed :
    (es : List DirEntry) → Order.IsSorted (λ (e : DirEntry). e.name) es → IsSorted (listed es)
unfolding describe
IsSorted-listed [] h = tt
IsSorted-listed (e ∷ []) h = (tt, tt)
IsSorted-listed (e ∷ f ∷ es) h = (h.0, IsSorted-listed (f ∷ es) h.1)

-- What a listing is of the directory at the resolved path.
pub record IsListing (settings : RuntimeSettings) (links : Links) (fuel : ℕ)
    (directories : Directories) (requested : Text) (ls : List Listed) : Type 0 where
  pub path : FilePath
  pub resolved : resolve_workspace_path links fuel settings.workspace requested ≡ ok path
  pub entries : List DirEntry
  pub found : directories path ≡ some entries
  pub perm : Perm ls (map describe entries)
  pub sorted_names : IsSorted ls

list_entries-ok :
    (o : Option (List DirEntry)) (ls : List Listed)
    → list_entries o ≡ ok ls
    → (es : List DirEntry) × (o ≡ some es) × (ls ≡ listed (sorted es))
list_entries-ok none ls h = cc
list_entries-ok (some es) ls h = (es, refl, cc)

module _ (settings : RuntimeSettings) (links : Links) (fuel : ℕ) (directories : Directories)
    (requested : Text) where
  list_resolved-ok :
      (r : Result PathError FilePath) (ls : List Listed)
      → resolve_workspace_path links fuel settings.workspace requested ≡ r
      → list_resolved directories r ≡ ok ls
      → IsListing settings links fuel directories requested ls
  unfolding sorted
  list_resolved-ok (err e) ls p h = cc
  list_resolved-ok (ok path) ls p h =
      let (es, found, same) = list_entries-ok (directories path) ls h in
      record {
        path = path;
        resolved = p;
        entries = es;
        found = found;
        perm =
            subst (λ t. Perm t (map describe es)) (sym same)
              (Perm.map describe (sort-perm (λ (e : DirEntry). e.name) es));
        sorted_names =
            rw same (IsSorted-listed (sorted es) (sort-IsSorted (λ (e : DirEntry). e.name) es));
      }

  -- A listing holds a description of each entry of the directory, each once, in the order of names.
  pub list_directory-IsListing :
      (ls : List Listed)
      → list_directory settings links fuel directories requested ≡ ok ls
      → IsListing settings links fuel directories requested ls
  unfolding list_directory
  list_directory-IsListing ls h =
      list_resolved-ok (resolve_workspace_path links fuel settings.workspace requested) ls refl h
