-- ===== src/Runtime/Paths/Confined.antt =====
-- What `resolve_workspace_path` lets through lies inside the workspace.
use mathlib.Core.Path.{subst}
use xolis.Base.{
  ℕ, zero, suc, ◌≡◌, refl, ap, ◌∙◌, Bool, true, false, Option, none, some, List, [], ◌∷◌, ◌++◌, map,
  arith, All, ◌==◌, nat_eq, list_eq, list_beq_iff, Bool-cases, Option-cases, inl, inr,
  if◌then◌else◌,
}
use xolis.Base.Result.{Result, ok}
use xolis.Text.{Text}
use xolis.Runtime.{FilePath}
use xolis.Runtime.Paths.{
  Links, is_dot, is_dot_dot, parent, Todo, part, resolved, Seen, is_seen, Walk, follow, again,
  walk_link, walk_part, walk, real_path, below, accept, check_resolved, resolve_below, split_slash,
  resolve_workspace_path, PathError, is_absolute,
}

-- A component that names something: neither empty, nor `.`, nor `..`.
abbrev pub IsProper : Text → Type 0
IsProper name = (is_dot name ≡ false) × (is_dot_dot name ≡ false)

abbrev pub IsCanonical : FilePath → Type 0
IsCanonical p = All IsProper p

-- Resolutions that are remembered are canonical.
abbrev SeenCanonical : Seen → Type 0
SeenCanonical [] = Unit
SeenCanonical ((q, none) ∷ seen) = SeenCanonical seen
SeenCanonical ((q, some r) ∷ seen) = IsCanonical r × SeenCanonical seen

abbrev IsGood : Walk → Type 0
IsGood w = IsCanonical w.path × SeenCanonical w.seen

parent-IsCanonical : (p : FilePath) → IsCanonical p → IsCanonical (parent p)
unfolding parent
parent-IsCanonical [] h = tt
parent-IsCanonical (n ∷ []) h = tt
parent-IsCanonical (n ∷ m ∷ p) h = (h.0, parent-IsCanonical (m ∷ p) h.1)

snoc-IsCanonical :
    (p : FilePath) (n : Text) → IsCanonical p → IsProper n → IsCanonical (p ++ (n ∷ []))
snoc-IsCanonical [] n h k = (k, tt)
snoc-IsCanonical (m ∷ p) n h k = (h.0, snoc-IsCanonical p n h.1 k)

seen_resolution-IsCanonical :
    (p r : FilePath) (seen : Seen)
    → SeenCanonical seen
    → is_seen p seen ≡ some (some r)
    → IsCanonical r
seen_resolution-IsCanonical p r [] h e = cc
seen_resolution-IsCanonical p r ((q, none) ∷ seen) h e = elim (Bool-cases (p == q)) [
  | inl k ↦ absurd (some_none (rw k at e))
  | inr k ↦ seen_resolution-IsCanonical p r seen h (rw k at e)
]
  where
    some_none : ◌≡◌ {A = Option (Option FilePath)} (some none) (some (some r)) → ⊥
    some_none k = cc
seen_resolution-IsCanonical p r ((q, some t) ∷ seen) h e = elim (Bool-cases (p == q)) [
  | inl k ↦ subst IsCanonical (same (rw k at e)) h.0
  | inr k ↦ seen_resolution-IsCanonical p r seen h.1 (rw k at e)
]
  where
    same : some (some t) ≡ some (some r) → t ≡ r
    same k = cc

again-IsGood :
    (newpath : FilePath) (rest : List Todo) (seen : Seen) (r : Option FilePath)
    → IsCanonical newpath
    → SeenCanonical seen
    → is_seen newpath seen ≡ some r
    → IsGood (again newpath rest seen r)
again-IsGood newpath rest seen none h k e = (h, k)
again-IsGood newpath rest seen (some r) h k e = (seen_resolution-IsCanonical newpath r seen k e, k)

follow-IsGood :
    (path newpath : FilePath) (rest : List Todo) (seen : Seen) (target : Text)
    → IsCanonical path
    → SeenCanonical seen
    → IsGood (follow path newpath rest seen target)
follow-IsGood path newpath rest seen target h k = (start (is_absolute target), k)
  where
    start : (b : Bool) → IsCanonical (if b then [] else path)
    start true = tt
    start false = h

walk_link-IsGood :
    (path newpath : FilePath) (rest : List Todo) (seen : Seen) (target : Option Text)
    → IsCanonical path
    → IsCanonical newpath
    → SeenCanonical seen
    → IsGood (walk_link path newpath rest seen target)
unfolding walk_link
walk_link-IsGood path newpath rest seen none h n k = (n, k)
walk_link-IsGood path newpath rest seen (some target) h n k =
    elim (Option-cases (is_seen newpath seen)) [
      | inl e ↦ rw (e, walk_link) (follow-IsGood path newpath rest seen target h k)
      | inr (r, e) ↦ rw (e, walk_link) (again-IsGood newpath rest seen r n k e)
    ]

walk_part-IsGood :
    (links : Links) (path : FilePath) (name : Text) (rest : List Todo) (seen : Seen)
    → IsCanonical path
    → SeenCanonical seen
    → IsGood (walk_part links path name rest seen)
unfolding walk_part
walk_part-IsGood links path name rest seen h k = elim (Bool-cases (is_dot name)) [
  | inl d ↦ rw d (h, k)
  | inr d ↦ elim (Bool-cases (is_dot_dot name)) [
    | inl dd ↦ rw (d, dd) (parent-IsCanonical path h, k)
    | inr dd ↦
        rw (d, dd)
          (walk_link-IsGood path (path ++ (name ∷ [])) rest seen (links (path ++ (name ∷ []))) h
            (snoc-IsCanonical path name h (d, dd)) k)
  ]
]

walk-IsCanonical :
    (links : Links) (fuel : ℕ) (path : FilePath) (rest : List Todo) (seen : Seen) (p : FilePath)
    → IsCanonical path
    → SeenCanonical seen
    → walk links fuel path rest seen ≡ some p
    → IsCanonical p
unfolding walk
walk-IsCanonical links zero path [] seen p h k e = rw (some_path e) at h
  where
    some_path : some path ≡ some p → path ≡ p
    some_path t = cc
walk-IsCanonical links (suc fuel) path [] seen p h k e = rw (some_path e) at h
  where
    some_path : some path ≡ some p → path ≡ p
    some_path t = cc
walk-IsCanonical links zero path (t ∷ rest) seen p h k e = cc
walk-IsCanonical links (suc fuel) path (resolved link ∷ rest) seen p h k e =
    walk-IsCanonical links fuel path rest ((link, some path) ∷ seen) p h (h, k) e
walk-IsCanonical links (suc fuel) path (part name ∷ rest) seen p h k e =
    let w = walk_part links path name rest seen in
    let good = walk_part-IsGood links path name rest seen h k in
    walk-IsCanonical links fuel w.path w.rest w.seen p good.0 good.1 e

-- Whatever the links, a resolved path has no empty part, no `.` and no `..`.
pub real_path-IsCanonical :
    (links : Links) (fuel : ℕ) (parts : List Text) (p : FilePath)
    → real_path links fuel parts ≡ some p
    → IsCanonical p
unfolding real_path
real_path-IsCanonical links fuel parts p e =
    walk-IsCanonical links fuel [] (map part parts) [] p tt tt e

pub below-some : (ws p rest : FilePath) → below ws p ≡ some rest → p ≡ ws ++ rest
unfolding below
below-some [] p rest e = cc
below-some (n ∷ ws) [] rest e = cc
below-some (n ∷ ws) (m ∷ p) rest e = ground (arith, list_beq_iff n m, below-some ws p rest)

-- What the accepted path of a request is.
pub record IsInside (links : Links) (fuel : ℕ) (workspace p : FilePath) : Type 0 where
  pub base : FilePath
  pub base_resolved : real_path links fuel workspace ≡ some base
  pub first : Text
  pub others : FilePath
  pub below_base : p ≡ base ++ (first ∷ others)
  pub canonical : IsCanonical p

accept-ok :
    (base path p : FilePath) (o : Option FilePath)
    → below base path ≡ o
    → accept path o ≡ ok p
    → (n : Text) × (r : FilePath) × (p ≡ base ++ (n ∷ r)) × (path ≡ p)
accept-ok base path p none e h = cc
accept-ok base path p (some []) e h = cc
accept-ok base path p (some (n ∷ r)) e h =
    (n, r, same (path_eq h) (below-some base path (n ∷ r) e), path_eq h)
  where
    path_eq : ◌≡◌ {A = Result PathError FilePath} (ok path) (ok p) → path ≡ p
    path_eq k = cc

    same : path ≡ p → path ≡ base ++ (n ∷ r) → p ≡ base ++ (n ∷ r)
    same k l = cc

check_resolved-ok :
    (links : Links) (fuel : ℕ) (base p : FilePath) (parts : List Text) (o : Option FilePath)
    → real_path links fuel parts ≡ o
    → check_resolved base o ≡ ok p
    → (n : Text) × (r : FilePath) × (p ≡ base ++ (n ∷ r)) × IsCanonical p
check_resolved-ok links fuel base p parts none e h = cc
check_resolved-ok links fuel base p parts (some path) e h =
    let (n, r, below_base, same) = accept-ok base path p (below base path) refl h in
    (n, r, below_base, real_path-IsCanonical links fuel parts p (e ∙ ap some same))

resolve_below-ok :
    (links : Links) (fuel : ℕ) (workspace p : FilePath) (parts : List Text) (o : Option FilePath)
    → real_path links fuel workspace ≡ o
    → resolve_below links fuel parts o ≡ ok p
    → IsInside links fuel workspace p
resolve_below-ok links fuel workspace p parts none e h = cc
resolve_below-ok links fuel workspace p parts (some base) e h =
    let (n, r, below_base, canonical) =
      check_resolved-ok links fuel base p (base ++ parts) (real_path links fuel (base ++ parts))
        refl h in
    record {
      base = base;
      base_resolved = e;
      first = n;
      others = r;
      below_base = below_base;
      canonical = canonical;
    }

-- An accepted request names a path strictly inside the resolved workspace, with no empty part, no
-- `.` and no `..`, whatever symbolic links and `..` it was made of.
pub resolve_workspace_path-IsInside :
    (links : Links) (fuel : ℕ) (workspace : FilePath) (requested : Text) (p : FilePath)
    → resolve_workspace_path links fuel workspace requested ≡ ok p
    → IsInside links fuel workspace p
unfolding resolve_workspace_path
resolve_workspace_path-IsInside links fuel workspace requested p h =
    resolve_below-ok links fuel workspace p (split_slash requested) (real_path links fuel workspace)
      refl (ground arith)
