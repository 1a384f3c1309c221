-- ===== src/Runtime/Paths/Plain.antt =====
-- Resolution where the path meets no symbolic link: the parts are normalised in order.
use xolis.Base.{
  ℕ, zero, suc, ◌+◌, ◌≤◌, ◌≡◌, refl, ap, sym, ◌∙◌, none, some, List, [], ◌∷◌, ◌++◌, map, arith,
  nat_eq, list_eq, list_beq_iff, if◌then◌else◌, length, append-nil, append_assoc, length-append,
}
use xolis.Base.Result.{ok}
use xolis.Text.{Text}
use xolis.Runtime.{FilePath}
use xolis.Runtime.Paths.{
  Links, is_dot, is_dot_dot, parent, Todo, part, Seen, Walk, walk_part, walk, real_path, below,
  accept, resolve_parts,
}
use xolis.Runtime.Paths.Confined.{IsProper, IsCanonical}

-- The usual meaning of a path, part by part.
abbrev pub normal_step : FilePath → Text → FilePath
normal_step path name =
    if is_dot name then path else if is_dot_dot name then parent path else path ++ (name ∷ [])

unfoldable pub normalise : FilePath → List Text → FilePath
normalise path [] = path
normalise path (name ∷ parts) = normalise (normal_step path name) parts

abbrev pub LinkFree : Links → Type 0
LinkFree links = (p : FilePath) → links p ≡ none

module _ (links : Links) (free : LinkFree links) where
  walk_part-free :
      (path : FilePath) (name : Text) (rest : List Todo) (seen : Seen)
      → walk_part links path name rest seen
        ≡ record { path = normal_step path name; rest = rest; seen = seen }
  unfolding walk_part
  walk_part-free path name rest seen = rw (free (path ++ (name ∷ []))) (ground arith)

  walk-free :
      (fuel : ℕ) (path : FilePath) (parts : List Text) (seen : Seen)
      → length parts ≤ fuel
      → walk links fuel path (map part parts) seen ≡ some (normalise path parts)
  unfolding walk normalise
  walk-free zero path [] seen h = refl
  walk-free (suc fuel) path [] seen h = refl
  walk-free zero path (name ∷ parts) seen h = absurd (omega arith)
  walk-free (suc fuel) path (name ∷ parts) seen h =
      ap (λ (w : Walk). walk links fuel w.path w.rest w.seen)
        (walk_part-free path name (map part parts) seen)
      ∙ walk-free fuel (normal_step path name) parts seen (omega arith)

  -- Without links the walk ends within one round for each part, at the normal form.
  pub real_path-free :
      (fuel : ℕ) (parts : List Text)
      → length parts ≤ fuel
      → real_path links fuel parts ≡ some (normalise [] parts)
  unfolding real_path
  real_path-free fuel parts h = walk-free fuel [] parts [] h

normalise-append :
    (path : FilePath) (a b : List Text) → normalise path (a ++ b) ≡ normalise (normalise path a) b
unfolding normalise
normalise-append path [] b = refl
normalise-append path (n ∷ a) b = normalise-append (normal_step path n) a b

normalise-canonical : (path p : FilePath) → IsCanonical p → normalise path p ≡ path ++ p
unfolding normalise
normalise-canonical path [] h = sym (append-nil path)
normalise-canonical path (n ∷ p) h =
    ap (λ q. normalise q p) (step n h.0)
    ∙ (normalise-canonical (path ++ (n ∷ [])) p h.1 ∙ append_assoc path (n ∷ []) p)
  where
    step : (n : Text) → IsProper n → normal_step path n ≡ path ++ (n ∷ [])
    step n k = rw (k.0, k.1)

below-append : (ws p : FilePath) → below ws (ws ++ p) ≡ some p
unfolding below
below-append [] p = refl
below-append (n ∷ ws) p = ground (arith, list_beq_iff n n, below-append ws p)

module _ (links : Links) (free : LinkFree links) (fuel : ℕ) (workspace : FilePath)
    (canonical : IsCanonical workspace) where
  base_free : length workspace ≤ fuel → real_path links fuel workspace ≡ some workspace
  base_free h =
      real_path-free links free fuel workspace h
      ∙ ap some (normalise-canonical [] workspace canonical)

  -- Without links the outcome is that of the normal form of the request below the workspace, given
  -- fuel for the parts.
  pub resolve_parts-free :
      (parts : List Text)
      → length workspace + length parts ≤ fuel
      → resolve_parts links fuel workspace parts
        ≡ accept (normalise workspace parts) (below workspace (normalise workspace parts))
  unfolding resolve_parts
  resolve_parts-free parts h =
      rw
        (
          base_free (omega arith),
          real_path-free links free fuel (workspace ++ parts)
              (omega (arith, length-append workspace parts)),
        )
        (ap (λ q. accept q (below workspace q))
          (normalise-append [] workspace parts
            ∙ ap (λ q. normalise q parts) (normalise-canonical [] workspace canonical)))

  -- In a file system without links, a request made of proper names, at least one of them, below a
  -- workspace that is canonical itself is accepted as just these names below the workspace, given fuel
  -- for the parts of both.
  pub resolve_parts-proper :
      (n : Text) (names : List Text)
      → IsCanonical (n ∷ names)
      → length workspace + length (n ∷ names) ≤ fuel
      → resolve_parts links fuel workspace (n ∷ names) ≡ ok (workspace ++ (n ∷ names))
  resolve_parts-proper n names h k =
      resolve_parts-free (n ∷ names) k
      ∙ rw (normalise-canonical workspace (n ∷ names) h, below-append workspace (n ∷ names)) refl
