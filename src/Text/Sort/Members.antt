-- ===== src/Text/Sort/Members.antt =====
-- Sorting strings keeps what is among them, each as often.
use xolis.Base.{
  ◌≡◌, refl, ◌∙◌, ap, false, ◌||◌, List, [], ◌∷◌, arith, ◌==◌, nat_eq, list_eq, list_beq_iff,
  contains, Bool-cases, inl, inr,
}
use xolis.Text.{Text, text_le}
use xolis.Text.Sort.{insert_by, sort_by, set}

-- No text stands twice.
abbrev pub Distinct : List Text → Type 0
Distinct [] = Unit
Distinct (x ∷ xs) = (contains xs x ≡ false) × Distinct xs

abbrev itself : Text → Text
itself x = x

contains-insert :
    (x : Text) (xs : List Text) (y : Text)
    → contains (insert_by itself x xs) y ≡ (y == x || contains xs y)
unfolding insert_by
contains-insert x [] y = refl
contains-insert x (z ∷ zs) y = elim (Bool-cases (text_le x z)) [
  | inl e ↦ rw e refl
  | inr e ↦ rw (e, contains-insert x zs y) (ground arith)
]

pub contains-sort : (xs : List Text) (y : Text) → contains (sort_by (λ x. x) xs) y ≡ contains xs y
unfolding sort_by
contains-sort [] y = refl
contains-sort (x ∷ xs) y =
    contains-insert x (sort_by itself xs) y ∙ ap (λ b. y == x || b) (contains-sort xs y)

-- Equality of texts has no direction.
text_eq_comm : (x y : Text) → (x == y) ≡ false → (y == x) ≡ false
text_eq_comm x y h = ground (arith, list_beq_iff x y, list_beq_iff y x)

Distinct-insert :
    (x : Text) (xs : List Text)
    → contains xs x ≡ false
    → Distinct xs
    → Distinct (insert_by itself x xs)
unfolding insert_by
Distinct-insert x [] h d = (refl, tt)
Distinct-insert x (z ∷ zs) h d = elim (Bool-cases (text_le x z)) [
  | inl e ↦ rw e (h, d)
  | inr e ↦ rw e (
    contains-insert x zs z ∙ ground (arith, text_eq_comm x z, d.0),
    Distinct-insert x zs (ground arith) d.1,
  )
]

pub Distinct-sort : (xs : List Text) → Distinct xs → Distinct (sort_by (λ x. x) xs)
unfolding sort_by
Distinct-sort [] d = tt
Distinct-sort (x ∷ xs) d =
    Distinct-insert x (sort_by itself xs) (contains-sort xs x ∙ d.0) (Distinct-sort xs d.1)

pub contains-set : (xs : List Text) (y : Text) → contains (set xs) y ≡ contains xs y
unfolding set
contains-set [] y = refl
contains-set (x ∷ xs) y = elim (Bool-cases (contains (set xs) x)) [
  | inl e ↦ rw e (contains-set xs y ∙ ground (arith, list_beq_iff y x, contains-set xs x))
  | inr e ↦ rw (e, contains-set xs y) refl
]

pub Distinct-set : (xs : List Text) → Distinct (set xs)
unfolding set
Distinct-set [] = tt
Distinct-set (x ∷ xs) = elim (Bool-cases (contains (set xs) x)) [
  | inl e ↦ rw e (Distinct-set xs)
  | inr e ↦ rw e (e, Distinct-set xs)
]
