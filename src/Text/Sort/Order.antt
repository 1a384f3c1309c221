-- ===== src/Text/Sort/Order.antt =====
-- Sorting by a string keeps the items and puts their keys in order.
use mathlib.Core.List.{Perm}
use mathlib.Core.List.Perm
use xolis.Base.{◌≡◌, refl, true, false, List, [], ◌∷◌, All, arith, nat_eq, Bool-cases, inl, inr}
use xolis.Text.{Text, text_le}
use xolis.Text.Sort.{insert_by, sort_by}

pub text_le_total : (a b : Text) → text_le a b ≡ false → text_le b a ≡ true
unfolding text_le
text_le_total [] b h = cc
text_le_total (c ∷ a) [] h = refl
text_le_total (c ∷ a) (d ∷ b) h = ground (arith, text_le_total a b)

module _ {A : Type 0} (key : A → Text) where
  insert-perm : (a : A) (as' : List A) → Perm (insert_by key a as') (a ∷ as')
  unfolding insert_by
  insert-perm a [] = Perm.refl _
  insert-perm a (b ∷ bs) = elim (Bool-cases (text_le (key a) (key b))) [
    | inl h ↦ rw h (Perm.refl _)
    | inr h ↦ rw h (Perm.trans (Perm.cons b (insert-perm a bs)) (Perm.swap a b bs))
  ]

  pub sort-perm : (as' : List A) → Perm (sort_by key as') as'
  unfolding sort_by
  sort-perm [] = Perm.refl _
  sort-perm (a ∷ as') = Perm.trans (insert-perm a (sort_by key as')) (Perm.cons a (sort-perm as'))

  -- Each key is at most the next one.
  abbrev pub LeHead : Text → List A → Type 0
  LeHead k [] = Unit
  LeHead k (a ∷ as') = text_le k (key a) ≡ true

  abbrev pub IsSorted : List A → Type 0
  IsSorted [] = Unit
  IsSorted (a ∷ as') = LeHead (key a) as' × IsSorted as'

  LeHead-insert :
      (k : Text) (a : A) (as' : List A)
      → text_le k (key a) ≡ true
      → LeHead k as'
      → LeHead k (insert_by key a as')
  unfolding insert_by
  LeHead-insert k a [] h l = h
  LeHead-insert k a (b ∷ bs) h l = elim (Bool-cases (text_le (key a) (key b))) [
    | inl e ↦ rw e h
    | inr e ↦ rw e l
  ]

  insert-IsSorted : (a : A) (as' : List A) → IsSorted as' → IsSorted (insert_by key a as')
  unfolding insert_by
  insert-IsSorted a [] h = (tt, tt)
  insert-IsSorted a (b ∷ bs) h = elim (Bool-cases (text_le (key a) (key b))) [
    | inl e ↦ rw e (e, h)
    | inr e ↦
        rw e (
          LeHead-insert (key b) a bs (text_le_total (key a) (key b) e) h.0,
          insert-IsSorted a bs h.1,
        )
  ]

  pub sort-IsSorted : (as' : List A) → IsSorted (sort_by key as')
  unfolding sort_by
  sort-IsSorted [] = tt
  sort-IsSorted (a ∷ as') = insert-IsSorted a (sort_by key as') (sort-IsSorted as')

module _ {A : Type 0} (key : A → Text) (P : A → Type 0) where
  All-insert : (a : A) (as' : List A) → P a → All P as' → All P (insert_by key a as')
  unfolding insert_by
  All-insert a [] p h = (p, tt)
  All-insert a (b ∷ bs) p h = elim (Bool-cases (text_le (key a) (key b))) [
    | inl e ↦ rw e (p, h)
    | inr e ↦ rw e (h.0, All-insert a bs p h.1)
  ]

  insert-All : (a : A) (as' : List A) → All P (insert_by key a as') → P a × All P as'
  unfolding insert_by
  insert-All a [] h = (h.0, tt)
  insert-All a (b ∷ bs) h = elim (Bool-cases (text_le (key a) (key b))) [
    | inl e ↦ (rw e at h)
    | inr e ↦ later (insert-All a bs) (rw e at h)
  ]
    where
      later :
          (All P (insert_by key a bs) → P a × All P bs)
          → P b × All P (insert_by key a bs)
          → P a × (P b × All P bs)
      later ih (p, q) = let (x, y) = ih q in (x, (p, y))

  pub All-sort : (as' : List A) → All P as' → All P (sort_by key as')
  unfolding sort_by
  All-sort [] h = tt
  All-sort (a ∷ as') h = All-insert a (sort_by key as') h.0 (All-sort as' h.1)

  pub sort-All : (as' : List A) → All P (sort_by key as') → All P as'
  unfolding sort_by
  sort-All [] h = tt
  sort-All (a ∷ as') h = let (p, q) = insert-All a (sort_by key as') h in (p, sort-All as' q)
