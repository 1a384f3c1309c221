-- ===== src/Base/Least.antt =====
-- Python's `min` and `max` on a list that is not empty, by one comparison.
use xolis.Base.{
  ◌≡◌, refl, ◌⊎◌, inl, inr, Bool, true, false, List, [], ◌∷◌, Has, here, there, Bool-cases,
  if◌then◌else◌,
}

module _ {A : Type 0} (lt : A → A → Bool) where
  -- The first of the items that no other one is below.
  abbrev pub least : A → List A → A
  least best [] = best
  least best (x ∷ xs) = least (if lt x best then x else best) xs

  nothing : {a : A} → Has {A = A} [] a → ⊥
  nothing h = elim h [ ]

  -- `best` is no larger than an item at hand.
  abbrev pub NoneBelow : A → (A → Type 0) → Type 0
  NoneBelow best P = (x : A) → P x → lt x best ≡ false

  pub record IsLeast (best : A) (xs : List A) (m : A) : Type 0 where
    pub member : Has (best ∷ xs) m
    pub low : NoneBelow m (Has (best ∷ xs))
    pub reached : (m ≡ best) ⊎ (lt m best ≡ true)

  module _ (lt_irrefl : (x : A) → lt x x ≡ false)
      (lt_trans : (x y z : A) → lt x y ≡ true → lt y z ≡ true → lt x z ≡ true) where
    beside : {b x m : A} {xs : List A} → Has (b ∷ xs) m → Has (b ∷ x ∷ xs) m
    beside here = here
    beside (there h) = there (there h)

    -- A comparison that would go against two others does not hold.
    not_below : (x y z : A) → lt x y ≡ true → lt x z ≡ false → lt y z ≡ false
    not_below x y z h k = elim (Bool-cases (lt y z)) [ inl e ↦ cc (lt_trans x y z h e) | inr e ↦ e ]

    pub least-IsLeast : (best : A) (xs : List A) → IsLeast best xs (least best xs)
    least-IsLeast best [] = record { member = here; low = only; reached = inl refl }
      where
        only : NoneBelow best (Has (best ∷ []))
        only _ here = lt_irrefl best
        only x (there h) = absurd (nothing h)
    least-IsLeast best (x ∷ xs) = elim (Bool-cases (lt x best)) [
      | inl e ↦ rw e (lower e (least-IsLeast x xs))
      | inr e ↦ rw e (same e (least-IsLeast best xs))
    ]
      where
        lower : {m : A} → lt x best ≡ true → IsLeast x xs m → IsLeast best (x ∷ xs) m
        lower {m} e r = record {
          member = there r.member;
          low = low;
          reached = inr (elim r.reached [ inl q ↦ rw q e | inr q ↦ lt_trans m x best q e ]);
        }
          where
            low : NoneBelow m (Has (best ∷ x ∷ xs))
            low _ here = not_below x best m e (r.low x here)
            low y (there h) = r.low y h

        same : {m : A} → lt x best ≡ false → IsLeast best xs m → IsLeast best (x ∷ xs) m
        same {m} e r = record { member = beside r.member; low = low; reached = r.reached }
          where
            above : lt x m ≡ false
            above = elim r.reached [
              | inl q ↦ rw q e
              | inr q ↦ elim (Bool-cases (lt x m)) [
                | inl k ↦ cc (lt_trans x m best k q)
                | inr k ↦ k
              ]
            ]

            low : NoneBelow m (Has (best ∷ x ∷ xs))
            low _ here = r.low best here
            low _ (there here) = above
            low y (there (there h)) = r.low y (there h)

-- The first of the items that is below no other one.
abbrev pub greatest : {A : Type 0} → (A → A → Bool) → A → List A → A
greatest lt best xs = least (λ x y. lt y x) best xs
