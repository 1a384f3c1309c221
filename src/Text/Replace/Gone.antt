-- ===== src/Text/Replace/Gone.antt =====
-- Replacing a text in capitals by one without capitals leaves none of it, and makes none of another.
use xolis.Base.{
  ℕ, zero, suc, ◌-◌, ◌≤◌, ◌<◌, ◌≡◌, ◌⊎◌, inl, inr, refl, sym, ap, ◌∙◌, Bool, true, false, ◌&&◌,
  ◌||◌, [], ◌∷◌, ◌++◌, length, All, arith, ◌==◌, nat_eq, Bool-cases,
}
use xolis.Text.{Text, starts_with}
use xolis.Text.Replace.{replace_from, occurs}

-- A character of a name in capitals: a capital letter, or one of the six behind `Z`, with `_`.
abbrev pub IsCapital : ℕ → Type 0
IsCapital c = (65 ≤ c) × (c ≤ 96)

abbrev pub IsOutside : ℕ → Type 0
IsOutside c = (c < 65) ⊎ (97 ≤ c)

-- A name in capitals with at least one character; a text of at least one other character.
abbrev pub IsName : Text → Type 0
IsName [] = ⊥
IsName (c ∷ p) = All IsCapital (c ∷ p)

abbrev pub IsValue : Text → Type 0
IsValue [] = ⊥
IsValue (c ∷ v) = All IsOutside (c ∷ v)

outside : (c d : ℕ) → IsCapital c → IsOutside d → (c == d) ≡ false
outside c d h (inl k) = ground arith
outside c d h (inr k) = ground arith

starts_with-outside : (p v t : Text) → IsName p → IsValue v → starts_with p (v ++ t) ≡ false
starts_with-outside [] v t h k = elim h [ ]
starts_with-outside (c ∷ p) [] t h k = elim k [ ]
starts_with-outside (c ∷ p) (d ∷ v) t h k = let e = outside c d h.0 k.0 in rw e refl

occurs-outside : (p v t : Text) → IsName p → All IsOutside v → occurs p (v ++ t) ≡ occurs p t
unfolding occurs
occurs-outside p [] t h k = refl
occurs-outside [] (d ∷ v) t h k = elim h [ ]
occurs-outside (c ∷ p) (d ∷ v) t h k =
    let e = outside c d h.0 k.0 in rw e (occurs-outside (c ∷ p) v t h k.1)

All-of_IsValue : (v : Text) → IsValue v → All IsOutside v
All-of_IsValue [] h = elim h [ ]
All-of_IsValue (c ∷ v) h = h

both : (a b : Bool) → (a && b) ≡ true → (a ≡ true) × (b ≡ true)
both true b h = (refl, h)
both false b h = absurd cc

either : (a b : Bool) → (a || b) ≡ true → (a ≡ true) ⊎ (b ≡ true)
either true b h = inl refl
either false b h = inr h

or_true : (a b : Bool) → b ≡ true → (a || b) ≡ true
or_true true b h = refl
or_true false b h = h

All-of_IsName : (p : Text) → IsName p → All IsCapital p
All-of_IsName [] h = tt
All-of_IsName (c ∷ p) h = h

no_name : (p : Text) → IsName p → starts_with p [] ≡ true → ⊥
no_name [] h k = h
no_name (c ∷ p) h k = cc

replace-at :
    (old new : Text) (c : ℕ) (s : Text)
    → starts_with old (c ∷ s) ≡ true
    → replace_from old new 0 (c ∷ s) ≡ new ++ replace_from old new (length old - 1) s
unfolding replace_from
replace-at old new c s e = rw e refl

replace-keep :
    (old new : Text) (c : ℕ) (s : Text)
    → starts_with old (c ∷ s) ≡ false
    → replace_from old new 0 (c ∷ s) ≡ c ∷ replace_from old new 0 s
unfolding replace_from
replace-keep old new c s e = rw e refl

module _ (old new : Text) (value : IsValue new) where
  -- What starts with a name after the replacing did so before.
  starts_with-replace :
      (p s : Text)
      → All IsCapital p
      → starts_with p (replace_from old new 0 s) ≡ true
      → starts_with p s ≡ true
  unfolding replace_from
  starts_with-replace [] s h k = refl
  starts_with-replace (q ∷ p) [] h k = k
  starts_with-replace (q ∷ p) (c ∷ s) h k = elim (Bool-cases (starts_with old (c ∷ s))) [
    | inl e ↦
        let a = ap (starts_with (q ∷ p)) (replace-at old new c s e) in
        let b = starts_with-outside (q ∷ p) new (replace_from old new (length old - 1) s) h value in
        absurd cc
    | inr e ↦
        let a = ap (starts_with (q ∷ p)) (replace-keep old new c s e) in
        let (m, n) = both (q == c) (starts_with p (replace_from old new 0 s)) (sym a ∙ k) in
        rw m (starts_with-replace p s h.1 n)
  ]

  -- A name that occurs after the replacing did so before.
  pub occurs-replace :
      (p : Text)
      → IsName p
      → (skip : ℕ) (s : Text) → occurs p (replace_from old new skip s) ≡ true
      → occurs p s ≡ true
  unfolding occurs replace_from
  occurs-replace p h skip [] k = k
  occurs-replace p h (suc skip) (c ∷ s) k =
      or_true (starts_with p (c ∷ s)) (occurs p s) (occurs-replace p h skip s k)
  occurs-replace p h zero (c ∷ s) k = elim (Bool-cases (starts_with old (c ∷ s))) [
    | inl e ↦
        let rest = replace_from old new (length old - 1) s in
        let a =
          ap (occurs p) (replace-at old new c s e)
          ∙ occurs-outside p new rest h (All-of_IsValue new value) in
        or_true (starts_with p (c ∷ s)) (occurs p s)
          (occurs-replace p h (length old - 1) s (sym a ∙ k))
    | inr e ↦
        let next = replace_from old new 0 s in
        let a = ap (occurs p) (replace-keep old new c s e) in
        elim (either (starts_with p (c ∷ next)) (occurs p next) (sym a ∙ k)) [
          | inl m ↦
              let b = ap (starts_with p) (replace-keep old new c s e) ∙ m in
              let d = starts_with-replace p (c ∷ s) (All-of_IsName p h) b in rw d refl
          | inr m ↦ or_true (starts_with p (c ∷ s)) (occurs p s) (occurs-replace p h 0 s m)
        ]
  ]

  -- The name that is replaced occurs no more.
  pub occurs-replaced :
      IsName old → (skip : ℕ) (s : Text) → occurs old (replace_from old new skip s) ≡ true → ⊥
  unfolding occurs replace_from
  occurs-replaced h skip [] k = no_name old h k
  occurs-replaced h (suc skip) (c ∷ s) k = occurs-replaced h skip s k
  occurs-replaced h zero (c ∷ s) k = elim (Bool-cases (starts_with old (c ∷ s))) [
    | inl e ↦
        let rest = replace_from old new (length old - 1) s in
        let a =
          ap (occurs old) (replace-at old new c s e)
          ∙ occurs-outside old new rest h (All-of_IsValue new value) in
        occurs-replaced h (length old - 1) s (sym a ∙ k)
    | inr e ↦
        let next = replace_from old new 0 s in
        let a = ap (occurs old) (replace-keep old new c s e) in
        elim (either (starts_with old (c ∷ next)) (occurs old next) (sym a ∙ k)) [
          | inl m ↦
              let b = ap (starts_with old) (replace-keep old new c s e) ∙ m in
              let d = starts_with-replace old (c ∷ s) (All-of_IsName old h) b in cc
          | inr m ↦ occurs-replaced h 0 s m
        ]
  ]
