-- ===== src/Base/Lists.antt =====
-- Lists measured by native numbers, and the slices `xs[:n]` and `xs[n:]`.
use Prim.Native.Nat.{ℕ, zero, suc, ◌+◌, ◌-◌, ◌≤◌, min}
use mathlib.Core.Path.{◌≡◌, refl, ap}
use mathlib.Core.List.{List, [], ◌∷◌, ◌++◌}
use native.Mathlib.Omega.{arith}

module _ {ℓ} {A : Type ℓ} where
  abbrev pub length : List A → ℕ
  length [] = 0
  length (x ∷ xs) = suc (length xs)

  abbrev pub take : ℕ → List A → List A
  take zero xs = []
  take (suc n) [] = []
  take (suc n) (x ∷ xs) = x ∷ take n xs

  abbrev pub drop : ℕ → List A → List A
  drop zero xs = xs
  drop (suc n) [] = []
  drop (suc n) (x ∷ xs) = drop n xs

  -- `b"".join(chunks)`
  abbrev pub join : List (List A) → List A
  join [] = []
  join (c ∷ cs) = c ++ join cs

  abbrev pub All {κ} : (A → Type κ) → List A → Type κ
  All P [] = Unit
  All P (x ∷ xs) = P x × All P xs

-- Membership.
pub data Has {ℓ} {A : Type ℓ} : List A → A → Type ℓ where
  here : {x : A} {xs : List A} → Has (x ∷ xs) x
  there : {x y : A} {xs : List A} → Has xs x → Has (y ∷ xs) x

module _ {ℓ} {A : Type ℓ} where
  pub length-append : (xs ys : List A) → length (xs ++ ys) ≡ length xs + length ys
  length-append [] ys = omega arith
  length-append (x ∷ xs) ys = omega (arith, length-append xs ys)

  pub length-take : (n : ℕ) (xs : List A) → length (take n xs) ≡ min n (length xs)
  length-take zero xs = omega arith
  length-take (suc n) [] = omega arith
  length-take (suc n) (x ∷ xs) = omega (arith, length-take n xs)

  pub take_of_length_le : (n : ℕ) (xs : List A) → length xs ≤ n → take n xs ≡ xs
  take_of_length_le zero [] h = refl
  take_of_length_le zero (x ∷ xs) h = absurd (omega arith)
  take_of_length_le (suc n) [] h = refl
  take_of_length_le (suc n) (x ∷ xs) h = ap (λ t. x ∷ t) (take_of_length_le n xs (omega arith))

  -- A slice of a concatenation is the slices of the parts.
  pub take-append :
      (n : ℕ) (xs ys : List A) → take n (xs ++ ys) ≡ take n xs ++ take (n - length xs) ys
  take-append zero xs ys = zero_case xs ys
    where
      zero_case : (xs ys : List A) → take zero (xs ++ ys) ≡ [] ++ take (zero - length xs) ys
      zero_case xs ys = let e : zero - length xs ≡ zero = omega arith in rw e refl
  take-append (suc n) [] ys = let e : suc n - 0 ≡ suc n = omega arith in rw e refl
  take-append (suc n) (x ∷ xs) ys =
      let e : suc n - suc (length xs) ≡ n - length xs = omega arith in
      rw e (ap (λ t. x ∷ t) (take-append n xs ys))

  pub take-zero_of_eq : (n : ℕ) (xs : List A) → n ≡ 0 → take n xs ≡ []
  take-zero_of_eq zero xs h = refl
  take-zero_of_eq (suc n) xs h = absurd (omega arith)

  pub take_append_drop : (n : ℕ) (xs : List A) → take n xs ++ drop n xs ≡ xs
  take_append_drop zero xs = refl
  take_append_drop (suc n) [] = refl
  take_append_drop (suc n) (x ∷ xs) = ap (λ t. x ∷ t) (take_append_drop n xs)

  pub take_length_append : (xs ys : List A) → take (length xs) (xs ++ ys) ≡ xs
  take_length_append [] ys = refl
  take_length_append (x ∷ xs) ys = ap (λ t. x ∷ t) (take_length_append xs ys)

  pub drop_length_append : (xs ys : List A) → drop (length xs) (xs ++ ys) ≡ ys
  drop_length_append [] ys = refl
  drop_length_append (x ∷ xs) ys = drop_length_append xs ys
