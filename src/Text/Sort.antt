-- ===== src/Text/Sort.antt =====
-- Python's `sorted(..., key=...)` where the key is a string.
pub mod Order
pub mod Members
use xolis.Base.{Bool, List, [], ◌∷◌, contains, nat_eq, list_eq, if◌then◌else◌}
use xolis.Text.{Text, text_le}

unfoldable pub insert_by {ℓ} : {A : Type ℓ} → (A → Text) → A → List A → List A
unfolding text_le
insert_by key a [] = a ∷ []
insert_by key a (b ∷ bs) =
    let later = insert_by key a bs in if text_le (key a) (key b) then a ∷ b ∷ bs else b ∷ later

unfoldable pub sort_by {ℓ} : {A : Type ℓ} → (A → Text) → List A → List A
unfolding insert_by
sort_by key [] = []
sort_by key (a ∷ as') = insert_by key a (sort_by key as')

-- A set of texts, as a list with each element once.
unfoldable pub set : List Text → List Text
set [] = []
set (x ∷ xs) = let rest = set xs in if contains rest x then rest else x ∷ rest
