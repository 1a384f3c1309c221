-- ===== src/Text/Replace.antt =====
-- `str.replace` of Python, and where a text occurs in another.
pub mod Gone
use xolis.Base.{
  ℕ, zero, suc, ◌-◌, Bool, true, false, ◌&&◌, ◌||◌, List, [], ◌∷◌, ◌++◌, length, ◌==◌, nat_eq,
  if◌then◌else◌,
}
use xolis.Text.{Text, starts_with}

-- The scan from left to right; `skip` characters still belong to the last occurrence.
unfoldable pub replace_from : Text → Text → ℕ → Text → Text
replace_from old new skip [] = []
replace_from old new (suc skip) (c ∷ s) = replace_from old new skip s
replace_from old new zero (c ∷ s) =
    let here = replace_from old new (length old - 1) s in
    let next = replace_from old new 0 s in if starts_with old (c ∷ s) then new ++ here else c ∷ next

-- `s.replace(old, new)` for an `old` that is not empty
unfoldable pub replace : Text → Text → Text → Text
unfolding replace_from
replace old new s = replace_from old new 0 s

-- `p in s`
unfoldable pub occurs : Text → Text → Bool
occurs p [] = starts_with p []
occurs p (c ∷ s) = starts_with p (c ∷ s) || occurs p s
