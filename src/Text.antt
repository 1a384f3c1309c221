-- ===== src/Text.antt =====
-- Text as lists of code points, and the parts of Python's standard library that the program uses on
-- it: `str.strip`, `shlex.split`, `shlex.quote` and `shlex.join`.
pub mod Shlex
pub mod Utf8
pub mod Decimal
pub mod Sort
pub mod Json
pub mod Replace
use Prim.Native.Char.{code}
use xolis.Base.{
  ℕ, String, ◌≡◌, Bool, true, false, ◌&&◌, ◌||◌, List, [], ◌∷◌, ◌++◌, leb, ltb, ◌==◌, nat_eq,
}

abbrev pub Text : Type 0
Text = List ℕ

-- The code points of a literal.
abbrev pub codes : String → Text
codes String.[] = []
codes (String.◌∷◌ c s) = code c ∷ codes s

-- `str.isspace` on one character.
unfoldable pub is_space : ℕ → Bool
is_space c =
    (leb 9 c && leb c 13)
    || ((leb 28 c && leb c 32)
        || (c == 0x85
            || (c == 0xa0
                || (c == 0x1680
                    || ((leb 0x2000 c && leb c 0x200a)
                        || (c == 0x2028
                            || (c == 0x2029 || (c == 0x202f || (c == 0x205f || c == 0x3000)))))))))

-- `not text.strip()`: nothing is left when the white space at both ends is gone.
unfoldable pub is_blank : Text → Bool
is_blank [] = true
is_blank (c ∷ s) = is_space c && is_blank s

-- `glue.join(parts)`
unfoldable pub join_with : Text → List Text → Text
join_with glue [] = []
join_with glue (p ∷ []) = p
join_with glue (p ∷ q ∷ ps) = p ++ (glue ++ join_with glue (q ∷ ps))

-- `a <= b` on strings: by code points.
unfoldable pub text_le : Text → Text → Bool
text_le [] b = true
text_le (c ∷ a) [] = false
text_le (c ∷ a) (d ∷ b) = ltb c d || (c == d && text_le a b)

-- `str.startswith`
abbrev pub starts_with : Text → Text → Bool
starts_with [] s = true
starts_with (c ∷ p) [] = false
starts_with (c ∷ p) (d ∷ s) = c == d && starts_with p s
