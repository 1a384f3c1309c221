-- ===== src/Text/Decimal/ReadBack.antt =====
-- A reader of decimal numbers, and what it takes from `str(n)`.
use xolis.Base.{
  ℕ, zero, suc, ◌+◌, ◌-◌, ◌*◌, ◌/◌, ◌%◌, ◌≤◌, ◌≡◌, refl, ap, ◌∙◌, [], ◌∷◌, ◌++◌, All, arith, ltb,
  ◌==◌, nat_eq, Bool-cases, inl, inr, false, if◌then◌else◌,
}
use xolis.Base.Int.{ℤ, pos, negsuc}
use xolis.Text.{Text}
use xolis.Text.Decimal.{digits, decimal, decimal_ℤ}

unfoldable pub read_digits : ℕ → Text → ℕ
read_digits n [] = n
read_digits n (c ∷ s) = read_digits (n * 10 + (c - 48)) s

unfoldable pub read_number : Text → ℤ
read_number [] = pos 0
read_number (c ∷ s) = if c == 45 then negsuc (read_digits 0 s - 1) else pos (read_digits 0 (c ∷ s))

read_digits-append :
    (n c : ℕ) (a : Text) → read_digits n (a ++ (c ∷ [])) ≡ read_digits n a * 10 + (c - 48)
unfolding read_digits
read_digits-append n c [] = refl
read_digits-append n c (b ∷ a) = read_digits-append (n * 10 + (b - 48)) c a

read_digits-digits : (fuel n : ℕ) → n ≤ fuel → read_digits 0 (digits fuel n) ≡ n
unfolding read_digits digits
read_digits-digits zero n h = omega arith
read_digits-digits (suc fuel) n h = elim (Bool-cases (ltb n 10)) [
  | inl a ↦ rw a (omega arith)
  | inr a ↦
      let e : n / 10 * 10 + (48 + n % 10 - 48) ≡ n = omega arith in
      rw a (
        read_digits-append 0 (48 + n % 10) (digits fuel (n / 10))
        ∙ (ap (λ m. m * 10 + (48 + n % 10 - 48)) (read_digits-digits fuel (n / 10) (ground arith))
            ∙ e))
]

-- A digit.
abbrev pub IsDigit : ℕ → Type 0
IsDigit c = (48 ≤ c) × (c ≤ 57)

All-snoc : (c : ℕ) (a : Text) → All IsDigit a → IsDigit c → All IsDigit (a ++ (c ∷ []))
All-snoc c [] h k = (k, tt)
All-snoc c (b ∷ a) h k = (h.0, All-snoc c a h.1 k)

digits-IsDigit : (fuel n : ℕ) → All IsDigit (digits fuel n)
unfolding digits
digits-IsDigit zero n = (omega arith, tt)
digits-IsDigit (suc fuel) n = elim (Bool-cases (ltb n 10)) [
  | inl a ↦ rw a (ground arith, tt)
  | inr a ↦
      rw a
        (All-snoc (48 + n % 10) (digits fuel (n / 10)) (digits-IsDigit fuel (n / 10)) (omega arith))
]

-- A number that starts with a digit has no sign.
read_number-unsigned : (s : Text) → All IsDigit s → read_number s ≡ pos (read_digits 0 s)
unfolding read_number read_digits
read_number-unsigned [] h = refl
read_number-unsigned (c ∷ s) h = let e : (c == 45) ≡ false = ground arith in rw e refl

pub read_number-decimal : (n : ℕ) → read_number (decimal n) ≡ pos n
unfolding decimal
read_number-decimal n =
    read_number-unsigned (digits n n) (digits-IsDigit n n)
    ∙ ap pos (read_digits-digits n n (omega arith))

pub read_number-decimal_ℤ : (z : ℤ) → read_number (decimal_ℤ z) ≡ z
unfolding decimal_ℤ read_number decimal
read_number-decimal_ℤ (pos n) = read_number-decimal n
read_number-decimal_ℤ (negsuc n) =
    ap (λ m. negsuc (m - 1)) (read_digits-digits (n + 1) (n + 1) (omega arith))
    ∙ ap negsuc (omega arith)

-- A character of a decimal number.
abbrev pub IsSignOrDigit : ℕ → Type 0
IsSignOrDigit c = (45 ≤ c) × (c ≤ 57)

All-wider : (s : Text) → All IsDigit s → All IsSignOrDigit s
All-wider [] h = tt
All-wider (c ∷ s) h = (omega arith, All-wider s h.1)

pub decimal_ℤ-IsSignOrDigit : (z : ℤ) → All IsSignOrDigit (decimal_ℤ z)
unfolding decimal_ℤ decimal
decimal_ℤ-IsSignOrDigit (pos n) = All-wider (digits n n) (digits-IsDigit n n)
decimal_ℤ-IsSignOrDigit (negsuc n) =
    (omega arith, All-wider (digits (n + 1) (n + 1)) (digits-IsDigit (n + 1) (n + 1)))
