-- ===== src/Text/Json/RoundTrip.antt =====
-- A dumped string is read back, and its characters are printable ASCII.
use xolis.Base.{
  ℕ, ◌+◌, ◌-◌, ◌*◌, ◌/◌, ◌%◌, ◌≤◌, ◌<◌, ◌≡◌, refl, sym, ap, ◌∙◌, ◌⊎◌, inl, inr, true, false, ◌&&◌,
  some, [], ◌∷◌, ◌++◌, append_assoc, append-nil, All, arith, ltb, leb, ◌==◌, nat_eq, Bool-cases,
}
use xolis.Text.{Text}
use xolis.Text.Utf8.RoundTrip.{IsScalar, low_plane, high_planes}
use xolis.Text.Json.{
  hex_digit, unit, short_escape, escape, escape_all, dump_string, plain, put, hex_value, revealed,
  take_unit, read_string, new_reader,
}

hex_value-hex_digit : (d : ℕ) → d < 16 → hex_value (hex_digit d) ≡ d
unfolding hex_value hex_digit
hex_value-hex_digit d h = ground arith

-- Four digits are read as their number.
read_unit :
    (u high : ℕ) (out s : Text)
    → u < 0x10000
    → read_string (record { mode = plain; high = high; out = out }) (unit u ++ s)
      ≡ read_string (take_unit high out u) s
unfolding read_string unit
read_unit u high out s h =
    let a = hex_value-hex_digit (u / 4096 % 16) (omega arith) in
    let b = hex_value-hex_digit (u / 256 % 16) (omega arith) in
    let c = hex_value-hex_digit (u / 16 % 16) (omega arith) in
    let d = hex_value-hex_digit (u % 16) (omega arith) in
    let e : (((0 * 16 + u / 4096 % 16) * 16 + u / 256 % 16) * 16 + u / 16 % 16) * 16 + u % 16 ≡ u =
      omega arith in
    rw (a, b, c, d, e) refl

not_unicode : (c : ℕ) → (short_escape c == 117) ≡ false
unfolding short_escape
not_unicode c = ground arith

revealed-short_escape : (c : ℕ) → ltb 0 (short_escape c) ≡ true → revealed (short_escape c) ≡ c
unfolding revealed short_escape
revealed-short_escape c h = ground arith

read_short :
    (c : ℕ) (out s : Text)
    → ltb 0 (short_escape c) ≡ true
    → read_string (record { mode = plain; high = 0; out = out }) (92 ∷ short_escape c ∷ s)
      ≡ read_string (put c out) s
unfolding read_string
read_short c out s h = rw (not_unicode c, revealed-short_escape c h) refl

take_low : (c : ℕ) (out : Text) → (c < 0xd800) ⊎ (0xe000 ≤ c) → take_unit 0 out c ≡ put c out
unfolding take_unit
take_low c out h = ground arith

take_high :
    (c : ℕ) (out : Text)
    → c < 0x100000
    → take_unit 0 out (0xd800 + c / 1024)
      ≡ record { mode = plain; high = 0xd800 + c / 1024; out = out }
unfolding take_unit
take_high c out h = ground arith

take_pair :
    (c : ℕ) (out : Text)
    → c < 0x100000
    → take_unit (0xd800 + c / 1024) out (0xdc00 + c % 1024) ≡ put (0x10000 + c) out
unfolding take_unit
take_pair c out h = ground arith

plain_char : (c : ℕ) → ltb 0 (short_escape c) ≡ false → ((c == 34) ≡ false) × ((c == 92) ≡ false)
unfolding short_escape
plain_char c h = ground arith

read_plain :
    (c : ℕ) (out s : Text)
    → ltb 0 (short_escape c) ≡ false
    → read_string (record { mode = plain; high = 0; out = out }) (c ∷ s) ≡ read_string (put c out) s
unfolding read_string
read_plain c out s h = let p = plain_char c h in rw (p.0, p.1) refl

-- A character outside the Basic Multilingual Plane is two units.
read_wide :
    (c : ℕ) (out s : Text)
    → c < 0x100000
    → read_string
        (record { mode = plain; high = 0; out = out })
        ((unit (0xd800 + c / 1024) ++ unit (0xdc00 + c % 1024)) ++ s)
      ≡ read_string (put (0x10000 + c) out) s
read_wide c out s h =
    ap (read_string (record { mode = plain; high = 0; out = out }))
      (append_assoc (unit (0xd800 + c / 1024)) (unit (0xdc00 + c % 1024)) s)
    ∙ (read_unit (0xd800 + c / 1024) 0 out (unit (0xdc00 + c % 1024) ++ s) (omega arith)
        ∙ (ap (λ r. read_string r (unit (0xdc00 + c % 1024) ++ s)) (take_high c out h)
            ∙ (read_unit (0xdc00 + c % 1024) (0xd800 + c / 1024) out s (omega arith)
                ∙ ap (λ r. read_string r s) (take_pair c out h))))

low_of : (c : ℕ) → IsScalar c → (c < 0xd800) ⊎ (0xe000 ≤ c)
low_of c (low_plane l) = inl l
low_of c (high_planes h k) = inr h

wide_of : (c : ℕ) → IsScalar c → ltb c 0x10000 ≡ false → (c - 0x10000 < 0x100000) × (0x10000 ≤ c)
wide_of c (low_plane l) h = absurd (ground arith)
wide_of c (high_planes l k) h = ground arith

-- A character is read back.
read_escape :
    (c : ℕ) (out s : Text)
    → IsScalar c
    → read_string (record { mode = plain; high = 0; out = out }) (escape c ++ s)
      ≡ read_string (put c out) s
unfolding escape
read_escape c out s v = elim (Bool-cases (ltb 0 (short_escape c))) [
  | inl a ↦ rw a (read_short c out s a)
  | inr a ↦ elim (Bool-cases (leb 32 c && leb c 126)) [
    | inl b ↦ rw (a, b) (read_plain c out s a)
    | inr b ↦ elim (Bool-cases (ltb c 0x10000)) [
      | inl l ↦
          rw (a, b, l)
            (read_unit c 0 out s (ground arith)
              ∙ ap (λ r. read_string r s) (take_low c out (low_of c v)))
      | inr l ↦
          let (w, m) = wide_of c v l in
          let e : 0x10000 + (c - 0x10000) ≡ c = omega arith in
          rw (a, b, l) (read_wide (c - 0x10000) out s w ∙ ap (λ d. read_string (put d out) s) e)
    ]
  ]
]

read_escape_all :
    (text out s : Text)
    → All IsScalar text
    → read_string (record { mode = plain; high = 0; out = out }) (escape_all text ++ (34 ∷ s))
      ≡ some (out ++ text)
unfolding escape_all read_string
read_escape_all [] out s v = ap some (sym (append-nil out))
read_escape_all (c ∷ text) out s v =
    ap (read_string (record { mode = plain; high = 0; out = out }))
      (append_assoc (escape c) (escape_all text) (34 ∷ s))
    ∙ (read_escape c out (escape_all text ++ (34 ∷ s)) v.0
        ∙ (read_escape_all text (out ++ (c ∷ [])) s v.1 ∙ ap some (append_assoc out (c ∷ []) text)))

-- What is dumped, its first quotation mark gone, is read back, whatever follows.
pub read_string-dump :
    (text s : Text)
    → All IsScalar text
    → read_string new_reader (escape_all text ++ (34 ∷ s)) ≡ some text
read_string-dump text s v = read_escape_all text [] s v

-- A printable ASCII character.
abbrev pub IsPrintable : ℕ → Type 0
IsPrintable c = (32 ≤ c) × (c ≤ 126)

pub All-append : (a b : Text) → All IsPrintable a → All IsPrintable b → All IsPrintable (a ++ b)
All-append [] b h k = k
All-append (c ∷ a) b h k = (h.0, All-append a b h.1 k)

hex_digit-IsPrintable : (d : ℕ) → d < 16 → IsPrintable (hex_digit d)
unfolding hex_digit
hex_digit-IsPrintable d h = ground arith

unit-IsPrintable : (u : ℕ) → All IsPrintable (unit u)
unfolding unit
unit-IsPrintable u = (
  omega arith,
  (
    omega arith,
    (
      hex_digit-IsPrintable (u / 4096 % 16) (omega arith),
      (
        hex_digit-IsPrintable (u / 256 % 16) (omega arith),
        (
          hex_digit-IsPrintable (u / 16 % 16) (omega arith),
          (hex_digit-IsPrintable (u % 16) (omega arith), tt),
        ),
      ),
    ),
  ),
)

short_escape-IsPrintable : (c : ℕ) → ltb 0 (short_escape c) ≡ true → IsPrintable (short_escape c)
unfolding short_escape
short_escape-IsPrintable c h = ground arith

escape-IsPrintable : (c : ℕ) → All IsPrintable (escape c)
unfolding escape
escape-IsPrintable c = elim (Bool-cases (ltb 0 (short_escape c))) [
  | inl a ↦ rw a (omega arith, (short_escape-IsPrintable c a, tt))
  | inr a ↦ elim (Bool-cases (leb 32 c && leb c 126)) [
    | inl b ↦ rw (a, b) (ground arith, tt)
    | inr b ↦ elim (Bool-cases (ltb c 0x10000)) [
      | inl l ↦ rw (a, b, l) (unit-IsPrintable c)
      | inr l ↦
          rw (a, b, l)
            (All-append (unit (0xd800 + (c - 0x10000) / 1024))
              (unit (0xdc00 + (c - 0x10000) % 1024))
              (unit-IsPrintable (0xd800 + (c - 0x10000) / 1024))
              (unit-IsPrintable (0xdc00 + (c - 0x10000) % 1024)))
    ]
  ]
]

pub escape_all-IsPrintable : (text : Text) → All IsPrintable (escape_all text)
unfolding escape_all
escape_all-IsPrintable [] = tt
escape_all-IsPrintable (c ∷ text) =
    All-append (escape c) (escape_all text) (escape-IsPrintable c) (escape_all-IsPrintable text)

pub dump_string-IsPrintable : (text : Text) → All IsPrintable (dump_string text)
unfolding dump_string
dump_string-IsPrintable text = (
  omega arith,
  All-append (escape_all text) (34 ∷ []) (escape_all-IsPrintable text) (omega arith),
)
