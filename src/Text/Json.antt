-- ===== src/Text/Json.antt =====
-- Python's `json.dumps` of a string, and how a reader takes the string back.
pub mod RoundTrip
use xolis.Base.{
  ℕ, zero, suc, ◌+◌, ◌-◌, ◌*◌, ◌/◌, ◌%◌, Bool, true, false, ◌&&◌, Option, none, some, List, [], ◌∷◌,
  ◌++◌, ltb, leb, ◌==◌, nat_eq, if◌then◌else◌,
}
use xolis.Text.{Text}

-- A hexadecimal digit in lower case.
unfoldable pub hex_digit : ℕ → ℕ
hex_digit d = if ltb d 10 then 48 + d else 87 + d

-- `\uXXXX` for one unit of UTF-16
unfoldable pub unit : ℕ → Text
unfolding hex_digit
unit u =
    92
    ∷ 117
    ∷ hex_digit (u / 4096 % 16)
    ∷ hex_digit (u / 256 % 16)
    ∷ hex_digit (u / 16 % 16)
    ∷ hex_digit (u % 16)
    ∷ []

-- The letter behind the backslash of a short escape, or 0.
unfoldable pub short_escape : ℕ → ℕ
short_escape c =
    if c == 34
    then 34
    else if c == 92
    then 92
    else if c == 10
    then 110
    else if c == 13
    then 114
    else if c == 9
    then 116
    else if c == 8
    then 98
    else if c == 12
    then 102
    else 0

-- What stands for one character; all but the printable ASCII characters is escaped.
unfoldable pub escape : ℕ → Text
unfolding unit short_escape
escape c =
    if ltb 0 (short_escape c)
    then 92 ∷ short_escape c ∷ []
    else if leb 32 c && leb c 126
    then c ∷ []
    else if ltb c 0x10000
    then unit c
    else unit (0xd800 + (c - 0x10000) / 1024) ++ unit (0xdc00 + (c - 0x10000) % 1024)

unfoldable pub escape_all : Text → Text
unfolding escape
escape_all [] = []
escape_all (c ∷ s) = escape c ++ escape_all s

unfoldable pub dump_string : Text → Text
unfolding escape_all
dump_string s = 34 ∷ (escape_all s ++ (34 ∷ []))

-- A reader of JSON strings, as RFC 8259 has them: `high` is a high surrogate that waits for its
-- partner, or 0.
pub data Mode : Type 0 where
  plain escaped : Mode
  -- how many digits are still to come behind the next, and the number so far
  digits : ℕ → ℕ → Mode

pub record Reader : Type 0 where
  pub mode : Mode
  pub high : ℕ
  pub out : Text

abbrev pub put : ℕ → Text → Reader
put c out = record { mode = plain; high = 0; out = out ++ (c ∷ []) }

unfoldable pub hex_value : ℕ → ℕ
hex_value c = if leb c 57 then c - 48 else c - 87

unfoldable pub revealed : ℕ → ℕ
revealed c =
    if c == 110
    then 10
    else if c == 114
    then 13
    else if c == 116
    then 9
    else if c == 98
    then 8
    else if c == 102
    then 12
    else c

-- A unit of UTF-16 has been read.
unfoldable pub take_unit : ℕ → Text → ℕ → Reader
take_unit high out u =
    if leb 0xd800 u && ltb u 0xdc00
    then record { mode = plain; high = u; out = out }
    else if ltb 0 high && (leb 0xdc00 u && ltb u 0xe000)
    then put (0x10000 + (high - 0xd800) * 1024 + (u - 0xdc00)) out
    else put u out

unfoldable pub step_at : Mode → ℕ → Text → ℕ → Reader
unfolding hex_value revealed take_unit
step_at plain high out c =
    if c == 92 then record { mode = escaped; high = high; out = out } else put c out
step_at escaped high out c =
    if c == 117 then record { mode = digits 3 0; high = high; out = out } else put (revealed c) out
step_at (digits zero n) high out c = take_unit high out (n * 16 + hex_value c)
step_at (digits (suc k) n) high out c = record {
  mode = digits k (n * 16 + hex_value c);
  high = high;
  out = out;
}

abbrev pub closes : Mode → ℕ → Bool
closes plain c = c == 34
closes mode c = false

-- The string up to its closing quotation mark.
unfoldable pub read_string : Reader → Text → Option Text
unfolding step_at
read_string r [] = none
read_string r (c ∷ s) =
    let rest = read_string (step_at r.mode r.high r.out c) s in
    if closes r.mode c then some r.out else rest

abbrev pub new_reader : Reader
new_reader = record { mode = plain; high = 0; out = [] }
