-- ===== src/Text/Utf8.antt =====
-- `bytes.decode("utf-8", errors="replace")`: each longest start of a character that goes wrong
-- becomes one U+FFFD.
pub mod RoundTrip
pub mod Chunks
pub mod Lengths
pub mod Scalars
use xolis.Base.{
  ℕ, zero, suc, ◌+◌, ◌-◌, ◌*◌, ◌/◌, ◌%◌, ◌≤◌, ◌<◌, ◌≡◌, ◌≢◌, refl, ap, sym, ◌∙◌, ◌&&◌, List, [],
  ◌∷◌, ◌++◌, arith, ltb, leb, if◌then◌else◌, All, length, length-append, append_assoc, Bool-cases,
  inl, inr, ltb→lt, ◌==◌, nat_eq,
}
use xolis.Text.{Text}

-- The character under way: bytes wanted, value so far, range of the next byte.
pub record Partial : Type 0 where
  pub wanted : ℕ
  pub value : ℕ
  pub low : ℕ
  pub high : ℕ

abbrev pub idle : Partial
idle = record { wanted = 0; value = 0; low = 0x80; high = 0xbf }

abbrev pub replacement : Text
replacement = 0xfffd ∷ []

pub record Fed : Type 0 where
  pub state : Partial
  pub emitted : Text

abbrev begin : ℕ → ℕ → ℕ → ℕ → Fed
begin n v lo hi = record {
  state = record { wanted = n; value = v; low = lo; high = hi };
  emitted = [];
}

-- A byte that starts a character.
unfoldable pub lead : ℕ → Fed
lead b =
    if ltb b 0x80
    then record { state = idle; emitted = b ∷ [] }
    else if ltb b 0xc2
    then record { state = idle; emitted = replacement }
    else if ltb b 0xe0
    then begin 1 (b - 0xc0) 0x80 0xbf
    else if ltb b 0xe1
    then begin 2 0 0xa0 0xbf
    else if ltb b 0xed
    then begin 2 (b - 0xe0) 0x80 0xbf
    else if ltb b 0xee
    then begin 2 (b - 0xe0) 0x80 0x9f
    else if ltb b 0xf0
    then begin 2 (b - 0xe0) 0x80 0xbf
    else if ltb b 0xf1
    then begin 3 0 0x90 0xbf
    else if ltb b 0xf4
    then begin 3 (b - 0xf0) 0x80 0xbf
    else if ltb b 0xf5
    then begin 3 4 0x80 0x8f
    else record { state = idle; emitted = replacement }

abbrev advance : ℕ → ℕ → Fed
advance zero v = record { state = idle; emitted = v ∷ [] }
advance (suc n) v = begin (suc n) v 0x80 0xbf

abbrev prepend : Text → Fed → Fed
prepend t f = record { state = f.state; emitted = t ++ f.emitted }

unfoldable pub feed_at : ℕ → ℕ → ℕ → ℕ → ℕ → Fed
unfolding lead
feed_at zero v lo hi b = lead b
feed_at (suc n) v lo hi b =
    if leb lo b && leb b hi then advance n (v * 64 + (b - 0x80)) else prepend replacement (lead b)

abbrev pub feed : Partial → ℕ → Fed
feed p b = feed_at p.wanted p.value p.low p.high b

abbrev pub rest_of : ℕ → Text
rest_of zero = []
rest_of (suc n) = replacement

unfoldable pub decode_from : Partial → List ℕ → Text
decode_from p [] = rest_of p.wanted
decode_from p (b ∷ bs) = (feed p b).emitted ++ decode_from (feed p b).state bs

unfoldable pub decode : List ℕ → Text
unfolding decode_from feed_at
decode bs = decode_from idle bs
