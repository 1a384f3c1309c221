-- ===== src/Text/Utf8/Lengths.antt =====
-- How many characters bytes decode to.
use xolis.Base.{ℕ, zero, suc, ◌+◌, ◌≤◌, List, [], ◌∷◌, arith, length, length-append, nat_eq}
use xolis.Text.Utf8.{Partial, idle, lead, feed_at, feed, rest_of, decode_from, decode}

abbrev held : ℕ → ℕ
held zero = 0
held (suc n) = 1

lead_length : (b : ℕ) → length (lead b).emitted + held (lead b).state.wanted ≤ 1
unfolding lead
lead_length b = ground arith

feed_length :
    (n v lo hi b : ℕ)
    → length (feed_at n v lo hi b).emitted + held (feed_at n v lo hi b).state.wanted ≤ 1 + held n
unfolding feed_at
feed_length zero v lo hi b = omega (arith, lead_length b)
feed_length (suc zero) v lo hi b = ground (arith, lead_length b)
feed_length (suc (suc n)) v lo hi b = ground (arith, lead_length b)

decode_from_length :
    (p : Partial) (bs : List ℕ) → length (decode_from p bs) ≤ length bs + held p.wanted
unfolding decode_from
decode_from_length p [] = rest_length p.wanted
  where
    rest_length : (n : ℕ) → length (rest_of n) ≤ 0 + held n
    rest_length zero = omega arith
    rest_length (suc n) = omega arith
decode_from_length p (b ∷ bs) = omega (
  arith,
  length-append (feed p b).emitted (decode_from (feed p b).state bs),
  decode_from_length (feed p b).state bs,
  feed_length p.wanted p.value p.low p.high b,
)

-- Decoding never yields more characters than there are bytes.
pub length-decode : (bs : List ℕ) → length (decode bs) ≤ length bs
unfolding decode
length-decode bs = omega (arith, decode_from_length idle bs)
