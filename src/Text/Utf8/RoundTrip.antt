-- ===== src/Text/Utf8/RoundTrip.antt =====
-- Decoding undoes the encoding of every text of Unicode scalar values.
use xolis.Base.{
  ℕ, zero, suc, ◌+◌, ◌*◌, ◌/◌, ◌%◌, ◌≤◌, ◌<◌, ◌≡◌, ◌≢◌, refl, ap, ◌∙◌, List, [], ◌∷◌, ◌++◌, arith,
  ltb, if◌then◌else◌, All, Bool-cases, inl, inr, ltb→lt, ◌==◌, nat_eq,
}
use xolis.Text.{Text}
use xolis.Text.Utf8.{idle, begin, lead, advance, feed_at, decode_from, decode}

-- `str.encode()` on one character.
unfoldable pub encode_char : ℕ → List ℕ
encode_char c =
    if ltb c 0x80
    then c ∷ []
    else if ltb c 0x800
    then (0xc0 + c / 64) ∷ (0x80 + c % 64) ∷ []
    else if ltb c 0x10000
    then (0xe0 + c / 4096) ∷ (0x80 + c / 64 % 64) ∷ (0x80 + c % 64) ∷ []
    else (0xf0 + c / 262144) ∷ (0x80 + c / 4096 % 64) ∷ (0x80 + c / 64 % 64) ∷ (0x80 + c % 64) ∷ []

unfoldable pub encode : Text → List ℕ
unfolding encode_char
encode [] = []
encode (c ∷ s) = encode_char c ++ encode s

-- A code point that is no surrogate.
pub data IsScalar (c : ℕ) : Type 0 where
  low_plane : c < 0xd800 → IsScalar c
  high_planes : 0xe000 ≤ c → c < 0x110000 → IsScalar c

decode_two :
    (c : ℕ) (bs : List ℕ)
    → 0x80 ≤ c
    → c < 0x800
    → decode_from idle ((0xc0 + c / 64) ∷ (0x80 + c % 64) ∷ bs) ≡ c ∷ decode_from idle bs
unfolding decode_from feed_at
decode_two c bs h k = ground arith

lead_three : (k : ℕ) → 0 < k → k < 16 → k ≢ 13 → lead (0xe0 + k) ≡ begin 2 k 0x80 0xbf
unfolding lead
lead_three k p q r = ground arith

lead_four : (k : ℕ) → 0 < k → k < 4 → lead (0xf0 + k) ≡ begin 3 k 0x80 0xbf
unfolding lead
lead_four k p q = ground arith

-- A byte in range, as one more digit of the value.
feed_next :
    (n v lo hi d : ℕ)
    → lo ≤ 0x80 + d
    → 0x80 + d ≤ hi
    → feed_at (suc n) v lo hi (0x80 + d) ≡ advance n (v * 64 + d)
unfolding feed_at
feed_next n v lo hi d p q = ground (arith)

feed_lead : (v lo hi b : ℕ) → feed_at zero v lo hi b ≡ lead b
unfolding feed_at
feed_lead v lo hi b = refl

module _ (b : ℕ) (v lo hi d e : ℕ) (bs : List ℕ) (p : lo ≤ 0x80 + d) (q : 0x80 + d ≤ hi)
    (r : e < 64) where
  three_bytes :
      lead b ≡ begin 2 v lo hi
      → decode_from idle (b ∷ (0x80 + d) ∷ (0x80 + e) ∷ bs)
        ≡ ((v * 64 + d) * 64 + e) ∷ decode_from idle bs
  unfolding decode_from
  three_bytes h = rw (
    feed_lead,
    h,
    feed_next 1 v lo hi d p q,
    feed_next 0 (v * 64 + d) 0x80 0xbf e (omega arith) (omega arith),
  )

  four_bytes :
      (f : ℕ)
      → f < 64
      → lead b ≡ begin 3 v lo hi
      → decode_from idle (b ∷ (0x80 + d) ∷ (0x80 + e) ∷ (0x80 + f) ∷ bs)
        ≡ (((v * 64 + d) * 64 + e) * 64 + f) ∷ decode_from idle bs
  unfolding decode_from
  four_bytes f s h = rw (
    feed_lead,
    h,
    feed_next 2 v lo hi d p q,
    feed_next 1 (v * 64 + d) 0x80 0xbf e (omega arith) (omega arith),
    feed_next 0 ((v * 64 + d) * 64 + e) 0x80 0xbf f (omega arith) (omega arith),
  )

lead_e0 : (k : ℕ) → k ≡ 0 → lead (0xe0 + k) ≡ begin 2 k 0xa0 0xbf
unfolding lead
lead_e0 k p = ground arith

lead_ed : (k : ℕ) → k ≡ 13 → lead (0xe0 + k) ≡ begin 2 k 0x80 0x9f
unfolding lead
lead_ed k p = ground arith

lead_f0 : (k : ℕ) → k ≡ 0 → lead (0xf0 + k) ≡ begin 3 k 0x90 0xbf
unfolding lead
lead_f0 k p = ground arith

lead_f4 : (k : ℕ) → k ≡ 4 → lead (0xf0 + k) ≡ begin 3 k 0x80 0x8f
unfolding lead
lead_f4 k p = ground arith

abbrev three : ℕ → List ℕ → List ℕ
three c bs = (0xe0 + c / 4096) ∷ (0x80 + c / 64 % 64) ∷ (0x80 + c % 64) ∷ bs

abbrev four : ℕ → List ℕ → List ℕ
four c bs =
    (0xf0 + c / 262144) ∷ (0x80 + c / 4096 % 64) ∷ (0x80 + c / 64 % 64) ∷ (0x80 + c % 64) ∷ bs

module _ (c : ℕ) (bs : List ℕ) where
  abbrev Decoded : List ℕ → Type 0
  Decoded code = decode_from idle code ≡ c ∷ decode_from idle bs

  the_char : (v : ℕ) → v ≡ c → v ∷ decode_from idle bs ≡ c ∷ decode_from idle bs
  the_char v e = ap (λ x. x ∷ decode_from idle bs) e

  three_of :
      (lo hi : ℕ)
      → lead (0xe0 + c / 4096) ≡ begin 2 (c / 4096) lo hi
      → lo ≤ 0x80 + c / 64 % 64
      → 0x80 + c / 64 % 64 ≤ hi
      → Decoded (three c bs)
  three_of lo hi h p q =
      three_bytes (0xe0 + c / 4096) (c / 4096) lo hi (c / 64 % 64) (c % 64) bs p q (omega arith) h
      ∙ the_char ((c / 4096 * 64 + c / 64 % 64) * 64 + c % 64) (omega arith)

  four_of :
      (lo hi : ℕ)
      → lead (0xf0 + c / 262144) ≡ begin 3 (c / 262144) lo hi
      → lo ≤ 0x80 + c / 4096 % 64
      → 0x80 + c / 4096 % 64 ≤ hi
      → Decoded (four c bs)
  four_of lo hi h p q =
      four_bytes (0xf0 + c / 262144) (c / 262144) lo hi (c / 4096 % 64) (c / 64 % 64) bs p q
        (omega arith) (c % 64) (omega arith) h
      ∙ the_char (((c / 262144 * 64 + c / 4096 % 64) * 64 + c / 64 % 64) * 64 + c % 64)
          (omega arith)

  decode_three : IsScalar c → 0x800 ≤ c → c < 0x10000 → Decoded (three c bs)
  decode_three s h k = elim (Bool-cases (c / 4096 == 0)) [
    | inl e ↦ three_of 0xa0 0xbf (lead_e0 _ (ground arith)) (ground arith) (omega arith)
    | inr e ↦ elim (Bool-cases (c / 4096 == 13)) [
      | inl f ↦
          three_of 0x80 0x9f (lead_ed _ (ground arith)) (omega arith)
            (surrogate_free s (ground arith))
      | inr f ↦
          three_of 0x80 0xbf (lead_three _ (ground arith) (omega arith) (ground arith))
            (omega arith) (omega arith)
    ]
  ]
    where
      surrogate_free : IsScalar c → c / 4096 ≡ 13 → 0x80 + c / 64 % 64 ≤ 0x9f
      surrogate_free (low_plane l) e = omega arith
      surrogate_free (high_planes l m) e = omega arith

  decode_four : 0x10000 ≤ c → c < 0x110000 → Decoded (four c bs)
  decode_four h k = elim (Bool-cases (c / 262144 == 0)) [
    | inl e ↦ four_of 0x90 0xbf (lead_f0 _ (ground arith)) (ground arith) (omega arith)
    | inr e ↦ elim (Bool-cases (c / 262144 == 4)) [
      | inl f ↦ four_of 0x80 0x8f (lead_f4 _ (ground arith)) (omega arith) (ground arith)
      | inr f ↦
          four_of 0x80 0xbf (lead_four _ (ground arith) (ground arith)) (omega arith) (omega arith)
    ]
  ]

decode_ascii :
    (c : ℕ) (bs : List ℕ) → c < 0x80 → decode_from idle (c ∷ bs) ≡ c ∷ decode_from idle bs
unfolding decode_from feed_at
decode_ascii c bs h = ground arith

scalar_bound : {c : ℕ} → IsScalar c → c < 0x110000
scalar_bound (low_plane h) = omega arith
scalar_bound (high_planes h k) = k

decode_char :
    (c : ℕ) (bs : List ℕ)
    → IsScalar c
    → decode_from idle (encode_char c ++ bs) ≡ c ∷ decode_from idle bs
unfolding encode_char
decode_char c bs s = elim (Bool-cases (ltb c 0x80)) [
  | inl e ↦ rw e (decode_ascii c bs (ltb→lt _ _ e))
  | inr e ↦ elim (Bool-cases (ltb c 0x800)) [
    | inl f ↦ rw (e, f) (decode_two c bs (ground arith) (ltb→lt _ _ f))
    | inr f ↦ elim (Bool-cases (ltb c 0x10000)) [
      | inl g ↦ rw (e, f, g) (decode_three c bs s (ground arith) (ltb→lt _ _ g))
      | inr g ↦ rw (e, f, g) (decode_four c bs (ground arith) (scalar_bound s))
    ]
  ]
]

-- Decoding undoes encoding for every text without surrogates.
pub decode-encode : (t : Text) → All IsScalar t → decode (encode t) ≡ t
unfolding decode encode
decode-encode [] h = unfold decode_from in refl
decode-encode (c ∷ t) h = decode_char c (encode t) h.0 ∙ ap (λ u. c ∷ u) (decode-encode t h.1)
