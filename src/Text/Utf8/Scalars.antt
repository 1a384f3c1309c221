-- ===== src/Text/Utf8/Scalars.antt =====
-- Whatever the bytes, `decode` makes Unicode scalar values of them.
use xolis.Base.{
  ℕ, zero, suc, ◌+◌, ◌-◌, ◌*◌, ◌≤◌, ◌<◌, ◌≡◌, refl, ◌⊎◌, Bool, true, false, ◌&&◌, List, [], ◌∷◌,
  ◌++◌, arith, ltb, leb, if◌then◌else◌, All, inl, inr,
}
use xolis.Text.{Text}
use xolis.Text.Utf8.{
  Partial, Fed, idle, replacement, lead, advance, feed, feed_at, rest_of, decode_from, decode,
}
use xolis.Text.Utf8.RoundTrip.{IsScalar, low_plane, high_planes}

-- Every way to complete the character ends in a scalar value.
abbrev Completes : ℕ → ℕ → ℕ → ℕ → Type 0
Completes zero v lo hi = Unit
Completes (suc zero) v lo hi = (b : ℕ) → lo ≤ b → b ≤ hi → IsScalar (v * 64 + (b - 0x80))
Completes (suc (suc n)) v lo hi =
    (b : ℕ) → lo ≤ b → b ≤ hi → Completes (suc n) (v * 64 + (b - 0x80)) 0x80 0xbf

abbrev IsSound : Fed → Type 0
IsSound f = Completes f.state.wanted f.state.value f.state.low f.state.high × All IsScalar f.emitted

scalar : (c : ℕ) → (c < 0xd800) ⊎ ((0xe000 ≤ c) × (c < 0x110000)) → IsScalar c
scalar c (inl h) = low_plane h
scalar c (inr (h, k)) = high_planes h k

two_left :
    (v lo hi : ℕ)
    → 0x80 ≤ lo
    → hi ≤ 0xbf
    → ((v * 64 + (hi - 0x80)) * 64 + 63 < 0xd800)
      ⊎ ((0xe000 ≤ (v * 64 + (lo - 0x80)) * 64) × (v < 17 * 16))
    → Completes 2 v lo hi
two_left v lo hi p q (inl h) b l m c r s = low_plane (omega arith)
two_left v lo hi p q (inr (h, k)) b l m c r s = high_planes (omega arith) (omega arith)

three_left :
    (v lo hi : ℕ)
    → 0x80 ≤ lo
    → hi ≤ 0xbf
    → 16 ≤ v * 64 + (lo - 0x80)
    → v * 64 + (hi - 0x80) < 17 * 16
    → Completes 3 v lo hi
three_left v lo hi p q h k b l m =
    two_left (v * 64 + (b - 0x80)) 0x80 0xbf (omega arith) (omega arith)
      (inr (omega arith, omega arith))

if-IsSound :
    (c : Bool) (x y : Fed)
    → (c ≡ true → IsSound x)
    → (c ≡ false → IsSound y)
    → IsSound (if c then x else y)
if-IsSound true x y h k = h refl
if-IsSound false x y h k = k refl

replacement-IsScalar : All IsScalar replacement
replacement-IsScalar = (high_planes (omega arith) (omega arith), tt)

lead-IsSound : (b : ℕ) → IsSound (lead b)
unfolding lead
lead-IsSound b =
    if-IsSound (ltb b 0x80) _ _ (λ h. (tt, (low_plane (ground arith), tt)))
      (λ h1.
        if-IsSound (ltb b 0xc2) _ _ (λ h. (tt, replacement-IsScalar))
          (λ h2.
            if-IsSound (ltb b 0xe0) _ _ (λ h. (λ c l m. low_plane (ground arith), tt))
              (λ h3.
                if-IsSound (ltb b 0xe1) _ _
                  (λ h. (two_left 0 0xa0 0xbf (omega arith) (omega arith) (inl (omega arith)), tt))
                  (λ h4.
                    if-IsSound (ltb b 0xed) _ _
                      (λ h. (
                        two_left (b - 0xe0) 0x80 0xbf (omega arith) (omega arith)
                            (inl (ground arith)),
                        tt,
                      ))
                      (λ h5.
                        if-IsSound (ltb b 0xee) _ _
                          (λ h. (
                            two_left (b - 0xe0) 0x80 0x9f (omega arith) (omega arith)
                                (inl (ground arith)),
                            tt,
                          ))
                          (λ h6.
                            if-IsSound (ltb b 0xf0) _ _
                              (λ h. (
                                two_left (b - 0xe0) 0x80 0xbf (omega arith) (omega arith)
                                    (inr (ground arith)),
                                tt,
                              ))
                              (λ h7.
                                if-IsSound (ltb b 0xf1) _ _
                                  (λ h. (
                                    three_left 0 0x90 0xbf (omega arith) (omega arith) (omega arith)
                                        (omega arith),
                                    tt,
                                  ))
                                  (λ h8.
                                    if-IsSound (ltb b 0xf4) _ _
                                      (λ h. (
                                        three_left (b - 0xf0) 0x80 0xbf (omega arith) (omega arith)
                                            (ground arith) (ground arith),
                                        tt,
                                      ))
                                      (λ h9.
                                        if-IsSound (ltb b 0xf5) _ _
                                          (λ h. (
                                            three_left 4 0x80 0x8f (omega arith) (omega arith)
                                                (omega arith) (omega arith),
                                            tt,
                                          ))
                                          (λ h10. (tt, replacement-IsScalar)))))))))))

advance-IsSound :
    (n v lo hi b : ℕ)
    → Completes (suc n) v lo hi
    → lo ≤ b
    → b ≤ hi
    → IsSound (advance n (v * 64 + (b - 0x80)))
advance-IsSound zero v lo hi b h l m = (tt, (h b l m, tt))
advance-IsSound (suc n) v lo hi b h l m = (h b l m, tt)

feed_at-IsSound : (n v lo hi b : ℕ) → Completes n v lo hi → IsSound (feed_at n v lo hi b)
unfolding feed_at
feed_at-IsSound zero v lo hi b h = lead-IsSound b
feed_at-IsSound (suc n) v lo hi b h =
    if-IsSound (leb lo b && leb b hi) _ _
      (λ e. advance-IsSound n v lo hi b h (ground arith) (ground arith))
      (λ e. let s = lead-IsSound b in (s.0, (replacement-IsScalar.0, s.1)))

pub All-join : (a b : Text) → All IsScalar a → All IsScalar b → All IsScalar (a ++ b)
All-join [] b h k = k
All-join (c ∷ a) b h k = (h.0, All-join a b h.1 k)

rest_of-IsScalar : (n : ℕ) → All IsScalar (rest_of n)
rest_of-IsScalar zero = tt
rest_of-IsScalar (suc n) = replacement-IsScalar

decode_from-IsScalar :
    (p : Partial) (bs : List ℕ)
    → Completes p.wanted p.value p.low p.high
    → All IsScalar (decode_from p bs)
unfolding decode_from
decode_from-IsScalar p [] h = rest_of-IsScalar p.wanted
decode_from-IsScalar p (b ∷ bs) h =
    let s = feed_at-IsSound p.wanted p.value p.low p.high b h in
    All-join (feed p b).emitted (decode_from (feed p b).state bs) s.1
      (decode_from-IsScalar (feed p b).state bs s.0)

pub decode-IsScalar : (bs : List ℕ) → All IsScalar (decode bs)
unfolding decode
decode-IsScalar bs = decode_from-IsScalar idle bs tt
