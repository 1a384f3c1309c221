-- ===== src/Text/Utf8/Chunks.antt =====
-- Decoding a text in parts.
use xolis.Base.{ℕ, ◌≡◌, refl, ap, sym, ◌∙◌, List, [], ◌∷◌, ◌++◌, append_assoc, nat_eq}
use xolis.Text.Utf8.{Partial, idle, feed, decode_from}

-- The state after some bytes.
unfoldable pub settle : Partial → List ℕ → Partial
settle p [] = p
settle p (b ∷ bs) = settle (feed p b).state bs

-- Bytes that end between characters decode apart from what follows.
pub decode_from-append :
    (p : Partial) (a b : List ℕ)
    → settle p a ≡ idle
    → decode_from p (a ++ b) ≡ decode_from p a ++ decode_from idle b
unfolding decode_from settle
decode_from-append p [] b e = rw e refl
decode_from-append p (c ∷ a) b e =
    ap (λ u. (feed p c).emitted ++ u) (decode_from-append (feed p c).state a b e)
    ∙ sym (append_assoc (feed p c).emitted (decode_from (feed p c).state a) (decode_from idle b))
