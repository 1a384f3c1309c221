-- ===== src/Runtime/Capture.antt =====
-- `_read_limited` of core.py: a stream is drained to its end, and its first bytes are kept.
use xolis.Base.{
  ℕ, zero, suc, ◌-◌, ◌≡◌, refl, ap, sym, ◌∙◌, true, Option, none, some, List, [], ◌∷◌, ◌++◌, arith,
  append_assoc, append-nil, length, take, take-append, take-zero_of_eq, if◌then◌else◌, Bool-cases,
  inl, inr, length-take,
}
use xolis.Base.Int.{ℤ, pos, negsuc, pos_part, ◌-ℤ◌, leb_ℤ}
use xolis.Runtime.{Bytes}

-- The part of a chunk that the room left by `used` bytes admits.
unfoldable pub admitted : ℤ → ℕ → Bytes → Bytes
admitted maximum used chunk =
    let remaining = maximum -ℤ pos used in
    if leb_ℤ remaining (pos 0) then [] else take (pos_part remaining) chunk

-- The loop over the chunks that `read` returns; an empty one is the end of the stream.
unfoldable pub read_loop : ℤ → Bytes → List Bytes → Bytes
read_loop maximum captured [] = captured
read_loop maximum captured ([] ∷ rest) = captured
read_loop maximum captured ((b ∷ chunk) ∷ rest) =
    read_loop maximum (captured ++ admitted maximum (length captured) (b ∷ chunk)) rest

unfoldable pub read_limited : Option (List Bytes) → ℤ → Bytes
unfolding read_loop admitted
read_limited none maximum = []
read_limited (some chunks) maximum = read_loop maximum [] chunks

-- All that the stream yields up to its end.
unfoldable pub stream_bytes : List Bytes → Bytes
stream_bytes [] = []
stream_bytes ([] ∷ rest) = []
stream_bytes ((b ∷ chunk) ∷ rest) = (b ∷ chunk) ++ stream_bytes rest

room : (maximum : ℤ) (used : ℕ) → pos_part (maximum -ℤ pos used) ≡ pos_part maximum - used
room (pos n) used = ground arith
room (negsuc n) used = ground arith

pub no_room :
    (maximum : ℤ) (used : ℕ)
    → leb_ℤ (maximum -ℤ pos used) (pos 0) ≡ true
    → pos_part maximum - used ≡ 0
no_room (pos n) used h = ground arith
no_room (negsuc n) used h = omega arith

pub admitted-eq-take :
    (maximum : ℤ) (used : ℕ) (chunk : Bytes)
    → admitted maximum used chunk ≡ take (pos_part maximum - used) chunk
unfolding admitted
admitted-eq-take maximum used chunk = elim (Bool-cases (leb_ℤ (maximum -ℤ pos used) (pos 0))) [
  | inl e ↦ rw e (sym (take-zero_of_eq _ chunk (no_room maximum used e)))
  | inr e ↦ rw e (ap (λ n. take n chunk) (room maximum used))
]

-- Keeping what is admitted of one more chunk is keeping the first bytes of all of it.
pub take-admitted :
    (maximum : ℤ) (seen chunk : Bytes)
    → take (pos_part maximum) seen ++ admitted maximum (length (take (pos_part maximum) seen)) chunk
      ≡ take (pos_part maximum) (seen ++ chunk)
take-admitted maximum seen chunk =
    let n = pos_part maximum in
    ap (λ u. take n seen ++ u)
      (admitted-eq-take maximum (length (take n seen)) chunk
        ∙ take_of_min (n - length (take n seen)) (n - length seen)
            (omega (arith, length-take n seen)))
    ∙ sym (take-append n seen chunk)
  where
    take_of_min : (a b : ℕ) → a ≡ b → take a chunk ≡ take b chunk
    take_of_min a b e = ap (λ k. take k chunk) e

read_loop-eq :
    (maximum : ℤ) (seen : Bytes) (chunks : List Bytes)
    → read_loop maximum (take (pos_part maximum) seen) chunks
      ≡ take (pos_part maximum) (seen ++ stream_bytes chunks)
unfolding read_loop stream_bytes
read_loop-eq maximum seen [] = ap (take (pos_part maximum)) (sym (append-nil seen))
read_loop-eq maximum seen ([] ∷ rest) = ap (take (pos_part maximum)) (sym (append-nil seen))
read_loop-eq maximum seen ((b ∷ chunk) ∷ rest) =
    ap (λ u. read_loop maximum u rest) (take-admitted maximum seen (b ∷ chunk))
    ∙ (read_loop-eq maximum (seen ++ (b ∷ chunk)) rest
        ∙ ap (take (pos_part maximum)) (append_assoc seen (b ∷ chunk) (stream_bytes rest)))

pub take-nil : (n : ℕ) → take {A = ℕ} n [] ≡ []
take-nil zero = refl
take-nil (suc n) = refl

-- Whatever the sizes of the chunks, what is kept is the first `maximum` bytes of the stream.
pub read_limited-eq-take :
    (chunks : List Bytes) (maximum : ℤ)
    → read_limited (some chunks) maximum ≡ take (pos_part maximum) (stream_bytes chunks)
unfolding read_limited
read_limited-eq-take chunks maximum =
    ap (λ u. read_loop maximum u chunks) (sym (take-nil (pos_part maximum)))
    ∙ read_loop-eq maximum [] chunks
