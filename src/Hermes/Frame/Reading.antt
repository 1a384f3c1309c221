-- ===== src/Hermes/Frame/Reading.antt =====
-- `read_exact` of tools/hermes_demo.py does not depend on how the bytes are cut into segments.
use mathlib.Core.Path.{subst}
use xolis.Base.{
  ℕ, zero, suc, ◌-◌, ◌≤◌, ◌<◌, ◌≡◌, refl, sym, ap, ◌∙◌, [], ◌∷◌, ◌++◌, append_assoc, append-nil,
  length, length-append, take, drop, join, leb, leb→le, arith, Bool-cases, inl, inr,
}
use xolis.Base.Result.{Result, ok}
use xolis.Hermes.Frame.{Bytes, Connection, FrameError, Received, read_more, read_exact}

-- No segment is empty: the peer has not closed the connection.
abbrev pub IsOpen : Connection → Type 0
IsOpen [] = Unit {0}
IsOpen ([] ∷ connection) = ⊥
IsOpen ((b ∷ bs) ∷ connection) = IsOpen connection

-- The call returns given bytes and leaves a connection with a given stream.
pub record Reads (r : Result FrameError Received) (bytes rest : Bytes) : Type 0 where
  pub after : Connection
  pub result : r ≡ ok (record { bytes = bytes; rest = after })
  pub is_open : IsOpen after
  pub stream : join after ≡ rest

module _ (ys rest : Bytes) where
  split_shorter :
      (xs bytes : Bytes)
      → xs ++ ys ≡ bytes ++ rest
      → length xs ≤ length bytes
      → (bytes ≡ xs ++ drop (length xs) bytes) × (ys ≡ drop (length xs) bytes ++ rest)
  split_shorter [] bytes h l = (refl, h)
  split_shorter (x ∷ xs) [] h l = absurd (omega arith)
  split_shorter (x ∷ xs) (b ∷ bytes) h l =
      let tails : xs ++ ys ≡ bytes ++ rest = cc in
      let (p, q) = split_shorter xs bytes tails (omega arith) in (cc, q)

  split_longer :
      (xs bytes : Bytes)
      → xs ++ ys ≡ bytes ++ rest
      → length bytes < length xs
      → (take (length bytes) xs ≡ bytes)
        × (drop (length bytes) xs ++ ys ≡ rest)
        × (1 ≤ length (drop (length bytes) xs))
  split_longer [] bytes h l = absurd (omega arith)
  split_longer (x ∷ xs) [] h l = (refl, h, omega arith)
  split_longer (x ∷ xs) (b ∷ bytes) h l =
      let tails : xs ++ ys ≡ bytes ++ rest = cc in
      let (p, q, r) = split_longer xs bytes tails (omega arith) in (cc, q, r)

IsOpen-push : (xs : Bytes) (c : Connection) → 1 ≤ length xs → IsOpen c → IsOpen (xs ∷ c)
IsOpen-push [] c l o = absurd (omega arith)
IsOpen-push (x ∷ xs) c l o = o

read_more-Reads :
    (n : ℕ) (chunks bytes rest : Bytes) (c : Connection)
    → n ≡ length bytes
    → IsOpen c
    → join c ≡ bytes ++ rest
    → Reads (read_more n chunks c) (chunks ++ bytes) rest
unfolding read_more
read_more-Reads zero chunks [] rest c e o h = record {
  after = c;
  result = ap (λ b. ok (record { bytes = b; rest = c })) (sym (append-nil chunks));
  is_open = o;
  stream = h;
}
read_more-Reads zero chunks (d ∷ bytes) rest c e o h = absurd (omega arith)
read_more-Reads (suc n) chunks [] rest [] e o h = absurd (omega arith)
read_more-Reads (suc n) chunks (d ∷ bytes) rest [] e o h = absurd (impossible h)
  where
    impossible : {b : ℕ} {bs : Bytes} → [] ≡ (b ∷ bs) → ⊥
    impossible h = cc
read_more-Reads (suc n) chunks bytes rest ([] ∷ c) e o h = absurd o
read_more-Reads (suc n) chunks bytes rest ((b ∷ bs) ∷ c) e o h =
    elim (Bool-cases (leb (length (b ∷ bs)) (suc n))) [
      | inl l ↦
          let (p, q) =
            split_shorter (join c) rest (b ∷ bs) bytes h
              (omega (arith, leb→le (length (b ∷ bs)) (suc n) l)) in
          let missing : suc n - length (b ∷ bs) ≡ length (drop (length (b ∷ bs)) bytes) =
            omega (arith, ap length p, length-append (b ∷ bs) (drop (length (b ∷ bs)) bytes)) in
          rw l (
            subst (λ t. Reads (read_more (suc n - length (b ∷ bs)) (chunks ++ (b ∷ bs)) c) t rest)
              (append_assoc chunks (b ∷ bs) (drop (length (b ∷ bs)) bytes)
                ∙ ap (λ t. chunks ++ t) (sym p))
              (read_more-Reads (suc n - length (b ∷ bs)) (chunks ++ (b ∷ bs))
                (drop (length (b ∷ bs)) bytes) rest c missing o q))
      | inr l ↦
          let (p, q, r) =
            split_longer (join c) rest (b ∷ bs) bytes h
              (ground (arith, leb→le (length (b ∷ bs)) (suc n))) in
          rw l (record {
            after = drop (suc n) (b ∷ bs) ∷ c;
            result =
                ap (λ t. ok (record { bytes = chunks ++ t; rest = drop (suc n) (b ∷ bs) ∷ c }))
                  (ap (λ k. take k (b ∷ bs)) e ∙ p);
            is_open =
                IsOpen-push (drop (suc n) (b ∷ bs)) c
                  (subst (λ k. 1 ≤ length (drop k (b ∷ bs))) (sym e) r) o;
            stream = ap (λ k. drop k (b ∷ bs) ++ join c) e ∙ q;
          })
    ]

-- Reading as many bytes as the stream starts with returns just these, however they arrive.
pub read_exact-Reads :
    (n : ℕ) (bytes rest : Bytes) (c : Connection)
    → n ≡ length bytes
    → IsOpen c
    → join c ≡ bytes ++ rest
    → Reads (read_exact c n) bytes rest
unfolding read_exact
read_exact-Reads n bytes rest c e o h = read_more-Reads n [] bytes rest c e o h
