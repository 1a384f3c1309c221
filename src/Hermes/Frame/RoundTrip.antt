-- ===== src/Hermes/Frame/RoundTrip.antt =====
-- A frame of tools/hermes_demo.py that is written is read back.
use Prim.Native.Nat.{bit_and, bit_or}
use xolis.Base.{
  ℕ, ◌<◌, ◌^◌, ◌≡◌, refl, sym, ap, ◌∙◌, false, [], ◌∷◌, ◌++◌, append_assoc, length, join, All, ltb,
  ltb→lt, arith, Bool-cases, inl, inr, ◌==◌, nat_eq,
}
use xolis.Base.Result.{Result, ok, err, ◌>>=◌}
use xolis.Hermes.Frame.{
  Bytes, Connection, FrameError, Received, read_exact, pack, unpack, byte_at, apply_mask, header,
  encode_frame, FrameLength, read_length, Frame, unmask, read_mask, read_body, read_frame,
}
use xolis.Hermes.Frame.Bits.{
  IsByte, apply_mask_twice, length-apply_mask, unpack-pack, length-pack, first_byte, second_byte,
}
use xolis.Hermes.Frame.Reading.{IsOpen, read_exact-Reads}

record ReadsLength (r : Result FrameError FrameLength) (n : ℕ) (tail : Bytes) : Type 0 where
  after : Connection
  result : r ≡ ok (record { length = n; rest = after })
  is_open : IsOpen after
  stream : join after ≡ tail

-- A second byte and an extension that announce a masked payload of a given length.
record Announces (second : ℕ) (extension : Bytes) (n : ℕ) : Type 0 where
  masked : bit_and second 0x80 ≡ 128
  reads :
      (c : Connection) (tail : Bytes)
      → IsOpen c
      → join c ≡ extension ++ tail
      → ReadsLength (read_length second c) n tail

short-Announces : (n : ℕ) → n < 126 → Announces (bit_or 0x80 n) [] n
unfolding read_length
short-Announces n l =
    let (top, low) = second_byte n (omega arith) in
    let a : (n == 126) ≡ false = ground arith in
    let b : (n == 127) ≡ false = ground arith in
    record {
      masked = top;
      reads =
          λ c tail o h. record { after = c; result = rw (low, a, b) refl; is_open = o; stream = h };
    }

extended :
    (k n : ℕ)
    → n < 256 ^ k
    → (c : Connection) (tail : Bytes) → IsOpen c
    → join c ≡ pack k n ++ tail
    → (r : Received) × (read_exact c k ≡ ok r)
      × (unpack r.bytes ≡ n)
      × IsOpen r.rest
      × (join r.rest ≡ tail)
extended k n l c tail o h =
    let r = read_exact-Reads k (pack k n) tail c (sym (length-pack k n)) o h in
    (record { bytes = pack k n; rest = r.after }, r.result, unpack-pack k n l, r.is_open, r.stream)

medium-Announces : (n : ℕ) → n < 65536 → Announces (bit_or 0x80 126) (pack 2 n) n
unfolding read_length
medium-Announces n l = record {
  masked = refl;
  reads = λ c tail o h.
      let (r, e, u, p, q) = extended 2 n l c tail o h in
      record {
        after = r.rest;
        result = rw e (ap (λ k. ok (record { length = k; rest = r.rest })) u);
        is_open = p;
        stream = q;
      };
}

long-Announces : (n : ℕ) → n < 18446744073709551616 → Announces (bit_or 0x80 127) (pack 8 n) n
unfolding read_length
long-Announces n l = record {
  masked = refl;
  reads = λ c tail o h.
      let (r, e, u, p, q) = extended 8 n l c tail o h in
      record {
        after = r.rest;
        result = rw e (ap (λ k. ok (record { length = k; rest = r.rest })) u);
        is_open = p;
        stream = q;
      };
}

record IsHeader (opcode n : ℕ) (head : Bytes) : Type 0 where
  second : ℕ
  extension : Bytes
  same : head ≡ bit_or 0x80 opcode ∷ second ∷ extension
  announces : Announces second extension n

header-IsHeader : (opcode n : ℕ) (head : Bytes) → header opcode n ≡ ok head → IsHeader opcode n head
unfolding header
header-IsHeader opcode n head h = elim (Bool-cases (ltb n 126)) [
  | inl a ↦ record {
    second = bit_or 0x80 n;
    extension = [];
    same = sym (ok_eq (rw a at h));
    announces = short-Announces n (ltb→lt n 126 a);
  }
  | inr a ↦ elim (Bool-cases (ltb n 65536)) [
    | inl b ↦ record {
      second = bit_or 0x80 126;
      extension = pack 2 n;
      same = sym (ok_eq (rw (a, b) at h));
      announces = medium-Announces n (ltb→lt n 65536 b);
    }
    | inr b ↦ elim (Bool-cases (ltb n 18446744073709551616)) [
      | inl c ↦ record {
        second = bit_or 0x80 127;
        extension = pack 8 n;
        same = sym (ok_eq (rw (a, b, c) at h));
        announces = long-Announces n (ltb→lt n 18446744073709551616 c);
      }
      | inr c ↦ absurd (impossible (rw (a, b, c) at h))
    ]
  ]
]
  where
    ok_eq : {x y : Bytes} → ◌≡◌ {A = Result FrameError Bytes} (ok x) (ok y) → x ≡ y
    ok_eq h = cc

    impossible : {e : FrameError} {y : Bytes} → ◌≡◌ {A = Result FrameError Bytes} (err e) (ok y) → ⊥
    impossible h = cc

-- The frame that is read, and the stream that it leaves.
pub record ReadsFrame (r : Result FrameError Frame) (opcode : ℕ) (payload rest : Bytes)
    : Type 0 where
  pub after : Connection
  pub result : r ≡ ok (record { opcode = opcode; payload = payload; rest = after })
  pub is_open : IsOpen after
  pub stream : join after ≡ rest

module _ (mask payload : Bytes) (four : length mask ≡ 4) (mask_bytes : All IsByte mask)
    (payload_bytes : All IsByte payload) where
  unmask_lem : unmask mask (apply_mask mask 0 payload) ≡ payload
  unmask_lem = cases mask four mask_bytes
    where
      cases :
          (m : Bytes) → length m ≡ 4 → All IsByte m → unmask m (apply_mask m 0 payload) ≡ payload
      cases [] e h = absurd (omega arith)
      cases (b ∷ m) e h = apply_mask_twice (b ∷ m) 0 payload h payload_bytes

  read_body-ReadsFrame :
      (opcode second : ℕ) (extension rest : Bytes) (c : Connection)
      → opcode < 16
      → Announces second extension (length payload)
      → IsOpen c
      → join c ≡ extension ++ (mask ++ (apply_mask mask 0 payload ++ rest))
      → ReadsFrame (read_body (bit_or 0x80 opcode) second c) opcode payload rest
  unfolding read_body read_mask
  read_body-ReadsFrame opcode second extension rest c l a o h =
      let ln = a.reads c (mask ++ (apply_mask mask 0 payload ++ rest)) o h in
      let m =
        read_exact-Reads 4 mask (apply_mask mask 0 payload ++ rest) ln.after (sym four) ln.is_open
          ln.stream in
      let p =
        read_exact-Reads (length payload) (apply_mask mask 0 payload) rest m.after
          (sym (length-apply_mask mask 0 payload)) m.is_open m.stream in
      record {
        after = p.after;
        result =
            rw (ln.result, a.masked, m.result, p.result)
              (ap (λ x. ok (record { opcode = x.0; payload = x.1; rest = p.after }))
                (pair (first_byte opcode l).1 unmask_lem));
        is_open = p.is_open;
        stream = p.stream;
      }
    where
      pair : {a b : ℕ} {x y : Bytes} → a ≡ b → x ≡ y → ◌≡◌ {A = ℕ × Bytes} (a, x) (b, y)
      pair p q = cc

  -- A frame with a four-bit opcode, a mask of four bytes and a payload of bytes that can be encoded
  -- is read back with its opcode and its payload, in whatever segments it arrives, and what follows
  -- it on the stream is left.
  pub read_frame-encode_frame :
      (opcode : ℕ) (frame rest : Bytes) (c : Connection)
      → opcode < 16
      → encode_frame mask payload opcode ≡ ok frame
      → IsOpen c
      → join c ≡ frame ++ rest
      → ReadsFrame (read_frame c) opcode payload rest
  unfolding encode_frame read_frame byte_at
  read_frame-encode_frame opcode frame rest c l e o h =
      let (head, e', f) = parts (header opcode (length payload)) e in
      let a = header-IsHeader opcode (length payload) head e' in
      let masked = apply_mask mask 0 payload in
      let whole =
        h
        ∙ ap (λ t. t ++ rest) (f ∙ ap (λ t. t ++ (mask ++ masked)) a.same)
        ∙ ap (λ t. bit_or 0x80 opcode ∷ a.second ∷ t)
            (append_assoc a.extension (mask ++ masked) rest
              ∙ ap (λ t. a.extension ++ t) (append_assoc mask masked rest)) in
      let r =
        read_exact-Reads 2 (bit_or 0x80 opcode ∷ a.second ∷ [])
          (a.extension ++ (mask ++ (masked ++ rest))) c refl o whole in
      let b =
        read_body-ReadsFrame opcode a.second a.extension rest r.after l a.announces r.is_open
          r.stream in
      record {
        after = b.after;
        result = rw (r.result, (first_byte opcode l).0) b.result;
        is_open = b.is_open;
        stream = b.stream;
      }
    where
      parts :
          (r : Result FrameError Bytes)
          → (r >>= (λ head. ok (head ++ (mask ++ apply_mask mask 0 payload)))) ≡ ok frame
          → (head : Bytes) × (r ≡ ok head) × (frame ≡ head ++ (mask ++ apply_mask mask 0 payload))
      parts (ok head) k = (head, refl, cc)
      parts (err x) k = cc
