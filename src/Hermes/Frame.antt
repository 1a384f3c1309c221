-- ===== src/Hermes/Frame.antt =====
-- `encode_frame`, `read_exact` and `read_frame` of tools/hermes_demo.py.
pub mod Bits
pub mod Reading
pub mod RoundTrip
use Prim.Native.Nat.{bit_and, bit_or, bit_xor}
use xolis.Base.{
  ℕ, zero, suc, ◌+◌, ◌-◌, ◌*◌, ◌/◌, ◌%◌, ◌^◌, Bool, true, false, List, [], ◌∷◌, ◌++◌, length, take,
  drop, ltb, leb, ◌==◌, nat_eq, if◌then◌else◌,
}
use xolis.Base.Result.{Result, ok, err, ◌>>=◌}

abbrev pub Bytes : Type 0
Bytes = List ℕ

pub data FrameError : Type 0 where
  connection_closed fragmented : FrameError
  -- `struct.error`: the length does not fit eight bytes
  too_long : FrameError

-- `struct.pack` of an unsigned number, the high byte first
unfoldable pub pack : ℕ → ℕ → Bytes
pack zero n = []
pack (suc k) n = pack k (n / 256) ++ (n % 256 ∷ [])

abbrev pub unpack_onto : ℕ → Bytes → ℕ
unpack_onto acc [] = acc
unpack_onto acc (b ∷ bs) = unpack_onto (acc * 256 + b) bs

-- `struct.unpack`
unfoldable pub unpack : Bytes → ℕ
unpack bs = unpack_onto 0 bs

-- `mask[i]`
unfoldable pub byte_at : Bytes → ℕ → ℕ
byte_at [] i = 0
byte_at (b ∷ bs) zero = b
byte_at (b ∷ bs) (suc i) = byte_at bs i

-- `value ^ mask[index % 4]` for the payload from an index on
unfoldable pub apply_mask : Bytes → ℕ → Bytes → Bytes
unfolding byte_at
apply_mask mask index [] = []
apply_mask mask index (value ∷ payload) =
    bit_xor value (byte_at mask (index % 4)) ∷ apply_mask mask (index + 1) payload

unfoldable pub header : ℕ → ℕ → Result FrameError Bytes
unfolding pack
header opcode length =
    let first = bit_or 0x80 opcode in
    if ltb length 126
    then ok (first ∷ bit_or 0x80 length ∷ [])
    else if ltb length 65536
    then ok (first ∷ bit_or 0x80 126 ∷ pack 2 length)
    else if ltb length 18446744073709551616
    then ok (first ∷ bit_or 0x80 127 ∷ pack 8 length)
    else err too_long

-- A frame with the mask that `secrets.token_bytes(4)` yields.
unfoldable pub encode_frame : Bytes → Bytes → ℕ → Result FrameError Bytes
unfolding header apply_mask
encode_frame mask payload opcode = do
  head ← header opcode (length payload)
  ok (head ++ (mask ++ apply_mask mask 0 payload))

-- What arrives on the connection, as the segments in which `recv` can see it. `recv(n)` returns the
-- next segment or its first n bytes, and an empty segment is a connection that was closed.
abbrev pub Connection : Type 0
Connection = List Bytes

pub record Received : Type 0 where
  pub bytes : Bytes
  pub rest : Connection

-- The loop of `read_exact`, with the number of bytes that are missing and those that are there.
unfoldable pub read_more : ℕ → Bytes → Connection → Result FrameError Received
read_more zero chunks connection = ok (record { bytes = chunks; rest = connection })
read_more (suc n) chunks [] = err connection_closed
read_more (suc n) chunks ([] ∷ connection) = err connection_closed
read_more (suc n) chunks ((b ∷ bs) ∷ connection) =
    let more = read_more (suc n - length (b ∷ bs)) (chunks ++ (b ∷ bs)) connection in
    if leb (length (b ∷ bs)) (suc n)
    then more
    else ok (record {
      bytes = chunks ++ take (suc n) (b ∷ bs);
      rest = drop (suc n) (b ∷ bs) ∷ connection;
    })

unfoldable pub read_exact : Connection → ℕ → Result FrameError Received
unfolding read_more
read_exact connection length = read_more length [] connection

pub record FrameLength : Type 0 where
  pub length : ℕ
  pub rest : Connection

-- The length, from the second byte and what follows it.
unfoldable pub read_length : ℕ → Connection → Result FrameError FrameLength
unfolding read_exact unpack
read_length second connection =
    let short = bit_and second 0x7f in
    if short == 126
    then (do r ← read_exact connection 2; ok (record { length = unpack r.bytes; rest = r.rest }))
    else if short == 127
    then (do r ← read_exact connection 8; ok (record { length = unpack r.bytes; rest = r.rest }))
    else ok (record { length = short; rest = connection })

pub record Frame : Type 0 where
  pub opcode : ℕ
  pub payload : Bytes
  pub rest : Connection

abbrev pub is_masked : ℕ → Bool
is_masked second = if bit_and second 0x80 == 0 then false else true

abbrev pub unmask : Bytes → Bytes → Bytes
unmask [] payload = payload
unmask (m ∷ mask) payload = apply_mask (m ∷ mask) 0 payload

unfoldable pub read_mask : ℕ → Connection → Result FrameError Received
unfolding read_exact
read_mask second connection =
    if is_masked second
    then read_exact connection 4
    else ok (record { bytes = []; rest = connection })

-- What follows the first two bytes.
unfoldable pub read_body : ℕ → ℕ → Connection → Result FrameError Frame
unfolding read_length read_mask apply_mask
read_body first second connection = do
  l ← read_length second connection
  mask ← read_mask second l.rest
  payload ← read_exact mask.rest l.length
  ok (record {
    opcode = bit_and first 0x0f;
    payload = unmask mask.bytes payload.bytes;
    rest = payload.rest;
  })

abbrev pub read_head : Received → Result FrameError Frame
read_head r =
    if bit_and (byte_at r.bytes 0) 0x80 == 0
    then err fragmented
    else read_body (byte_at r.bytes 0) (byte_at r.bytes 1) r.rest

unfoldable pub read_frame : Connection → Result FrameError Frame
unfolding read_body byte_at
read_frame connection = do r ← read_exact connection 2; read_head r
