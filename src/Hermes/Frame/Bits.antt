-- ===== src/Hermes/Frame/Bits.antt =====
-- The bit operations on the bytes of a frame, by tables; the numbers that `struct` packs.
use Prim.Native.Nat.{bit_and, bit_or, bit_xor}
use native.Mathlib.Nat.{pow-suc}
use xolis.Base.{
  ℕ, zero, suc, ◌+◌, ◌*◌, ◌/◌, ◌%◌, ◌^◌, ◌<◌, ◌≡◌, refl, ap, ◌∙◌, Bool, true, ◌&&◌, [], ◌∷◌, ◌++◌,
  length, length-append, All, arith, ◌==◌, nat_eq, nat_beq_iff,
}
use xolis.Hermes.Frame.{Bytes, pack, unpack, unpack_onto, byte_at, apply_mask}

all_below : ℕ → (ℕ → Bool) → Bool
all_below zero p = true
all_below (suc n) p = p n && all_below n p

all_below_lem : (n : ℕ) (p : ℕ → Bool) → all_below n p ≡ true → (x : ℕ) → x < n → p x ≡ true
unfolding all_below
all_below_lem zero p h x l = absurd (omega arith)
all_below_lem (suc n) p h x l = ground (arith, all_below_lem n p (ground arith) x)

abbrev mask_back : ℕ → ℕ → Bool
mask_back m x = bit_xor (bit_xor x m) m == x

xor_table : all_below 256 (λ m. all_below 256 (mask_back m)) ≡ true
unfolding all_below
xor_table = refl

xor_twice : (x m : ℕ) → x < 256 → m < 256 → bit_xor (bit_xor x m) m ≡ x
xor_twice x m h k = (nat_beq_iff (bit_xor (bit_xor x m) m) x).0 (
    all_below_lem 256 (mask_back m)
      (all_below_lem 256 (λ m. all_below 256 (mask_back m)) xor_table m k) x h)

abbrev pub IsByte : ℕ → Type 0
IsByte b = b < 256

byte_at-IsByte : (mask : Bytes) (i : ℕ) → All IsByte mask → IsByte (byte_at mask i)
unfolding byte_at
byte_at-IsByte [] i h = omega arith
byte_at-IsByte (b ∷ bs) zero h = h.0
byte_at-IsByte (b ∷ bs) (suc i) h = byte_at-IsByte bs i h.1

-- Masking twice gives the payload back.
pub apply_mask_twice :
    (mask : Bytes) (index : ℕ) (payload : Bytes)
    → All IsByte mask
    → All IsByte payload
    → apply_mask mask index (apply_mask mask index payload) ≡ payload
unfolding apply_mask
apply_mask_twice mask index [] m h = refl
apply_mask_twice mask index (v ∷ payload) m h =
    ap (λ x. x ∷ apply_mask mask (index + 1) (apply_mask mask (index + 1) payload))
      (xor_twice v (byte_at mask (index % 4)) h.0 (byte_at-IsByte mask (index % 4) m))
    ∙ ap (λ t. v ∷ t) (apply_mask_twice mask (index + 1) payload m h.1)

pub length-apply_mask :
    (mask : Bytes) (index : ℕ) (payload : Bytes)
    → length (apply_mask mask index payload) ≡ length payload
unfolding apply_mask
length-apply_mask mask index [] = refl
length-apply_mask mask index (v ∷ payload) = ap suc (length-apply_mask mask (index + 1) payload)

unpack_onto-append :
    (acc : ℕ) (bs : Bytes) (b : ℕ) → unpack_onto acc (bs ++ (b ∷ [])) ≡ unpack_onto acc bs * 256 + b
unpack_onto-append acc [] b = refl
unpack_onto-append acc (c ∷ bs) b = unpack_onto-append (acc * 256 + c) bs b

pub unpack-pack : (k n : ℕ) → n < 256 ^ k → unpack (pack k n) ≡ n
unfolding unpack pack
unpack-pack zero n h = omega arith
unpack-pack (suc k) n h = omega (
  arith,
  unpack_onto-append 0 (pack k (n / 256)) (n % 256),
  unpack-pack k (n / 256) (omega (arith, pow-suc 256 k)),
)

pub length-pack : (k n : ℕ) → length (pack k n) ≡ k
unfolding pack
length-pack zero n = refl
length-pack (suc k) n =
    omega (arith, length-append (pack k (n / 256)) (n % 256 ∷ []), length-pack k (n / 256))

-- What the first byte says of a four-bit opcode.
abbrev final_byte : ℕ → Bool
final_byte x = bit_and (bit_or 0x80 x) 0x80 == 128 && bit_and (bit_or 0x80 x) 0x0f == x

final_table : all_below 16 final_byte ≡ true
unfolding all_below
final_table = refl

pub first_byte :
    (opcode : ℕ)
    → opcode < 16
    → (bit_and (bit_or 0x80 opcode) 0x80 ≡ 128) × (bit_and (bit_or 0x80 opcode) 0x0f ≡ opcode)
first_byte opcode h =
    let t : final_byte opcode ≡ true = all_below_lem 16 final_byte final_table opcode h in
    (
      (nat_beq_iff (bit_and (bit_or 0x80 opcode) 0x80) 128).0 (ground arith),
      (nat_beq_iff (bit_and (bit_or 0x80 opcode) 0x0f) opcode).0 (ground arith),
    )

-- What the second byte says of a length below 126.
abbrev length_byte : ℕ → Bool
length_byte x = bit_and (bit_or 0x80 x) 0x80 == 128 && bit_and (bit_or 0x80 x) 0x7f == x

length_table : all_below 128 length_byte ≡ true
unfolding all_below
length_table = refl

pub second_byte :
    (n : ℕ) → n < 128 → (bit_and (bit_or 0x80 n) 0x80 ≡ 128) × (bit_and (bit_or 0x80 n) 0x7f ≡ n)
second_byte n h =
    let t : length_byte n ≡ true = all_below_lem 128 length_byte length_table n h in
    (
      (nat_beq_iff (bit_and (bit_or 0x80 n) 0x80) 128).0 (ground arith),
      (nat_beq_iff (bit_and (bit_or 0x80 n) 0x7f) n).0 (ground arith),
    )
