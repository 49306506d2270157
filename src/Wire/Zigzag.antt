-- ===== src/Wire/Zigzag.antt =====
-- Zigzag: signed 64-bit numbers as unsigned ones, and back.
use wrkr.Prelude.{ℕ, ◌+◌, ◌*◌, ◌^◌, ◌<◌, ◌≡◌, arith, IsU64}
use wrkr.Prelude.Int.{ℤ, pos, negsuc}
use wrkr.Wire.{encode_zigzag64, decode_zigzag64}

-- An i64.
abbrev pub IsI64 : ℤ → Type 0
IsI64 (pos n) = n < 2 ^ 63
IsI64 (negsuc n) = n < 2 ^ 63

-- `encode_zigzag64` puts the numbers in the order 0, -1, 1, -2, 2, …, so that numbers near 0 have
-- short varints, and it gives a u64 for every i64.
pub encode_zigzag64_order :
    (n : ℕ)
    → n < 2 ^ 63
    → (encode_zigzag64 (pos n) ≡ 2 * n) × (encode_zigzag64 (negsuc n) ≡ 2 * n + 1)
unfolding encode_zigzag64
encode_zigzag64_order n h = (omega arith, omega arith)

-- `decode_zigzag64` gives back every i64 that `encode_zigzag64` encoded.
pub decode_zigzag64-encode_zigzag64 : (v : ℤ) → IsI64 v → decode_zigzag64 (encode_zigzag64 v) ≡ v
unfolding decode_zigzag64
decode_zigzag64-encode_zigzag64 (pos n) h = rw ((encode_zigzag64_order n h).0) (ground arith)
decode_zigzag64-encode_zigzag64 (negsuc n) h = rw ((encode_zigzag64_order n h).1) (ground arith)

-- Every u64 decodes to an i64, and `encode_zigzag64` gives that u64 back: the encoding is a
-- one-to-one correspondence of the i64s and the u64s.
pub encode_zigzag64-decode_zigzag64 :
    (v : ℕ) → IsU64 v → IsI64 (decode_zigzag64 v) × (encode_zigzag64 (decode_zigzag64 v) ≡ v)
unfolding decode_zigzag64 encode_zigzag64
encode_zigzag64-decode_zigzag64 v h = ground arith
