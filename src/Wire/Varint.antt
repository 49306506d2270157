-- ===== src/Wire/Varint.antt =====
-- Varints: what `write_variant` writes, `read_variant` reads back, and what it reads of any buffer.
use wrkr.Prelude.{
  ℕ, zero, suc, ◌+◌, ◌*◌, ◌/◌, ◌%◌, ◌^◌, ◌<◌, ◌≤◌, ◌≡◌, refl, sym, subst, ap, ◌∙◌, [], ◌∷◌, ◌++◌,
  length, ltb, Bool-cases, inl, inr, arith, IsU64,
}
use wrkr.Wire.{Bytes, write_variant_loop, write_variant, read_variant_loop, read_variant, group_at}
use wrkr.Prelude.Results.{ok}
use native.Mathlib.Nat.{div-add-mod, mul_assoc, mul-le-mul_right, pow-le-pow_right}
use native.Mathlib.Numerals.{towards_suc}

shift_seven : (s : ℕ) → 2 ^ (s + 7) ≡ 128 * 2 ^ s
shift_seven s = simp towards_suc (omega arith)

-- A group of seven bits at a shift and the groups above it are the number at the shift.
split_group : (v s : ℕ) → v / 128 * 2 ^ (s + 7) + v % 128 * 2 ^ s ≡ v * 2 ^ s
split_group v s =
    rw (shift_seven s) (
      omega (arith, ap (λ (t : ℕ). t * 2 ^ s) (div-add-mod v 128), mul_assoc (v / 128) 128 (2 ^ s)))

last_group :
    (b shift out : ℕ) (rest : Bytes)
    → b < 128
    → out + b * 2 ^ shift < 2 ^ 64
    → read_variant_loop shift out (b ∷ rest) ≡ ok (out + b * 2 ^ shift, rest)
unfolding read_variant_loop
last_group b shift out rest small fits = ground arith

more_groups :
    (g shift out : ℕ) (rest : Bytes)
    → g < 128
    → shift + 7 < 64
    → out + g * 2 ^ shift < 2 ^ 64
    → read_variant_loop shift out ((g + 128) ∷ rest)
      ≡ read_variant_loop (shift + 7) (out + g * 2 ^ shift) rest
unfolding read_variant_loop
more_groups g shift out rest small room fits = ground arith

read-write_loop :
    (n v shift out : ℕ) (rest : Bytes)
    → shift + 7 * n ≤ 63
    → v < 128 ^ suc n
    → out + v * 2 ^ shift < 2 ^ 64
    → read_variant_loop shift out (write_variant_loop (suc n) v ++ rest)
      ≡ ok (out + v * 2 ^ shift, rest)
unfolding write_variant_loop
read-write_loop zero v shift out rest room small fits = ground (arith, last_group v shift out rest)
read-write_loop (suc n) v shift out rest room small fits =
    let out' = out + v % 128 * 2 ^ shift in
    ground (
      arith,
      split_group v shift,
      last_group v shift out rest,
      more_groups (v % 128) shift out (write_variant_loop (suc n) (v / 128) ++ rest),
      read-write_loop n (v / 128) (shift + 7) out' rest,
    )

-- `read_variant` reads back every u64 that `write_variant` wrote, and leaves what comes after it.
pub read_variant-write_variant :
    (v : ℕ) (rest : Bytes) → IsU64 v → read_variant (write_variant v ++ rest) ≡ ok (v, rest)
unfolding read_variant write_variant
read_variant-write_variant v rest h =
    read-write_loop 9 v 0 0 rest (omega arith) (omega arith) (omega arith)
    ∙ ap (λ (t : ℕ). ok (t, rest)) (omega arith)

group_below : (b s out : ℕ) → out < 2 ^ s → out + group_at b s < 2 ^ (s + 7)
group_below b s out h =
    let high : b % 128 ≤ 127 = omega arith in
    omega (arith, shift_seven s, mul-le-mul_right (2 ^ s) high)

group_fits : (b s j out : ℕ) → s ≡ 7 * j → j ≤ 9 → out < 2 ^ s → IsU64 (out + group_at b s)
group_fits b s j out hs hj h = elim (Bool-cases (ltb j 9)) [
  | inl lower ↦
      let le : s + 7 ≤ 63 = ground arith in
      omega (arith, group_below b s out h, pow-le-pow_right {n = 2} (omega arith) le)
  | inr top ↦
      let top_shift : s ≡ 63 = ground arith in
      subst (λ (t : ℕ). out < 2 ^ t → IsU64 (out + group_at b t)) (sym top_shift) (λ k. omega arith)
        h
]

read_loop_takes :
    (src : Bytes) (j shift out v : ℕ) (rest : Bytes)
    → shift ≡ 7 * j
    → j ≤ 9
    → out < 2 ^ shift
    → read_variant_loop shift out src ≡ ok (v, rest)
    → IsU64 v × (length rest < length src) × (length src + j ≤ length rest + 10)
unfolding read_variant_loop
read_loop_takes [] j shift out v rest hs hj small e = cc
read_loop_takes (b ∷ src) j shift out v rest hs hj small e = ground (
  arith,
  group_fits b shift j out,
  group_below b shift out,
  read_loop_takes src (j + 1) (shift + 7) (out + group_at b shift) v rest,
)

-- What `read_variant` reads of any buffer, well formed or not, is a u64, and it takes 1 to 10 bytes
-- for it.
pub read_variant_takes :
    (src : Bytes) (v : ℕ) (rest : Bytes)
    → read_variant src ≡ ok (v, rest)
    → IsU64 v × (length rest < length src) × (length src ≤ length rest + 10)
unfolding read_variant
read_variant_takes src v rest e =
    omega (arith, read_loop_takes src 0 0 0 v rest refl (omega arith) (omega arith) e)
