-- ===== src/Messages/Decimal.antt =====
-- Rust's decimal texts of integers, UTF-8, and the floating-point operations, as far as
-- wrkr-grpc/src/wire uses them.
use wrkr.Prelude.{
  ℕ, zero, suc, ◌+◌, ◌-◌, ◌*◌, ◌/◌, ◌%◌, ◌^◌, Bool, true, ◌&&◌, ◌||◌, Option, none, some, [], ◌∷◌,
  ltb, leb, ◌==◌, if◌then◌else◌,
}
use wrkr.Prelude.Int.{ℤ, pos, negsuc, neg}
use wrkr.Wire.{Bytes}

-- What the program uses of `f64` and `f32`, on bit patterns.
pub record Floats : Type 0 where
  pub f64_as_i64 : ℕ → ℤ
  pub f64_as_u64 : ℕ → ℕ
  pub f64_as_f32 : ℕ → ℕ
  pub f64_from_f32 : ℕ → ℕ
  pub i64_as_f64 : ℤ → ℕ
  pub u64_as_f64 : ℕ → ℕ
  pub parse_f64 : Bytes → Option ℕ
  pub f64_to_string : ℕ → Bytes

abbrev is_digit : ℕ → Bool
is_digit b = leb 48 b && leb b 57

-- The digits of a number after those that are read, up to a largest number.
pub parse_digits : ℕ → ℕ → Bytes → Option ℕ
parse_digits largest n [] = some n
parse_digits largest n (b ∷ s) =
    let n' = n * 10 + (b - 48) in
    let rest = parse_digits largest n' s in if is_digit b && leb n' largest then rest else none

-- At least one digit.
pub parse_number : ℕ → Bytes → Option ℕ
unfolding parse_digits
parse_number largest [] = none
parse_number largest (b ∷ s) = parse_digits largest 0 (b ∷ s)

-- `str::parse::<u64>`, which takes a sign +.
unfoldable pub parse_u64 : Bytes → Option ℕ
unfolding parse_number
parse_u64 [] = none
parse_u64 (b ∷ s) =
    if b == 43 then parse_number (2 ^ 64 - 1) s else parse_number (2 ^ 64 - 1) (b ∷ s)

abbrev positive : Option ℕ → Option ℤ
positive none = none
positive (some n) = some (pos n)

abbrev negative : Option ℕ → Option ℤ
negative none = none
negative (some n) = some (neg n)

-- `str::parse::<i64>`, with a sign or without.
unfoldable pub parse_i64 : Bytes → Option ℤ
unfolding parse_number
parse_i64 [] = none
parse_i64 (b ∷ s) =
    if b == 43
    then positive (parse_number (2 ^ 63 - 1) s)
    else if b == 45
    then negative (parse_number (2 ^ 63) s)
    else positive (parse_number (2 ^ 63 - 1) (b ∷ s))

-- The digits of `n` in front of a text; 20 digits are enough for a u64.
pub digits : ℕ → ℕ → Bytes → Bytes
digits zero n s = s
digits (suc fuel) n s =
    let s' = (n % 10 + 48) ∷ s in
    let rest = digits fuel (n / 10) s' in if ltb n 10 then s' else rest

unfoldable pub u64_to_string : ℕ → Bytes
unfolding digits
u64_to_string n = digits 20 n []

unfoldable pub i64_to_string : ℤ → Bytes
unfolding digits
i64_to_string (pos n) = digits 20 n []
i64_to_string (negsuc n) = 45 ∷ digits 20 (n + 1) []

abbrev is_tail : ℕ → Bool
is_tail b = leb 0x80 b && leb b 0xbf

-- The second byte of a character of three bytes: no short form, and no surrogate.
abbrev second_of_three : ℕ → ℕ → Bool
second_of_three b c =
    if b == 0xe0
    then leb 0xa0 c && leb c 0xbf
    else if b == 0xed
    then leb 0x80 c && leb c 0x9f
    else is_tail c

-- The second byte of a character of four bytes: no short form, and none above U+10FFFF.
abbrev second_of_four : ℕ → ℕ → Bool
second_of_four b c =
    if b == 0xf0
    then leb 0x90 c && leb c 0xbf
    else if b == 0xf4
    then leb 0x80 c && leb c 0x8f
    else is_tail c

-- `std::str::from_utf8(s).is_ok()`
unfoldable pub is_utf8 : Bytes → Bool
is_utf8 [] = true
is_utf8 (b ∷ []) = ltb b 0x80
is_utf8 (b ∷ c ∷ []) = (ltb b 0x80 && ltb c 0x80) || (leb 0xc2 b && leb b 0xdf && is_tail c)
is_utf8 (b ∷ c ∷ d ∷ []) =
    let one = is_utf8 (c ∷ d ∷ []) in
    let two = is_utf8 (d ∷ []) in
    (ltb b 0x80 && one)
    || (leb 0xc2 b && leb b 0xdf && is_tail c && two)
    || (leb 0xe0 b && leb b 0xef && second_of_three b c && is_tail d)
is_utf8 (b ∷ c ∷ d ∷ e ∷ s) =
    let one = is_utf8 (c ∷ d ∷ e ∷ s) in
    let two = is_utf8 (d ∷ e ∷ s) in
    let three = is_utf8 (e ∷ s) in
    let four = is_utf8 s in
    (ltb b 0x80 && one)
    || (leb 0xc2 b && leb b 0xdf && is_tail c && two)
    || (leb 0xe0 b && leb b 0xef && second_of_three b c && is_tail d && three)
    || (leb 0xf0 b && leb b 0xf4 && second_of_four b c && is_tail d && is_tail e && four)
