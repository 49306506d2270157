-- ===== src/Messages/Coerce.antt =====
-- wrkr-grpc/src/wire/coerce.rs: a script's value as what a field of a message holds.
use wrkr.Prelude.{ℕ, Bool, false, not, ◌||◌, Option, none, some, [], ◌∷◌, ◌==◌, if◌then◌else◌}
use wrkr.Prelude.Int.{ℤ, pos, negsuc}
use wrkr.Prelude.Results.{ok, err}
use wrkr.Wire.{
  Bytes, Result, WireError, invalid_int64_string, invalid_uint64_string, invalid_float_string,
  invalid_integer, invalid_float, invalid_integer_key, invalid_unsigned_key, as_u64, as_i64,
}
use wrkr.Value.{MapKey, Value}
use wrkr.Messages.Kinds.{bytes_eq}
use wrkr.Messages.Decimal.{Floats, parse_i64, parse_u64, u64_to_string, i64_to_string}

abbrev true_text : Bytes
true_text = b't' ∷ b'r' ∷ b'u' ∷ b'e' ∷ []

abbrev false_text : Bytes
false_text = b'f' ∷ b'a' ∷ b'l' ∷ b's' ∷ b'e' ∷ []

abbrev is_zero : ℤ → Bool
is_zero (pos n) = n == 0
is_zero (negsuc n) = false

-- `ok_or`
abbrev pub or_err {ℓ} : {A : Type ℓ} → WireError → Option A → Result A
or_err e none = err e
or_err e (some a) = ok a

unfoldable pub to_bool : Value → Bool
unfolding bytes_eq
to_bool (Value.bool b) = b
to_bool (Value.string s) = bytes_eq s true_text || bytes_eq s (b'1' ∷ [])
to_bool (Value.i64 i) = not (is_zero i)
to_bool (Value.u64 u) = not (u == 0)
to_bool _ = false

unfoldable pub map_key_to_i64 : MapKey → Result ℤ
unfolding parse_i64
map_key_to_i64 (MapKey.i64 i) = ok i
map_key_to_i64 (MapKey.u64 u) = ok (as_i64 u)
map_key_to_i64 (MapKey.string s) = or_err invalid_int64_string (parse_i64 s)
map_key_to_i64 (MapKey.bool b) = err invalid_integer_key

unfoldable pub map_key_to_u64 : MapKey → Result ℕ
unfolding parse_u64
map_key_to_u64 (MapKey.u64 u) = ok u
map_key_to_u64 (MapKey.i64 (pos n)) = ok n
map_key_to_u64 (MapKey.i64 (negsuc n)) = err invalid_unsigned_key
map_key_to_u64 (MapKey.string s) = or_err invalid_uint64_string (parse_u64 s)
map_key_to_u64 (MapKey.bool b) = err invalid_unsigned_key

unfoldable pub to_bytes_lossy : Value → Bytes
to_bytes_lossy (Value.bytes b) = b
to_bytes_lossy (Value.string s) = s
to_bytes_lossy _ = []

module _ (lib : Floats) where
  unfoldable pub to_string_lossy : Value → Bytes
  unfolding u64_to_string i64_to_string
  to_string_lossy (Value.string s) = s
  to_string_lossy (Value.i64 i) = i64_to_string i
  to_string_lossy (Value.u64 u) = u64_to_string u
  to_string_lossy (Value.f64 f) = lib.f64_to_string f
  to_string_lossy (Value.bool b) = if b then true_text else false_text
  to_string_lossy _ = []

  unfoldable pub to_i64 : Value → Result ℤ
  unfolding parse_i64
  to_i64 (Value.i64 i) = ok i
  to_i64 (Value.u64 u) = ok (as_i64 u)
  to_i64 (Value.f64 f) = ok (lib.f64_as_i64 f)
  to_i64 (Value.string s) = or_err invalid_int64_string (parse_i64 s)
  to_i64 _ = err invalid_integer

  unfoldable pub to_u64 : Value → Result ℕ
  unfolding parse_u64
  to_u64 (Value.u64 u) = ok u
  to_u64 (Value.i64 i) = ok (as_u64 i)
  to_u64 (Value.f64 f) = ok (lib.f64_as_u64 f)
  to_u64 (Value.string s) = or_err invalid_uint64_string (parse_u64 s)
  to_u64 _ = err invalid_integer

  unfoldable pub to_f64 : Value → Result ℕ
  to_f64 (Value.f64 f) = ok f
  to_f64 (Value.i64 i) = ok (lib.i64_as_f64 i)
  to_f64 (Value.u64 u) = ok (lib.u64_as_f64 u)
  to_f64 (Value.string s) = or_err invalid_float_string (lib.parse_f64 s)
  to_f64 _ = err invalid_float
