-- ===== src/Wire/Runs.antt =====
-- Concrete buffers, and the theorems at concrete inputs.
use wrkr.Prelude.{◌≡◌, refl, [], ◌∷◌, ◌++◌, arith}
use wrkr.Wire.{
  Bytes, invalid_variant, len, varint, write_variant, read_variant, write_variant_loop,
  read_variant_loop, write_len_delimited, skip_value,
}
use wrkr.Prelude.Results.{ok, err}
use wrkr.Wire.Varint.{read_variant-write_variant}
use wrkr.Wire.Fields.{IsWritten}

abbrev greeting : Bytes
greeting = 104 ∷ 105 ∷ []

three_hundred : write_variant 300 ≡ 172 ∷ 2 ∷ []
unfolding write_variant write_variant_loop
three_hundred = refl

reads_three_hundred : read_variant (172 ∷ 2 ∷ []) ≡ ok (300, [])
unfolding read_variant read_variant_loop
reads_three_hundred = refl

cut_off : read_variant (172 ∷ []) ≡ err invalid_variant
unfolding read_variant read_variant_loop
cut_off = refl

read_variant-write_variant_example :
    read_variant (write_variant 300 ++ greeting) ≡ ok (300, greeting)
read_variant-write_variant_example = read_variant-write_variant 300 greeting (omega arith)

IsWritten-greeting : IsWritten len (write_len_delimited greeting)
unfolding IsWritten
IsWritten-greeting = (greeting, (omega arith, refl))

skips_three_hundred : skip_value varint (172 ∷ 2 ∷ 7 ∷ []) ≡ ok (7 ∷ [])
unfolding skip_value read_variant read_variant_loop
skips_three_hundred = refl
