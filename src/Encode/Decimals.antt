-- ===== src/Encode/Decimals.antt =====
-- `encode_decimal`.
use adbc_driver_monetdb.Prelude.{
  ℕ, Bool, false, not, ◌&&◌, Option, none, some, List, ◌++◌, ltb, leb, if◌then◌else◌, Bytes,
  le_bytes, ℤ, pos_part, neg_part, half_range, bits, Outcome, ok, err,
}
use adbc_driver_monetdb.Encode.Error.{EncodeError, invalid_value}
use adbc_driver_monetdb.Encode.Fixed.{each_row}
use adbc_driver_monetdb.Decode.Decimals.{backing_width, exceeds, is_min}

-- `<$type>::try_from(value)` on the integer of a width.
abbrev pub fits_signed : ℕ → ℤ → Bool
fits_signed width value =
    ltb (pos_part value) (half_range width) && leb (neg_part value) (half_range width)

-- The macro `narrow`.
unfoldable pub narrow : ℕ → ℕ → Option ℤ → Bytes → Outcome EncodeError Bytes
narrow width row none out = ok (out ++ le_bytes width (half_range width))
narrow width row (some value) out =
    if not (fits_signed width value)
    then err (invalid_value row "decimal does not fit its MonetDB backing integer")
    else if is_min width value
    then err (invalid_value row "decimal collides with MonetDB's NULL sentinel")
    else ok (out ++ le_bytes width (bits width value))

abbrev pub exceeds_limit : Bool → ℕ → Option ℤ → Bool
exceeds_limit enforce_precision precision none = false
exceeds_limit enforce_precision precision (some value) =
    enforce_precision && exceeds precision value

unfoldable pub decimal_row : Bool → ℕ → ℕ → Option ℤ → Bytes → Outcome EncodeError Bytes
decimal_row enforce_precision precision row value out =
    if exceeds_limit enforce_precision precision value
    then err (invalid_value row "decimal value exceeds its declared precision")
    else narrow (backing_width precision) row value out

unfoldable pub encode_decimal : List (Option ℤ) → ℕ → Bool → Bytes → Outcome EncodeError Bytes
encode_decimal values precision enforce_precision out =
    if not (leb 1 precision && leb precision 38)
    then err (invalid_value 0 "decimal precision must be 1..=38")
    else each_row (decimal_row enforce_precision precision) 0 values out
