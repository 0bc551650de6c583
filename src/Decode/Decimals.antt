-- ===== src/Decode/Decimals.antt =====
-- `decode_decimal` and `validate_decimal_values`: unscaled values as integers of the width that the
-- precision asks for.
use adbc_driver_monetdb.Prelude.{
  ℕ, ◌^◌, Bool, not, ◌&&◌, ◌||◌, Option, none, some, List, ltb, leb, ◌==◌, if◌then◌else◌, Bytes,
  le_value, ℤ, pos_part, neg_part, half_range, signed, Outcome, ok, err,
}
use adbc_driver_monetdb.Decode.Error.{DecodeError, invalid_column, invalid_value}
use adbc_driver_monetdb.Decode.Fixed.{decode_fixed}

-- The `match precision` behind the check of the precision.
unfoldable pub backing_width : ℕ → ℕ
backing_width precision =
    if leb precision 2
    then 1
    else if leb precision 4
    then 2
    else if leb precision 9
    then 4
    else if leb precision 18
    then 8
    else 16

-- `value <= -limit || value >= limit`
abbrev pub exceeds : ℕ → ℤ → Bool
exceeds precision value =
    leb (10 ^ precision) (neg_part value) || leb (10 ^ precision) (pos_part value)

-- `value == <$wire>::MIN`
abbrev pub is_min : ℕ → ℤ → Bool
is_min width value = neg_part value == half_range width

unfoldable pub decimal_value : ℕ → Bool → ℕ → ℕ → Bytes → Outcome DecodeError (Option ℤ)
decimal_value precision hugeint width row chunk =
    let value = signed width (le_value chunk) in
    if is_min width value
    then ok none
    else if exceeds precision value
    then err (
        invalid_value row (
          if hugeint
          then "HUGEINT exceeds Arrow Decimal128's supported 38-digit range"
          else "decimal value exceeds its declared precision"))
    else ok (some value)

-- The scale is not negative in an `i8` that `decimal_scale` made.
unfoldable pub decode_decimal : Bytes → ℕ → ℕ → ℤ → Bool → Outcome DecodeError (List (Option ℤ))
decode_decimal bytes rows precision scale hugeint =
    let width = if hugeint then 16 else backing_width precision in
    if not (leb 1 precision && leb precision 38)
      || ltb 0 (neg_part scale)
      || ltb precision (pos_part scale)
    then err (
        invalid_column
          "decimal precision/scale must satisfy 1 <= precision <= 38 and 0 <= scale <= precision")
    else decode_fixed (decimal_value precision hugeint width) width bytes rows
