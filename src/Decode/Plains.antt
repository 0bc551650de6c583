-- ===== src/Decode/Plains.antt =====
-- `decode_primitive`, `decode_bool`, `decode_uuid` and the IPv4 addresses of `decode_inet`. A value of
-- a primitive array is its bits.
use adbc_driver_monetdb.Prelude.{
  ℕ, ◌+◌, ◌/◌, ◌%◌, Bool, true, not, ◌&&◌, Option, none, some, List, [], ◌∷◌, ◌++◌, map, ltb, leb,
  ◌==◌, if◌then◌else◌, Bytes, saturating_mul, le_value, length, half_range, Outcome, ◌>>=◌, ok, err,
}
use adbc_driver_monetdb.Decode.Error.{DecodeError, invalid_value, invalid_column}
use adbc_driver_monetdb.Decode.Fixed.{decode_fixed, expect_fixed, each_chunk}

-- One value of `decode_primitive`, with the test for NULL of the column's type.
unfoldable pub primitive_value : (ℕ → Bool) → ℕ → Bytes → Outcome DecodeError (Option ℕ)
primitive_value is_null row chunk =
    let value = le_value chunk in ok (if is_null value then none else some value)

unfoldable pub decode_primitive : ℕ → (ℕ → Bool) → Bytes → ℕ → Outcome DecodeError (List (Option ℕ))
decode_primitive width is_null bytes rows = decode_fixed (primitive_value is_null) width bytes rows

-- The bits of `MIN` of a signed integer, which stand for NULL; those of an OID are the same.
abbrev pub is_min_bits : ℕ → ℕ → Bool
is_min_bits width value = value == half_range width

abbrev pub is_invalid_bool : ℕ → Bool
is_invalid_bool b = ltb 1 b && not (b == 0x80)

-- The row of the first byte that is no boolean.
unfoldable pub first_invalid : ℕ → Bytes → Option ℕ
first_invalid row [] = none
first_invalid row (b ∷ bs) =
    let later = first_invalid (row + 1) bs in if is_invalid_bool b then some row else later

unfoldable pub bool_value : ℕ → Option Bool
bool_value b = if b == 0x80 then none else some (b == 1)

unfoldable pub decode_bool : Bytes → ℕ → Outcome DecodeError (List (Option Bool))
decode_bool bytes rows = do
  _ ← expect_fixed bytes rows 1
  elim (first_invalid 0 bytes) [
    | some row ↦ err (invalid_value row "boolean is not 0, 1, or the NULL sentinel 0x80")
    | none ↦ ok (map bool_value bytes)
  ]

abbrev pub all_zero : Bytes → Bool
all_zero [] = true
all_zero (b ∷ bs) = b == 0 && all_zero bs

unfoldable pub uuid_value : ℕ → Bytes → Outcome DecodeError (Option Bytes)
uuid_value row chunk = ok (if all_zero chunk then none else some chunk)

unfoldable pub decode_uuid : Bytes → ℕ → Outcome DecodeError (List (Option Bytes))
decode_uuid bytes rows = decode_fixed uuid_value 16 bytes rows

-- The decimal digits of a byte.
unfoldable pub push_u8_decimal : Bytes → ℕ → Bytes
push_u8_decimal out value =
    out
    ++ (if leb 100 value then (b'0' + value / 100) ∷ [] else [])
    ++ (if leb 10 value then (b'0' + value / 10 % 10) ∷ [] else [])
    ++ ((b'0' + value % 10) ∷ [])

-- The width that the length of the column tells.
unfoldable pub inet_width : Bytes → ℕ → Outcome DecodeError ℕ
inet_width bytes rows =
    if length bytes == saturating_mul rows 4
    then ok 4
    else if length bytes == saturating_mul rows 16
    then ok 16
    else err (invalid_column "INET column length is neither 4 nor 16 bytes per row")

-- The text of an IPv4 address.
unfoldable pub inet4_text : Bytes → Bytes
inet4_text (a ∷ b ∷ c ∷ d ∷ []) =
    push_u8_decimal
      (push_u8_decimal (push_u8_decimal (push_u8_decimal [] a ++ b'.' ∷ []) b ++ b'.' ∷ []) c
        ++ b'.' ∷ [])
      d
inet4_text _ = []

-- `inet6_text` is the text that `Ipv6Addr` has.
module _ (inet6_text : Bytes → Bytes) where
  unfoldable pub inet_value : ℕ → ℕ → Bytes → Outcome DecodeError (Option Bytes)
  inet_value width row chunk = ok (
      if all_zero chunk
      then none
      else some (if width == 4 then inet4_text chunk else inet6_text chunk))

  unfoldable pub decode_inet : Bytes → ℕ → Outcome DecodeError (List (Option Bytes))
  decode_inet bytes rows = do
    width ← inet_width bytes rows
    each_chunk (inet_value width) width 0 rows bytes
