-- ===== src/Encode/Plains.antt =====
-- `encode_primitive`, `copy_native_with_nulls`, `encode_bool`, `encode_oid` and `encode_uuid`.
use adbc_driver_monetdb.Prelude.{
  ℕ, suc, ◌+◌, ◌*◌, ◌^◌, Bool, true, false, Option, none, some, List, [], ◌∷◌, ◌++◌, map, leb, ◌==◌,
  if◌then◌else◌, Bytes, le_bytes, write_at, length, replicate, Outcome, ok, err,
}
use adbc_driver_monetdb.Encode.Error.{EncodeError, invalid_value}
use adbc_driver_monetdb.Encode.Fixed.{each_row}
use adbc_driver_monetdb.Decode.Plains.{all_zero}

-- The first row whose value is the sentinel.
unfoldable pub collision : ℕ → ℕ → List (Option ℕ) → Option ℕ
collision null row [] = none
collision null row (none ∷ values) = collision null (row + 1) values
collision null row (some value ∷ values) =
    let later = collision null (row + 1) values in if value == null then some row else later

-- The values as they are in memory. What stands there for a NULL is overwritten; 0 is put for it.
unfoldable pub native_values : ℕ → List (Option ℕ) → Bytes
native_values width [] = []
native_values width (none ∷ values) = le_bytes width 0 ++ native_values width values
native_values width (some value ∷ values) = le_bytes width value ++ native_values width values

unfoldable pub null_count : List (Option ℕ) → ℕ
null_count [] = 0
null_count (none ∷ values) = suc (null_count values)
null_count (some value ∷ values) = null_count values

-- The loop over the rows, from a row on.
unfoldable pub write_nulls : ℕ → Bytes → ℕ → ℕ → List (Option ℕ) → Bytes → Bytes
write_nulls width null start row [] out = out
write_nulls width null start row (none ∷ values) out =
    write_nulls width null start (row + 1) values (write_at (start + row * width) null out)
write_nulls width null start row (some value ∷ values) out =
    write_nulls width null start (row + 1) values out

unfoldable pub copy_native_with_nulls : ℕ → ℕ → List (Option ℕ) → Bytes → Bytes
copy_native_with_nulls width null values out =
    let copied = out ++ native_values width values in
    if null_count values == 0
    then copied
    else write_nulls width (le_bytes width null) (length out) 0 values copied

unfoldable pub encode_primitive : ℕ → ℕ → List (Option ℕ) → Bytes → Outcome EncodeError Bytes
encode_primitive width null values out = elim (collision null 0 values) [
  | some row ↦ err (invalid_value row "value collides with MonetDB's NULL sentinel")
  | none ↦ ok (copy_native_with_nulls width null values out)
]

unfoldable pub bool_byte : Option Bool → ℕ
bool_byte none = 0x80
bool_byte (some true) = 1
bool_byte (some false) = 0

unfoldable pub encode_bool : List (Option Bool) → Bytes → Bytes
encode_bool values out = out ++ map bool_byte values

unfoldable pub oid_row : ℕ → Option ℕ → Bytes → Outcome EncodeError Bytes
oid_row row none out = ok (out ++ le_bytes 8 (2 ^ 63))
oid_row row (some value) out =
    if leb (2 ^ 63) value
    then err (invalid_value row "OID is outside MonetDB's non-NULL range")
    else ok (out ++ le_bytes 8 value)

unfoldable pub encode_oid : List (Option ℕ) → Bytes → Outcome EncodeError Bytes
encode_oid values out = each_row oid_row 0 values out

unfoldable pub uuid_row : ℕ → Option Bytes → Bytes → Outcome EncodeError Bytes
uuid_row row none out = ok (out ++ replicate 16 0)
uuid_row row (some value) out =
    if all_zero value
    then err (invalid_value row "all-zero UUID is MonetDB's NULL sentinel")
    else ok (out ++ value)

unfoldable pub encode_uuid : List (Option Bytes) → Bytes → Outcome EncodeError Bytes
encode_uuid values out = each_row uuid_row 0 values out
