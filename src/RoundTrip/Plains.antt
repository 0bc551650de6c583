-- ===== src/RoundTrip/Plains.antt =====
-- Integers, OIDs, booleans and UUIDs.
use adbc_driver_monetdb.Prelude.{
  ℕ, ◌+◌, ◌*◌, ◌^◌, ◌<◌, ◌≡◌, refl, sym, ap, ◌∙◌, inl, inr, Bool, true, false, Option, none, some,
  List, [], ◌∷◌, ◌++◌, map, append-nil, append_assoc, arith, leb, ◌==◌, if◌then◌else◌, Bool-cases,
  Option-cases, Bytes, All, le_bytes, length-le_bytes, length, replicate, length-map, byte_power,
  le_value-le_bytes, half_range, Outcome, ok, err,
}
use adbc_driver_monetdb.Decode.Error.{invalid_value}
use adbc_driver_monetdb.Encode.Error.{EncodeError, invalid_value}
use adbc_driver_monetdb.Encode.Fixed.{each_row}
use adbc_driver_monetdb.Decode.Plains.{
  primitive_value, decode_primitive, is_min_bits, is_invalid_bool, first_invalid, bool_value,
  decode_bool, all_zero, uuid_value, decode_uuid,
}
use adbc_driver_monetdb.Encode.Plains.{
  collision, copy_native_with_nulls, encode_primitive, bool_byte, encode_bool, oid_row, encode_oid,
  uuid_row, encode_uuid,
}
use adbc_driver_monetdb.RoundTrip.Fixed.{IsCodec, decode_fixed-each_row, expect_fixed-ok}
use adbc_driver_monetdb.RoundTrip.Native.{rows_of, copy_native-rows}

-- A value of a primitive array of a width is below the number of values.
abbrev pub IsBelow : ℕ → Option ℕ → Type 0
IsBelow width none = Unit
IsBelow width (some value) = value < byte_power width

-- `encode_primitive` as a loop in which each row makes its own test.
abbrev primitive_row : ℕ → ℕ → ℕ → Option ℕ → Bytes → Outcome EncodeError Bytes
primitive_row width null row none out = ok (out ++ le_bytes width null)
primitive_row width null row (some value) out =
    if value == null then err (invalid_value row "") else ok (out ++ le_bytes width value)

each_row-rows :
    (width null row : ℕ) (values : List (Option ℕ)) (out : Bytes)
    → collision null row values ≡ none
    → each_row (primitive_row width null) row values out ≡ ok (out ++ rows_of width null values)
unfolding each_row collision
each_row-rows width null row [] out h = ap ok (sym (append-nil out))
each_row-rows width null row (none ∷ values) out h =
    each_row-rows width null (row + 1) values (out ++ le_bytes width null) h
    ∙ ap ok (append_assoc out (le_bytes width null) (rows_of width null values))
each_row-rows width null row (some value ∷ values) out h = elim (Bool-cases (value == null)) [
  | inl same ↦ absurd (let h' = rw (collision, same) at h in cc)
  | inr other_value ↦ rw other_value (
      each_row-rows width null (row + 1) values (out ++ le_bytes width value)
        (rw (collision, other_value) at h)
      ∙ ap ok (append_assoc out (le_bytes width value) (rows_of width null values)))
]

copy-each_row :
    (width null row : ℕ) (values : List (Option ℕ)) (out : Bytes)
    → collision null row values ≡ none
    → each_row (primitive_row width null) row values out
      ≡ ok (copy_native_with_nulls width null values out)
copy-each_row width null row values out h =
    each_row-rows width null row values out h ∙ ap ok (sym (copy_native-rows width null values out))

module _ (width null : ℕ) (null_below : null < byte_power width) where
  primitive-IsCodec :
      IsCodec (IsBelow width) (primitive_row width null) (primitive_value (λ v. v == null)) width
  unfolding primitive_value
  primitive-IsCodec row row' none out out' g h =
      let e = le_value-le_bytes width null null_below in
      let t : (null == null) ≡ true = ground arith in
      (
        le_bytes width null,
        (let o : out ++ le_bytes width null ≡ out' = cc in sym o),
        length-le_bytes width null,
        rw (e, t),
      )
  primitive-IsCodec row row' (some value) out out' g h =
      let e = le_value-le_bytes width value g in
      elim (Bool-cases (value == null)) [
        | inl same ↦ absurd (let h' = rw same at h in cc)
        | inr differs ↦
            let h' = rw differs at h in
            (
              le_bytes width value,
              (let o : out ++ le_bytes width value ≡ out' = cc in sym o),
              length-le_bytes width value,
              rw (e, differs),
            )
      ]

  -- A column of integers of a width that `encode_primitive` accepts is read back as it was.
  pub decode_primitive-encode_primitive :
      (values : List (Option ℕ)) (bytes : Bytes)
      → All (IsBelow width) values
      → length values * width < 2 ^ 64
      → encode_primitive width null values [] ≡ ok bytes
      → decode_primitive width (λ v. v == null) bytes (length values) ≡ ok values
  unfolding decode_primitive encode_primitive
  decode_primitive-encode_primitive values bytes g small h =
      elim (Option-cases (collision null 0 values)) [
        | inr (row, c) ↦ absurd (let h' = rw (encode_primitive, c) at h in cc)
        | inl c ↦
            decode_fixed-each_row (IsBelow width) (primitive_row width null)
              (primitive_value (λ v. v == null)) width primitive-IsCodec values bytes g small
              (copy-each_row width null 0 values [] c ∙ (rw (encode_primitive, c) at h))
      ]

abbrev AnyOid : Option ℕ → Type 0
AnyOid v = Unit

AnyOid-All : (oids : List (Option ℕ)) → All AnyOid oids
AnyOid-All [] = tt
AnyOid-All (v ∷ vs) = (tt, AnyOid-All vs)

oid_null_lt : 2 ^ 63 < byte_power 8
oid_null_lt = omega arith

oid-IsCodec : IsCodec AnyOid oid_row (primitive_value (is_min_bits 8)) 8
unfolding oid_row primitive_value
oid-IsCodec row row' none out out' g h =
    let e = le_value-le_bytes 8 (2 ^ 63) oid_null_lt in
    (
      le_bytes 8 (2 ^ 63),
      (let o : out ++ le_bytes 8 (2 ^ 63) ≡ out' = cc in sym o),
      length-le_bytes 8 _,
      rw e,
    )
oid-IsCodec row row' (some value) out out' g h = elim (Bool-cases (leb (2 ^ 63) value)) [
  | inl high ↦ absurd (let h' = rw high at h in cc)
  | inr low ↦
      let h' = rw low at h in
      let e = le_value-le_bytes 8 value (ground arith) in
      let n : (value == half_range 8) ≡ false = ground arith in
      (
        le_bytes 8 value,
        (let o : out ++ le_bytes 8 value ≡ out' = cc in sym o),
        length-le_bytes 8 value,
        rw (e, n),
      )
]

abbrev pub IsUuid : Option Bytes → Type 0
IsUuid none = Unit
IsUuid (some value) = length value ≡ 16

uuid_row-IsCodec : IsCodec IsUuid uuid_row uuid_value 16
unfolding uuid_row uuid_value
uuid_row-IsCodec row row' none out out' g h =
    (replicate 16 0, (let o : out ++ replicate 16 0 ≡ out' = cc in sym o), refl, refl)
uuid_row-IsCodec row row' (some value) out out' g h = elim (Bool-cases (all_zero value)) [
  | inl zeros ↦ absurd (let h' = rw zeros at h in cc)
  | inr some_bit ↦
      let h' = rw some_bit at h in
      (value, (let o : out ++ value ≡ out' = cc in sym o), g, rw some_bit)
]

-- A column of OIDs that `encode_oid` accepts, and one of UUIDs of 16 bytes that `encode_uuid` accepts,
-- are read back as they were.
pub decode_uuid-encode_uuid :
    (values : List (Option Bytes)) (oids : List (Option ℕ)) (bytes oid_bytes : Bytes)
    → All IsUuid values
    → length values * 16 < 2 ^ 64
    → length oids * 8 < 2 ^ 64
    → encode_uuid values [] ≡ ok bytes
    → encode_oid oids [] ≡ ok oid_bytes
    → (decode_uuid bytes (length values) ≡ ok values)
      × (decode_primitive 8 (is_min_bits 8) oid_bytes (length oids) ≡ ok oids)
unfolding decode_uuid encode_uuid decode_primitive encode_oid
decode_uuid-encode_uuid values oids bytes oid_bytes g small small' h h' = (
  decode_fixed-each_row IsUuid uuid_row uuid_value 16 uuid_row-IsCodec values bytes g small h,
  decode_fixed-each_row AnyOid oid_row (primitive_value (is_min_bits 8)) 8 oid-IsCodec oids
      oid_bytes (AnyOid-All oids) small' h',
)

bool_byte-valid :
    (v : Option Bool) → (is_invalid_bool (bool_byte v) ≡ false) × (bool_value (bool_byte v) ≡ v)
unfolding bool_byte bool_value
bool_byte-valid none = (refl, refl)
bool_byte-valid (some true) = (refl, refl)
bool_byte-valid (some false) = (refl, refl)

first_invalid-bool_byte :
    (row : ℕ) (values : List (Option Bool)) → first_invalid row (map bool_byte values) ≡ none
unfolding first_invalid
first_invalid-bool_byte row [] = refl
first_invalid-bool_byte row (v ∷ vs) =
    rw ((bool_byte-valid v).0, first_invalid-bool_byte (row + 1) vs)

bool_value-bool_byte :
    (values : List (Option Bool)) → map bool_value (map bool_byte values) ≡ values
bool_value-bool_byte [] = refl
bool_value-bool_byte (v ∷ vs) = rw ((bool_byte-valid v).1, bool_value-bool_byte vs)

-- Every column of booleans is read back from its bytes.
pub decode_bool-encode_bool :
    (values : List (Option Bool))
    → length values < 2 ^ 64
    → decode_bool (encode_bool values []) (length values) ≡ ok values
unfolding decode_bool encode_bool
decode_bool-encode_bool values small =
    let n : length (map bool_byte values) ≡ length values * 1 =
      length-map values bool_byte ∙ omega arith in
    rw (
      expect_fixed-ok (map bool_byte values) (length values) 1 n (omega arith),
      first_invalid-bool_byte 0 values,
      bool_value-bool_byte values,
    )
