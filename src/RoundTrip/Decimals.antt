-- ===== src/RoundTrip/Decimals.antt =====
-- `decode_decimal` against `encode_decimal`.
use adbc_driver_monetdb.Prelude.{
  ℕ, zero, suc, ◌+◌, ◌*◌, ◌^◌, ◌≤◌, ◌<◌, ◌≡◌, sym, inl, inr, Bool, true, false, ◌&&◌, Option, none,
  some, List, [], ◌∷◌, ◌++◌, arith, ltb, leb, Bool-cases, Bytes, All, le_bytes, length-le_bytes,
  length, ℤ, neg_part, pos, byte_power, le_value-le_bytes, half_range, signed, bits, IsSigned,
  signed-bits, bits-lt, ok,
}
use adbc_driver_monetdb.Decode.Decimals.{
  backing_width, exceeds, is_min, decimal_value, decode_decimal,
}
use adbc_driver_monetdb.Encode.Decimals.{fits_signed, narrow, decimal_row, encode_decimal}
use adbc_driver_monetdb.RoundTrip.Fixed.{IsCodec, decode_fixed-each_row}

-- No condition on a value.
abbrev IsAny : Option ℤ → Type 0
IsAny v = Unit

All-IsAny : (values : List (Option ℤ)) → All IsAny values
All-IsAny [] = tt
All-IsAny (v ∷ vs) = (tt, All-IsAny vs)

byte_power-pos : (width : ℕ) → 1 ≤ byte_power width
byte_power-pos zero = omega arith
byte_power-pos (suc k) = omega (arith, byte_power-pos k)

half_range-pos :
    (width : ℕ)
    → 1 ≤ width
    → (half_range width + half_range width ≡ byte_power width) × (1 ≤ half_range width)
half_range-pos zero h = absurd (omega arith)
half_range-pos (suc k) h = let p = byte_power-pos k in (omega arith, omega (arith, p))

fits→IsSigned : (width : ℕ) (a : ℤ) → fits_signed width a ≡ true → IsSigned width a
fits→IsSigned width a h = ground arith

signed-half :
    (width : ℕ) → 1 ≤ width → neg_part (signed width (half_range width)) ≡ half_range width
signed-half width h =
    let (twice, positive) = half_range-pos width h in
    let least : ltb (half_range width) (half_range width) ≡ false = ground arith in
    rw (least) (omega (arith, twice, positive))

backing_width-pos : (precision : ℕ) → 1 ≤ backing_width precision
unfolding backing_width
backing_width-pos precision = ground arith

module _ (precision : ℕ) (hugeint : Bool) where
  abbrev width : ℕ
  width = backing_width precision

  value_back :
      (row : ℕ) (value : ℤ)
      → exceeds precision value ≡ false
      → fits_signed width value ≡ true
      → is_min width value ≡ false
      → decimal_value precision hugeint width row (le_bytes width (bits width value))
        ≡ ok (some value)
  unfolding decimal_value
  value_back row value ex fits m =
      let s = fits→IsSigned width value fits in
      let e = le_value-le_bytes width (bits width value) (bits-lt width value s) in
      rw (e, signed-bits width value s, m, ex)

  null_back :
      (row : ℕ)
      → decimal_value precision hugeint width row (le_bytes width (half_range width)) ≡ ok none
  unfolding decimal_value
  null_back row =
      let (twice, positive) = half_range-pos width (backing_width-pos precision) in
      let e = le_value-le_bytes width (half_range width) (omega (arith, twice, positive)) in
      let n = signed-half width (backing_width-pos precision) in
      let m : is_min width (signed width (half_range width)) ≡ true = ground (arith, n) in rw (e, m)

  decimal-IsCodec :
      IsCodec IsAny (decimal_row true precision) (decimal_value precision hugeint width) width
  unfolding decimal_row narrow
  decimal-IsCodec row row' none out out' g h = (
    le_bytes width (half_range width),
    (let e : out ++ le_bytes width (half_range width) ≡ out' = cc in sym e),
    length-le_bytes width _,
    null_back row',
  )
  decimal-IsCodec row row' (some value) out out' g h = elim (Bool-cases (exceeds precision value)) [
    | inl ex ↦ absurd (let h' = rw (decimal_row, ex) at h in cc)
    | inr ex ↦ elim (Bool-cases (fits_signed width value)) [
      | inr no_fit ↦ absurd (let h' = rw (decimal_row, narrow, ex, no_fit) at h in cc)
      | inl fits ↦ elim (Bool-cases (is_min width value)) [
        | inl least ↦ absurd (let h' = rw (decimal_row, narrow, ex, fits, least) at h in cc)
        | inr m ↦
            let h' = rw (decimal_row, narrow, ex, fits, m) at h in
            (
              le_bytes width (bits width value),
              (let e : out ++ le_bytes width (bits width value) ≡ out' = cc in sym e),
              length-le_bytes width _,
              value_back row' value ex fits m,
            )
      ]
    ]
  ]

-- A column of unscaled decimals that `encode_decimal` accepts under its precision is read back by
-- `decode_decimal` as it was, NULL and negative values included.
pub decode_decimal-encode_decimal :
    (values : List (Option ℤ)) (precision scale : ℕ) (bytes : Bytes)
    → scale ≤ precision
    → length values * backing_width precision < 2 ^ 64
    → encode_decimal values precision true [] ≡ ok bytes
    → decode_decimal bytes (length values) precision (pos scale) false ≡ ok values
unfolding decode_decimal encode_decimal
decode_decimal-encode_decimal values precision scale bytes hs small h =
    elim (Bool-cases (leb 1 precision && leb precision 38)) [
      | inr out_of_range ↦ absurd (let h' = rw (encode_decimal, out_of_range) at h in cc)
      | inl in_range ↦
          let h' = rw (encode_decimal, in_range) at h in
          let fits : ltb precision scale ≡ false = ground arith in
          rw (decode_decimal, in_range, fits)
            (decode_fixed-each_row IsAny (decimal_row true precision)
              (decimal_value precision false (backing_width precision)) (backing_width precision)
              (decimal-IsCodec precision false) values bytes (All-IsAny values) small h')
    ]
