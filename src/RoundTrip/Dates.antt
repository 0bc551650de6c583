-- ===== src/RoundTrip/Dates.antt =====
-- Columns of dates.
use adbc_driver_monetdb.Prelude.{
  ℕ, ◌+◌, ◌*◌, ◌/◌, ◌%◌, ◌^◌, ◌≤◌, ◌<◌, ◌≡◌, refl, sym, ap, ◌∙◌, inl, inr, true, false, Option,
  none, some, List, [], ◌∷◌, ◌++◌, arith, ltb, leb, ◌==◌, Bool-cases, Bytes, All, le_value,
  le_bytes, length-le_bytes, length, replicate, ℤ, pos_part, neg_part, le_value-le_bytes, signed,
  bits, IsSigned, signed-bits, bits-lt, ok,
}
use mathlib.Core.Path.{subst}
use adbc_driver_monetdb.Decode.Dates.{
  date_value, last_day, valid_ymd, days_from_civil, is_i32, date_of_parts, decode_date,
}
use adbc_driver_monetdb.Decode.Calendar.{valid_range}
use adbc_driver_monetdb.Encode.Dates.{append_date, or_ones, date_bytes, encode_date32}
use adbc_driver_monetdb.RoundTrip.Days.{IsCalendar, Civil, day_number-date}
use adbc_driver_monetdb.RoundTrip.Fixed.{IsCodec, decode_fixed-each_row}

-- A value of a Date32 array.
abbrev pub IsDate32 : Option ℤ → Type 0
IsDate32 none = Unit
IsDate32 (some days) = is_i32 days ≡ true

abbrev parts_bytes : ℤ → ℕ → ℕ → Bytes
parts_bytes year month day = day % 256 ∷ month % 256 ∷ le_bytes 2 (bits 2 year)

-- The two bytes of a year of 16 bits.
signed_year :
    (year : ℤ)
    → ltb 4_712 (neg_part year) ≡ false
    → leb (2 ^ 15) (pos_part year) ≡ false
    → signed 2 (le_value (bits 2 year % 256 ∷ bits 2 year / 256 % 256 ∷ [])) ≡ year
unfolding le_value
signed_year year lo hi =
    let s : IsSigned 2 year = (ground arith, ground arith) in
    let e = le_value-le_bytes 2 (bits 2 year) (bits-lt 2 year s) in
    let e' : le_value (bits 2 year % 256 ∷ bits 2 year / 256 % 256 ∷ []) ≡ bits 2 year =
      unfold le_bytes in e in
    rw e' (signed-bits 2 year s)

day_small : (year : ℤ) (month day : ℕ) → valid_ymd year month day ≡ true → day ≤ 31
unfolding valid_ymd last_day
day_small year month day v = ground arith

read_parts :
    (row : ℕ) (year : ℤ) (month day : ℕ)
    → ltb 4_712 (neg_part year) ≡ false
    → leb (2 ^ 15) (pos_part year) ≡ false
    → valid_ymd year month day ≡ true
    → is_i32 (days_from_civil year month day) ≡ true
    → date_value row (parts_bytes year month day) ≡ ok (some (days_from_civil year month day))
unfolding date_value date_of_parts le_bytes
read_parts row year month day lo hi v i =
    let (m1, m12, d1, dl) = valid_range year month day v in
    let b = signed_year year lo hi in
    let d : day % 256 ≡ day = omega (arith, day_small year month day v) in
    let m : month % 256 ≡ month = omega arith in
    let n : (month == 0xff) ≡ false = ground arith in rw (d, m, b, n, v, i)

module _ (date_from_days : ℤ → Option Civil) (laws : IsCalendar date_from_days) where
  -- What `append_date` writes is read back as the day number.
  pub append_date-read :
      (row row' : ℕ) (days : ℤ) (out out' : Bytes)
      → is_i32 days ≡ true
      → append_date date_from_days row days out ≡ ok out'
      → (chunk : Bytes) × (out' ≡ out ++ chunk)
        × (length chunk ≡ 4)
        × (date_value row' chunk ≡ ok (some days))
  unfolding append_date date_bytes le_bytes
  append_date-read row row' days out out' i h = go (date_from_days days) refl
    where
      go :
          (o : Option Civil)
          → date_from_days days ≡ o
          → (chunk : Bytes) × (out' ≡ out ++ chunk)
            × (length chunk ≡ 4)
            × (date_value row' chunk ≡ ok (some days))
      go none e = absurd (let h' = rw (append_date, e) at h in cc)
      go (some (y, m, d)) e =
          let h' = rw (append_date, e) at h in
          elim (Bool-cases (ltb 4_712 (neg_part y))) [
            | inl early ↦ absurd (let h'' = rw (date_bytes, early) at h' in cc)
            | inr lo ↦ elim (Bool-cases (leb (2 ^ 15) (pos_part y))) [
              | inl late ↦ absurd (let h'' = rw (date_bytes, lo, late) at h' in cc)
              | inr hi ↦
                  let h'' = rw (date_bytes, lo, hi) at h' in
                  let number =
                    day_number-date date_from_days laws days (y, m, d) e (ground arith) in
                  let v = laws.valid days (y, m, d) e in
                  (
                    parts_bytes y m d,
                    (let o : out ++ parts_bytes y m d ≡ out' = cc in sym o),
                    ap (λ k. 2 + k) (length-le_bytes 2 (bits 2 y)),
                    read_parts row' y m d lo hi v (subst (λ x. is_i32 x ≡ true) (sym number) i)
                        ∙ ap (λ x. ok (some x)) number,
                  )
            ]
          ]

  date-IsCodec : IsCodec IsDate32 (or_ones 4 (append_date date_from_days)) date_value 4
  unfolding or_ones date_value
  date-IsCodec row row' none out out' g h =
      (replicate 4 0xff, (let o : out ++ replicate 4 0xff ≡ out' = cc in sym o), refl, refl)
  date-IsCodec row row' (some days) out out' g h = append_date-read row row' days out out' g h

  -- A column of dates that `encode_date32` accepts is read back by `decode_date` as it was, for any
  -- `date_from_days` that follows the calendar.
  pub decode_date-encode_date32 :
      (values : List (Option ℤ)) (bytes : Bytes)
      → All IsDate32 values
      → length values * 4 < 2 ^ 64
      → encode_date32 date_from_days values [] ≡ ok bytes
      → decode_date bytes (length values) ≡ ok values
  unfolding decode_date encode_date32
  decode_date-encode_date32 values bytes g small h =
      decode_fixed-each_row IsDate32 (or_ones 4 (append_date date_from_days)) date_value 4
        date-IsCodec values bytes g small h
