-- ===== src/RoundTrip/Timestamps.antt =====
-- Columns of timestamps.
use adbc_driver_monetdb.Prelude.{
  ℕ, ◌+◌, ◌*◌, ◌^◌, ◌<◌, ◌≡◌, refl, sym, ap, ◌∙◌, true, Option, none, some, List, [], ◌++◌,
  append_assoc, arith, Bytes, All, le_value, le_bytes, length, length-append, take, drop, replicate,
  take-length_append, drop-length_append, ℤ, ◌+ℤ◌, IsI64, pos, negsuc, ok,
}
use mathlib.Core.Path.{subst}
use adbc_driver_monetdb.Decode.Dates.{
  date_value, scale, is_i32, join_timestamp, timestamp_value, decode_timestamp,
}
use adbc_driver_monetdb.Decode.Times.{time_value}
use adbc_driver_monetdb.Encode.Dates.{
  or_ones, checked_mul_i64, rem_euclid, div_euclid, append_timestamp, timestamp_row,
  encode_timestamp, microsecond,
}
use adbc_driver_monetdb.RoundTrip.Times.{time_bytes, append_time_lem, time_value_lem}
use adbc_driver_monetdb.RoundTrip.Days.{IsCalendar, Civil}
use adbc_driver_monetdb.RoundTrip.Dates.{append_date-read}
use adbc_driver_monetdb.RoundTrip.Fixed.{IsCodec, decode_fixed-each_row}

-- A value of a timestamp array.
abbrev pub IsTimestamp : Option ℤ → Type 0
IsTimestamp none = Unit
IsTimestamp (some micros) = IsI64 micros

length-time_bytes : (micros : ℕ) → length (time_bytes micros) ≡ 8
unfolding le_bytes
length-time_bytes micros = refl

split_chunk :
    (front back : Bytes)
    → length front ≡ 8
    → (take 8 (front ++ back) ≡ front) × (drop 8 (front ++ back) ≡ back)
split_chunk front back n = (
  subst (λ k. take k (front ++ back) ≡ front) n (take-length_append front back),
  subst (λ k. drop k (front ++ back) ≡ back) n (drop-length_append front back),
)

rem_euclid-lt : (micros : ℤ) → rem_euclid micros 86_400_000_000 < 86_400_000_000
rem_euclid-lt (pos n) = omega arith
rem_euclid-lt (negsuc n) = omega arith

div_euclid-is_i32 : (micros : ℤ) → IsI64 micros → is_i32 (div_euclid micros 86_400_000_000) ≡ true
div_euclid-is_i32 (pos n) h = ground arith
div_euclid-is_i32 (negsuc n) h = ground arith

day_and_time :
    (micros : ℤ)
    → scale (div_euclid micros 86_400_000_000) 86_400_000_000
        +ℤ pos (rem_euclid micros 86_400_000_000)
      ≡ micros
unfolding ◌+ℤ◌
day_and_time (pos n) = ground arith
day_and_time (negsuc n) = ground arith

product_one : (a : ℤ) → IsI64 a → checked_mul_i64 a 1 ≡ some a
product_one (pos n) h = ground arith
product_one (negsuc n) h = ground arith

module _ (date_from_days : ℤ → Option Civil) (laws : IsCalendar date_from_days) where
  append_timestamp-read :
      (row row' : ℕ) (micros : ℤ) (out out' : Bytes)
      → IsI64 micros
      → append_timestamp date_from_days row micros out ≡ ok out'
      → (chunk : Bytes) × (out' ≡ out ++ chunk)
        × (length chunk ≡ 12)
        × (timestamp_value row' chunk ≡ ok (some micros))
  unfolding append_timestamp timestamp_value join_timestamp
  append_timestamp-read row row' micros out out' i h =
      let rest = rem_euclid micros 86_400_000_000 in
      let lt = rem_euclid-lt micros in
      let t = append_time_lem rest row out lt in
      let h' = rw t at h in
      let (chunk, m, n, d) =
        append_date-read date_from_days laws row row' (div_euclid micros 86_400_000_000)
          (out ++ time_bytes rest) out' (div_euclid-is_i32 micros i) h' in
      let e8 = length-time_bytes rest in
      let (front, back) = split_chunk (time_bytes rest) chunk e8 in
      (
        time_bytes rest ++ chunk,
        m ∙ append_assoc out (time_bytes rest) chunk,
        length-append (time_bytes rest) chunk
            ∙ ap (λ k. length (time_bytes rest) + k) n
            ∙ ap (λ k. k + 4) e8,
        simp (
          timestamp_value,
          front,
          back,
          time_value_lem rest row' lt,
          d,
          join_timestamp,
          day_and_time micros,
        ),
      )

  timestamp_row-IsCodec :
      IsCodec IsTimestamp (or_ones 12 (timestamp_row date_from_days 1)) timestamp_value 12
  unfolding or_ones timestamp_row timestamp_value time_value date_value le_value join_timestamp
  timestamp_row-IsCodec row row' none out out' g h =
      (replicate 12 0xff, (let o : out ++ replicate 12 0xff ≡ out' = cc in sym o), refl, refl)
  timestamp_row-IsCodec row row' (some micros) out out' g h =
      let c : checked_mul_i64 micros 1 ≡ some micros = product_one micros g in
      append_timestamp-read row row' micros out out' g (rw (timestamp_row, c) at h)

  -- A column of timestamps in microseconds that `encode_timestamp` accepts is read back by
  -- `decode_timestamp` as it was, those before 1970 included, for any `date_from_days` that follows
  -- the calendar.
  pub decode_timestamp-encode_timestamp :
      (values : List (Option ℤ)) (bytes : Bytes)
      → All IsTimestamp values
      → length values * 12 < 2 ^ 64
      → encode_timestamp date_from_days microsecond values [] ≡ ok bytes
      → decode_timestamp bytes (length values) ≡ ok values
  unfolding decode_timestamp encode_timestamp
  decode_timestamp-encode_timestamp values bytes g small h =
      decode_fixed-each_row IsTimestamp (or_ones 12 (timestamp_row date_from_days 1))
        timestamp_value 12 timestamp_row-IsCodec values bytes g small h
