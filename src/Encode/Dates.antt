-- ===== src/Encode/Dates.antt =====
-- `append_date`, `append_timestamp` and the encoders of dates, times, timestamps and durations.
-- `date_from_days` is chrono's date of a day number: a year, a month and a day. A value of an array
-- is an integer in the range of its type.
use adbc_driver_monetdb.Prelude.{
  ℕ, ◌+◌, ◌-◌, ◌*◌, ◌/◌, ◌%◌, ◌^◌, Bool, not, ◌&&◌, Option, none, some, List, ◌∷◌, ◌++◌, ltb, leb,
  ◌==◌, if◌then◌else◌, Bytes, le_bytes, replicate, ℤ, pos_part, neg_part, pos, negsuc, half_range,
  bits, Outcome, ◌>>=◌, ok_or, ok, err,
}
use adbc_driver_monetdb.Encode.Error.{EncodeError, invalid_value}
use adbc_driver_monetdb.Encode.Fixed.{each_row}
use adbc_driver_monetdb.Encode.Times.{append_time}
use adbc_driver_monetdb.Decode.Dates.{scale, quot}

pub data TimeUnit : Type 0 where
  second millisecond microsecond nanosecond : TimeUnit

-- A loop whose NULL rows are bytes of ones.
unfoldable pub or_ones :
    {A : Type 0}
    → ℕ
    → (ℕ → A → Bytes → Outcome EncodeError Bytes)
    → ℕ
    → Option A
    → Bytes
    → Outcome EncodeError Bytes
or_ones width append row none out = ok (out ++ replicate width 0xff)
or_ones width append row (some value) out = append row value out

unfoldable pub date_bytes : ℕ → ℤ → ℕ → ℕ → Bytes → Outcome EncodeError Bytes
date_bytes row year month day out =
    if ltb 4_712 (neg_part year)
    then err (invalid_value row "date is earlier than MonetDB's minimum year -4712")
    else if leb (2 ^ 15) (pos_part year)
    then err (invalid_value row "date year is outside MonetDB's range")
    else ok (out ++ (day % 256 ∷ month % 256 ∷ le_bytes 2 (bits 2 year)))

-- `checked_mul` and the division of `i64`, which rounds towards zero, with its remainder.
abbrev pub checked_mul_i64 : ℤ → ℕ → Option ℤ
checked_mul_i64 a k =
    if ltb (pos_part a * k) (2 ^ 63) && leb (neg_part a * k) (2 ^ 63)
    then some (scale a k)
    else none

abbrev pub is_multiple : ℤ → ℕ → Bool
is_multiple a k = (pos_part a + neg_part a) % k == 0

-- `rem_euclid` and `div_euclid`.
abbrev pub rem_euclid : ℤ → ℕ → ℕ
rem_euclid (pos n) k = n % k
rem_euclid (negsuc n) k = k - 1 - n % k

abbrev pub div_euclid : ℤ → ℕ → ℤ
div_euclid (pos n) k = pos (n / k)
div_euclid (negsuc n) k = negsuc (n / k)

unfoldable pub time_row : ℕ → ℕ → ℤ → Bytes → Outcome EncodeError Bytes
time_row factor row value out = append_time (scale value factor) row out

-- Nanoseconds have no factor: they must be whole microseconds.
unfoldable pub time_nanos_row : ℕ → ℤ → Bytes → Outcome EncodeError Bytes
time_nanos_row row value out =
    if is_multiple value 1_000
    then append_time (quot value 1_000) row out
    else err (invalid_value row "time is not microsecond-aligned")

unfoldable pub encode_time : TimeUnit → List (Option ℤ) → Bytes → Outcome EncodeError Bytes
encode_time second values out = each_row (or_ones 8 (time_row 1_000_000)) 0 values out
encode_time millisecond values out = each_row (or_ones 8 (time_row 1_000)) 0 values out
encode_time microsecond values out = each_row (or_ones 8 (time_row 1)) 0 values out
encode_time nanosecond values out = each_row (or_ones 8 time_nanos_row) 0 values out

-- A duration in milliseconds that is not NULL.
unfoldable pub duration_value : ℕ → Bool → ℤ → Outcome EncodeError ℤ
duration_value row require_whole_days value =
    if neg_part value == 2 ^ 63
    then err (invalid_value row "duration collides with MonetDB's NULL sentinel")
    else if require_whole_days && not (is_multiple value 86_400_000)
    then err (invalid_value row "INTERVAL DAY value is not a whole day")
    else ok value

unfoldable pub duration_row : ℕ → ℕ → Bool → ℕ → Option ℤ → Bytes → Outcome EncodeError Bytes
duration_row multiplier divisor whole row none out = ok (out ++ le_bytes 8 (half_range 8))
duration_row multiplier divisor whole row (some value) out =
    if not (is_multiple value divisor)
    then err (invalid_value row "duration is not millisecond-aligned")
    else (do
      product ←
          ok_or (checked_mul_i64 (quot value divisor) multiplier)
            (invalid_value row "duration overflows milliseconds")
      millis ← duration_value row whole product
      ok (out ++ le_bytes 8 (bits 8 millis)))

unfoldable pub encode_duration :
    TimeUnit → Bool → List (Option ℤ) → Bytes → Outcome EncodeError Bytes
encode_duration second whole values out = each_row (duration_row 1_000 1 whole) 0 values out
encode_duration millisecond whole values out = each_row (duration_row 1 1 whole) 0 values out
encode_duration microsecond whole values out = each_row (duration_row 1 1_000 whole) 0 values out
encode_duration nanosecond whole values out = each_row (duration_row 1 1_000_000 whole) 0 values out

module _ (date_from_days : ℤ → Option (ℤ × ℕ × ℕ)) where
  unfoldable pub append_date : ℕ → ℤ → Bytes → Outcome EncodeError Bytes
  append_date row days out = elim (date_from_days days) [
    | none ↦ err (invalid_value row "date is outside chrono's range")
    | some date ↦ date_bytes row date.0 date.1 date.2 out
  ]

  unfoldable pub encode_date32 : List (Option ℤ) → Bytes → Outcome EncodeError Bytes
  encode_date32 values out = each_row (or_ones 4 append_date) 0 values out

  unfoldable pub date64_row : ℕ → ℤ → Bytes → Outcome EncodeError Bytes
  date64_row row value out =
      if is_multiple value 86_400_000
      then append_date row (quot value 86_400_000) out
      else err (invalid_value row "Date64 is not a whole day")

  unfoldable pub encode_date64 : List (Option ℤ) → Bytes → Outcome EncodeError Bytes
  encode_date64 values out = each_row (or_ones 4 date64_row) 0 values out

  unfoldable pub append_timestamp : ℕ → ℤ → Bytes → Outcome EncodeError Bytes
  append_timestamp row micros out = do
    timed ← append_time (pos (rem_euclid micros 86_400_000_000)) row out
    append_date row (div_euclid micros 86_400_000_000) timed

  unfoldable pub timestamp_row : ℕ → ℕ → ℤ → Bytes → Outcome EncodeError Bytes
  timestamp_row factor row value out = do
    micros ←
        ok_or (checked_mul_i64 value factor) (invalid_value row "timestamp overflows microseconds")
    append_timestamp row micros out

  unfoldable pub timestamp_nanos_row : ℕ → ℤ → Bytes → Outcome EncodeError Bytes
  timestamp_nanos_row row value out =
      if is_multiple value 1_000
      then append_timestamp row (quot value 1_000) out
      else err (invalid_value row "timestamp is not microsecond-aligned")

  unfoldable pub encode_timestamp : TimeUnit → List (Option ℤ) → Bytes → Outcome EncodeError Bytes
  encode_timestamp second values out = each_row (or_ones 12 (timestamp_row 1_000_000)) 0 values out
  encode_timestamp millisecond values out = each_row (or_ones 12 (timestamp_row 1_000)) 0 values out
  encode_timestamp microsecond values out = each_row (or_ones 12 (timestamp_row 1)) 0 values out
  encode_timestamp nanosecond values out = each_row (or_ones 12 timestamp_nanos_row) 0 values out
