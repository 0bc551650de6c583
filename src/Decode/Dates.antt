-- ===== src/Decode/Dates.antt =====
-- `valid_ymd`, `days_from_civil`, `date_value`, `decode_date`, `decode_time` and `decode_timestamp`.
-- The arithmetic on `i32` and `i64` is that of integers: a year has 16 bits.
use adbc_driver_monetdb.Prelude.{
  ℕ, suc, ◌+◌, ◌-◌, ◌*◌, ◌/◌, ◌%◌, ◌^◌, Bool, false, not, ◌&&◌, ◌||◌, Option, none, some, List, [],
  ◌∷◌, ltb, leb, ◌==◌, if◌then◌else◌, Bytes, le_value, get_or, take, drop, ℤ, pos_part, neg_part,
  sub_ℕ, ◌+ℤ◌, ◌-ℤ◌, ltb_ℤ, pos, negsuc, signed, Outcome, ◌>>=◌, ok, err, panic,
}
use adbc_driver_monetdb.Decode.Error.{DecodeError, invalid_value}
use adbc_driver_monetdb.Decode.Fixed.{decode_fixed}
use adbc_driver_monetdb.Decode.Times.{time_value, all_ff}

abbrev pub magnitude : ℤ → ℕ
magnitude a = pos_part a + neg_part a

-- A remainder is zero exactly if that of the magnitude is.
unfoldable pub is_leap : ℤ → Bool
is_leap year =
    (magnitude year % 4 == 0 && not (magnitude year % 100 == 0)) || magnitude year % 400 == 0

abbrev pub days_per_month : List ℕ
days_per_month = 31 ∷ 28 ∷ 31 ∷ 30 ∷ 31 ∷ 30 ∷ 31 ∷ 31 ∷ 30 ∷ 31 ∷ 30 ∷ 31 ∷ []

unfoldable pub last_day : ℤ → ℕ → ℕ
last_day year month = if month == 2 && is_leap year then 29 else get_or days_per_month (month - 1) 0

unfoldable pub valid_ymd : ℤ → ℕ → ℕ → Bool
valid_ymd year month day =
    if not (leb 1 month && leb month 12) || day == 0 then false else leb day (last_day year month)

-- Division of `i32` rounds towards zero.
abbrev pub quot : ℤ → ℕ → ℤ
quot (pos n) k = pos (n / k)
quot (negsuc n) k = sub_ℕ 0 (suc n / k)

abbrev pub scale : ℤ → ℕ → ℤ
scale a k = sub_ℕ (pos_part a * k) (neg_part a * k)

abbrev pub era_of : ℤ → ℤ
era_of year = quot (if ltb_ℤ year (pos 0) then year -ℤ pos 399 else year) 400

-- Of a year that begins in March.
unfoldable pub days_from_march : ℤ → ℕ → ℕ → ℤ
unfolding ◌+ℤ◌ ◌-ℤ◌
days_from_march year shifted_month day =
    let era = era_of year in
    let year_of_era = year -ℤ scale era 400 in
    let day_of_year = (153 * shifted_month + 2) / 5 + day - 1 in
    let day_of_era =
      (scale year_of_era 365 +ℤ quot year_of_era 4) -ℤ quot year_of_era 100 +ℤ pos day_of_year in
    (scale era 146_097 +ℤ day_of_era) -ℤ pos 719_468

unfoldable pub days_from_civil : ℤ → ℕ → ℕ → ℤ
unfolding ◌-ℤ◌
days_from_civil year month day =
    days_from_march (if leb month 2 then year -ℤ pos 1 else year)
      (if ltb 2 month then month - 3 else month + 9) day

-- `i32::try_from`
abbrev pub is_i32 : ℤ → Bool
is_i32 a = ltb (pos_part a) (2 ^ 31) && leb (neg_part a) (2 ^ 31)

-- The year, month and day of a date that is not NULL.
unfoldable pub date_of_parts : ℕ → ℤ → ℕ → ℕ → Outcome DecodeError (Option ℤ)
date_of_parts row year month day =
    let days = days_from_civil year month day in
    if valid_ymd year month day
    then if is_i32 days
      then ok (some days)
      else err (invalid_value row "date is outside Arrow's Date32 range")
    else err (invalid_value row "invalid Gregorian date")

unfoldable pub date_value : ℕ → Bytes → Outcome DecodeError (Option ℤ)
date_value row (day ∷ month ∷ low ∷ high ∷ []) =
    let year = signed 2 (le_value (low ∷ high ∷ [])) in
    let parts = date_of_parts row year month day in
    if month == 0xff
    then if all_ff (day ∷ month ∷ low ∷ high ∷ [])
      then ok none
      else err (invalid_value row "date has a partial NULL sentinel")
    else parts
date_value row _ = panic

unfoldable pub decode_date : Bytes → ℕ → Outcome DecodeError (List (Option ℤ))
decode_date bytes rows = decode_fixed date_value 4 bytes rows

unfoldable pub decode_time : Bytes → ℕ → Outcome DecodeError (List (Option ℕ))
decode_time bytes rows = decode_fixed (λ row chunk. time_value chunk row) 8 bytes rows

unfoldable pub join_timestamp : ℕ → Option ℤ → Option ℕ → Outcome DecodeError (Option ℤ)
unfolding ◌+ℤ◌
join_timestamp row none none = ok none
join_timestamp row (some date) (some time) = ok (some (scale date 86_400_000_000 +ℤ pos time))
join_timestamp row _ _ = err (invalid_value row "timestamp has mismatched date/time NULL sentinels")

unfoldable pub timestamp_value : ℕ → Bytes → Outcome DecodeError (Option ℤ)
timestamp_value row chunk = do
  time ← time_value (take 8 chunk) row
  date ← date_value row (drop 8 chunk)
  join_timestamp row date time

-- The time zone that `utc` puts on the array is left out.
unfoldable pub decode_timestamp : Bytes → ℕ → Outcome DecodeError (List (Option ℤ))
decode_timestamp bytes rows = decode_fixed timestamp_value 12 bytes rows
