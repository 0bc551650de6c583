-- ===== src/Decode/Counted.antt =====
-- The days that `days_from_civil` counts, as natural numbers.
use adbc_driver_monetdb.Prelude.{
  ℕ, zero, suc, ◌+◌, ◌-◌, ◌*◌, ◌/◌, ◌%◌, ◌≤◌, ◌<◌, ◌≡◌, ap, inl, inr, Bool, not, ◌&&◌, ◌||◌, arith,
  ltb, leb, ◌==◌, if◌then◌else◌, Bool-cases, get_or, ℤ, pos_part, neg_part, sub_ℕ, ◌+ℤ◌, ◌-ℤ◌, pos,
  negsuc,
}
use adbc_driver_monetdb.Decode.Dates.{
  era_of, quot, scale, days_from_march, is_leap, days_from_civil, days_per_month, last_day,
}

-- Integers with the same difference of parts are equal.
ℤ-ext : (a b : ℤ) → pos_part a + neg_part b ≡ pos_part b + neg_part a → a ≡ b
ℤ-ext (pos n) (pos m) h = ap pos (omega arith)
ℤ-ext (pos n) (negsuc m) h = absurd (omega arith)
ℤ-ext (negsuc n) (pos m) h = absurd (omega arith)
ℤ-ext (negsuc n) (negsuc m) h = ap negsuc (omega arith)

sub_parts : (a b : ℕ) → (pos_part (sub_ℕ a b) ≡ a - b) × (neg_part (sub_ℕ a b) ≡ b - a)
sub_parts a b = ground arith

-- The days since 32800-03-01 before the epoch of years, of a year that is counted from there.
unfoldable pub days_counted : ℕ → ℕ → ℕ → ℕ
days_counted year shifted_month day =
    year / 400 * 146_097
    + (year % 400) * 365
    + (year % 400) / 4
    - (year % 400) / 100
    + ((153 * shifted_month + 2) / 5 + day - 1)

era_counted : (year : ℕ) → era_of (sub_ℕ year 32_800) ≡ sub_ℕ (year / 400) 82
unfolding ◌-ℤ◌
era_counted year = ground arith

abbrev pub epoch_offset : ℕ
epoch_offset = 82 * 146_097 + 719_468

year_of_era_counted :
    (year : ℕ) → (sub_ℕ year 32_800) -ℤ scale (sub_ℕ (year / 400) 82) 400 ≡ pos (year % 400)
unfolding ◌-ℤ◌
year_of_era_counted year = ground arith

sum_counted :
    (era rest doy : ℕ)
    → (scale (sub_ℕ era 82) 146_097
          +ℤ ((scale (pos rest) 365 +ℤ quot (pos rest) 4) -ℤ quot (pos rest) 100 +ℤ pos doy))
        -ℤ pos 719_468
      ≡ sub_ℕ (era * 146_097 + rest * 365 + rest / 4 - rest / 100 + doy) epoch_offset
unfolding ◌-ℤ◌ ◌+ℤ◌
sum_counted era rest doy = ground arith

days_from_march-counted :
    (year shifted_month day : ℕ)
    → days_from_march (sub_ℕ year 32_800) shifted_month day
      ≡ sub_ℕ (days_counted year shifted_month day) epoch_offset
unfolding days_from_march days_counted
days_from_march-counted year m day =
    rw (days_from_march, era_counted year, year_of_era_counted year)
      (sum_counted (year / 400) (year % 400) ((153 * m + 2) / 5 + day - 1))

abbrev leap_counted : ℕ → Bool
leap_counted year = (year % 4 == 0 && not (year % 100 == 0)) || year % 400 == 0

is_leap-counted : (year : ℕ) → is_leap (sub_ℕ year 32_800) ≡ leap_counted year
unfolding is_leap
is_leap-counted year = ground arith

-- A year that begins in March ends with the February of a leap year or of another.
days_counted-suc :
    (year : ℕ)
    → days_counted (suc year) 0 1
      ≡ days_counted year 11 (if leap_counted (suc year) then 29 else 28) + 1
unfolding days_counted
days_counted-suc year = ground arith

abbrev pub civil_counted : ℕ → ℕ → ℕ → ℕ
civil_counted year month day =
    days_counted (if leb month 2 then year - 1 else year)
      (if ltb 2 month then month - 3 else month + 9) day

previous_year : (year : ℕ) → 1 ≤ year → sub_ℕ year 32_800 -ℤ pos 1 ≡ sub_ℕ (year - 1) 32_800
unfolding ◌-ℤ◌
previous_year year h = ground arith

pub days_from_civil-counted :
    (year month day : ℕ)
    → 1 ≤ year
    → days_from_civil (sub_ℕ year 32_800) month day
      ≡ sub_ℕ (civil_counted year month day) epoch_offset
unfolding days_from_civil
days_from_civil-counted year month day h = elim (Bool-cases (leb month 2)) [
  | inl early ↦ rw (early, previous_year year h) (days_from_march-counted (year - 1) _ day)
  | inr late ↦ rw (late) (days_from_march-counted year _ day)
]

abbrev pub last_counted : ℕ → ℕ → ℕ
last_counted year month =
    if month == 2 && leap_counted year then 29 else get_or days_per_month (month - 1) 0

pub last_day-counted :
    (year month : ℕ) → last_day (sub_ℕ year 32_800) month ≡ last_counted year month
unfolding last_day
last_day-counted year month = rw (is_leap-counted year)

pub within_month :
    (year month day : ℕ)
    → 1 ≤ day
    → civil_counted year month (day + 1) ≡ civil_counted year month day + 1
unfolding days_counted
within_month year month day h = ground arith

-- The day after the last of a month is the first of the next one.
pub month_end :
    (year month : ℕ)
    → 1 ≤ year
    → 1 ≤ month
    → month < 12
    → civil_counted year (month + 1) 1 ≡ civil_counted year month (last_counted year month) + 1
unfolding days_counted
month_end zero month h lo hi = absurd (omega arith)
month_end (suc year) zero h lo hi = absurd (omega arith)
month_end (suc year) (suc zero) h lo hi = ground arith
month_end (suc year) (suc (suc zero)) h lo hi =
    let e : suc year - 1 ≡ year = omega arith in rw e (days_counted-suc year)
month_end (suc year) (suc (suc (suc zero))) h lo hi = ground arith
month_end (suc year) (suc (suc (suc (suc zero)))) h lo hi = ground arith
month_end (suc year) (suc (suc (suc (suc (suc zero))))) h lo hi = ground arith
month_end (suc year) (suc (suc (suc (suc (suc (suc zero)))))) h lo hi = ground arith
month_end (suc year) (suc (suc (suc (suc (suc (suc (suc zero))))))) h lo hi = ground arith
month_end (suc year) (suc (suc (suc (suc (suc (suc (suc (suc zero)))))))) h lo hi = ground arith
month_end (suc year) (suc (suc (suc (suc (suc (suc (suc (suc (suc zero))))))))) h lo hi =
    ground arith
month_end (suc year) (suc (suc (suc (suc (suc (suc (suc (suc (suc (suc zero)))))))))) h lo hi =
    ground arith
month_end (suc year) (suc (suc (suc (suc (suc (suc (suc (suc (suc (suc (suc zero))))))))))) h lo
      hi =
    ground arith
month_end (suc year) (suc (suc (suc (suc (suc (suc (suc (suc (suc (suc (suc (suc month)))))))))))) h
      lo hi =
    absurd (omega arith)

pub year_end : (year : ℕ) → 1 ≤ year → civil_counted (suc year) 1 1 ≡ civil_counted year 12 31 + 1
unfolding days_counted
year_end year h = ground arith
