-- ===== src/Decode/Calendar.antt =====
-- `days_from_civil` counts the days of the Gregorian calendar.
use adbc_driver_monetdb.Prelude.{
  ℕ, suc, ◌+◌, ◌-◌, ◌≤◌, ◌≡◌, sym, ◌∙◌, inl, inr, true, false, arith, ltb, if◌then◌else◌, ltb→lt,
  Bool-cases, ℤ, pos_part, neg_part, sub_ℕ, ◌+ℤ◌, pos, negsuc,
}
use mathlib.Core.Path.{subst}
use adbc_driver_monetdb.Decode.Dates.{days_from_civil, last_day, valid_ymd}
use adbc_driver_monetdb.Decode.Counted.{
  days_counted, epoch_offset, civil_counted, days_from_civil-counted, last_counted,
  last_day-counted, within_month, month_end, year_end,
}

-- The date after a date of the Gregorian calendar.
abbrev pub next_day : ℤ → ℕ → ℕ → ℤ × ℕ × ℕ
next_day year month day =
    if ltb day (last_day year month)
    then (year, month, day + 1)
    else if ltb month 12
    then (year, month + 1, 1)
    else (year +ℤ pos 1, 1, 1)

next_year : (year : ℕ) → sub_ℕ year 32_800 +ℤ pos 1 ≡ sub_ℕ (suc year) 32_800
unfolding ◌+ℤ◌
next_year year = ground arith

next_count : (count : ℕ) → sub_ℕ (count + 1) epoch_offset ≡ sub_ℕ count epoch_offset +ℤ pos 1
unfolding ◌+ℤ◌
next_count count = ground arith

pub valid_range :
    (year : ℤ) (month day : ℕ)
    → valid_ymd year month day ≡ true
    → (1 ≤ month) × (month ≤ 12) × (1 ≤ day) × (day ≤ last_day year month)
unfolding valid_ymd
valid_range year month day h = ground arith

at_last : (a b : ℕ) → a ≤ b → ltb a b ≡ false → b ≡ a
at_last a b h n = ground arith

at_last_month : (month : ℕ) → month ≤ 12 → ltb month 12 ≡ false → month ≡ 12
at_last_month month h n = ground arith

december_end :
    (year month day : ℕ)
    → 1 ≤ year
    → month ≡ 12
    → last_counted year month ≡ day
    → civil_counted (suc year) 1 1 ≡ civil_counted year month day + 1
december_end year month day h m e =
    let last : 31 ≡ day = subst (λ x. last_counted year x ≡ day) m e in
    subst (λ x. civil_counted (suc year) 1 1 ≡ civil_counted year x day + 1) (sym m)
      (subst (λ x. civil_counted (suc year) 1 1 ≡ civil_counted year 12 x + 1) last
        (year_end year h))

step_counted :
    (year month day : ℕ)
    → 1 ≤ year
    → valid_ymd (sub_ℕ year 32_800) month day ≡ true
    → let (y, m, d) = next_day (sub_ℕ year 32_800) month day in
      days_from_civil y m d ≡ days_from_civil (sub_ℕ year 32_800) month day +ℤ pos 1
step_counted year month day h v =
    let (lo, hi, d1, dl) = valid_range (sub_ℕ year 32_800) month day v in
    let l = last_day-counted year month in
    let dl' : day ≤ last_counted year month = subst (λ x. day ≤ x) l dl in
    let now = days_from_civil-counted year month day h in
    elim (Bool-cases (ltb day (last_day (sub_ℕ year 32_800) month))) [
      | inl inside ↦
          rw
            (
              inside,
              now,
              days_from_civil-counted year month (day + 1) h,
              within_month year month day d1,
            )
            (next_count (civil_counted year month day))
      | inr at_end ↦
          let e : last_counted year month ≡ day =
            sym l ∙ at_last day (last_day (sub_ℕ year 32_800) month) dl at_end in
          elim (Bool-cases (ltb month 12)) [
            | inl more ↦
                let count =
                  subst (λ x. civil_counted year (month + 1) 1 ≡ civil_counted year month x + 1) e
                    (month_end year month h lo (ltb→lt _ _ more)) in
                rw (at_end, more, now, days_from_civil-counted year (month + 1) 1 h, count)
                  (next_count (civil_counted year month day))
            | inr december ↦
                let m : month ≡ 12 = at_last_month month hi december in
                let count = december_end year month day h m e in
                rw
                  (
                    at_end,
                    december,
                    now,
                    next_year year,
                    days_from_civil-counted (suc year) 1 1 (omega arith),
                    count,
                  )
                  (next_count (civil_counted year month day))
          ]
    ]

recount :
    (year : ℤ)
    → neg_part year ≤ 32_768
    → sub_ℕ (32_800 + pos_part year - neg_part year) 32_800 ≡ year
recount (pos n) h = ground arith
recount (negsuc n) h = ground arith

-- `days_from_civil` counts the days of the Gregorian calendar from 1 January 1970: that day has the
-- number 0, and the day after a valid date of a year of 16 bits has the number after the date's.
pub days_from_civil-next :
    (year : ℤ) (month day : ℕ)
    → neg_part year ≤ 32_768
    → valid_ymd year month day ≡ true
    → (days_from_civil (pos 1_970) 1 1 ≡ pos 0)
      × (let (y, m, d) = next_day year month day in
          days_from_civil y m d ≡ days_from_civil year month day +ℤ pos 1)
unfolding days_counted
days_from_civil-next year month day h v =
    let r = recount year h in
    (
      days_from_civil-counted 34_770 1 1 (omega arith),
      subst
          (λ x.
            let (y, m, d) = next_day x month day in
            days_from_civil y m d ≡ days_from_civil x month day +ℤ pos 1)
          r
          (step_counted (32_800 + pos_part year - neg_part year) month day (omega arith)
            (subst (λ x. valid_ymd x month day ≡ true) (sym r) v)),
    )
