-- ===== src/RoundTrip/Days.antt =====
-- What is supposed of chrono's dates, and that their day numbers are those of `days_from_civil`.
use adbc_driver_monetdb.Prelude.{
  ℕ, zero, suc, ◌≤◌, ◌≡◌, refl, sym, ap, ◌∙◌, true, Option, some, arith, ℤ, neg_part, ◌+ℤ◌, pos,
  negsuc,
}
use mathlib.Core.Path.{subst}
use adbc_driver_monetdb.Decode.Dates.{days_from_civil, valid_ymd}
use adbc_driver_monetdb.Decode.Calendar.{next_day, days_from_civil-next}

abbrev pub Civil : Type 0
Civil = ℤ × ℕ × ℕ

abbrev pub day_number : Civil → ℤ
day_number date = days_from_civil date.0 date.1 date.2

abbrev pub following : Civil → Civil
following date = next_day date.0 date.1 date.2

-- Day 0 is 1 January 1970, dates are valid, the next number is the next day, and the numbers that have
-- a date are without a gap.
pub record IsCalendar (date_from_days : ℤ → Option Civil) : Type 0 where
  pub epoch : date_from_days (pos 0) ≡ some (pos 1_970, 1, 1)
  pub valid :
      (days : ℤ) (date : Civil)
      → date_from_days days ≡ some date
      → valid_ymd date.0 date.1 date.2 ≡ true
  pub next :
      (days : ℤ) (date later : Civil)
      → date_from_days days ≡ some date
      → date_from_days (days +ℤ pos 1) ≡ some later
      → later ≡ following date
  pub contiguous_up :
      (n : ℕ) (later : Civil)
      → date_from_days (pos (suc n)) ≡ some later
      → (date : Civil) × (date_from_days (pos n) ≡ some date)
  pub contiguous_down :
      (n : ℕ) (date : Civil)
      → date_from_days (negsuc n) ≡ some date
      → (later : Civil) × (date_from_days (negsuc n +ℤ pos 1) ≡ some later)

abbrev IsRecent : Civil → Type 0
IsRecent date = neg_part date.0 ≤ 32_768

following-IsRecent : (date : Civil) → IsRecent date → IsRecent (following date)
unfolding ◌+ℤ◌
following-IsRecent (pos n, month, day) h = ground arith
following-IsRecent (negsuc n, month, day) h = ground arith

suc_pos : (n : ℕ) → pos n +ℤ pos 1 ≡ pos (suc n)
unfolding ◌+ℤ◌
suc_pos n = ground arith

suc_negsuc : (n : ℕ) → negsuc (suc n) +ℤ pos 1 ≡ negsuc n
unfolding ◌+ℤ◌
suc_negsuc n = ground arith

suc_minus_one : negsuc 0 +ℤ pos 1 ≡ pos 0
unfolding ◌+ℤ◌
suc_minus_one = refl

suc-inj : (a b : ℤ) → a +ℤ pos 1 ≡ b +ℤ pos 1 → a ≡ b
unfolding ◌+ℤ◌
suc-inj (pos n) (pos m) h = ground arith
suc-inj (pos n) (negsuc m) h = ground arith
suc-inj (negsuc n) (pos m) h = ground arith
suc-inj (negsuc n) (negsuc m) h = ground arith

pub some-inj : {A : Type 0} (a b : A) → some a ≡ some b → a ≡ b
some-inj a b h = cc

module _ (date_from_days : ℤ → Option Civil) (laws : IsCalendar date_from_days) where
  number_step :
      (days : ℤ) (date later : Civil)
      → date_from_days days ≡ some date
      → date_from_days (days +ℤ pos 1) ≡ some later
      → IsRecent date
      → (day_number later ≡ day_number date +ℤ pos 1) × IsRecent later
  number_step days (y, m, d) later e f r =
      let same = laws.next days (y, m, d) later e f in
      let (zeroth, next) = days_from_civil-next y m d r (laws.valid days (y, m, d) e) in
      (
        subst (λ x. day_number x ≡ day_number (y, m, d) +ℤ pos 1) (sym same) next,
        subst IsRecent (sym same) (following-IsRecent (y, m, d) r),
      )

  number_up :
      (n : ℕ) (date : Civil)
      → date_from_days (pos n) ≡ some date
      → (day_number date ≡ pos n) × IsRecent date
  number_up zero date e =
      let same = some-inj (pos 1_970, 1, 1) date (sym laws.epoch ∙ e) in
      let valid_epoch = laws.valid (pos 0) (pos 1_970, 1, 1) laws.epoch in
      let (zeroth, next) = days_from_civil-next (pos 1_970) 1 1 (omega arith) valid_epoch in
      (subst (λ x. day_number x ≡ pos 0) same zeroth, subst IsRecent same (omega arith))
  number_up (suc n) date e =
      let (before, f) = laws.contiguous_up n date e in
      let (number, recent) = number_up n before f in
      let e' = subst (λ x. date_from_days x ≡ some date) (sym (suc_pos n)) e in
      let (step, recent') = number_step (pos n) before date f e' recent in
      (step ∙ ap (λ x. x +ℤ pos 1) number ∙ suc_pos n, recent')

  number_down :
      (n : ℕ) (date : Civil)
      → date_from_days (negsuc n) ≡ some date
      → IsRecent date
      → day_number date ≡ negsuc n
  number_down zero date e recent =
      let (later, f) = laws.contiguous_down zero date e in
      let (step, recent') = number_step (negsuc 0) date later e f recent in
      let f' = subst (λ x. date_from_days x ≡ some later) suc_minus_one f in
      let (number, r) = number_up zero later f' in
      suc-inj (day_number date) (negsuc 0) (sym step ∙ number ∙ sym suc_minus_one)
  number_down (suc n) date e recent =
      let (later, f) = laws.contiguous_down (suc n) date e in
      let (step, recent') = number_step (negsuc (suc n)) date later e f recent in
      let f' = subst (λ x. date_from_days x ≡ some later) (suc_negsuc n) f in
      let number = number_down n later f' recent' in
      suc-inj (day_number date) (negsuc (suc n)) (sym step ∙ number ∙ sym (suc_negsuc n))

  -- The date of a day number, where its year has 16 bits, has that number.
  pub day_number-date :
      (days : ℤ) (date : Civil)
      → date_from_days days ≡ some date
      → neg_part date.0 ≤ 32_768
      → day_number date ≡ days
  day_number-date (pos n) date e r = (number_up n date e).0
  day_number-date (negsuc n) date e r = number_down n date e r
