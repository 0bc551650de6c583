-- ===== src/Decode/Tests.antt =====
-- The decoders at concrete bytes.
use adbc_driver_monetdb.Prelude.{◌≡◌, refl, true, [], ◌∷◌, arith, codes, ◌+ℤ◌, pos}
use adbc_driver_monetdb.Decode.Dates.{days_from_civil, is_leap, last_day, valid_ymd}
use adbc_driver_monetdb.Decode.Calendar.{days_from_civil-next}
use adbc_driver_monetdb.Decode.Plains.{inet4_text, push_u8_decimal}

address : inet4_text (10 ∷ 0 ∷ 200 ∷ 7 ∷ []) ≡ codes "10.0.200.7"
unfolding inet4_text push_u8_decimal
address = refl

february_1900 : valid_ymd (pos 1_900) 2 28 ≡ true
unfolding valid_ymd last_day is_leap
february_1900 = refl

-- 1900 was no leap year.
days_from_civil-next_example :
    (days_from_civil (pos 1_970) 1 1 ≡ pos 0)
    × (days_from_civil (pos 1_900) 3 1 ≡ days_from_civil (pos 1_900) 2 28 +ℤ pos 1)
unfolding last_day is_leap
days_from_civil-next_example = days_from_civil-next (pos 1_900) 2 28 (omega arith) february_1900
