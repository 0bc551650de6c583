-- ===== src/Encode/Times.antt =====
-- `append_time`: microseconds of the day as eight bytes. `%` and `/` on `i64` are those of numbers
-- behind the range check.
use adbc_driver_monetdb.Prelude.{
  ℕ, ◌/◌, ◌%◌, [], ◌∷◌, ◌++◌, ltb, if◌then◌else◌, Bytes, le_bytes, ℤ, pos, negsuc, Outcome, ok, err,
}
use adbc_driver_monetdb.Encode.Error.{EncodeError, invalid_value}

unfoldable pub append_time : ℤ → ℕ → Bytes → Outcome EncodeError Bytes
append_time (negsuc n) row out = err (invalid_value row "time is outside one day")
append_time (pos micros) row out =
    let seconds = micros / 1_000_000 in
    if ltb micros 86_400_000_000
    then ok (
        out
        ++ le_bytes 4 (micros % 1_000_000)
        ++ (seconds % 60 ∷ seconds / 60 % 60 ∷ seconds / 3_600 ∷ 0 ∷ []))
    else err (invalid_value row "time is outside one day")
