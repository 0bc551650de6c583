-- ===== src/Decode/Times.antt =====
-- `time_value`: a wire time of eight bytes as microseconds of the day.
use adbc_driver_monetdb.Prelude.{
  ℕ, ◌+◌, ◌-◌, ◌*◌, ◌^◌, Bool, true, ◌&&◌, ◌||◌, Option, none, some, [], ◌∷◌, leb, ◌==◌,
  if◌then◌else◌, Bytes, le_value, Outcome, ok, err, panic,
}
use adbc_driver_monetdb.Decode.Error.{DecodeError, invalid_value}

abbrev pub all_ff : Bytes → Bool
all_ff [] = true
all_ff (b ∷ bs) = b == 0xff && all_ff bs

-- The fields of a time that is not NULL.
unfoldable pub time_of_day : ℕ → ℕ → ℕ → ℕ → ℕ → Outcome DecodeError (Option ℕ)
time_of_day row micros second minute hour =
    if leb 1_000_000 micros || leb 60 second || leb 60 minute || leb 24 hour
    then err (invalid_value row "invalid time of day")
    else ok (some (((hour * 60 + minute) * 60 + second) * 1_000_000 + micros))

-- The eighth byte is padding; it is read only in the NULL sentinel.
unfoldable pub time_value : Bytes → ℕ → Outcome DecodeError (Option ℕ)
time_value (b0 ∷ b1 ∷ b2 ∷ b3 ∷ second ∷ minute ∷ hour ∷ padding ∷ []) row =
    let micros = le_value (b0 ∷ b1 ∷ b2 ∷ b3 ∷ []) in
    if micros == 2 ^ 32 - 1
    then if all_ff (b0 ∷ b1 ∷ b2 ∷ b3 ∷ second ∷ minute ∷ hour ∷ padding ∷ [])
      then ok none
      else err (invalid_value row "time has a partial NULL sentinel")
    else time_of_day row micros second minute hour
time_value _ row = panic
