-- ===== src/RoundTrip/Times.antt =====
-- `time_value` against `append_time`.
use adbc_driver_monetdb.Prelude.{
  ℕ, ◌/◌, ◌%◌, ◌<◌, ◌≡◌, true, some, [], ◌∷◌, ◌++◌, append_assoc, arith, ltb, Bytes, le_value,
  le_bytes, pos, ok,
}
use adbc_driver_monetdb.Decode.Times.{time_value, time_of_day}
use adbc_driver_monetdb.Encode.Times.{append_time}

abbrev pub time_bytes : ℕ → Bytes
time_bytes micros =
    let seconds = micros / 1_000_000 in
    le_bytes 4 (micros % 1_000_000) ++ (seconds % 60 ∷ seconds / 60 % 60 ∷ seconds / 3_600 ∷ 0 ∷ [])

pub append_time_lem :
    (micros row : ℕ) (out : Bytes)
    → micros < 86_400_000_000
    → append_time (pos micros) row out ≡ ok (out ++ time_bytes micros)
unfolding append_time
append_time_lem micros row out h =
    let t : ltb micros 86_400_000_000 ≡ true = ground arith in simp (append_time, t, append_assoc)

pub time_value_lem :
    (micros row : ℕ)
    → micros < 86_400_000_000
    → time_value (time_bytes micros) row ≡ ok (some micros)
unfolding time_value time_of_day le_value le_bytes
time_value_lem micros row h = ground arith

-- Every time of day is written as bytes from which it is read back.
pub time_value-append_time :
    (micros row row' : ℕ)
    → micros < 86_400_000_000
    → (bytes : Bytes) × (append_time (pos micros) row [] ≡ ok bytes)
      × (time_value bytes row' ≡ ok (some micros))
time_value-append_time micros row row' h =
    (time_bytes micros, append_time_lem micros row [] h, time_value_lem micros row' h)
