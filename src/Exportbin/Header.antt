-- ===== src/Exportbin/Header.antt =====
-- `parse_header` and `parse_int`. An `i64` field keeps its value as an integer, a `usize` or `u64`
-- field as a number below 2 ^ 64.
use adbc_driver_monetdb.Prelude.{
  ℕ, ◌+◌, ◌-◌, ◌*◌, ◌^◌, min, Bool, true, false, ◌&&◌, ◌||◌, Option, none, some, List, [], ◌∷◌,
  ◌++◌, ltb, ◌==◌, if◌then◌else◌, Bytes, codes, slice, position, length, take, ℤ, sub_ℕ, pos,
  is_utf8, Outcome, ◌>>=◌, ◌>>◌, guard, ok_or, ok, err,
}
use adbc_driver_monetdb.Exportbin.Error.{FrameError, malformed}

pub record ExportbinHeader : Type 0 where
  pub result_id : ℤ
  pub column_count : ℕ
  pub row_count : ℕ
  pub start_row : ℕ

abbrev pub header_prefix : Bytes
header_prefix = codes "&6 "

unfoldable pub starts_with : Bytes → Bytes → Bool
starts_with bytes [] = true
starts_with [] (p ∷ ps) = false
starts_with (b ∷ bs) (p ∷ ps) = b == p && starts_with bs ps

-- `u8::is_ascii_whitespace`: tab, line feed, form feed, carriage return, space.
abbrev pub is_ascii_whitespace : ℕ → Bool
is_ascii_whitespace b = b == 9 || b == 10 || b == 12 || b == 13 || b == 32

-- `split_ascii_whitespace`: the runs of other bytes. `field` is the run that was begun, if any.
unfoldable pub split_fields : Bytes → Bytes → List Bytes
split_fields [] [] = []
split_fields (c ∷ field) [] = (c ∷ field) ∷ []
split_fields [] (b ∷ bs) =
    if is_ascii_whitespace b then split_fields [] bs else split_fields (b ∷ []) bs
split_fields (c ∷ field) (b ∷ bs) =
    let begun = c ∷ field in
    if is_ascii_whitespace b then begun ∷ split_fields [] bs else split_fields (begun ++ b ∷ []) bs

-- The digits of `str::parse`, for a type whose largest value is `limit`.
unfoldable pub parse_digits : ℕ → ℕ → Bytes → Option ℕ
parse_digits limit n [] = some n
parse_digits limit n (b ∷ bs) =
    let digit = b - b'0' in
    if ltb b b'0' || ltb b'9' b
    then none
    else if ltb limit (n * 10 + digit)
    then none
    else parse_digits limit (n * 10 + digit) bs

unfoldable pub parse_nonempty : ℕ → Bytes → Option ℕ
parse_nonempty limit [] = none
parse_nonempty limit (b ∷ bs) = parse_digits limit 0 (b ∷ bs)

-- `str::parse` at an unsigned type of 64 bits: one leading `+` is allowed.
unfoldable pub parse_u64 : Bytes → Option ℕ
parse_u64 [] = none
parse_u64 (b ∷ bs) =
    if b == b'+' then parse_nonempty (2 ^ 64 - 1) bs else parse_nonempty (2 ^ 64 - 1) (b ∷ bs)

-- `str::parse::<i64>`: one leading sign, and -2 ^ 63 is in range.
unfoldable pub parse_i64 : Bytes → Option ℤ
parse_i64 [] = none
parse_i64 (b ∷ bs) =
    if b == b'+'
    then elim (parse_nonempty (2 ^ 63 - 1) bs) [ none ↦ none | some n ↦ some (pos n) ]
    else if b == b'-'
    then elim (parse_nonempty (2 ^ 63) bs) [ none ↦ none | some n ↦ some (sub_ℕ 0 n) ]
    else elim (parse_nonempty (2 ^ 63 - 1) (b ∷ bs)) [ none ↦ none | some n ↦ some (pos n) ]

abbrev too_few : FrameError
too_few = malformed "block header has too few fields"

abbrev not_a_number : FrameError
not_a_number = malformed "block header field is not a number"

-- The four calls of `parse_int(next()?)?`, each behind a field that is there.
unfoldable pub parse_fields : List Bytes → Outcome FrameError ExportbinHeader
parse_fields [] = err too_few
parse_fields (a ∷ []) = do _ ← ok_or (parse_i64 a) not_a_number; err too_few
parse_fields (a ∷ b ∷ []) = do
  _ ← ok_or (parse_i64 a) not_a_number
  _ ← ok_or (parse_u64 b) not_a_number
  err too_few
parse_fields (a ∷ b ∷ c ∷ []) = do
  _ ← ok_or (parse_i64 a) not_a_number
  _ ← ok_or (parse_u64 b) not_a_number
  _ ← ok_or (parse_u64 c) not_a_number
  err too_few
parse_fields (a ∷ b ∷ c ∷ d ∷ _) = do
  id ← ok_or (parse_i64 a) not_a_number
  columns ← ok_or (parse_u64 b) not_a_number
  rows ← ok_or (parse_u64 c) not_a_number
  start ← ok_or (parse_u64 d) not_a_number
  ok (record { result_id = id; column_count = columns; row_count = rows; start_row = start })

-- The header, and the offset of the first byte after its line.
unfoldable pub parse_header : Bytes → Outcome FrameError (ExportbinHeader × ℕ)
parse_header frame = do
  guard (starts_with frame header_prefix) (malformed "missing &6 block header")
  line_end ←
      ok_or (position b'\n' (take (min (length frame) 128) frame))
        (malformed "unterminated block header")
  line ← slice frame (length header_prefix) line_end
  guard (is_utf8 line) (malformed "block header is not UTF-8")
  header ← parse_fields (split_fields [] line)
  ok (header, line_end + 1)
