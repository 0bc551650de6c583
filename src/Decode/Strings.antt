-- ===== src/Decode/Strings.antt =====
-- `decode_strings` and its two loops. A string array is a list of optional byte strings, and
-- `rest` stands for `&bytes[pos..]`.
use adbc_driver_monetdb.Prelude.{
  ℕ, zero, suc, ◌+◌, ◌-◌, ◌*◌, ◌/◌, ◌%◌, ◌^◌, max, ◌&&◌, Option, none, some, List, [], ◌∷◌, ◌++◌,
  ltb, leb, ◌==◌, if◌then◌else◌, Bytes, checked_add, checked_sub, saturating_mul, length, get_elem?,
  take, drop, is_utf8, Outcome, ◌>>=◌, ◌>>◌, guard, ok_or, ok, err,
}
use adbc_driver_monetdb.Decode.Error.{
  DecodeError, wrong_length, invalid_column, invalid_value, invalid_utf8, invalid_backref, i32_max,
}

-- `memchr(0, tail)`
unfoldable pub find_nul : Bytes → Option ℕ
find_nul [] = none
find_nul (b ∷ bs) =
    if b == 0 then some 0 else elim (find_nul bs) [ none ↦ none | some i ↦ some (i + 1) ]

-- `byte & 0x7f` is `byte % 128`. The shift stays below 64, the width of a `usize`.
unfoldable pub long_backref_loop : Bytes → ℕ → ℕ → ℕ → ℕ → Outcome DecodeError (ℕ × ℕ)
long_backref_loop [] row index distance shift = err (invalid_backref row)
long_backref_loop (byte ∷ bytes) row index distance shift =
    let low = byte % 128 in
    let part = low * 2 ^ shift % 2 ^ 64 in
    let more = long_backref_loop bytes row (index + 1) (distance + part) (shift + 7) in
    if ltb ((2 ^ 64 - 1) / 2 ^ shift) low
    then err (invalid_backref row)
    else if leb (2 ^ 64) (distance + part)
    then err (invalid_backref row)
    else if ltb byte 0x80
    then ok (distance + part, index + 1)
    else if leb 64 (shift + 7)
    then err (invalid_backref row)
    else more

unfoldable pub long_backref : Bytes → ℕ → Outcome DecodeError (ℕ × ℕ)
long_backref bytes row = long_backref_loop bytes row 0 0 0

-- What one row of a loop leaves: the value, `pos`, `&bytes[pos..]` and `value_bytes`.
pub record Row : Type 0 where
  pub value : Option Bytes
  pub pos : ℕ
  pub rest : Bytes
  pub value_bytes : ℕ

-- A literal string, up to its NUL. Both loops read it so.
unfoldable pub literal : ℕ → Bytes → Outcome DecodeError (Bytes × ℕ)
literal row tail = do
  end ← ok_or (find_nul tail) (invalid_value row "string is not NUL-terminated")
  guard (is_utf8 (take end tail)) (invalid_utf8 row)
  ok (take end tail, end)

-- One round of `decode_strings_without_backrefs`; `none` is its `return Ok(None)`.
unfoldable pub plain_row : ℕ → ℕ → ℕ → Bytes → ℕ → Outcome DecodeError (Option Row)
plain_row row len pos [] value_bytes = err (wrong_length (pos + 1) len)
plain_row row len pos (first ∷ tail) value_bytes =
    if first == 0x80
    then (do
      (distance, consumed) ← long_backref tail row
      ok (
          if distance == 0
          then some (record {
            value = none;
            pos = pos + (consumed + 1);
            rest = drop consumed tail;
            value_bytes = value_bytes;
          })
          else none))
    else if leb 0x81 first && leb first 0xbf
    then ok none
    else do
      (value, end) ← literal row (first ∷ tail)
      total ←
          ok_or (checked_add value_bytes (length value))
            (invalid_value row "UTF-8 column length overflows")
      guard (leb total i32_max) (
          invalid_value row
            "UTF-8 column exceeds Arrow's 32-bit offset limit; lower adbc.monetdb.read_batch_rows")
      ok (
          some (record {
            value = some value;
            pos = pos + (end + 1);
            rest = drop (end + 1) (first ∷ tail);
            value_bytes = total;
          }))

-- The loop, by the rounds that are left.
unfoldable pub plain_rows :
    ℕ
    → ℕ
    → ℕ
    → ℕ
    → Bytes
    → ℕ
    → List (Option Bytes)
    → Outcome DecodeError (Option (List (Option Bytes)))
plain_rows zero row len pos rest value_bytes builder =
    if pos == len then ok (some builder) else err (wrong_length pos len)
plain_rows (suc left) row len pos rest value_bytes builder = do
  next ← plain_row row len pos rest value_bytes
  elim next [
    | none ↦ ok none
    | some r ↦ plain_rows left (row + 1) len r.pos r.rest r.value_bytes (builder ++ r.value ∷ [])
  ]

unfoldable pub decode_strings_without_backrefs :
    Bytes → ℕ → Outcome DecodeError (Option (List (Option Bytes)))
decode_strings_without_backrefs bytes rows = plain_rows rows 0 (length bytes) 0 bytes 0 []

-- `history.get(row.checked_sub(distance)?).copied()`
unfoldable pub backref_value : List (Option Bytes) → ℕ → ℕ → Outcome DecodeError (Option Bytes)
backref_value history row distance = do
  index ← ok_or (checked_sub row distance) (invalid_backref row)
  ok_or (get_elem? history index) (invalid_backref row)

-- The `let value = …` of `decode_strings_with_backrefs`: the value, `pos` and the bytes behind it.
unfoldable pub backref_row :
    ℕ → ℕ → ℕ → Bytes → List (Option Bytes) → Outcome DecodeError (Option Bytes × ℕ × Bytes)
backref_row row len pos [] history = err (wrong_length (pos + 1) len)
backref_row row len pos (first ∷ tail) history =
    if first == 0x80
    then (do
      (distance, consumed) ← long_backref tail row
      value ← if distance == 0 then ok none else backref_value history row distance
      ok (value, pos + (consumed + 1), drop consumed tail))
    else if leb 0x81 first && leb first 0xbf
    then (do value ← backref_value history row (first - 0x80); ok (value, pos + 1, tail))
    else do
      (value, end) ← literal row (first ∷ tail)
      ok (some value, pos + (end + 1), drop (end + 1) (first ∷ tail))

-- The `match value` behind it: the running size of the column, checked against both limits.
unfoldable pub expand : ℕ → ℕ → ℕ → Option Bytes → Outcome DecodeError ℕ
expand row limit value_bytes none = ok value_bytes
expand row limit value_bytes (some value) = do
  total ←
      ok_or (checked_add value_bytes (length value))
        (invalid_value row "UTF-8 column length overflows")
  guard (leb total i32_max && leb total limit)
      (invalid_value row "UTF-8 back-references expand beyond the allowed wire-size multiple")
  ok total

-- `builder` and `history` hold the same values, so one list stands for both.
unfoldable pub backref_rows :
    ℕ → ℕ → ℕ → ℕ → ℕ → Bytes → ℕ → List (Option Bytes) → Outcome DecodeError (List (Option Bytes))
backref_rows zero row len limit pos rest value_bytes history =
    if pos == len then ok history else err (wrong_length pos len)
backref_rows (suc left) row len limit pos rest value_bytes history = do
  (value, pos', rest') ← backref_row row len pos rest history
  total ← expand row limit value_bytes value
  backref_rows left (row + 1) len limit pos' rest' total (history ++ value ∷ [])

abbrev pub expansion_limit : ℕ → ℕ
expansion_limit len = max (saturating_mul len 16) (1024 * 1024)

unfoldable pub decode_strings_with_backrefs : Bytes → ℕ → Outcome DecodeError (List (Option Bytes))
decode_strings_with_backrefs bytes rows =
    backref_rows rows 0 (length bytes) (expansion_limit (length bytes)) 0 bytes 0 []

unfoldable pub decode_strings : Bytes → ℕ → Outcome DecodeError (List (Option Bytes))
decode_strings bytes rows =
    if ltb (length bytes) rows
    then err (invalid_column "string column contains fewer encoded bytes than declared rows")
    else if ltb i32_max (length bytes)
    then err (
        invalid_column
          "UTF-8 column exceeds Arrow's 32-bit offset limit; lower adbc.monetdb.read_batch_rows")
    else do
      plain ← decode_strings_without_backrefs bytes rows
      elim plain [ some array ↦ ok array | none ↦ decode_strings_with_backrefs bytes rows ]
