-- ===== src/Decode/Blobs.antt =====
-- `decode_blob`. A binary array is a list of optional byte strings, and `rest` stands for
-- `bytes[pos..]`.
use adbc_driver_monetdb.Prelude.{
  ℕ, zero, suc, ◌+◌, ◌-◌, Option, none, some, List, [], ◌∷◌, ◌++◌, leb, ◌==◌, if◌then◌else◌, Bytes,
  checked_add, checked_mul, le_value, length, take, drop, ℤ, signed64, pos, negsuc, Outcome, ◌>>=◌,
  ◌>>◌, guard, ok_or, ok, err,
}
use adbc_driver_monetdb.Decode.Error.{
  DecodeError, i32_max, wrong_length, invalid_column, invalid_value,
}

-- `i64::from_le_bytes`
abbrev pub le_i64 : Bytes → ℤ
le_i64 bytes = signed64 (le_value bytes)

-- The value of one row, `pos`, the bytes behind it, and `value_bytes`.
pub record BlobRow : Type 0 where
  pub value : Option Bytes
  pub at : ℕ
  pub rest : Bytes
  pub value_bytes : ℕ

-- A row whose length is not negative.
unfoldable pub blob_value : ℕ → ℕ → ℕ → Bytes → ℕ → ℕ → Outcome DecodeError BlobRow
blob_value row len at rest value_bytes length_read = do
  value_end ← ok_or (checked_add at length_read) (invalid_value row "BLOB value offset overflows")
  guard (leb length_read (length rest)) (wrong_length value_end len)
  total ←
      ok_or (checked_add value_bytes length_read) (invalid_value row "BLOB column length overflows")
  guard (leb total i32_max) (invalid_value row "BLOB column exceeds Arrow's 32-bit offset limit")
  ok (record {
    value = some (take length_read rest);
    at = at + length_read;
    rest = drop length_read rest;
    value_bytes = total;
  })

-- The length behind its header: -1 is NULL.
unfoldable pub blob_length : ℕ → ℕ → ℕ → Bytes → ℕ → ℤ → Outcome DecodeError BlobRow
blob_length row len at rest value_bytes (pos n) = blob_value row len at rest value_bytes n
blob_length row len at rest value_bytes (negsuc zero) =
    ok (record { value = none; at = at; rest = rest; value_bytes = value_bytes })
blob_length row len at rest value_bytes (negsuc (suc n)) =
    err (invalid_value row "BLOB length is negative but is not the -1 NULL sentinel")

unfoldable pub blob_row : ℕ → ℕ → ℕ → Bytes → ℕ → Outcome DecodeError BlobRow
blob_row row len at rest value_bytes = do
  header_end ← ok_or (checked_add at 8) (invalid_value row "BLOB header offset overflows")
  guard (leb 8 (length rest)) (wrong_length header_end len)
  blob_length row len header_end (drop 8 rest) value_bytes (le_i64 (take 8 rest))

-- The loop, by the rounds that are left.
unfoldable pub blob_rows :
    ℕ → ℕ → ℕ → ℕ → Bytes → ℕ → List (Option Bytes) → Outcome DecodeError (List (Option Bytes))
blob_rows zero row len at rest value_bytes builder =
    if at == len then ok builder else err (wrong_length at len)
blob_rows (suc left) row len at rest value_bytes builder = do
  next ← blob_row row len at rest value_bytes
  blob_rows left (row + 1) len next.at next.rest next.value_bytes (builder ++ next.value ∷ [])

unfoldable pub decode_blob : Bytes → ℕ → Outcome DecodeError (List (Option Bytes))
decode_blob bytes rows = do
  minimum ← ok_or (checked_mul rows 8) (invalid_column "BLOB header length overflows")
  guard (leb minimum (length bytes)) (wrong_length minimum (length bytes))
  guard (leb (length bytes - minimum) i32_max)
      (invalid_column "BLOB column exceeds Arrow's 32-bit offset limit")
  blob_rows rows 0 (length bytes) 0 bytes 0 []
