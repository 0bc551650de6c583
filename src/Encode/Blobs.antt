-- ===== src/Encode/Blobs.antt =====
-- `encode_blobs`: a length of 64 bits before each value, and -1 for NULL.
use adbc_driver_monetdb.Prelude.{
  ◌-◌, ◌%◌, ◌^◌, Option, none, some, List, [], ◌∷◌, ◌++◌, Bytes, le_bytes, length,
}

unfoldable pub encode_blobs : List (Option Bytes) → Bytes → Bytes
encode_blobs [] out = out
encode_blobs (none ∷ values) out = encode_blobs values (out ++ le_bytes 8 (2 ^ 64 - 1))
encode_blobs (some value ∷ values) out =
    encode_blobs values (out ++ le_bytes 8 (length value % 2 ^ 64) ++ value)
