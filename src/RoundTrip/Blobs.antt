-- ===== src/RoundTrip/Blobs.antt =====
-- `decode_blob` reads back what `encode_blobs` wrote.
use adbc_driver_monetdb.Prelude.{
  ℕ, zero, suc, ◌+◌, ◌-◌, ◌*◌, ◌%◌, ◌^◌, ◌≤◌, ◌<◌, ◌≡◌, sym, ap, ◌∙◌, Option, none, some, List, [],
  ◌∷◌, ◌++◌, append-nil, append_assoc, arith, Bytes, le_bytes, le_value-le_bytes_8, length-le_bytes,
  length, length-append, take, drop, take-length_append, drop-length_append, signed64, pos, ok,
}
use adbc_driver_monetdb.Decode.Error.{i32_max}
use adbc_driver_monetdb.Decode.Blobs.{
  blob_value, blob_length, blob_row, BlobRow, blob_rows, decode_blob,
}
use adbc_driver_monetdb.Encode.Blobs.{encode_blobs}
use adbc_driver_monetdb.RoundTrip.Seen.{total_size, size}

-- What is written for one value.
abbrev blob_piece : Option Bytes → Bytes
blob_piece none = le_bytes 8 (2 ^ 64 - 1)
blob_piece (some value) = le_bytes 8 (length value % 2 ^ 64) ++ value

abbrev blob_pieces : List (Option Bytes) → Bytes
blob_pieces [] = []
blob_pieces (v ∷ values) = blob_piece v ++ blob_pieces values

encode_blobs-pieces :
    (values : List (Option Bytes)) (out : Bytes)
    → encode_blobs values out ≡ out ++ blob_pieces values
unfolding encode_blobs
encode_blobs-pieces [] out = sym (append-nil out)
encode_blobs-pieces (none ∷ values) out =
    encode_blobs-pieces values (out ++ le_bytes 8 (2 ^ 64 - 1)) ∙ append_assoc out _ _
encode_blobs-pieces (some value ∷ values) out =
    encode_blobs-pieces values _ ∙ rw (append_assoc, append_assoc, append_assoc)

length-blob_piece : (v : Option Bytes) → length (blob_piece v) ≡ 8 + size v
length-blob_piece none = omega (arith, length-le_bytes 8 (2 ^ 64 - 1))
length-blob_piece (some value) = omega (
  arith,
  length-le_bytes 8 (length value % 2 ^ 64),
  length-append (le_bytes 8 (length value % 2 ^ 64)) value,
)

length-blob_pieces :
    (values : List (Option Bytes))
    → length (blob_pieces values) ≡ 8 * length values + total_size values
length-blob_pieces [] = omega arith
length-blob_pieces (v ∷ values) = omega (
  arith,
  length-blob_piece v,
  length-append (blob_piece v) (blob_pieces values),
  length-blob_pieces values,
)

-- The header of eight bytes in front of `rest`.
take_header : (n : ℕ) (rest : Bytes) → take 8 (le_bytes 8 n ++ rest) ≡ le_bytes 8 n
take_header n rest =
    ap (λ k. take k (le_bytes 8 n ++ rest)) (sym (length-le_bytes 8 n))
    ∙ take-length_append (le_bytes 8 n) rest

drop_header : (n : ℕ) (rest : Bytes) → drop 8 (le_bytes 8 n ++ rest) ≡ rest
drop_header n rest =
    ap (λ k. drop k (le_bytes 8 n ++ rest)) (sym (length-le_bytes 8 n))
    ∙ drop-length_append (le_bytes 8 n) rest

module _ (row len at value_bytes : ℕ) (rest : Bytes) where
  blob_row_header :
      (n : ℕ)
      → n < 2 ^ 64
      → at + 8 < 2 ^ 64
      → blob_row row len at (le_bytes 8 n ++ rest) value_bytes
        ≡ blob_length row len (at + 8) rest value_bytes (signed64 n)
  unfolding blob_row
  blob_row_header n h fits = ground (
    arith,
    take_header n rest,
    drop_header n rest,
    le_value-le_bytes_8 n h,
    length-append (le_bytes 8 n) rest,
    length-le_bytes 8 n,
  )

blob_value_lem :
    (row len at value_bytes : ℕ) (rest value : Bytes)
    → at + length value < 2 ^ 64
    → value_bytes + length value ≤ i32_max
    → blob_value row len at (value ++ rest) value_bytes (length value)
      ≡ ok (record {
        value = some value;
        at = at + length value;
        rest = rest;
        value_bytes = value_bytes + length value;
      })
unfolding blob_value
blob_value_lem row len at value_bytes rest value fits small =
    ground (
      arith,
      take-length_append value rest,
      drop-length_append value rest,
      length-append value rest,
    )

blob_row_lem :
    (row len at value_bytes : ℕ) (rest : Bytes) (v : Option Bytes)
    → at + 8 + size v < 2 ^ 64
    → value_bytes + size v ≤ i32_max
    → blob_row row len at (blob_piece v ++ rest) value_bytes
      ≡ ok (record {
        value = v;
        at = at + 8 + size v;
        rest = rest;
        value_bytes = value_bytes + size v;
      })
unfolding blob_length
blob_row_lem row len at value_bytes rest none fits small =
    rw (blob_row_header row len at value_bytes rest (2 ^ 64 - 1) (omega arith) (omega arith))
      (ground arith)
blob_row_lem row len at value_bytes rest (some value) fits small =
    let n = length value in
    let exact : n % 2 ^ 64 ≡ n = omega arith in
    let sign : signed64 n ≡ pos n = ground arith in
    rw exact (
      ap (λ b. blob_row row len at b value_bytes) (append_assoc (le_bytes 8 n) value rest)
      ∙ blob_row_header row len at value_bytes (value ++ rest) n (omega arith) (omega arith)
      ∙ ap (blob_length row len (at + 8) (value ++ rest) value_bytes) sign
      ∙ blob_value_lem row len (at + 8) value_bytes rest value (omega arith) small)

module _ (left row len at value_bytes : ℕ) (rest : Bytes) (builder : List (Option Bytes)) where
  blob_rows_step :
      (r : BlobRow)
      → blob_row row len at rest value_bytes ≡ ok r
      → blob_rows (suc left) row len at rest value_bytes builder
        ≡ blob_rows left (row + 1) len r.at r.rest r.value_bytes (builder ++ r.value ∷ [])
  unfolding blob_rows
  blob_rows_step r h = rw h

  blob_rows_done : at ≡ len → blob_rows zero row len at rest value_bytes builder ≡ ok builder
  unfolding blob_rows
  blob_rows_done h = ground arith

blob_rows_lem :
    (values : List (Option Bytes)) (row len at value_bytes : ℕ) (builder : List (Option Bytes))
    → at + length (blob_pieces values) ≡ len
    → len < 2 ^ 64
    → value_bytes + total_size values ≤ i32_max
    → blob_rows (length values) row len at (blob_pieces values) value_bytes builder
      ≡ ok (builder ++ values)
blob_rows_lem [] row len at value_bytes builder here fits small =
    rw append-nil (blob_rows_done 0 row len at value_bytes [] builder (omega arith))
blob_rows_lem (v ∷ values) row len at value_bytes builder here fits small =
    let sizes : length (blob_pieces (v ∷ values)) ≡ 8 + size v + length (blob_pieces values) =
      length-append (blob_piece v) (blob_pieces values)
      ∙ ap (λ n. n + length (blob_pieces values)) (length-blob_piece v) in
    blob_rows_step (length values) row len at value_bytes (blob_pieces (v ∷ values)) builder _
      (blob_row_lem row len at value_bytes (blob_pieces values) v (omega arith) (omega arith))
    ∙ blob_rows_lem values (row + 1) len (at + 8 + size v) (value_bytes + size v)
        (builder ++ v ∷ []) (omega arith) fits (omega arith)
    ∙ ap ok (append_assoc builder (v ∷ []) values)

-- A column of NULLs and byte strings is read back from what `encode_blobs` wrote for it, when the
-- byte strings fit Arrow's 32-bit offsets and the column has at most 2 ^ 56 rows.
pub decode_blob-encode_blobs :
    (values : List (Option Bytes))
    → total_size values ≤ i32_max
    → length values ≤ 2 ^ 56
    → decode_blob (encode_blobs values []) (length values) ≡ ok values
unfolding decode_blob
decode_blob-encode_blobs values small rows = rw (encode_blobs-pieces values []) (
    ground (
      arith,
      length-blob_pieces values,
      blob_rows_lem values 0 (length (blob_pieces values)) 0 0 [] (omega arith)
          (omega (arith, length-blob_pieces values)) (omega arith),
    ))
