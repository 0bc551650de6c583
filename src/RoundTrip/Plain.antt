-- ===== src/RoundTrip/Plain.antt =====
-- The first loop of the decoder, which reads no back-reference, on an encoded column.
use adbc_driver_monetdb.Prelude.{
  ℕ, zero, suc, ◌+◌, ◌-◌, ◌^◌, ◌≤◌, ◌<◌, ◌≡◌, refl, sym, ap, ◌∙◌, ◌⊎◌, inl, inr, Option, none, some,
  List, [], ◌∷◌, ◌++◌, append-nil, append_assoc, arith, ltb, Bool-cases, Option-cases, Bytes,
  IsUsize, All, length, length-append, Outcome, ok,
}
use adbc_driver_monetdb.Decode.Error.{DecodeError, i32_max}
use adbc_driver_monetdb.Decode.Strings.{Row, plain_row, plain_rows}
use adbc_driver_monetdb.Encode.Strings.{seen_at, append_null, append_string, encode_rows}
use adbc_driver_monetdb.RoundTrip.Pieces.{IsText}
use adbc_driver_monetdb.RoundTrip.Rows.{plain_row-null, plain_row-append_backref, plain_row-string}
use adbc_driver_monetdb.RoundTrip.Seen.{
  piece, IsValue, size, total_size, IsSeen, seen_next, null_next, IsSeen-next, encode_rows-cons,
}
use adbc_driver_monetdb.RoundTrip.Expanding.{prepend-ok, encode_rows_nil}
use native.Mathlib.Nat.{add-zero}

-- The first loop reads every value, or meets a back-reference and gives up.
abbrev pub Reads : List (Option Bytes) → Outcome DecodeError (Option (List (Option Bytes))) → Type 0
Reads values r = (r ≡ ok none) ⊎ (r ≡ ok (some values))

plain_null :
    (row len pos value_bytes : ℕ) (rest : Bytes) (null : Option ℕ)
    → IsUsize row
    → ((previous : ℕ) → null ≡ some previous → previous < row)
    → (plain_row row len pos (append_null row null [] ++ rest) value_bytes ≡ ok none)
      ⊎ (plain_row row len pos (append_null row null [] ++ rest) value_bytes
          ≡ ok (
              some (record {
                value = none;
                pos = pos + length (append_null row null []);
                rest = rest;
                value_bytes = value_bytes;
              })))
unfolding append_null
plain_null row len pos value_bytes rest null bound before = elim (Option-cases null) [
  | inl e ↦ rw e (inr (plain_row-null row len pos rest value_bytes))
  | inr (previous, e) ↦
      let lt = before previous e in
      elim (Bool-cases (ltb (row - previous) 64)) [
        | inl near ↦
            rw (e, near)
              (inl (
                plain_row-append_backref row len pos rest value_bytes (row - previous) (omega arith)
                  (omega arith)))
        | inr far ↦ rw (e, far) (inr (plain_row-null row len pos rest value_bytes))
      ]
]

plain_string :
    (row len pos value_bytes : ℕ) (rest : Bytes) (before : Option ℕ) (value : Bytes)
    → IsUsize row
    → ((previous : ℕ) → before ≡ some previous → previous < row)
    → IsText value
    → value_bytes + length value ≤ i32_max
    → (plain_row row len pos (append_string row before value [] ++ rest) value_bytes ≡ ok none)
      ⊎ (plain_row row len pos (append_string row before value [] ++ rest) value_bytes
          ≡ ok (
              some (record {
                value = some value;
                pos = pos + length (append_string row before value []);
                rest = rest;
                value_bytes = value_bytes + length value;
              })))
unfolding append_string
plain_string row len pos value_bytes rest none value bound before h small =
    inr (
      rw (append_assoc, length-append)
        (plain_row-string row len pos rest value_bytes value h small))
plain_string row len pos value_bytes rest (some previous) value bound before h small =
    let lt = before previous refl in
    inl (
      plain_row-append_backref row len pos rest value_bytes (row - previous) (omega arith)
        (omega arith))

plain_row_lem :
    (row len pos value_bytes : ℕ) (rest : Bytes) (history : List (Option Bytes))
    (seen : List (Bytes × ℕ)) (null : Option ℕ) (v : Option Bytes)
    → length history ≡ row
    → IsSeen history seen null
    → IsUsize row
    → IsValue v
    → value_bytes + size v ≤ i32_max
    → (plain_row row len pos (piece row seen null v ++ rest) value_bytes ≡ ok none)
      ⊎ (plain_row row len pos (piece row seen null v ++ rest) value_bytes
          ≡ ok (
              some (record {
                value = v;
                pos = pos + length (piece row seen null v);
                rest = rest;
                value_bytes = value_bytes + size v;
              })))
plain_row_lem row len pos value_bytes rest history seen null none count inv bound h small =
    rw add-zero (
      plain_null row len pos value_bytes rest null bound
        (λ previous e. omega (arith, (inv.nulls previous e).0)))
plain_row_lem row len pos value_bytes rest history seen null (some value) count inv bound h small =
    plain_string row len pos value_bytes rest (seen_at value seen) value bound
      (λ previous e. omega (arith, (inv.strings value previous e).0)) h small

module _ (left row len pos value_bytes : ℕ) (rest : Bytes) (builder : List (Option Bytes)) where
  plain_rows_stop :
      plain_row row len pos rest value_bytes ≡ ok none
      → plain_rows (suc left) row len pos rest value_bytes builder ≡ ok none
  unfolding plain_rows
  plain_rows_stop h = rw h

  plain_rows_step :
      (r : Row)
      → plain_row row len pos rest value_bytes ≡ ok (some r)
      → plain_rows (suc left) row len pos rest value_bytes builder
        ≡ plain_rows left (row + 1) len r.pos r.rest r.value_bytes (builder ++ r.value ∷ [])
  unfolding plain_rows
  plain_rows_step r h = rw h

  plain_rows_done :
      pos ≡ len → plain_rows zero row len pos rest value_bytes builder ≡ ok (some builder)
  unfolding plain_rows
  plain_rows_done h = ground arith

pub plain_rows_lem :
    (values : List (Option Bytes)) (row len pos value_bytes : ℕ) (tail : Bytes)
    (history : List (Option Bytes)) (seen : List (Bytes × ℕ)) (null : Option ℕ)
    → length history ≡ row
    → IsSeen history seen null
    → All IsValue values
    → row + length values < 2 ^ 64
    → encode_rows values row seen null [] ≡ ok tail
    → pos + length tail ≡ len
    → value_bytes + total_size values ≤ i32_max
    → Reads (history ++ values) (plain_rows (length values) row len pos tail value_bytes history)
plain_rows_lem [] row len pos value_bytes tail history seen null count inv valid fits enc here
      small =
    let at_end : pos ≡ len = omega (arith, ap length (encode_rows_nil row seen null tail enc)) in
    rw append-nil (inr (plain_rows_done 0 row len pos value_bytes tail history at_end))
plain_rows_lem (v ∷ values) row len pos value_bytes tail history seen null count inv (hv, valid)
      fits enc here small =
    let p = piece row seen null v in
    let (tail', enc', split) =
      prepend-ok p _ (sym (encode_rows-cons v values row seen null hv) ∙ enc) in
    let sizes : length tail ≡ length p + length tail' = ap length split ∙ length-append p tail' in
    let next : Reads ((history ++ v ∷ []) ++ values) _ =
      plain_rows_lem values (row + 1) len (pos + length p) (value_bytes + size v) tail'
        (history ++ v ∷ []) (seen_next row seen v) (null_next row null v)
        (omega (arith, length-append history (v ∷ [])))
        (IsSeen-next history seen null row v count inv) valid (omega arith) enc' (omega arith)
        (omega arith) in
    rw split
      (elim (plain_row_lem row len pos value_bytes tail' history seen null v count inv (omega arith)
        hv (omega arith)) [
          | inl stop ↦
              inl
                (plain_rows_stop (length values) row len pos value_bytes (p ++ tail') history stop)
          | inr read ↦
              rw
                (
                  plain_rows_step (length values) row len pos value_bytes (p ++ tail') history _
                      read,
                  ← append_assoc history (v ∷ []) values,
                )
                next
        ])
