-- ===== src/RoundTrip/Expanding.antt =====
-- The second loop of the decoder, which expands back-references, on an encoded column.
use adbc_driver_monetdb.Prelude.{
  ℕ, zero, suc, ◌+◌, ◌^◌, ◌≤◌, ◌<◌, ◌≡◌, refl, sym, ap, ◌∙◌, Option, none, some, List, [], ◌∷◌,
  ◌++◌, append-nil, append_assoc, arith, Bytes, All, length, length-append, Outcome, ok, err, panic,
}
use adbc_driver_monetdb.Decode.Error.{i32_max}
use adbc_driver_monetdb.Decode.Strings.{expand, backref_rows, backref_row}
use adbc_driver_monetdb.Encode.Error.{EncodeError}
use adbc_driver_monetdb.Encode.Strings.{encode_rows}
use adbc_driver_monetdb.RoundTrip.Pieces.{prepend}
use adbc_driver_monetdb.RoundTrip.Seen.{
  piece, IsValue, size, total_size, IsSeen, seen_next, null_next, IsSeen-next, encode_rows-cons,
  read_piece,
}
use native.Mathlib.Nat.{add-zero}

pub prepend-ok :
    (out : Bytes) (r : Outcome EncodeError Bytes) {all : Bytes}
    → prepend out r ≡ ok all
    → (tail : Bytes) × (r ≡ ok tail) × (all ≡ out ++ tail)
prepend-ok out (ok tail) h = (tail, refl, cc)
prepend-ok out (err e) h = cc
prepend-ok out panic h = cc

expand_lem :
    (row limit value_bytes : ℕ) (v : Option Bytes)
    → value_bytes + size v ≤ i32_max
    → value_bytes + size v ≤ limit
    → expand row limit value_bytes v ≡ ok (value_bytes + size v)
unfolding expand
expand_lem row limit value_bytes none h k = rw add-zero
expand_lem row limit value_bytes (some value) h k = ground arith

pub encode_rows_nil :
    (row : ℕ) (seen : List (Bytes × ℕ)) (null : Option ℕ) (tail : Bytes)
    → encode_rows [] row seen null [] ≡ ok tail
    → tail ≡ []
unfolding encode_rows
encode_rows_nil row seen null tail h = cc

module _ (row len limit pos value_bytes : ℕ) (rest : Bytes) (history : List (Option Bytes)) where
  backref_rows_done :
      pos ≡ len → backref_rows zero row len limit pos rest value_bytes history ≡ ok history
  unfolding backref_rows
  backref_rows_done h = ground arith

module _ (left row len limit pos value_bytes : ℕ) (rest : Bytes)
    (history : List (Option Bytes)) where
  backref_rows_step :
      {v : Option Bytes} {pos' total : ℕ} {rest' : Bytes}
      → backref_row row len pos rest history ≡ ok (v, pos', rest')
      → expand row limit value_bytes v ≡ ok total
      → backref_rows (suc left) row len limit pos rest value_bytes history
        ≡ backref_rows left (row + 1) len limit pos' rest' total (history ++ v ∷ [])
  unfolding backref_rows
  backref_rows_step h k = rw (h, k)

-- The second loop reads every value.
pub backref_rows_lem :
    (values : List (Option Bytes)) (row len limit pos value_bytes : ℕ) (tail : Bytes)
    (history : List (Option Bytes)) (seen : List (Bytes × ℕ)) (null : Option ℕ)
    → length history ≡ row
    → IsSeen history seen null
    → All IsValue values
    → row + length values < 2 ^ 64
    → encode_rows values row seen null [] ≡ ok tail
    → pos + length tail ≡ len
    → value_bytes + total_size values ≤ i32_max
    → value_bytes + total_size values ≤ limit
    → backref_rows (length values) row len limit pos tail value_bytes history
      ≡ ok (history ++ values)
backref_rows_lem [] row len limit pos value_bytes tail history seen null count inv valid fits enc
      here small under =
    let at_end : pos ≡ len = omega (arith, ap length (encode_rows_nil row seen null tail enc)) in
    rw append-nil (backref_rows_done row len limit pos value_bytes tail history at_end)
backref_rows_lem (v ∷ values) row len limit pos value_bytes tail history seen null count inv
      (hv, valid) fits enc here small under =
    let p = piece row seen null v in
    let (tail', enc', split) =
      prepend-ok p _ (sym (encode_rows-cons v values row seen null hv) ∙ enc) in
    let sizes : length tail ≡ length p + length tail' = ap length split ∙ length-append p tail' in
    rw split (
      backref_rows_step (length values) row len limit pos value_bytes (p ++ tail') history
        (read_piece row len pos tail' history seen null count inv (omega arith) v hv)
        (expand_lem row limit value_bytes v (omega arith) (omega arith))
      ∙ backref_rows_lem values (row + 1) len limit (pos + length p) (value_bytes + size v) tail'
          (history ++ v ∷ []) (seen_next row seen v) (null_next row null v)
          (omega (arith, length-append history (v ∷ [])))
          (IsSeen-next history seen null row v count inv) valid (omega arith) enc' (omega arith)
          (omega arith) (omega arith)
      ∙ ap ok (append_assoc history (v ∷ []) values))
