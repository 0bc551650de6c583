-- ===== src/RoundTrip/Strings.antt =====
-- `decode_strings` reads back what `encode_strings` wrote.
use adbc_driver_monetdb.Prelude.{
  ℕ, ◌+◌, ◌-◌, ◌≤◌, ◌≡◌, refl, sym, ap, ◌∙◌, inl, inr, Option, none, some, List, [], ◌∷◌, arith,
  Option-cases, Bytes, All, length, length-append, ok,
}
use adbc_driver_monetdb.Decode.Error.{i32_max}
use adbc_driver_monetdb.Decode.Strings.{
  decode_strings_without_backrefs, expansion_limit, decode_strings_with_backrefs, decode_strings,
}
use adbc_driver_monetdb.Encode.Strings.{
  seen_at, append_null, append_string, encode_rows, append_backref, encode_strings,
}
use adbc_driver_monetdb.RoundTrip.Seen.{
  piece, IsValue, total_size, IsSeen, seen_next, null_next, encode_rows-cons,
}
use adbc_driver_monetdb.RoundTrip.Expanding.{prepend-ok, backref_rows_lem}
use adbc_driver_monetdb.RoundTrip.Plain.{plain_rows_lem, Reads}

encode_rows_total :
    (values : List (Option Bytes)) (row : ℕ) (seen : List (Bytes × ℕ)) (null : Option ℕ)
    (out : Bytes)
    → All IsValue values
    → (bytes : Bytes) × (encode_rows values row seen null out ≡ ok bytes)
unfolding encode_rows
encode_rows_total [] row seen null out h = (out, refl)
encode_rows_total (none ∷ values) row seen null out (h, valid) =
    encode_rows_total values (row + 1) seen (some row) (append_null row null out) valid
encode_rows_total (some value ∷ values) row seen null out (h, valid) = rw h.1 (
    encode_rows_total values (row + 1) ((value, row) ∷ seen) null
      (append_string row (seen_at value seen) value out) valid)

append_backref-length : (distance : ℕ) → 1 ≤ length (append_backref distance [])
unfolding append_backref
append_backref-length distance = ground arith

piece-length :
    (row : ℕ) (seen : List (Bytes × ℕ)) (null : Option ℕ) (v : Option Bytes)
    → 1 ≤ length (piece row seen null v)
unfolding append_null append_string
piece-length row seen none none = omega arith
piece-length row seen (some previous) none = ground (arith, append_backref-length (row - previous))
piece-length row seen null (some value) = elim (Option-cases (seen_at value seen)) [
  | inl e ↦ rw (e, length-append) (omega arith)
  | inr (previous, e) ↦ rw e (append_backref-length (row - previous))
]

rows-le-bytes :
    (values : List (Option Bytes)) (row : ℕ) (seen : List (Bytes × ℕ)) (null : Option ℕ)
    (tail : Bytes)
    → All IsValue values
    → encode_rows values row seen null [] ≡ ok tail
    → length values ≤ length tail
rows-le-bytes [] row seen null tail valid enc = omega arith
rows-le-bytes (v ∷ values) row seen null tail (hv, valid) enc =
    let p = piece row seen null v in
    let (tail', enc', split) =
      prepend-ok p _ (sym (encode_rows-cons v values row seen null hv) ∙ enc) in
    omega (
      arith,
      ap length split ∙ length-append p tail',
      piece-length row seen null v,
      rows-le-bytes values (row + 1) (seen_next row seen v) (null_next row null v) tail' valid enc',
    )

IsSeen-start : IsSeen [] [] none
unfolding seen_at
IsSeen-start = record { strings = λ value i h. cc; nulls = λ i h. cc }

-- A column whose strings are valid UTF-8 with no NUL byte is encoded.
encode_strings_total :
    (values : List (Option Bytes)) (out : Bytes)
    → All IsValue values
    → (bytes : Bytes) × (encode_strings values out ≡ ok bytes)
unfolding encode_strings
encode_strings_total values out valid = encode_rows_total values 0 [] none out valid

decode_strings_both :
    (bytes : Bytes) (rows : ℕ) (values : List (Option Bytes))
    → rows ≤ length bytes
    → length bytes ≤ i32_max
    → Reads values (decode_strings_without_backrefs bytes rows)
    → decode_strings_with_backrefs bytes rows ≡ ok values
    → decode_strings bytes rows ≡ ok values
unfolding decode_strings
decode_strings_both bytes rows values enough small (inl stop) all = ground arith
decode_strings_both bytes rows values enough small (inr read) all = ground arith

-- A column of NULLs and of strings that are valid UTF-8 with no NUL byte is read back from what
-- `encode_strings` wrote for it, back-references included, when the wire column and the strings fit
-- Arrow's 32-bit offsets and the strings are within the decoder's limit on expansion.
pub decode_strings-encode_strings :
    (values : List (Option Bytes)) (bytes : Bytes)
    → All IsValue values
    → encode_strings values [] ≡ ok bytes
    → length bytes ≤ i32_max
    → total_size values ≤ i32_max
    → total_size values ≤ expansion_limit (length bytes)
    → decode_strings bytes (length values) ≡ ok values
unfolding encode_strings decode_strings_without_backrefs decode_strings_with_backrefs
decode_strings-encode_strings values bytes valid enc small total under =
    let rows = rows-le-bytes values 0 [] none bytes valid enc in
    decode_strings_both bytes (length values) values rows small
      (plain_rows_lem values 0 (length bytes) 0 0 bytes [] [] none refl IsSeen-start valid
        (omega arith) enc (omega arith) (omega arith))
      (backref_rows_lem values 0 (length bytes) (expansion_limit (length bytes)) 0 0 bytes [] []
        none refl IsSeen-start valid (omega arith) enc (omega arith) (omega arith) (omega arith))
