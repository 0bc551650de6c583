-- ===== src/RoundTrip/Rows.antt =====
-- One row of each decoder on what the encoder wrote for it.
use adbc_driver_monetdb.Prelude.{
  ℕ, ◌+◌, ◌-◌, ◌≤◌, ◌≡◌, Option, none, some, List, [], ◌∷◌, ◌++◌, arith, Bytes, IsUsize, length,
  get_elem?, drop-length_append, is_utf8-head, ok,
}
use adbc_driver_monetdb.Decode.Error.{i32_max}
use adbc_driver_monetdb.Decode.Strings.{backref_row, long_backref, plain_row, backref_value}
use adbc_driver_monetdb.Encode.Strings.{append_backref, backref_groups}
use adbc_driver_monetdb.RoundTrip.Backrefs.{long_backref-groups}
use adbc_driver_monetdb.RoundTrip.Pieces.{IsText, literal_lem, drop-nul}

long_backref_zero : (row : ℕ) (rest : Bytes) → long_backref (0 ∷ rest) row ≡ ok (0, 1)
unfolding backref_groups
long_backref_zero row rest = long_backref-groups 0 row rest (omega arith)

module _ (row len pos : ℕ) (rest : Bytes) (history : List (Option Bytes)) where
  backref_value_lem :
      (distance : ℕ) {value : Option Bytes}
      → distance ≤ row
      → get_elem? history (row - distance) ≡ some value
      → backref_value history row distance ≡ ok value
  unfolding backref_value
  backref_value_lem distance h found = ground arith

  -- A distance, short or long, is read as the value that far back.
  pub backref_row-append_backref :
      (distance : ℕ) {value : Option Bytes}
      → 1 ≤ distance
      → distance ≤ row
      → IsUsize distance
      → get_elem? history (row - distance) ≡ some value
      → backref_row row len pos (append_backref distance [] ++ rest) history
        ≡ ok (value, pos + length (append_backref distance []), rest)
  unfolding backref_row append_backref
  backref_row-append_backref distance lo hi fits found = ground (
    arith,
    backref_value_lem distance hi found,
    long_backref-groups distance row rest fits,
    drop-length_append (backref_groups 10 distance) rest,
  )

  pub backref_row-null :
      backref_row row len pos (0x80 ∷ 0 ∷ rest) history ≡ ok (none, pos + 2, rest)
  unfolding backref_row
  backref_row-null =
      let read : long_backref (0 ∷ rest) row ≡ ok (0, 1) = long_backref_zero row rest in rw read

  pub backref_row-string :
      (value : Bytes)
      → IsText value
      → backref_row row len pos (value ++ 0 ∷ rest) history
        ≡ ok (some value, pos + (length value + 1), rest)
  unfolding backref_row
  backref_row-string [] h = ground (arith, literal_lem row [] rest h)
  backref_row-string (b ∷ value) h =
      ground (arith, is_utf8-head b value, literal_lem row (b ∷ value) rest h, drop-nul value rest)

module _ (row len pos : ℕ) (rest : Bytes) (value_bytes : ℕ) where
  -- At a back-reference the first loop gives up.
  pub plain_row-append_backref :
      (distance : ℕ)
      → 1 ≤ distance
      → IsUsize distance
      → plain_row row len pos (append_backref distance [] ++ rest) value_bytes ≡ ok none
  unfolding plain_row append_backref
  plain_row-append_backref distance lo fits =
      ground (arith, long_backref-groups distance row rest fits)

  pub plain_row-null :
      plain_row row len pos (0x80 ∷ 0 ∷ rest) value_bytes
      ≡ ok (some (record { value = none; pos = pos + 2; rest = rest; value_bytes = value_bytes }))
  unfolding plain_row
  plain_row-null =
      let read : long_backref (0 ∷ rest) row ≡ ok (0, 1) = long_backref_zero row rest in rw read

  pub plain_row-string :
      (value : Bytes)
      → IsText value
      → value_bytes + length value ≤ i32_max
      → plain_row row len pos (value ++ 0 ∷ rest) value_bytes
        ≡ ok (
            some (record {
              value = some value;
              pos = pos + (length value + 1);
              rest = rest;
              value_bytes = value_bytes + length value;
            }))
  unfolding plain_row
  plain_row-string [] h fits = ground (arith, literal_lem row [] rest h)
  plain_row-string (b ∷ value) h fits =
      ground (arith, is_utf8-head b value, literal_lem row (b ∷ value) rest h, drop-nul value rest)
