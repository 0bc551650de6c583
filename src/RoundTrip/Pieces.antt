-- ===== src/RoundTrip/Pieces.antt =====
-- What `encode_strings` appends for one row, and how each decoder reads it.
use adbc_driver_monetdb.Prelude.{
  ℕ, suc, ◌+◌, ◌-◌, ◌≡◌, refl, sym, ap, ◌∙◌, inl, inr, true, false, Option, none, some, List, [],
  ◌∷◌, ◌++◌, append-nil, append_assoc, arith, Bool-cases, Bytes, length, drop, take-length_append,
  is_utf8, Outcome, ok, err, panic,
}
use adbc_driver_monetdb.Decode.Strings.{find_nul, literal}
use adbc_driver_monetdb.Encode.Error.{EncodeError}
use adbc_driver_monetdb.Encode.Strings.{
  append_backref, contains_nul, append_null, append_string, encode_rows, seen_at,
}

-- A value that the encoder accepts: valid UTF-8 with no NUL.
abbrev pub IsText : Bytes → Type 0
IsText value = (is_utf8 value ≡ true) × (contains_nul value ≡ false)

find_nul-append :
    (value rest : Bytes)
    → contains_nul value ≡ false
    → find_nul (value ++ 0 ∷ rest) ≡ some (length value)
unfolding find_nul contains_nul
find_nul-append [] rest h = refl
find_nul-append (b ∷ value) rest h = ground (arith, find_nul-append value rest)

pub drop-nul : (value rest : Bytes) → drop (length value + 1) (value ++ 0 ∷ rest) ≡ rest
drop-nul [] rest = refl
drop-nul (b ∷ value) rest =
    let e : suc (length value) + 1 ≡ suc (length value + 1) = omega arith in
    rw e (drop-nul value rest)

pub literal_lem :
    (row : ℕ) (value rest : Bytes)
    → IsText value
    → literal row (value ++ 0 ∷ rest) ≡ ok (value, length value)
unfolding literal
literal_lem row value rest (valid, no_nul) =
    rw (find_nul-append value rest no_nul, take-length_append, valid)

-- The loop of the encoder only appends.
append_backref-append :
    (distance : ℕ) (out : Bytes) → append_backref distance out ≡ out ++ append_backref distance []
unfolding append_backref
append_backref-append distance out = ground arith

append_null-append :
    (row : ℕ) (null : Option ℕ) (out : Bytes)
    → append_null row null out ≡ out ++ append_null row null []
unfolding append_null append_backref
append_null-append row null out = ground arith

append_string-append :
    (row : ℕ) (previous : Option ℕ) (value out : Bytes)
    → append_string row previous value out ≡ out ++ append_string row previous value []
unfolding append_string append_backref
append_string-append row none value out = append_assoc out value (0 ∷ [])
append_string-append row (some previous) value out = append_backref-append (row - previous) out

abbrev pub prepend : Bytes → Outcome EncodeError Bytes → Outcome EncodeError Bytes
prepend out (ok tail) = ok (out ++ tail)
prepend out (err e) = err e
prepend out panic = panic

prepend-prepend :
    (a b : Bytes) (r : Outcome EncodeError Bytes) → prepend (a ++ b) r ≡ prepend a (prepend b r)
prepend-prepend a b (ok tail) = ap ok (append_assoc a b tail)
prepend-prepend a b (err e) = refl
prepend-prepend a b panic = refl

-- Behind any state of the loop, what was written before stays in front.
pub encode_rows-prepend :
    (values : List (Option Bytes)) (row : ℕ) (seen : List (Bytes × ℕ)) (null : Option ℕ)
    (out : Bytes)
    → encode_rows values row seen null out ≡ prepend out (encode_rows values row seen null [])
unfolding encode_rows
encode_rows-prepend [] row seen null out = ap ok (sym (append-nil out))
encode_rows-prepend (none ∷ values) row seen null out =
    let rest = encode_rows values (row + 1) seen (some row) in
    let piece = append_null row null [] in
    (encode_rows-prepend values (row + 1) seen (some row) (append_null row null out)
      ∙ ap (λ o. prepend o (rest [])) (append_null-append row null out)
      ∙ prepend-prepend out piece (rest [])
      ∙ ap (prepend out) (sym (encode_rows-prepend values (row + 1) seen (some row) piece)))
encode_rows-prepend (some value ∷ values) row seen null out =
    let before = seen_at value seen in
    let seen' : List (Bytes × ℕ) = (value, row) ∷ seen in
    let rest = encode_rows values (row + 1) seen' null in
    let piece = append_string row before value [] in
    let next =
      encode_rows-prepend values (row + 1) seen' null (append_string row before value out)
      ∙ ap (λ o. prepend o (rest [])) (append_string-append row before value out)
      ∙ prepend-prepend out piece (rest [])
      ∙ ap (prepend out) (sym (encode_rows-prepend values (row + 1) seen' null piece)) in
    elim (Bool-cases (contains_nul value)) [ inl nul ↦ rw nul | inr free ↦ rw free next ]
