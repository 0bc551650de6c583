-- ===== src/Encode/Strings.antt =====
-- `encode_strings` and `append_backref`. The reservations of capacity have no effect on the bytes.
use adbc_driver_monetdb.Prelude.{
  ℕ, zero, suc, ◌+◌, ◌-◌, ◌/◌, ◌%◌, Bool, true, false, ◌&&◌, ◌||◌, Option, none, some, List, [],
  ◌∷◌, ◌++◌, ltb, leb, ◌==◌, if◌then◌else◌, Bytes, Outcome, ok, err,
}
use adbc_driver_monetdb.Encode.Error.{EncodeError, invalid_value}

unfoldable pub bytes_eq : Bytes → Bytes → Bool
bytes_eq [] [] = true
bytes_eq [] (y ∷ ys) = false
bytes_eq (x ∷ xs) [] = false
bytes_eq (x ∷ xs) (y ∷ ys) = x == y && bytes_eq xs ys

unfoldable pub contains_nul : Bytes → Bool
contains_nul [] = false
contains_nul (b ∷ bs) = b == 0 || contains_nul bs

-- The map `seen`, newest entry first: `insert` overwrites, so a lookup reads the newest.
unfoldable pub seen_at : Bytes → List (Bytes × ℕ) → Option ℕ
seen_at value [] = none
seen_at value ((k, row) ∷ seen) = if bytes_eq k value then some row else seen_at value seen

-- The `loop` of `append_backref`, with fuel; ten groups of seven bits hold a `usize`.
unfoldable pub backref_groups : ℕ → ℕ → Bytes
backref_groups zero distance = []
backref_groups (suc fuel) distance =
    let rest = backref_groups fuel (distance / 128) in
    if distance / 128 == 0 then distance % 128 ∷ [] else (distance % 128 + 0x80) ∷ rest

unfoldable pub append_backref : ℕ → Bytes → Bytes
append_backref distance out =
    if leb distance 63
    then out ++ (0x80 + distance) ∷ []
    else out ++ 0x80 ∷ backref_groups 10 distance

-- `null`, the row of the last NULL, decides between a back-reference and the long form of zero.
unfoldable pub append_null : ℕ → Option ℕ → Bytes → Bytes
append_null row none out = out ++ 0x80 ∷ 0 ∷ []
append_null row (some previous) out =
    if ltb (row - previous) 64 then append_backref (row - previous) out else out ++ 0x80 ∷ 0 ∷ []

unfoldable pub append_string : ℕ → Option ℕ → Bytes → Bytes → Bytes
append_string row (some previous) value out = append_backref (row - previous) out
append_string row none value out = out ++ value ++ 0 ∷ []

unfoldable pub encode_rows :
    List (Option Bytes) → ℕ → List (Bytes × ℕ) → Option ℕ → Bytes → Outcome EncodeError Bytes
encode_rows [] row seen null out = ok out
encode_rows (none ∷ values) row seen null out =
    encode_rows values (row + 1) seen (some row) (append_null row null out)
encode_rows (some value ∷ values) row seen null out =
    let next =
      encode_rows values (row + 1) ((value, row) ∷ seen) null
        (append_string row (seen_at value seen) value out) in
    if contains_nul value then err (invalid_value row "string contains a NUL byte") else next

unfoldable pub encode_strings : List (Option Bytes) → Bytes → Outcome EncodeError Bytes
encode_strings values out = encode_rows values 0 [] none out
