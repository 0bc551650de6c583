-- ===== src/RoundTrip/Seen.antt =====
-- The state of the loop of `encode_strings`, and what the decoder reads back in it.
use adbc_driver_monetdb.Prelude.{
  ℕ, ◌+◌, ◌-◌, ◌<◌, ◌≡◌, refl, ◌∙◌, ◌⊎◌, inl, inr, true, Option, none, some, List, [], ◌∷◌, ◌++◌,
  append_assoc, arith, ltb, Bool-cases, Option-cases, Bytes, IsUsize, length, get_elem?,
  length-append, get_elem?-append_left, get_elem?-append_right, ok,
}
use adbc_driver_monetdb.Decode.Strings.{backref_row}
use adbc_driver_monetdb.Encode.Strings.{
  bytes_eq, seen_at, append_null, append_string, encode_rows, append_backref,
}
use adbc_driver_monetdb.RoundTrip.Rows.{
  backref_row-null, backref_row-append_backref, backref_row-string,
}
use adbc_driver_monetdb.RoundTrip.Pieces.{IsText, prepend, encode_rows-prepend}

abbrev pub IsValue : Option Bytes → Type 0
IsValue none = Unit
IsValue (some value) = IsText value

-- The bytes of all values, which Arrow's offsets count.
abbrev pub size : Option Bytes → ℕ
size none = 0
size (some value) = length value

abbrev pub total_size : List (Option Bytes) → ℕ
total_size [] = 0
total_size (v ∷ values) = size v + total_size values

-- What the encoder remembers is true of the values that it has written.
pub record IsSeen (history : List (Option Bytes)) (seen : List (Bytes × ℕ)) (null : Option ℕ)
    : Type 0 where
  pub strings :
      (value : Bytes) (i : ℕ)
      → seen_at value seen ≡ some i
      → (i < length history) × (get_elem? history i ≡ some (some value))
  pub nulls : (i : ℕ) → null ≡ some i → (i < length history) × (get_elem? history i ≡ some none)

bytes_eq→eq : (a b : Bytes) → bytes_eq a b ≡ true → a ≡ b
unfolding bytes_eq
bytes_eq→eq [] [] h = refl
bytes_eq→eq [] (y ∷ ys) h = cc
bytes_eq→eq (x ∷ xs) [] h = cc
bytes_eq→eq (x ∷ xs) (y ∷ ys) h = ground (arith, bytes_eq→eq xs ys)

module _ (history : List (Option Bytes)) where
  keep :
      (v w : Option Bytes) (i : ℕ)
      → (i < length history) × (get_elem? history i ≡ some w)
      → (i < length (history ++ v ∷ [])) × (get_elem? (history ++ v ∷ []) i ≡ some w)
  keep v w i (lt, found) = (
    omega (arith, length-append history (v ∷ [])),
    get_elem?-append_left history (v ∷ []) i lt ∙ found,
  )

  last :
      (v : Option Bytes) (i : ℕ)
      → length history ≡ i
      → (i < length (history ++ v ∷ [])) × (get_elem? (history ++ v ∷ []) i ≡ some v)
  last v i e =
      let at_end : length history + 0 ≡ i = omega arith in
      (
        omega (arith, length-append history (v ∷ [])),
        rw at_end at (get_elem?-append_right history (v ∷ []) 0),
      )

IsSeen-null :
    (history : List (Option Bytes)) (seen : List (Bytes × ℕ)) (null : Option ℕ) (row : ℕ)
    → length history ≡ row
    → IsSeen history seen null
    → IsSeen (history ++ none ∷ []) seen (some row)
IsSeen-null history seen null row e h = record {
  strings = λ value i found. keep history none (some value) i (h.strings value i found);
  nulls = λ i found. last history none i (cc);
}

seen_at-cons :
    (value value' : Bytes) (row i : ℕ) (seen : List (Bytes × ℕ))
    → seen_at value' ((value, row) ∷ seen) ≡ some i
    → ((value ≡ value') × (row ≡ i)) ⊎ (seen_at value' seen ≡ some i)
unfolding seen_at
seen_at-cons value value' row i seen h = elim (Bool-cases (bytes_eq value value')) [
  | inl same ↦ inl (bytes_eq→eq value value' same, ground arith)
  | inr other ↦ inr (rw other at h)
]

IsSeen-string :
    (history : List (Option Bytes)) (seen : List (Bytes × ℕ)) (null : Option ℕ) (row : ℕ)
    (value : Bytes)
    → length history ≡ row
    → IsSeen history seen null
    → IsSeen (history ++ some value ∷ []) ((value, row) ∷ seen) null
IsSeen-string history seen null row value e h = record {
  strings = λ value' i found. elim (seen_at-cons value value' row i seen found) [
    | inl (same, here) ↦ rw (← same) (last history (some value) i (e ∙ here))
    | inr older ↦ keep history (some value) (some value') i (h.strings value' i older)
  ];
  nulls = λ i found. keep history (some value) none i (h.nulls i found);
}

-- What the encoder appends for a value in a state of its loop, and the state behind it.
abbrev pub piece : ℕ → List (Bytes × ℕ) → Option ℕ → Option Bytes → Bytes
piece row seen null none = append_null row null []
piece row seen null (some value) = append_string row (seen_at value seen) value []

abbrev pub seen_next : ℕ → List (Bytes × ℕ) → Option Bytes → List (Bytes × ℕ)
seen_next row seen none = seen
seen_next row seen (some value) = (value, row) ∷ seen

abbrev pub null_next : ℕ → Option ℕ → Option Bytes → Option ℕ
null_next row null none = some row
null_next row null (some value) = null

pub IsSeen-next :
    (history : List (Option Bytes)) (seen : List (Bytes × ℕ)) (null : Option ℕ) (row : ℕ)
    (v : Option Bytes)
    → length history ≡ row
    → IsSeen history seen null
    → IsSeen (history ++ v ∷ []) (seen_next row seen v) (null_next row null v)
IsSeen-next history seen null row none e h = IsSeen-null history seen null row e h
IsSeen-next history seen null row (some value) e h = IsSeen-string history seen null row value e h

pub encode_rows-cons :
    (v : Option Bytes) (values : List (Option Bytes)) (row : ℕ) (seen : List (Bytes × ℕ))
    (null : Option ℕ)
    → IsValue v
    → encode_rows (v ∷ values) row seen null []
      ≡ prepend
          (piece row seen null v)
          (encode_rows values (row + 1) (seen_next row seen v) (null_next row null v) [])
encode_rows-cons none values row seen null h =
    unfold encode_rows in
    encode_rows-prepend values (row + 1) seen (some row) (append_null row null [])
encode_rows-cons (some value) values row seen null h =
    unfold encode_rows in
    rw h.1 (
      encode_rows-prepend values (row + 1) ((value, row) ∷ seen) null
        (append_string row (seen_at value seen) value []))

module _ (row len pos : ℕ) (rest : Bytes) (history : List (Option Bytes)) (seen : List (Bytes × ℕ))
    (null : Option ℕ) (count : length history ≡ row) (inv : IsSeen history seen null)
    (bound : IsUsize row) where
  -- A distance to a row that the encoder remembers.
  read_back :
      (previous : ℕ) {v : Option Bytes}
      → (previous < length history) × (get_elem? history previous ≡ some v)
      → backref_row row len pos (append_backref (row - previous) [] ++ rest) history
        ≡ ok (v, pos + length (append_backref (row - previous) []), rest)
  read_back previous (lt, found) =
      let back : row - (row - previous) ≡ previous = omega arith in
      backref_row-append_backref row len pos rest history (row - previous) (omega arith)
        (omega arith) (omega arith) (rw back found)

  read_null :
      backref_row row len pos (append_null row null [] ++ rest) history
      ≡ ok (none, pos + length (append_null row null []), rest)
  unfolding append_null
  read_null = elim (Option-cases null) [
    | inl e ↦ rw e (backref_row-null row len pos rest history)
    | inr (previous, e) ↦ elim (Bool-cases (ltb (row - previous) 64)) [
      | inl near ↦ rw (e, near) (read_back previous (inv.nulls previous e))
      | inr far ↦ rw (e, far) (backref_row-null row len pos rest history)
    ]
  ]

  read_string :
      (value : Bytes)
      → IsText value
      → backref_row row len pos (append_string row (seen_at value seen) value [] ++ rest) history
        ≡ ok (some value, pos + length (append_string row (seen_at value seen) value []), rest)
  unfolding append_string
  read_string value h = elim (Option-cases (seen_at value seen)) [
    | inl e ↦
        rw (e, append_assoc, length-append) (backref_row-string row len pos rest history value h)
    | inr (previous, e) ↦ rw e (read_back previous (inv.strings value previous e))
  ]

  pub read_piece :
      (v : Option Bytes)
      → IsValue v
      → backref_row row len pos (piece row seen null v ++ rest) history
        ≡ ok (v, pos + length (piece row seen null v), rest)
  read_piece none h = read_null
  read_piece (some value) h = read_string value h
