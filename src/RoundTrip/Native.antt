-- ===== src/RoundTrip/Native.antt =====
-- `copy_native_with_nulls` writes the rows one after the other.
use adbc_driver_monetdb.Prelude.{
  ℕ, ◌+◌, ◌*◌, ◌≡◌, refl, sym, ap, ◌∙◌, inl, inr, Option, none, some, List, [], ◌∷◌, ◌++◌,
  append_assoc, arith, ◌==◌, Bool-cases, Bytes, le_bytes, length-le_bytes, write_at, length,
  length-append, drop, take-length_append, drop-length_append,
}
use mathlib.Core.Path.{subst}
use native.Mathlib.Nat.{suc-mul}
use adbc_driver_monetdb.Encode.Plains.{
  native_values, null_count, write_nulls, copy_native_with_nulls,
}

-- The rows one after the other, with the sentinel where there is no value.
abbrev pub rows_of : ℕ → ℕ → List (Option ℕ) → Bytes
rows_of width null [] = []
rows_of width null (none ∷ values) = le_bytes width null ++ rows_of width null values
rows_of width null (some value ∷ values) = le_bytes width value ++ rows_of width null values

write_at-behind :
    (front old new back : Bytes)
    → length old ≡ length new
    → write_at (length front) new (front ++ (old ++ back)) ≡ (front ++ new) ++ back
write_at-behind front old new back same =
    let whole : front ++ (old ++ back) ≡ (front ++ old) ++ back =
      sym (append_assoc front old back) in
    let place : length front + length new ≡ length (front ++ old) =
      omega (arith, length-append front old, same) in
    let t = take-length_append front (old ++ back) in
    let d : drop (length front + length new) (front ++ (old ++ back)) ≡ back =
      subst (λ k. drop k (front ++ (old ++ back)) ≡ back) (sym place)
        (subst (λ x. drop (length (front ++ old)) x ≡ back) (sym whole)
          (drop-length_append (front ++ old) back)) in
    rw (t, d) (sym (append_assoc front new back))

write_nulls-rows :
    (width null start row : ℕ) (values : List (Option ℕ)) (front : Bytes)
    → length front ≡ start + row * width
    → write_nulls width (le_bytes width null) start row values (front ++ native_values width values)
      ≡ front ++ rows_of width null values
unfolding write_nulls native_values
write_nulls-rows width null start row [] front h = refl
write_nulls-rows width null start row (none ∷ values) front h =
    let next : start + (row + 1) * width ≡ start + row * width + width =
      omega (arith, suc-mul row width) in
    let len = length-le_bytes width null in
    let len0 = length-le_bytes width 0 in
    let written =
      write_at-behind front (le_bytes width 0) (le_bytes width null) (native_values width values)
        (len0 ∙ sym len) in
    let at = rw h at written in
    ap (write_nulls width (le_bytes width null) start (row + 1) values) at
    ∙ write_nulls-rows width null start (row + 1) values (front ++ le_bytes width null)
        (omega (arith, next, h, len, length-append front (le_bytes width null)))
    ∙ append_assoc front (le_bytes width null) (rows_of width null values)
write_nulls-rows width null start row (some value ∷ values) front h =
    let next : start + (row + 1) * width ≡ start + row * width + width =
      omega (arith, suc-mul row width) in
    let len = length-le_bytes width value in
    ap (write_nulls width (le_bytes width null) start (row + 1) values)
      (sym (append_assoc front (le_bytes width value) (native_values width values)))
    ∙ write_nulls-rows width null start (row + 1) values (front ++ le_bytes width value)
        (omega (arith, next, h, len, length-append front (le_bytes width value)))
    ∙ append_assoc front (le_bytes width value) (rows_of width null values)

native_values-rows :
    (width null : ℕ) (values : List (Option ℕ))
    → null_count values ≡ 0
    → native_values width values ≡ rows_of width null values
unfolding null_count native_values
native_values-rows width null [] h = refl
native_values-rows width null (none ∷ values) h = absurd (omega (arith, h))
native_values-rows width null (some value ∷ values) h =
    ap (λ rest. le_bytes width value ++ rest) (native_values-rows width null values h)

pub copy_native-rows :
    (width null : ℕ) (values : List (Option ℕ)) (out : Bytes)
    → copy_native_with_nulls width null values out ≡ out ++ rows_of width null values
unfolding copy_native_with_nulls
copy_native-rows width null values out = elim (Bool-cases (null_count values == 0)) [
  | inl full ↦
      rw (copy_native_with_nulls, full)
        (ap (λ rest. out ++ rest) (native_values-rows width null values (ground arith)))
  | inr nulls ↦
      rw (copy_native_with_nulls, nulls)
        (write_nulls-rows width null (length out) 0 values out (omega arith))
]
