-- ===== src/RoundTrip/Fixed.antt =====
-- Columns of values of one width: where a value round trips, a column does.
use adbc_driver_monetdb.Prelude.{
  ℕ, ◌+◌, ◌*◌, ◌^◌, ◌<◌, ◌≡◌, refl, sym, ap, ◌∙◌, List, [], ◌∷◌, ◌++◌, append-nil, append_assoc,
  arith, Bytes, All, length, length-append, take, drop, take-length_append, drop-length_append,
  Outcome, >>=-eq-ok, ok,
}
use adbc_driver_monetdb.Decode.Error.{DecodeError}
use adbc_driver_monetdb.Encode.Error.{EncodeError}
use adbc_driver_monetdb.Decode.Fixed.{decode_fixed, each_chunk, expect_fixed}
use adbc_driver_monetdb.Encode.Fixed.{each_row}
use mathlib.Core.Path.{subst}

-- What one round appends for a value of a kind is of the width, and is read as the value.
abbrev pub IsCodec :
    {A : Type 0}
    → (A → Type 0)
    → (ℕ → A → Bytes → Outcome EncodeError Bytes)
    → (ℕ → Bytes → Outcome DecodeError A)
    → ℕ
    → Type 0
IsCodec {A} Good append value width =
    (row row' : ℕ) (v : A) (out out' : Bytes)
    → Good v
    → append row v out ≡ ok out'
    → (chunk : Bytes) × (out' ≡ out ++ chunk) × (length chunk ≡ width) × (value row' chunk ≡ ok v)

pub expect_fixed-ok :
    (bytes : Bytes) (rows width : ℕ)
    → length bytes ≡ rows * width
    → rows * width < 2 ^ 64
    → expect_fixed bytes rows width ≡ ok tt
unfolding expect_fixed
expect_fixed-ok bytes rows width n small = ground arith

module _ {A : Type 0} (Good : A → Type 0) (append : ℕ → A → Bytes → Outcome EncodeError Bytes)
    (value : ℕ → Bytes → Outcome DecodeError A) (width : ℕ)
    (codec : IsCodec Good append value width) where
  each_chunk-each_row :
      (row row' : ℕ) (vs : List A) (out out' : Bytes)
      → All Good vs
      → each_row append row vs out ≡ ok out'
      → (bytes : Bytes) × (out' ≡ out ++ bytes)
        × (length bytes ≡ length vs * width)
        × (each_chunk value width row' (length vs) bytes ≡ ok vs)
  unfolding each_row each_chunk
  each_chunk-each_row row row' [] out out' g h =
      ([], (let e : out ≡ out' = cc in sym e ∙ sym (append-nil out)), omega arith, refl)
  each_chunk-each_row row row' (v ∷ vs) out out' (g, gs) h =
      let (mid, e, h') = >>=-eq-ok (append row v out) (λ o. each_row append (row + 1) vs o) h in
      let (chunk, m, n, d) = codec row row' v out mid g e in
      let (bytes, m', n', d') = each_chunk-each_row (row + 1) (row' + 1) vs mid out' gs h' in
      let t : take width (chunk ++ bytes) ≡ chunk = rw (sym n) (take-length_append chunk bytes) in
      let r : drop width (chunk ++ bytes) ≡ bytes = rw (sym n) (drop-length_append chunk bytes) in
      (
        chunk ++ bytes,
        simp (m', m, append_assoc),
        omega (arith, length-append chunk bytes, n, n'),
        simp (t, r, d, d'),
      )

  -- A column that is written is read back.
  pub decode_fixed-each_row :
      (vs : List A) (bytes : Bytes)
      → All Good vs
      → length vs * width < 2 ^ 64
      → each_row append 0 vs [] ≡ ok bytes
      → decode_fixed value width bytes (length vs) ≡ ok vs
  unfolding decode_fixed
  decode_fixed-each_row vs bytes g small h =
      let (b, m, n, d) = each_chunk-each_row 0 0 vs [] bytes g h in
      let n' : length bytes ≡ length vs * width = ap length m ∙ n in
      let d' = subst (λ x. each_chunk value width 0 (length vs) x ≡ ok vs) (sym m) d in
      simp (expect_fixed-ok bytes (length vs) width n' small, d')
