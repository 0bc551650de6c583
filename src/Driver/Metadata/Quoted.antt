-- ===== src/Driver/Metadata/Quoted.antt =====
-- The values of a metadata filter stay inside their quotes.
use adbc_driver_monetdb.Prelude.{
  ◌≡◌, refl, sym, ap, ◌∙◌, inl, inr, false, some, List, [], ◌∷◌, ◌++◌, append_assoc, arith,
  Bool-cases, codes, All, >>=-eq-ok, ok,
}
use adbc_driver_monetdb.Driver.Text.{Text}
use adbc_driver_monetdb.Driver.Quoting.{has_nul, double, read_quoted, read_quoted-double}
use adbc_driver_monetdb.Driver.Metadata.Predicates.{
  quote_raw_string, raw_string_literal, raw_string_literals, join, in_list, in_predicate,
}
use mathlib.Core.Path.{subst}

-- How SQL reads a list of raw string literals behind its parenthesis: each is read up to the quote
-- that ends it, a comma and a blank stand before the next, and the parenthesis closes after the last.
pub data ReadsList : Text → List Text → Type 0 where
  last_value :
      (v text : Text)
      → read_quoted b'\'' text ≡ some (v, codes ")")
      → ReadsList (b'R' ∷ b'\'' ∷ text) (v ∷ [])
  next_value :
      (v text rest : Text) (vs : List Text)
      → read_quoted b'\'' text ≡ some (v, b',' ∷ b' ' ∷ rest)
      → ReadsList rest vs
      → ReadsList (b'R' ∷ b'\'' ∷ text) (v ∷ vs)

-- A literal with what follows it.
literal_shape :
    (value literal rest : Text)
    → raw_string_literal value ≡ ok literal
    → literal ++ rest ≡ b'R' ∷ b'\'' ∷ double b'\'' value ++ b'\'' ∷ rest
unfolding raw_string_literal quote_raw_string
literal_shape value literal rest h = elim (Bool-cases (has_nul value)) [
  | inl e ↦ absurd (let h' = rw (raw_string_literal, e) at h in cc)
  | inr e ↦
      let h' = rw (raw_string_literal, e) at h in
      let same : quote_raw_string value ≡ literal = ground (arith, h') in
      rw (sym same) (append_assoc (b'R' ∷ b'\'' ∷ double b'\'' value) (b'\'' ∷ []) rest)
]

raw_string_literals-read :
    (v : Text) (vs literals : List Text)
    → raw_string_literals (v ∷ vs) ≡ ok literals
    → ReadsList (join literals ++ codes ")") (v ∷ vs)
raw_string_literals-read v [] literals h =
    let (l, hl, same) = >>=-eq-ok (raw_string_literal v) _ h in
    let is : l ∷ [] ≡ literals = ground (arith, same) in
    subst (λ ls. ReadsList (join ls ++ codes ")") (v ∷ [])) is
      (subst (λ t. ReadsList t (v ∷ [])) (sym (literal_shape v l (codes ")") hl))
        (last_value v _ (read_quoted-double b'\'' v (codes ")") refl)))
raw_string_literals-read v (w ∷ vs) literals h =
    let (l, hl, h') = >>=-eq-ok (raw_string_literal v) _ h in
    let (ls, hls, same) = >>=-eq-ok (raw_string_literals (w ∷ vs)) _ h' in
    let (m, hm, h'') = >>=-eq-ok (raw_string_literal w) _ hls in
    let (ms, hms, same') = >>=-eq-ok (raw_string_literals vs) _ h'' in
    let is' : m ∷ ms ≡ ls = ground (arith, same') in
    let is : l ∷ m ∷ ms ≡ literals = ground (arith, same) in
    let later = raw_string_literals-read w vs (m ∷ ms) (rw is' hls) in
    let behind = b',' ∷ b' ' ∷ join (m ∷ ms) ++ codes ")" in
    let shape =
      append_assoc l (b',' ∷ b' ' ∷ join (m ∷ ms)) (codes ")") ∙ literal_shape v l behind hl in
    subst (λ found. ReadsList (join found ++ codes ")") (v ∷ w ∷ vs)) is
      (subst (λ t. ReadsList t (v ∷ w ∷ vs)) (sym shape)
        (next_value v _ _ (w ∷ vs) (read_quoted-double b'\'' v behind refl) later))

raw_string_literals-total :
    (values : List Text)
    → All (λ v. has_nul v ≡ false) values
    → (literals : List Text) × (raw_string_literals values ≡ ok literals)
unfolding raw_string_literal
raw_string_literals-total [] h = ([], refl)
raw_string_literals-total (v ∷ vs) (h, hs) =
    let (literals, e) = raw_string_literals-total vs hs in
    (quote_raw_string v ∷ literals, rw (h, e) refl)

-- Whatever values without NUL a caller filters by, the predicate is made, and it is the column,
-- ` IN (` and a list that SQL reads as exactly these values: no value ends its quotes and goes on as
-- SQL. There is at least one value.
pub in_predicate-ReadsList :
    (column v : Text) (vs : List Text)
    → All (λ w. has_nul w ≡ false) (v ∷ vs)
    → (list : Text) × (in_predicate column (some (v ∷ vs))
        ≡ ok (some ((column ++ codes " IN (") ++ list)))
      × ReadsList list (v ∷ vs)
unfolding in_predicate
in_predicate-ReadsList column v vs h =
    let (literals, e) = raw_string_literals-total (v ∷ vs) h in
    (
      join literals ++ codes ")",
      rw (in_predicate, in_list, e)
          (ap (λ t. ok (some t))
            (append_assoc (column ++ codes " IN (") (join literals) (codes ")"))),
      raw_string_literals-read v vs literals e,
    )
