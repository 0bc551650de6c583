-- ===== src/Driver/Ingest/Aligned.antt =====
-- Each column of a stream goes to a destination column of its own.
use adbc_driver_monetdb.Prelude.{
  ℕ, suc, ◌+◌, ◌≡◌, refl, sym, ◌∙◌, ◌≢◌, inl, inr, Bool, true, false, some, List, [], ◌∷◌, map,
  arith, Bool-cases, All, get_elem?, set, get_elem?-set_self, get_elem?-set_ne, get_elem?-bound,
}
use mathlib.Core.Path.{subst}
use adbc_driver_monetdb.Driver.Text.{Text, text_eq→eq, text_eq, text_eq_refl}
use adbc_driver_monetdb.Driver.Parameters.Words.{to_ascii_lower}
use adbc_driver_monetdb.Driver.Ingest.Append.{
  AppendColumn, eq_ignore_ascii_case, folded_match, position_from, folded_from, case_insensitive,
}

-- The indices of the columns that fields go to, none of which is marked in `matched`.
abbrev pub AreFree : List Bool → List ℕ → Type 0
AreFree matched indices = All (λ i. get_elem? matched i ≡ some false) indices

abbrev pub Distinct : List ℕ → Type 0
Distinct [] = Unit
Distinct (i ∷ indices) = All (λ j. i ≢ j) indices × Distinct indices

-- Once an index is marked, a free index is another one, and was free before.
pub free-ne :
    (matched : List Bool) (index : ℕ) (indices : List ℕ)
    → get_elem? matched index ≡ some false
    → AreFree (set matched index true) indices
    → All (λ j. index ≢ j) indices × AreFree matched indices
free-ne matched index [] g h = (tt, tt)
free-ne matched index (j ∷ indices) g (f, fs) =
    let (ds, gs) = free-ne matched index indices g fs in
    let marked = get_elem?-set_self matched index true (get_elem?-bound matched index false g) in
    let differs : index ≢ j = λ same.
      absurd
        (let m = subst (λ x. get_elem? (set matched index true) x ≡ some true) same marked in cc) in
    ((differs, ds), (sym (get_elem?-set_ne matched true differs) ∙ f, gs))

eq-eq_ignore : (a b : Text) → text_eq a b ≡ true → eq_ignore_ascii_case a b ≡ true
unfolding eq_ignore_ascii_case
eq-eq_ignore a b h =
    let e = text_eq→eq a b h in
    subst (λ x. text_eq (map to_ascii_lower a) (map to_ascii_lower x) ≡ true) e
      (text_eq_refl (map to_ascii_lower a))

-- The column of an index, counted from `index`, has the name but for ASCII case.
abbrev pub IsNamed : ℕ → Text → List AppendColumn → ℕ → Type 0
IsNamed index source columns found =
    (j : ℕ) × (found ≡ index + j)
    × (column : AppendColumn) × (get_elem? columns j ≡ some column)
    × (eq_ignore_ascii_case source column.name ≡ true)

IsNamed-later :
    (index : ℕ) (source : Text) (first : AppendColumn) (columns : List AppendColumn) (found : ℕ)
    → IsNamed (index + 1) source columns found
    → IsNamed index source (first ∷ columns) found
IsNamed-later index source first columns found (j, e, column, g, m) =
    (suc j, omega (arith, e), column, g, m)

pub position_from-IsNamed :
    (index : ℕ) (source : Text) (columns : List AppendColumn) (found : ℕ)
    → position_from index source columns ≡ some found
    → IsNamed index source columns found
unfolding position_from
position_from-IsNamed index source [] found h = absurd (cc)
position_from-IsNamed index source (column ∷ columns) found h =
    elim (Bool-cases (text_eq source column.name)) [
      | inl same ↦
          let h' = rw (position_from, same) at h in
          let e : index ≡ found = cc in
          (0, omega (arith, e), column, refl, eq-eq_ignore source column.name same)
      | inr differs ↦ IsNamed-later index source column columns found (
          position_from-IsNamed (index + 1) source columns found (rw (position_from, differs) at h))
    ]

pub folded_from-IsNamed :
    (index : ℕ) (source : Text) (columns : List AppendColumn) (found : ℕ)
    → folded_match (folded_from index source columns) ≡ case_insensitive found
    → IsNamed index source columns found
unfolding folded_from
folded_from-IsNamed index source [] found h = absurd (cc)
folded_from-IsNamed index source (column ∷ columns) found h =
    elim (Bool-cases (eq_ignore_ascii_case source column.name)) [
      | inr differs ↦
          IsNamed-later index source column columns found
            (folded_from-IsNamed (index + 1) source columns found (rw (folded_from, differs) at h))
      | inl same ↦
          let h' : folded_match ((index, column.name) ∷ folded_from (index + 1) source columns)
              ≡ case_insensitive found =
            rw (folded_from, same) at h in
          (0, omega (arith, only (folded_from (index + 1) source columns) h'), column, refl, same)
    ]
  where
    only :
        (later : List (ℕ × Text))
        → folded_match ((index, column.name) ∷ later) ≡ case_insensitive found
        → index ≡ found
    only [] e = cc
    only (second ∷ later) e = absurd (cc)
