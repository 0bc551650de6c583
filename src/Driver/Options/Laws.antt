-- ===== src/Driver/Options/Laws.antt =====
-- The two directions in which `driver.rs` matches the keys of options.
use adbc_driver_monetdb.Prelude.{◌≡◌, ◌↔◌, inl, inr, some, List, [], ◌∷◌, Bool-cases, Bytes}
use adbc_driver_monetdb.Driver.Text.{text_eq, text_eq→eq}
use adbc_driver_monetdb.Driver.Options.Keys.{
  matching, uri_rows, option_rows, tuning_option_from_uri_key, tuning_uri_key,
}
use mathlib.Core.Path.{subst}

-- What a match finds, its rows being searched the other way round, leads back to the key: there is
-- such a row, and no row before it has the same right side.
abbrev pub IsFoundBack : List (Bytes × Bytes) → List (Bytes × Bytes) → Type 0
IsFoundBack [] back = Unit
IsFoundBack ((l, r) ∷ rows) back = (matching r back ≡ some l) × IsFoundBack rows back

matching-IsFoundBack :
    (rows back : List (Bytes × Bytes)) (key found : Bytes)
    → IsFoundBack rows back
    → matching key rows ≡ some found
    → matching found back ≡ some key
unfolding matching
matching-IsFoundBack [] back key found h e = absurd (cc)
matching-IsFoundBack ((l, r) ∷ rows) back key found (h, hs) e = elim (Bool-cases (text_eq l key)) [
  | inl same ↦
      let e' = rw (matching, same) at e in
      let right_same : r ≡ found = cc in
      let left_same = text_eq→eq l key same in
      subst (λ x. matching found back ≡ some x) left_same
        (subst (λ x. matching x back ≡ some l) right_same h)
  | inr differs ↦ matching-IsFoundBack rows back key found hs (rw (matching, differs) at e)
]

-- The key in a URI and the key of the option name each other: `tuning_option_from_uri_key` gives an
-- option for a URI key exactly if `tuning_uri_key` gives that URI key for the option.
pub tuning_uri_key-option :
    (key option : Bytes)
    → (tuning_option_from_uri_key key ≡ some option) ↔ (tuning_uri_key option ≡ some key)
unfolding matching text_eq
tuning_uri_key-option key option = (
  matching-IsFoundBack uri_rows option_rows key option (search tt),
  matching-IsFoundBack option_rows uri_rows option key (search tt),
)
