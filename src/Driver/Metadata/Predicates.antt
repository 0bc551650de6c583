-- ===== src/Driver/Metadata/Predicates.antt =====
-- The predicates of crates/adbc-monetdb/src/driver/metadata.rs: `like_predicate`, `in_predicate` and
-- `raw_string_literal`, with `quote_raw_string` of driver.rs.
use adbc_driver_monetdb.Prelude.{
  Bool, true, ◌||◌, Option, none, some, List, [], ◌∷◌, ◌++◌, ◌==◌, if◌then◌else◌, codes, ℤ, pos,
  negsuc, Outcome, ◌>>=◌, ◌>>◌, ok, err, panic,
}
use adbc_driver_monetdb.Driver.Text.{Text}
use adbc_driver_monetdb.Driver.Quoting.{has_nul, double}
use adbc_driver_monetdb.Driver.Metadata.Like.{
  PatternError, like_pattern_matches, validate_like_pattern,
}

pub data PredicateError : Type 0 where
  filter_has_nul : PredicateError
  refused_pattern : PatternError → PredicateError

unfoldable pub quote_raw_string : Text → Text
quote_raw_string value = b'R' ∷ b'\'' ∷ double b'\'' value ++ b'\'' ∷ []

unfoldable pub raw_string_literal : Text → Outcome PredicateError Text
raw_string_literal value = if has_nul value then err filter_has_nul else ok (quote_raw_string value)

-- `iter().map(raw_string_literal).collect()`
abbrev pub raw_string_literals : List Text → Outcome PredicateError (List Text)
raw_string_literals [] = ok []
raw_string_literals (value ∷ values) = do
  literal ← raw_string_literal value
  literals ← raw_string_literals values
  ok (literal ∷ literals)

-- `join(", ")`
abbrev pub join : List Text → Text
join [] = []
join (text ∷ []) = text
join (text ∷ next ∷ texts) = text ++ b',' ∷ b' ' ∷ join (next ∷ texts)

abbrev pub in_list : Text → List Text → Outcome PredicateError Text
in_list column [] = ok (codes "FALSE")
in_list column (value ∷ values) = do
  literals ← raw_string_literals (value ∷ values)
  ok (column ++ codes " IN (" ++ join literals ++ codes ")")

unfoldable pub in_predicate : Text → Option (List Text) → Outcome PredicateError (Option Text)
in_predicate column none = ok none
in_predicate column (some values) = do predicate ← in_list column values; ok (some predicate)

abbrev pub checked_pattern : Text → Outcome PredicateError (Unit {0})
checked_pattern pattern = elim (validate_like_pattern pattern) [
  | ok valid ↦ ok tt
  | err e ↦ err (refused_pattern e)
  | panic ↦ panic
]

unfoldable pub like_predicate : Text → Option Text → Outcome PredicateError (Option Text)
like_predicate column none = ok none
like_predicate column (some pattern) = do
  checked_pattern pattern
  literal ← raw_string_literal pattern
  ok (some (column ++ codes " LIKE " ++ literal ++ codes " ESCAPE R'\\'"))

unfoldable pub matches_filter : Option Text → Text → Outcome PatternError Bool
matches_filter none value = ok true
matches_filter (some pattern) value = like_pattern_matches pattern value

abbrev pub constraint_type_name : ℤ → Text
constraint_type_name (negsuc n) = codes "UNKNOWN"
constraint_type_name (pos value) =
    if value == 0
    then codes "PRIMARY KEY"
    else if value == 1 || value == 3
    then codes "UNIQUE"
    else if value == 2
    then codes "FOREIGN KEY"
    else if value == 4
    then codes "CHECK"
    else codes "UNKNOWN"
