-- ===== src/Driver/Ingest/Append.antt =====
-- `append_column_index`, `append_monet_types_match`, `align_append_schema`, `quoted_column_list` and
-- `insert_parameter_query`. The equality of `monetdb::MonetType` is a parameter, and the type of a field
-- is what `monet_type_for_field` says of it.
use adbc_driver_monetdb.Prelude.{
  ℕ, ◌+◌, Bool, true, false, not, ◌&&◌, ◌||◌, Option, none, some, List, [], ◌∷◌, ◌++◌, map,
  if◌then◌else◌, codes, length, get_elem?, set, replicate, Outcome, ◌>>=◌, guard, ok_or, expect, ok,
  err,
}
use adbc_driver_monetdb.Wire.{MonetType, varchar, url, json}
use adbc_driver_monetdb.Driver.Text.{Text, text_eq}
use adbc_driver_monetdb.Driver.Parameters.Words.{to_ascii_lower}
use adbc_driver_monetdb.Driver.Identifiers.{IdentifierError, quote_identifier}

pub record AppendColumn : Type 0 where
  pub name : Text
  pub data_type : MonetType
  pub nullable : Bool

pub record Field : Type 0 where
  pub field_name : Text
  pub monet_type : Option MonetType

pub data AppendColumnMatch : Type 0 where
  exact case_insensitive : ℕ → AppendColumnMatch
  ambiguous : List Text → AppendColumnMatch
  no_column : AppendColumnMatch

pub data AppendError : Type 0 where
  ambiguous_column : Text → List Text → AppendError
  column_does_not_exist column_named_twice column_type_differs : Text → AppendError
  type_not_implemented : AppendError

unfoldable pub eq_ignore_ascii_case : Text → Text → Bool
eq_ignore_ascii_case a b = text_eq (map to_ascii_lower a) (map to_ascii_lower b)

abbrev pub folded_match : List (ℕ × Text) → AppendColumnMatch
folded_match [] = no_column
folded_match ((index, name) ∷ []) = case_insensitive index
folded_match ((index, name) ∷ second ∷ rest) =
    ambiguous (name ∷ map (λ candidate. candidate.1) (second ∷ rest))

abbrev pub matched_index : Text → AppendColumnMatch → Outcome AppendError ℕ
matched_index name (exact index) = ok index
matched_index name (case_insensitive index) = ok index
matched_index name (ambiguous candidates) = err (ambiguous_column name candidates)
matched_index name no_column = err (column_does_not_exist name)

-- `columns.iter().position(|column| source == column.name)`, from an index on.
unfoldable pub position_from : ℕ → Text → List AppendColumn → Option ℕ
position_from index source [] = none
position_from index source (column ∷ columns) =
    let later = position_from (index + 1) source columns in
    if text_eq source column.name then some index else later

-- The columns that match without regard to case, with their indices.
unfoldable pub folded_from : ℕ → Text → List AppendColumn → List (ℕ × Text)
folded_from index source [] = []
folded_from index source (column ∷ columns) =
    let later = folded_from (index + 1) source columns in
    if eq_ignore_ascii_case source column.name then (index, column.name) ∷ later else later

unfoldable pub append_column_index : Text → List AppendColumn → AppendColumnMatch
append_column_index source columns = elim (position_from 0 source columns) [
  | some index ↦ exact index
  | none ↦ folded_match (folded_from 0 source columns)
]

-- `matches!(data_type, MonetType::Varchar(_) | MonetType::Url | MonetType::Json)`
unfoldable pub string_wire : MonetType → Bool
string_wire (varchar n) = true
string_wire url = true
string_wire json = true
string_wire _ = false

module _ (type_eq : MonetType → MonetType → Bool) where
  unfoldable pub append_monet_types_match : MonetType → MonetType → Bool
  append_monet_types_match source destination =
      type_eq source destination || (string_wire source && string_wire destination)

  -- One field; indexing is out of bounds for no index that the match gives.
  unfoldable pub align_field :
      Field → List AppendColumn → List Bool → Outcome AppendError (ℕ × Text)
  align_field field columns matched = do
    index ← matched_index field.field_name (append_column_index field.field_name columns)
    column ← expect (get_elem? columns index)
    before ← expect (get_elem? matched index)
    _ ← guard (not before) (column_named_twice column.name)
    source ← ok_or field.monet_type type_not_implemented
    _ ←
        guard (append_monet_types_match source column.data_type)
          (column_type_differs field.field_name)
    ok (index, column.name)

  unfoldable pub align_fields :
      List (Field) → List AppendColumn → List Bool → Outcome AppendError (List Text)
  align_fields [] columns matched = ok []
  align_fields (field ∷ fields) columns matched = do
    target ← align_field field columns matched
    targets ← align_fields fields columns (set matched target.0 true)
    ok (target.1 ∷ targets)

  unfoldable pub align_append_schema :
      List (Field) → List AppendColumn → Outcome AppendError (List Text)
  align_append_schema fields columns =
      align_fields fields columns (replicate (length columns) false)

-- `.map(quote_identifier).collect::<Result<Vec<_>>>()`, joined.
unfoldable pub quoted_column_list : List Text → Outcome IdentifierError Text
quoted_column_list [] = ok []
quoted_column_list (name ∷ []) = quote_identifier name
quoted_column_list (name ∷ second ∷ names) = do
  first ← quote_identifier name
  rest ← quoted_column_list (second ∷ names)
  ok (first ++ codes ", " ++ rest)

abbrev pub placeholders : List Text → Text
placeholders [] = []
placeholders (name ∷ []) = codes "?"
placeholders (name ∷ second ∷ names) = codes "?, " ++ placeholders (second ∷ names)

unfoldable pub insert_parameter_query : Text → List Text → Outcome IdentifierError Text
insert_parameter_query target names = do
  columns ← quoted_column_list names
  ok (
      codes "INSERT INTO "
      ++ target
      ++ codes " ("
      ++ columns
      ++ codes ") VALUES ("
      ++ placeholders names
      ++ codes ")")
