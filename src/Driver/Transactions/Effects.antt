-- ===== src/Driver/Transactions/Effects.antt =====
-- `unbound_statements`, `statement_may_modify` (parameters.rs), `transaction_effects` and
-- `validate_unbound_query` (driver.rs). `is_alphanumeric` is `char::is_alphanumeric` as `scan_query`
-- uses it.
use adbc_driver_monetdb.Prelude.{
  ℕ, zero, suc, ◌-◌, String, Bool, true, false, not, ◌&&◌, ◌||◌, none, some, List, [], ◌∷◌, map,
  leb, ◌==◌, if◌then◌else◌, Bytes, codes, length, get_or, take, Outcome, ◌>>=◌, ◌>>◌, guard,
  map_err, ok, err,
}
use adbc_driver_monetdb.Driver.Parameters.Words.{is_word}
use adbc_driver_monetdb.Driver.Parameters.Lexer.{ScanError}
use adbc_driver_monetdb.Driver.Parameters.Scan.{scan_query, QueryScan}
use adbc_driver_monetdb.Driver.Parameters.Template.{text_at}
use adbc_driver_monetdb.Driver.Transactions.Keywords.{
  is_any_word, leading_sql_keyword, invalidates_prepared, is_transaction_rollback,
}
use mathlib.Core.List.{reverse}

pub data StatementError : Type 0 where
  not_scanned : ScanError → StatementError
  parameters_not_bound empty_query prepare_statement : StatementError

-- The code points with the property White_Space in UTF-8: of one byte, two or three.
abbrev pub is_space_1 : ℕ → Bool
is_space_1 b = (leb 9 b && leb b 13) || b == 32

abbrev pub is_space_2 : ℕ → ℕ → Bool
is_space_2 b c = b == 0xc2 && (c == 0x85 || c == 0xa0)

abbrev pub is_space_3 : ℕ → ℕ → ℕ → Bool
is_space_3 b c d =
    (b == 0xe1 && c == 0x9a && d == 0x80)
    || (b == 0xe2 && c == 0x80 && (leb d 0x8a || d == 0xa8 || d == 0xa9 || d == 0xaf) && leb 0x80 d)
    || (b == 0xe2 && c == 0x81 && d == 0x9f)
    || (b == 0xe3 && c == 0x80 && d == 0x80)

-- How many bytes of white space a text starts with, or ends with when it is reversed.
unfoldable pub space_width : Bool → ℕ → ℕ → ℕ → ℕ
space_width reversed b c d =
    if is_space_1 b
    then 1
    else if reversed
    then (if is_space_2 c b then 2 else if is_space_3 d c b then 3 else 0)
    else if is_space_2 b c
    then 2
    else if is_space_3 b c d
    then 3
    else 0

-- The text without the white space in front of it, `skip` bytes of which are still to come.
unfoldable pub trim_front : Bool → ℕ → Bytes → Bytes
trim_front reversed skip [] = []
trim_front reversed (suc skip) (b ∷ bs) = trim_front reversed skip bs
trim_front reversed zero (b ∷ bs) =
    let width = space_width reversed b (get_or bs 0 0) (get_or bs 1 0) in
    let rest = trim_front reversed (width - 1) bs in if width == 0 then b ∷ bs else rest

-- `str::trim`
unfoldable pub trim_utf8 : Bytes → Bytes
trim_utf8 text = reverse (trim_front true 0 (reverse (trim_front false 0 text)))

abbrev pub is_nil {ℓ} : {A : Type ℓ} → List A → Bool
is_nil [] = true
is_nil (x ∷ xs) = false

unfoldable pub statement_slices : Bytes → QueryScan → Outcome StatementError (List Bytes)
statement_slices query scan =
    if is_nil scan.statements
    then err empty_query
    else ok (map (λ range. trim_utf8 (text_at query range)) scan.statements)

-- `haystack.windows(needle.len()).any(|window| window.eq_ignore_ascii_case(needle))`
unfoldable pub contains_ascii_case_insensitive : Bytes → String → Bool
contains_ascii_case_insensitive [] needle = false
contains_ascii_case_insensitive (b ∷ bs) needle =
    is_word needle (take (length (codes needle)) (b ∷ bs))
    || contains_ascii_case_insensitive bs needle

pub record TransactionEffects : Type 0 where
  pub commit : Bool
  pub rollback : Bool

abbrev pub no_effects : TransactionEffects
no_effects = record { commit = false; rollback = false }

-- One statement of the loop.
unfoldable pub statement_effects : TransactionEffects → Bytes → TransactionEffects
statement_effects effects statement = elim (leading_sql_keyword statement) [
  | none ↦ effects
  | some (keyword, rest) ↦
      if is_word "commit" keyword
      then record effects { commit = true }
      else if is_word "rollback" keyword
      then record effects { rollback = effects.rollback || is_transaction_rollback statement }
      else effects
]

unfoldable pub effects_of : TransactionEffects → List Bytes → TransactionEffects
effects_of effects [] = effects
effects_of effects (statement ∷ statements) =
    effects_of (statement_effects effects statement) statements

unfoldable pub any_invalidates : List Bytes → Bool
any_invalidates [] = false
any_invalidates (s ∷ ss) = invalidates_prepared s || any_invalidates ss

module _ (is_alphanumeric : Bytes → Bool) where
  unfoldable pub scanned : Bytes → Outcome StatementError QueryScan
  scanned query = map_err not_scanned (scan_query is_alphanumeric query)

  unfoldable pub unbound_statements : Bytes → Outcome StatementError (List Bytes)
  unbound_statements query = do
    scan ← scanned query
    guard (is_nil scan.slots) parameters_not_bound
    statement_slices query scan

  unfoldable pub parameterized_statements : Bytes → Outcome StatementError (List Bytes)
  parameterized_statements query = do scan ← scanned query; statement_slices query scan

  -- The statements that leave the data alone start with one of these words.
  unfoldable pub statement_may_modify : Bytes → Outcome StatementError Bool
  statement_may_modify query = do
    scan ← scanned query
    ok (
        scan.has_data_change || elim scan.first_keyword [
          | none ↦ true
          | some range ↦ not (
              is_any_word
                ("select" ∷ "with" ∷ "values" ∷ "table" ∷ "explain" ∷ "plan" ∷ "commit" ∷ "rollback"
                  ∷ "savepoint" ∷ "release" ∷ "start" ∷ "begin" ∷ [])
                (text_at query range))
        ])

  unfoldable pub query_invalidates_prepared_cache : Bytes → Outcome StatementError Bool
  query_invalidates_prepared_cache query = do
    statements ← parameterized_statements query
    ok (any_invalidates statements)

  unfoldable pub transaction_effects : Bytes → Outcome StatementError TransactionEffects
  transaction_effects query =
      if not (contains_ascii_case_insensitive query "commit")
        && not (contains_ascii_case_insensitive query "rollback")
      then ok no_effects
      else (do statements ← unbound_statements query; ok (effects_of no_effects statements))
