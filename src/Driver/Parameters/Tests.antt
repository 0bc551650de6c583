-- ===== src/Driver/Parameters/Tests.antt =====
-- Queries of parameters.rs' own tests, and the theorems on one of them.
use adbc_driver_monetdb.Prelude.{
  ◌+◌, ◌≡◌, refl, ◌≢◌, Bool, true, false, none, some, [], ◌∷◌, Bytes, codes, length, ok, err,
}
use adbc_driver_monetdb.Driver.Text.{text_eq}
use adbc_driver_monetdb.Driver.Parameters.Words.{
  is_word, is_identifier_start, is_identifier_continue, identifier_end, is_routine_keyword,
  is_routine_modifier, is_bare_integer_keyword, is_data_change,
}
use adbc_driver_monetdb.Driver.Parameters.Procedural.{
  new_procedural_scan, next_prefix, observe_prefix, observe_word, semicolon_is_internal,
}
use adbc_driver_monetdb.Driver.Parameters.Lexer.{
  next_char, quote_or_word, arm, on_semicolon, push_slot, on_named_slot, on_word, apply_arm,
  ScanError,
}
use adbc_driver_monetdb.Driver.Parameters.Scan.{
  scan_query, in_quotes, in_single_quotes, scan_round, scan_loop, QueryScan, initial_state,
  finish_scan,
}
use adbc_driver_monetdb.Driver.Parameters.Template.{
  compile_query, QueryTemplate, index_of, name_entry, parameter_slot, compile_slot, compile_slots,
  render_pairs, render, named, named_layout, mixed_parameters,
}
use adbc_driver_monetdb.Driver.Parameters.Tiles.{compile_query-weave, weave}
use adbc_driver_monetdb.Driver.Parameters.Moves.{IsOrdered}
use adbc_driver_monetdb.Driver.Parameters.Scanned.{scan_query-IsOrdered, scan_loop-ends}

abbrev no_letters : Bytes → Bool
no_letters bytes = false

-- One slot is in a string, one is a parameter, one bounds the rows.
abbrev quoted_query : Bytes
quoted_query = codes "SELECT '?', ? LIMIT :n"

abbrev quoted_scan : QueryScan
quoted_scan = record {
  statements = (0, 22) ∷ [];
  slots =
      record { range = (12, 13); name = none; bare_integer_literal = false }
      ∷ record { range = (20, 22); name = some (21, 22); bare_integer_literal = true }
      ∷ [];
  first_keyword = some (0, 6);
  has_data_change = false;
}

scans_quoted_query : scan_query no_letters quoted_query ≡ ok quoted_scan
unfolding scan_query scan_loop scan_round finish_scan initial_state apply_arm arm quote_or_word
    on_word on_named_slot on_semicolon push_slot next_char in_quotes in_single_quotes
    new_procedural_scan observe_word observe_prefix next_prefix semicolon_is_internal is_word
    text_eq is_identifier_start is_identifier_continue identifier_end is_data_change
    is_routine_keyword is_routine_modifier is_bare_integer_keyword
scans_quoted_query = refl

scan_query-IsOrdered_example : IsOrdered 0 quoted_scan.slots (length quoted_query)
scan_query-IsOrdered_example =
    scan_query-IsOrdered no_letters quoted_query quoted_scan scans_quoted_query

scan_loop-ends_example :
    scan_loop (length quoted_query + 1) no_letters quoted_query initial_state ≢ none
scan_loop-ends_example = scan_loop-ends no_letters quoted_query

-- The template of a query with two names, the second one in a place for a bare number.
abbrev named_query : Bytes
named_query = codes "SELECT '?', :a LIMIT :n"

abbrev named_template : QueryTemplate
named_template = record {
  query = named_query;
  segments = (0, 12) ∷ (14, 21) ∷ (23, 23) ∷ [];
  slots =
      record { parameter = named 0; bare_integer_literal = false }
      ∷ record { parameter = named 1; bare_integer_literal = true }
      ∷ [];
  layout = named_layout (codes "a" ∷ codes "n" ∷ []);
}

compiles_named_query : compile_query no_letters named_query ≡ ok named_template
unfolding compile_query compile_slots compile_slot parameter_slot name_entry index_of scan_query
    scan_loop scan_round finish_scan initial_state apply_arm arm quote_or_word on_word on_named_slot
    on_semicolon push_slot next_char in_quotes in_single_quotes new_procedural_scan observe_word
    observe_prefix next_prefix semicolon_is_internal is_word text_eq is_identifier_start
    is_identifier_continue identifier_end is_data_change is_routine_keyword is_routine_modifier
    is_bare_integer_keyword
compiles_named_query = refl

refuses_mixed_parameters : compile_query no_letters quoted_query ≡ err mixed_parameters
unfolding compile_query compile_slots compile_slot parameter_slot name_entry index_of scan_query
    scan_loop scan_round finish_scan initial_state apply_arm arm quote_or_word on_word on_named_slot
    on_semicolon push_slot next_char in_quotes in_single_quotes new_procedural_scan observe_word
    observe_prefix next_prefix semicolon_is_internal is_word text_eq is_identifier_start
    is_identifier_continue identifier_end is_data_change is_routine_keyword is_routine_modifier
    is_bare_integer_keyword
refuses_mixed_parameters = refl

renders_nulls :
    render {E = ScanError} (λ slot. ok (codes "NULL")) named_template
    ≡ ok (codes "SELECT '?', NULL LIMIT NULL")
unfolding render render_pairs
renders_nulls = refl

compile_query-weave_example :
    (scan : QueryScan) × (scan_query no_letters named_query ≡ ok scan)
    × (weave named_query named_template.segments scan.slots ≡ named_query)
compile_query-weave_example =
    compile_query-weave no_letters named_query named_template compiles_named_query
