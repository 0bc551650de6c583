-- ===== src/Driver/Parameters/Template.antt =====
-- `compile_query` and `QueryTemplate::render`: the query cut at its parameters, and put together
-- again with their values.
use adbc_driver_monetdb.Prelude.{
  ℕ, ◌+◌, ◌-◌, Bool, true, false, Option, none, some, List, [], ◌∷◌, ◌++◌, ltb, leb, if◌then◌else◌,
  Bytes, length, take, drop, Outcome, ◌>>=◌, ◌>>◌, guard, map_err, ok, err,
}
use adbc_driver_monetdb.Driver.Text.{text_eq}
use adbc_driver_monetdb.Driver.Parameters.Lexer.{ScannedSlot, ScanError}
use adbc_driver_monetdb.Driver.Parameters.Scan.{scan_query}

pub data ParameterSlot : Type 0 where
  positional named : ℕ → ParameterSlot

pub data ParameterLayout : Type 0 where
  positional_layout : ℕ → ParameterLayout
  named_layout : List Bytes → ParameterLayout

pub record TemplateSlot : Type 0 where
  pub parameter : ParameterSlot
  pub bare_integer_literal : Bool

pub record QueryTemplate : Type 0 where
  pub query : Bytes
  pub segments : List (ℕ × ℕ)
  pub slots : List TemplateSlot
  pub layout : ParameterLayout

pub data CompileError : Type 0 where
  scan_error : ScanError → CompileError
  multiple_statements mixed_parameters : CompileError

-- `named_indices.get(name)`: the place of a name in the list of names.
unfoldable pub index_of : Bytes → List Bytes → Option ℕ
index_of name [] = none
index_of name (n ∷ names) =
    let later = index_of name names in
    if text_eq n name then some 0 else elim later [ none ↦ none | some i ↦ some (i + 1) ]

-- `entry(name).or_insert_with(…)`: the index of a name, and the names with it.
unfoldable pub name_entry : Bytes → List Bytes → ℕ × List Bytes
name_entry name names = elim (index_of name names) [
  | some i ↦ (i, names)
  | none ↦ (length names, names ++ name ∷ [])
]

abbrev pub text_at : Bytes → ℕ × ℕ → Bytes
text_at bytes (first, last) = take (last - first) (drop first bytes)

-- The variables of the loop.
pub record CompileState : Type 0 where
  pub segment_start : ℕ
  pub segments : List (ℕ × ℕ)
  pub slots : List TemplateSlot
  pub positional_count : ℕ
  pub names : List Bytes

abbrev pub is_no_name : List Bytes → Bool
is_no_name [] = true
is_no_name (n ∷ names) = false

-- The slot of a scanned parameter, with the count and the names after it.
unfoldable pub parameter_slot :
    Bytes → ScannedSlot → CompileState → Outcome CompileError (ParameterSlot × ℕ × List Bytes)
parameter_slot bytes scanned c = elim scanned.name [
  | none ↦
      if is_no_name c.names
      then ok (positional c.positional_count, c.positional_count + 1, c.names)
      else err mixed_parameters
  | some name ↦
      if ltb 0 c.positional_count
      then err mixed_parameters
      else (let (i, names) = name_entry (text_at bytes name) c.names in
          ok (named i, c.positional_count, names))
]

unfoldable pub compile_slot : Bytes → ScannedSlot → CompileState → Outcome CompileError CompileState
compile_slot bytes scanned c = parameter_slot bytes scanned c >>= λ r. ok (record {
  segment_start = scanned.range.1;
  segments = c.segments ++ (c.segment_start, scanned.range.0) ∷ [];
  slots =
      c.slots
      ++ record { parameter = r.0; bare_integer_literal = scanned.bare_integer_literal } ∷ [];
  positional_count = r.1;
  names = r.2;
})

unfoldable pub compile_slots :
    Bytes → List ScannedSlot → CompileState → Outcome CompileError CompileState
compile_slots bytes [] c = ok c
compile_slots bytes (s ∷ scanned) c =
    compile_slot bytes s c >>= λ c'. compile_slots bytes scanned c'

abbrev pub layout_of : CompileState → ParameterLayout
layout_of c =
    if is_no_name c.names then positional_layout c.positional_count else named_layout c.names

abbrev pub initial_compile : CompileState
initial_compile = record {
  segment_start = 0;
  segments = [];
  slots = [];
  positional_count = 0;
  names = [];
}

abbrev pub finish_template : Bytes → CompileState → QueryTemplate
finish_template bytes c = record {
  query = bytes;
  segments = c.segments ++ (c.segment_start, length bytes) ∷ [];
  slots = c.slots;
  layout = layout_of c;
}

unfoldable pub compile_query : (Bytes → Bool) → Bytes → Outcome CompileError QueryTemplate
compile_query is_alphanumeric bytes = do
  scan ← map_err scan_error (scan_query is_alphanumeric bytes)
  guard (leb (length scan.statements) 1) multiple_statements
  c ← compile_slots bytes scan.slots initial_compile
  ok (finish_template bytes c)

-- The pairs of a segment and a slot, as `zip` gives them.
unfoldable pub render_pairs {ℓ} :
    {E : Type ℓ}
    → (TemplateSlot → Outcome E Bytes)
    → Bytes
    → List (ℕ × ℕ)
    → List TemplateSlot
    → Outcome E Bytes
render_pairs resolve query [] slots = ok []
render_pairs resolve query (segment ∷ segments) [] = ok []
render_pairs resolve query (segment ∷ segments) (slot ∷ slots) = resolve slot >>= λ value.
    (render_pairs resolve query segments slots >>= λ rest.
    ok (text_at query segment ++ value ++ rest))

abbrev pub last_text : Bytes → List (ℕ × ℕ) → Bytes
last_text query [] = []
last_text query (s ∷ []) = text_at query s
last_text query (s ∷ r ∷ rest) = last_text query (r ∷ rest)

unfoldable pub render {ℓ} :
    {E : Type ℓ} → (TemplateSlot → Outcome E Bytes) → QueryTemplate → Outcome E Bytes
render resolve t = render_pairs resolve t.query t.segments t.slots >>= λ output.
    ok (output ++ last_text t.query t.segments)
