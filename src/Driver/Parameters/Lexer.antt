-- ===== src/Driver/Parameters/Lexer.antt =====
-- The state of `scan_query`, and one round of its loop. A range is a pair of its ends in the bytes of
-- the query. `is_alphanumeric` is `char::is_alphanumeric` on the UTF-8 bytes of a character.
use adbc_driver_monetdb.Prelude.{
  ℕ, zero, suc, ◌+◌, ◌-◌, Bool, true, false, not, ◌&&◌, ◌||◌, Option, none, some, List, [], ◌∷◌,
  ◌++◌, ltb, leb, ◌==◌, if◌then◌else◌, Bytes, get_elem?, take, drop, Outcome, ◌>>=◌, ok, err, panic,
}
use adbc_driver_monetdb.Driver.Parameters.Words.{
  is_word, is_identifier_start, identifier_end, is_bare_integer_keyword, is_data_change,
}
use adbc_driver_monetdb.Driver.Parameters.Procedural.{
  ProceduralScan, new_procedural_scan, observe_word, semicolon_is_internal,
}

pub data LexState : Type 0 where
  normal single_quote escaped_single_quote raw_single_quote double_quote line_comment
        block_comment :
      LexState

pub data ScanError : Type 0 where
  named_not_ascii backslash_quote unterminated : ScanError

pub record ScannedSlot : Type 0 where
  pub range : ℕ × ℕ
  pub name : Option (ℕ × ℕ)
  pub bare_integer_literal : Bool

-- The local variables of `scan_query`.
pub record ScanState : Type 0 where
  pub state : LexState
  pub index : ℕ
  pub statement_start : ℕ
  pub statement_has_code : Bool
  pub statements : List (ℕ × ℕ)
  pub slots : List ScannedSlot
  pub first_keyword : Option (ℕ × ℕ)
  pub has_data_change : Bool
  pub procedural_scan : ProceduralScan
  pub bare_integer_parameter : Bool
  pub fetch_row_count : Bool

-- The length of a character by its lead byte; at a byte inside a character the slice panics.
unfoldable pub next_char : Bytes → ℕ → Outcome ScanError ℕ
next_char bytes index = elim (get_elem? bytes index) [
  | none ↦ panic
  | some b ↦
      if ltb b 128
      then ok (index + 1)
      else if ltb b 192
      then panic
      else if ltb b 224
      then ok (index + 2)
      else if ltb b 240
      then ok (index + 3)
      else ok (index + 4)
]

abbrev pub is_at : Option ℕ → ℕ → Bool
is_at none b = false
is_at (some c) b = c == b

-- The arms of the match on (`current`, `next`, `third`) in the normal state.
pub data Arm : Type 0 where
  semicolon whitespace question named_slot word_arm other_char : Arm
  line_comment_arm : ℕ → Arm
  block_comment_arm : Arm
  quote : LexState → ℕ → Arm

abbrev pub is_identifier_at : Option ℕ → Bool
is_identifier_at none = false
is_identifier_at (some b) = is_identifier_start b

abbrev pub either : ℕ → ℕ → ℕ → Bool
either a b c = c == a || c == b

-- The byte before `index`, if there is one.
abbrev pub byte_before : Bytes → ℕ → Option ℕ
byte_before bytes zero = none
byte_before bytes (suc i) = get_elem? bytes i

abbrev pub is_whitespace_byte : ℕ → Bool
is_whitespace_byte b = b == 32 || b == 9 || b == 10 || b == 12 || b == 13

-- The arms from the prefixed strings on.
unfoldable pub quote_or_word : ℕ → Option ℕ → Option ℕ → Arm
quote_or_word current next third =
    if (either b'r' b'R' current || either b'x' b'X' current) && is_at next b'\''
    then quote raw_single_quote 2
    else if either b'e' b'E' current && is_at next b'\''
    then quote escaped_single_quote 2
    else if either b'u' b'U' current && is_at next b'&' && is_at third b'\''
    then quote raw_single_quote 3
    else if either b'u' b'U' current && is_at next b'&' && is_at third b'"'
    then quote double_quote 3
    else if current == b'\''
    then quote single_quote 1
    else if current == b'"'
    then quote double_quote 1
    else if is_identifier_start current
    then word_arm
    else other_char

unfoldable pub arm : ℕ → Option ℕ → Option ℕ → Option ℕ → Arm
arm current next third before =
    if current == b';'
    then semicolon
    else if is_whitespace_byte current
    then whitespace
    else if current == b'-' && is_at next b'-'
    then line_comment_arm 2
    else if current == b'#'
    then line_comment_arm 1
    else if current == b'/' && is_at next b'*'
    then block_comment_arm
    else if current == b'?'
    then question
    else if current == b':' && is_identifier_at next && not (is_at before b':')
    then named_slot
    else quote_or_word current next third

-- `statement_has_code = true`, and the two flags of row counts are gone.
abbrev pub code_seen : ScanState → ScanState
code_seen s = record s {
  statement_has_code = true;
  bare_integer_parameter = false;
  fetch_row_count = false;
}

-- The range of a statement, if it has code.
abbrev pub closed : Bool → ℕ → ℕ → List (ℕ × ℕ) → List (ℕ × ℕ)
closed true first last statements = statements ++ (first, last) ∷ []
closed false first last statements = statements

unfoldable pub on_semicolon : ScanState → ScanState
on_semicolon s =
    let (internal, p) = semicolon_is_internal s.procedural_scan in
    if internal then record s { index = s.index + 1; procedural_scan = p } else record s {
      index = s.index + 1;
      statements = closed s.statement_has_code s.statement_start s.index s.statements;
      statement_start = s.index + 1;
      statement_has_code = false;
      procedural_scan = new_procedural_scan;
      bare_integer_parameter = false;
      fetch_row_count = false;
    }

-- A slot that ends at `end`, with the range of its name.
unfoldable pub push_slot : Option (ℕ × ℕ) → ℕ → ScanState → ScanState
push_slot name end s = record (code_seen s) {
  slots =
      s.slots
      ++ record {
        range = (s.index, end);
        name = name;
        bare_integer_literal = s.bare_integer_parameter;
      }
        ∷ [];
  index = end;
}

-- Is the character at `end` alphanumeric, and none of ASCII?
abbrev pub is_wide_alphanumeric : (Bytes → Bool) → Bytes → Bool
is_wide_alphanumeric is_alphanumeric [] = false
is_wide_alphanumeric is_alphanumeric (b ∷ bytes) = leb 128 b && is_alphanumeric (b ∷ bytes)

unfoldable pub on_named_slot : (Bytes → Bool) → Bytes → ScanState → Outcome ScanError ScanState
on_named_slot is_alphanumeric bytes s =
    let end = identifier_end (drop (s.index + 2) bytes) (s.index + 2) in
    if is_wide_alphanumeric is_alphanumeric (drop end bytes)
    then err named_not_ascii
    else ok (push_slot (some (s.index + 1, end)) end s)

abbrev pub or_first : Option (ℕ × ℕ) → ℕ × ℕ → Option (ℕ × ℕ)
or_first none r = some r
or_first (some q) r = some q

unfoldable pub on_word : Bytes → ScanState → ScanState
on_word bytes s =
    let end = identifier_end (drop (s.index + 1) bytes) (s.index + 1) in
    let word = take (end - s.index) (drop s.index bytes) in
    record s {
      statement_has_code = true;
      first_keyword = or_first s.first_keyword (s.index, end);
      has_data_change = s.has_data_change || is_data_change word;
      procedural_scan = observe_word word s.procedural_scan;
      bare_integer_parameter =
          is_bare_integer_keyword word
          || (s.fetch_row_count && (is_word "first" word || is_word "next" word));
      fetch_row_count = is_word "fetch" word;
      index = end;
    }

unfoldable pub apply_arm : (Bytes → Bool) → Bytes → Arm → ScanState → Outcome ScanError ScanState
apply_arm is_alphanumeric bytes semicolon s = ok (on_semicolon s)
apply_arm is_alphanumeric bytes whitespace s =
    next_char bytes s.index >>= λ i. ok (record s { index = i })
apply_arm is_alphanumeric bytes question s = ok (push_slot none (s.index + 1) s)
apply_arm is_alphanumeric bytes named_slot s = on_named_slot is_alphanumeric bytes s
apply_arm is_alphanumeric bytes word_arm s = ok (on_word bytes s)
apply_arm is_alphanumeric bytes other_char s =
    next_char bytes s.index >>= λ i. ok (record (code_seen s) { index = i })
apply_arm is_alphanumeric bytes (line_comment_arm n) s =
    ok (record s { state = line_comment; index = s.index + n })
apply_arm is_alphanumeric bytes block_comment_arm s =
    ok (record s { state = block_comment; index = s.index + 2 })
apply_arm is_alphanumeric bytes (quote q n) s =
    ok (record (code_seen s) { state = q; index = s.index + n })
