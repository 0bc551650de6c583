-- ===== src/Driver/Parameters/Scan.antt =====
-- `scan_query`: the rounds inside quotes and comments, the loop and its end. `none` is a loop out of
-- fuel.
use adbc_driver_monetdb.Prelude.{
  ℕ, zero, suc, ◌+◌, Bool, true, false, ◌&&◌, Option, none, some, List, [], ltb, ◌==◌,
  if◌then◌else◌, Bytes, length, get_elem?, Outcome, ◌>>=◌, ok, err, panic,
}
use adbc_driver_monetdb.Driver.Parameters.Procedural.{new_procedural_scan}
use adbc_driver_monetdb.Driver.Parameters.Lexer.{
  ScanState, LexState, ScanError, ScannedSlot, next_char, is_at, byte_before, arm, closed,
  apply_arm, normal, single_quote, escaped_single_quote, raw_single_quote, double_quote,
  line_comment, block_comment, backslash_quote, unterminated,
}

-- After the next character: a quote that is doubled is passed over, another one ends the literal.
abbrev pub after_quote : ℕ → ℕ → Option ℕ → ℕ → ScanState → ScanState
after_quote q current next i s =
    if current == q
    then (if is_at next q
        then record s { index = i + 1 }
        else record s { index = i; state = normal })
    else record s { index = i }

unfoldable pub in_quotes : Bytes → ℕ → ℕ → Option ℕ → ScanState → Outcome ScanError ScanState
in_quotes bytes q current next s =
    next_char bytes s.index >>= λ i. ok (after_quote q current next i s)

unfoldable pub in_single_quotes : Bytes → ℕ → Option ℕ → ScanState → Outcome ScanError ScanState
in_single_quotes bytes current next s =
    if current == b'\\' && is_at next b'\''
    then err backslash_quote
    else in_quotes bytes b'\'' current next s

-- A backslash takes the character after it along.
unfoldable pub in_escaped_quotes : Bytes → ℕ → Option ℕ → ScanState → Outcome ScanError ScanState
in_escaped_quotes bytes current next s = next_char bytes s.index >>= λ i.
    (if current == b'\\' && ltb i (length bytes)
      then (next_char bytes i >>= λ j. ok (record s { index = j }))
      else ok (after_quote b'\'' current next i s))

unfoldable pub in_line_comment : Bytes → ℕ → ScanState → Outcome ScanError ScanState
in_line_comment bytes current s = next_char bytes s.index >>= λ i.
    ok (if current == 10 then record s { index = i; state = normal } else record s { index = i })

unfoldable pub in_block_comment : Bytes → ℕ → Option ℕ → ScanState → Outcome ScanError ScanState
in_block_comment bytes current next s = next_char bytes s.index >>= λ i. ok (
    if current == b'*' && is_at next b'/'
    then record s { index = i + 1; state = normal }
    else record s { index = i })

-- One round of the loop, at a byte that is there.
unfoldable pub scan_round : (Bytes → Bool) → Bytes → ℕ → ScanState → Outcome ScanError ScanState
scan_round is_alphanumeric bytes current s =
    let next = get_elem? bytes (s.index + 1) in
    let third = get_elem? bytes (s.index + 2) in
    elim s.state [
      | normal ↦
          apply_arm is_alphanumeric bytes (arm current next third (byte_before bytes s.index)) s
      | single_quote ↦ in_single_quotes bytes current next s
      | escaped_single_quote ↦ in_escaped_quotes bytes current next s
      | raw_single_quote ↦ in_quotes bytes b'\'' current next s
      | double_quote ↦ in_quotes bytes b'"' current next s
      | line_comment ↦ in_line_comment bytes current s
      | block_comment ↦ in_block_comment bytes current next s
    ]

unfoldable pub scan_loop :
    ℕ → (Bytes → Bool) → Bytes → ScanState → Option (Outcome ScanError ScanState)
scan_loop zero is_alphanumeric bytes s = none
scan_loop (suc fuel) is_alphanumeric bytes s = elim (get_elem? bytes s.index) [
  | none ↦ some (ok s)
  | some current ↦ elim (scan_round is_alphanumeric bytes current s) [
    | ok s' ↦ scan_loop fuel is_alphanumeric bytes s'
    | err e ↦ some (err e)
    | panic ↦ some panic
  ]
]

pub record QueryScan : Type 0 where
  pub statements : List (ℕ × ℕ)
  pub slots : List ScannedSlot
  pub first_keyword : Option (ℕ × ℕ)
  pub has_data_change : Bool

unfoldable pub initial_state : ScanState
initial_state = record {
  state = normal;
  index = 0;
  statement_start = 0;
  statement_has_code = false;
  statements = [];
  slots = [];
  first_keyword = none;
  has_data_change = false;
  procedural_scan = new_procedural_scan;
  bare_integer_parameter = false;
  fetch_row_count = false;
}

abbrev pub is_terminated : LexState → Bool
is_terminated normal = true
is_terminated single_quote = false
is_terminated escaped_single_quote = false
is_terminated raw_single_quote = false
is_terminated double_quote = false
is_terminated line_comment = true
is_terminated block_comment = false

unfoldable pub finish_scan : Bytes → ScanState → Outcome ScanError QueryScan
finish_scan bytes s =
    if is_terminated s.state
    then ok (record {
      statements = closed s.statement_has_code s.statement_start (length bytes) s.statements;
      slots = s.slots;
      first_keyword = s.first_keyword;
      has_data_change = s.has_data_change;
    })
    else err unterminated

-- Each round moves on, so the length of the query is fuel enough; out of fuel it panics.
unfoldable pub scan_query : (Bytes → Bool) → Bytes → Outcome ScanError QueryScan
scan_query is_alphanumeric bytes =
    elim (scan_loop (length bytes + 1) is_alphanumeric bytes initial_state) [
      | none ↦ panic
      | some r ↦ r >>= λ s. finish_scan bytes s
    ]
