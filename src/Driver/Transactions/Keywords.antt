-- ===== src/Driver/Transactions/Keywords.antt =====
-- `leading_sql_keyword`, `is_prepare_statement`, `query_invalidates_prepared_cache` and
-- `is_transaction_rollback`, on the UTF-8 bytes of a statement.
use adbc_driver_monetdb.Prelude.{
  ℕ, zero, suc, ◌+◌, String, Bool, true, false, not, ◌&&◌, ◌||◌, Option, none, some, List, [], ◌∷◌,
  ◌==◌, if◌then◌else◌, Bytes, length,
}
use adbc_driver_monetdb.Exportbin.Header.{is_ascii_whitespace}
use adbc_driver_monetdb.Driver.Parameters.Words.{is_word, is_ascii_alphabetic}

-- Where the loop of `leading_sql_keyword` is: between tokens, at the `*` that opens a comment, in a
-- line comment, in a block comment, at the `/` that closes it.
pub data Lead : Type 0 where
  between opening in_line in_block closing : Lead

abbrev pub next_is : ℕ → Bytes → Bool
next_is b [] = false
next_is b (c ∷ bs) = c == b

-- The text from the first byte that is in no space and no comment; nothing in an open comment.
unfoldable pub skip_lead : Lead → Bytes → Option Bytes
skip_lead opening [] = none
skip_lead opening (b ∷ bs) = skip_lead in_block bs
skip_lead in_block [] = none
skip_lead in_block (b ∷ bs) =
    let closed = skip_lead closing bs in
    let further = skip_lead in_block bs in if b == b'*' && next_is b'/' bs then closed else further
skip_lead closing [] = none
skip_lead closing (b ∷ bs) = skip_lead between bs
skip_lead in_line [] = some []
skip_lead in_line (b ∷ bs) =
    let ended = skip_lead between bs in
    let further = skip_lead in_line bs in if b == b'\n' then ended else further
skip_lead between [] = some []
skip_lead between (b ∷ bs) =
    let further = skip_lead between bs in
    let line = skip_lead in_line bs in
    let block = skip_lead opening bs in
    if is_ascii_whitespace b
    then further
    else if (b == b'-' && next_is b'-' bs) || b == b'#'
    then line
    else if b == b'/' && next_is b'*' bs
    then block
    else some (b ∷ bs)

abbrev pub is_keyword_byte : ℕ → Bool
is_keyword_byte b = is_ascii_alphabetic b || b == b'_'

-- The word at the start of a text, and the rest.
unfoldable pub split_word : Bytes → Bytes × Bytes
split_word [] = ([], [])
split_word (b ∷ bs) =
    let (word, rest) = split_word bs in if is_keyword_byte b then (b ∷ word, rest) else ([], b ∷ bs)

-- `(index > start).then(|| …)`, with the text behind the keyword.
abbrev pub found_word : Bytes × Bytes → Option (Bytes × Bytes)
found_word ([], rest) = none
found_word (b ∷ word, rest) = some (b ∷ word, rest)

unfoldable pub leading_sql_keyword : Bytes → Option (Bytes × Bytes)
leading_sql_keyword query = elim (skip_lead between query) [
  | none ↦ none
  | some text ↦ found_word (split_word text)
]

-- `keyword.eq_ignore_ascii_case(…)` with one of some words.
abbrev pub is_any_word : List String → Bytes → Bool
is_any_word [] word = false
is_any_word (s ∷ ss) word = is_word s word || is_any_word ss word

unfoldable pub is_prepare_statement : Bytes → Bool
is_prepare_statement query = elim (leading_sql_keyword query) [
  | none ↦ false
  | some (word, rest) ↦ is_word "prepare" word
]

-- The test on each statement in `query_invalidates_prepared_cache`.
unfoldable pub invalidates_prepared : Bytes → Bool
invalidates_prepared statement = elim (leading_sql_keyword statement) [
  | none ↦ false
  | some (word, rest) ↦
      is_any_word
        ("alter" ∷ "analyze" ∷ "call" ∷ "comment" ∷ "create" ∷ "deallocate" ∷ "drop" ∷ "grant"
          ∷ "rename" ∷ "revoke" ∷ "set" ∷ "truncate" ∷ [])
        word
]

-- The `while let` over the words behind ROLLBACK; each round takes a word away.
unfoldable pub rollback_words : ℕ → Bytes → Bool
rollback_words zero remaining = true
rollback_words (suc fuel) remaining = elim (leading_sql_keyword remaining) [
  | none ↦ true
  | some (next, rest) ↦
      let further = rollback_words fuel rest in
      if is_any_word ("work" ∷ "and" ∷ "no" ∷ "chain" ∷ []) next
      then further
      else not (is_word "to" next)
]

unfoldable pub is_transaction_rollback : Bytes → Bool
is_transaction_rollback statement = elim (leading_sql_keyword statement) [
  | none ↦ false
  | some (keyword, rest) ↦
      if is_word "rollback" keyword then rollback_words (length rest + 1) rest else false
]
