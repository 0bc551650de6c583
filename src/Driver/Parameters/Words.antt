-- ===== src/Driver/Parameters/Words.antt =====
-- Words of a query in UTF-8, compared without regard to ASCII case, and the identifier bytes.
use adbc_driver_monetdb.Prelude.{
  ℕ, ◌+◌, String, Bool, ◌&&◌, ◌||◌, [], ◌∷◌, map, leb, ◌==◌, if◌then◌else◌, Bytes, codes,
}
use adbc_driver_monetdb.Driver.Text.{text_eq}

abbrev pub to_ascii_lower : ℕ → ℕ
to_ascii_lower b = if leb b'A' b && leb b b'Z' then b + 32 else b

-- `word.eq_ignore_ascii_case(…)` with a literal in lower case.
unfoldable pub is_word : String → Bytes → Bool
is_word s word = text_eq (map to_ascii_lower word) (codes s)

abbrev pub is_ascii_alphabetic : ℕ → Bool
is_ascii_alphabetic b = (leb b'A' b && leb b b'Z') || (leb b'a' b && leb b b'z')

unfoldable pub is_identifier_start : ℕ → Bool
is_identifier_start b = is_ascii_alphabetic b || b == b'_'

unfoldable pub is_identifier_continue : ℕ → Bool
is_identifier_continue b = is_identifier_start b || (leb b'0' b && leb b b'9')

-- The `while` over identifier bytes, from the bytes at `end`.
unfoldable pub identifier_end : Bytes → ℕ → ℕ
identifier_end [] end = end
identifier_end (b ∷ bytes) end =
    let further = identifier_end bytes (end + 1) in
    if is_identifier_continue b then further else end

unfoldable pub is_routine_keyword : Bytes → Bool
is_routine_keyword word =
    is_word "function" word || is_word "procedure" word || is_word "trigger" word

unfoldable pub is_routine_modifier : Bytes → Bool
is_routine_modifier word =
    is_word "aggregate" word
    || is_word "filter" word
    || is_word "loader" word
    || is_word "window" word

unfoldable pub is_bare_integer_keyword : Bytes → Bool
is_bare_integer_keyword word =
    is_word "limit" word || is_word "offset" word || is_word "sample" word || is_word "seed" word

-- The words that `scan_query` takes for a change of data.
unfoldable pub is_data_change : Bytes → Bool
is_data_change word =
    is_word "insert" word
    || is_word "update" word
    || is_word "delete" word
    || is_word "merge" word
    || is_word "truncate" word
