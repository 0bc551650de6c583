-- ===== src/Driver/Metadata/Like.antt =====
-- `validate_like_pattern` and `like_pattern_matches`, on lists of code points. The loop of the
-- matcher runs on fuel; `none` is no result.
use adbc_driver_monetdb.Prelude.{
  ℕ, zero, suc, ◌+◌, ◌*◌, Bool, true, false, ◌||◌, Option, none, some, List, [], ◌∷◌, ◌==◌,
  if◌then◌else◌, length, get_elem?, drop, Outcome, ◌>>=◌, ◌>>◌, expect, ok, err, panic,
}
use adbc_driver_monetdb.Driver.Text.{Text}

pub data PatternError : Type 0 where
  invalid_escape : ℕ → PatternError
  ends_with_escape : PatternError

unfoldable pub validate_like_pattern : Text → Outcome PatternError (Unit {0})
validate_like_pattern [] = ok tt
validate_like_pattern (c ∷ []) = if c == b'\\' then err ends_with_escape else ok tt
validate_like_pattern (c ∷ d ∷ pattern) =
    let after_escape = validate_like_pattern pattern in
    let after_plain = validate_like_pattern (d ∷ pattern) in
    if c == b'\\'
    then (if d == b'%' || d == b'_' || d == b'\\' then after_escape else err (invalid_escape d))
    else after_plain

pub data LikeToken : Type 0 where
  many one : LikeToken
  exact : ℕ → LikeToken

-- The token of a character that is no escape.
abbrev pub plain_token : ℕ → LikeToken
plain_token c = if c == b'%' then many else if c == b'_' then one else exact c

-- A pattern that ends with an escape panics here.
unfoldable pub like_tokens : Text → Outcome PatternError (List LikeToken)
like_tokens [] = ok []
like_tokens (c ∷ []) = if c == b'\\' then panic else ok (plain_token c ∷ [])
like_tokens (c ∷ d ∷ pattern) =
    let after_escape = like_tokens pattern in
    let after_plain = like_tokens (d ∷ pattern) in
    if c == b'\\'
    then (after_escape >>= λ tokens. ok (exact d ∷ tokens))
    else (after_plain >>= λ tokens. ok (plain_token c ∷ tokens))

-- Does this token take this character and move on?
abbrev pub takes : Option LikeToken → ℕ → Bool
takes (some (exact e)) c = e == c
takes (some one) c = true
takes (some many) c = false
takes none c = false

abbrev pub is_many : Option LikeToken → Bool
is_many (some many) = true
is_many (some one) = false
is_many (some (exact e)) = false
is_many none = false

-- The `while` that skips the last `%`s, over the tokens from `token` on.
unfoldable pub skip_many : List LikeToken → ℕ → ℕ
skip_many [] token = token
skip_many (many ∷ rest) token = skip_many rest (token + 1)
skip_many (one ∷ rest) token = token
skip_many (exact e ∷ rest) token = token

-- The `while` over the characters, from (`token`, `character`, `star`, `retry`), and what follows.
unfoldable pub like_loop : ℕ → List LikeToken → Text → ℕ → ℕ → Option ℕ → ℕ → Option Bool
like_loop zero tokens value token character star retry = none
like_loop (suc fuel) tokens value token character star retry = elim (get_elem? value character) [
  | none ↦ some (skip_many (drop token tokens) token == length tokens)
  | some c ↦ elim (takes (get_elem? tokens token) c) [
    | true ↦ like_loop fuel tokens value (suc token) (suc character) star retry
    | false ↦ elim (is_many (get_elem? tokens token)) [
      | true ↦ like_loop fuel tokens value (suc token) character (some token) character
      | false ↦ elim star [
        | none ↦ some false
        | some s ↦ like_loop fuel tokens value (suc s) (suc retry) (some s) (suc retry)
      ]
    ]
  ]
]

abbrev pub like_fuel : List LikeToken → Text → ℕ
like_fuel tokens value = length value * (length tokens + 2) + length tokens + 2

-- Out of fuel it panics.
unfoldable pub like_pattern_matches : Text → Text → Outcome PatternError Bool
like_pattern_matches pattern value = do
  validate_like_pattern pattern
  tokens ← like_tokens pattern
  expect (like_loop (like_fuel tokens value) tokens value 0 0 none 0)
