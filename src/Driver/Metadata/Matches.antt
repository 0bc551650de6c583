-- ===== src/Driver/Metadata/Matches.antt =====
-- `like_pattern_matches` as a whole: validation, tokens and the matcher.
use adbc_driver_monetdb.Prelude.{
  ◌≡◌, refl, inl, inr, ◌||◌, List, [], ◌∷◌, arith, ◌==◌, if◌then◌else◌, Bool-cases, Outcome, ◌>>=◌,
  ok, err, panic,
}
use adbc_driver_monetdb.Driver.Text.{Text}
use adbc_driver_monetdb.Driver.Metadata.Like.{
  PatternError, validate_like_pattern, LikeToken, plain_token, like_tokens, like_pattern_matches,
  exact,
}
use adbc_driver_monetdb.Driver.Metadata.Meaning.{likes}
use adbc_driver_monetdb.Driver.Metadata.Greedy.{like_loop-likes}

-- What a pattern says: an escaped character is itself.
abbrev pub tokens_of : Text → List LikeToken
tokens_of [] = []
tokens_of (c ∷ []) = plain_token c ∷ []
tokens_of (c ∷ d ∷ pattern) =
    let after_escape = tokens_of pattern in
    let after_plain = tokens_of (d ∷ pattern) in
    if c == b'\\' then exact d ∷ after_escape else plain_token c ∷ after_plain

like_tokens_valid :
    (pattern : Text)
    → validate_like_pattern pattern ≡ ok tt
    → like_tokens pattern ≡ ok (tokens_of pattern)
unfolding validate_like_pattern like_tokens
like_tokens_valid [] h = refl
like_tokens_valid (c ∷ []) h = ground arith
like_tokens_valid (c ∷ d ∷ pattern) h = elim (Bool-cases (c == b'\\')) [
  | inl e ↦ elim (Bool-cases (d == b'%' || d == b'_' || d == b'\\')) [
    | inl known ↦
        let ih = like_tokens_valid pattern (rw (validate_like_pattern, e, known) at h) in
        rw (like_tokens, e, ih) refl
    | inr other ↦ let h' = rw (validate_like_pattern, e, other) at h in cc
  ]
  | inr e ↦
      let ih = like_tokens_valid (d ∷ pattern) (rw (validate_like_pattern, e) at h) in
      rw (like_tokens, e, ih) refl
]

-- A pattern that `validate_like_pattern` refuses is refused with its error; for any other pattern the
-- matcher ends and answers by the meaning of the pattern: `%` stands for any text, `_` for any one
-- character, an escaped character for itself, and the whole text has to fit.
pub like_pattern_matches-likes :
    (pattern value : Text)
    → like_pattern_matches pattern value
      ≡ (validate_like_pattern pattern >>= λ _. ok (likes (tokens_of pattern) value))
unfolding like_pattern_matches
like_pattern_matches-likes pattern value = go (validate_like_pattern pattern) refl
  where
    go :
        (r : Outcome PatternError (Unit {0}))
        → validate_like_pattern pattern ≡ r
        → like_pattern_matches pattern value ≡ (r >>= λ _. ok (likes (tokens_of pattern) value))
    go (ok tt) e =
        rw
          (
            like_pattern_matches,
            e,
            like_tokens_valid pattern e,
            like_loop-likes (tokens_of pattern) value,
          )
          refl
    go (err x) e = rw (like_pattern_matches, e) refl
    go panic e = rw (like_pattern_matches, e) refl
