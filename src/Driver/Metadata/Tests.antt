-- ===== src/Driver/Metadata/Tests.antt =====
-- LIKE patterns of metadata.rs' own tests, and the matcher's theorem on one of them.
use adbc_driver_monetdb.Prelude.{◌≡◌, refl, true, some, [], ◌∷◌, ◌++◌, codes, ◌>>=◌, ok, err}
use adbc_driver_monetdb.Driver.Metadata.Like.{
  like_loop, validate_like_pattern, like_tokens, skip_many, like_pattern_matches, ends_with_escape,
}
use adbc_driver_monetdb.Driver.Metadata.Meaning.{likes}
use adbc_driver_monetdb.Driver.Metadata.Matches.{like_pattern_matches-likes, tokens_of}
use adbc_driver_monetdb.Driver.Text.{Text}
use adbc_driver_monetdb.Driver.Metadata.Predicates.{
  in_predicate, like_predicate, raw_string_literal, quote_raw_string, filter_has_nul,
  refused_pattern,
}
use adbc_driver_monetdb.Driver.Metadata.Quoted.{in_predicate-ReadsList, ReadsList}

matches_prefix : like_pattern_matches (codes "pub%") (codes "public") ≡ ok true
unfolding like_pattern_matches validate_like_pattern like_tokens like_loop skip_many
matches_prefix = refl

matches_one : like_pattern_matches (codes "_ublic") (codes "public") ≡ ok true
unfolding like_pattern_matches validate_like_pattern like_tokens like_loop skip_many
matches_one = refl

matches_retry : like_pattern_matches (codes "%ab%b") (codes "aabcab") ≡ ok true
unfolding like_pattern_matches validate_like_pattern like_tokens like_loop skip_many
matches_retry = refl

refuses_last_escape : like_pattern_matches (codes "bad\\") (codes "bad") ≡ err ends_with_escape
unfolding like_pattern_matches validate_like_pattern
refuses_last_escape = refl

like_pattern_matches-likes_example : like_pattern_matches (codes "a\\%%b") (codes "a%xb") ≡ (
    validate_like_pattern (codes "a\\%%b") >>= λ _.
    ok (likes (tokens_of (codes "a\\%%b")) (codes "a%xb")))
like_pattern_matches-likes_example = like_pattern_matches-likes (codes "a\\%%b") (codes "a%xb")

filters_by_quotes :
    in_predicate (codes "s.name") (some (codes "a'b" ∷ codes "') OR (1=1" ∷ []))
    ≡ ok (some (codes "s.name IN (R'a''b', R''') OR (1=1')"))
unfolding in_predicate raw_string_literal quote_raw_string
filters_by_quotes = refl

filters_by_nothing : in_predicate (codes "s.name") (some []) ≡ ok (some (codes "FALSE"))
unfolding in_predicate
filters_by_nothing = refl

refuses_nul : in_predicate (codes "s.name") (some ((0 ∷ []) ∷ [])) ≡ err filter_has_nul
unfolding in_predicate raw_string_literal
refuses_nul = refl

like_escapes :
    like_predicate (codes "n") (some (codes "a%")) ≡ ok (some (codes "n LIKE R'a%' ESCAPE R'\\'"))
unfolding like_predicate raw_string_literal quote_raw_string validate_like_pattern
like_escapes = refl

like_refuses :
    like_predicate (codes "n") (some (codes "a\\")) ≡ err (refused_pattern ends_with_escape)
unfolding like_predicate validate_like_pattern
like_refuses = refl

in_predicate-ReadsList_example :
    (list : Text) × (in_predicate (codes "s.name") (some (codes "a'b" ∷ codes "') OR (1=1" ∷ []))
      ≡ ok (some ((codes "s.name" ++ codes " IN (") ++ list)))
    × ReadsList list (codes "a'b" ∷ codes "') OR (1=1" ∷ [])
in_predicate-ReadsList_example =
    in_predicate-ReadsList (codes "s.name") (codes "a'b") (codes "') OR (1=1" ∷ [])
      (refl, (refl, tt))
