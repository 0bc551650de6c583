-- ===== src/Driver/Transactions/RollbackWords.antt =====
-- The loop of `is_transaction_rollback` ends.
use adbc_driver_monetdb.Prelude.{
  ℕ, zero, suc, ◌+◌, ◌≤◌, ◌<◌, ◌≡◌, refl, ap, Option, none, some, [], ◌∷◌, ◌++◌, arith, Bytes,
  length, length-append,
}
use mathlib.Core.Path.{subst}
use adbc_driver_monetdb.Driver.Transactions.Keywords.{
  skip_lead, split_word, found_word, leading_sql_keyword, rollback_words, between,
}
use adbc_driver_monetdb.Driver.Transactions.Infix.{
  IsSuffix, SuffixOf, skip_lead-suffix, split_word-append, whole, behind,
}

length-suffix : (t bs : Bytes) → IsSuffix t bs → length t ≤ length bs
length-suffix t _ whole = omega arith
length-suffix t _ (behind b {bs} s) = omega (arith, length-suffix t bs s)

-- The text behind a keyword is shorter than the text.
leading_sql_keyword-shorter :
    (st kw rest : Bytes) → leading_sql_keyword st ≡ some (kw, rest) → length rest < length st
unfolding leading_sql_keyword
leading_sql_keyword-shorter st kw rest h =
    go (skip_lead between st) refl (skip_lead-suffix between st)
  where
    word :
        (text : Bytes) (p : Bytes × Bytes)
        → split_word text ≡ p
        → IsSuffix text st
        → found_word p ≡ some (kw, rest)
        → length rest < length st
    word text ([], r) e s f = absurd (cc)
    word text (c ∷ w, r) e s f =
        let r_same : r ≡ rest = cc in
        let whole_text = subst (λ p. text ≡ p.0 ++ p.1) e (split_word-append text) in
        let n = ap length whole_text in
        omega (arith, n, ap length r_same, length-append w r, length-suffix text st s)

    go : (o : Option Bytes) → skip_lead between st ≡ o → SuffixOf st o → length rest < length st
    go none e s = absurd (let h' = rw (leading_sql_keyword, e) at h in cc)
    go (some text) e s = word text (split_word text) refl s (rw (leading_sql_keyword, e) at h)

-- The loop over the words behind ROLLBACK does not depend on its fuel, once that is more than the
-- length of the text: each round takes a word away.
rollback_words-fuel :
    (more fuel : ℕ) (text : Bytes)
    → length text < fuel
    → rollback_words (more + fuel) text ≡ rollback_words fuel text
unfolding rollback_words
rollback_words-fuel more zero text h = absurd (omega arith)
rollback_words-fuel more (suc fuel) text h =
    let e : more + suc fuel ≡ suc (more + fuel) = omega arith in
    rw e (go (leading_sql_keyword text) refl (λ rest lt. rollback_words-fuel more fuel rest lt))
  where
    go :
        (o : Option (Bytes × Bytes))
        → leading_sql_keyword text ≡ o
        → ((rest : Bytes)
            → length rest < fuel
            → rollback_words (more + fuel) rest ≡ rollback_words fuel rest)
        → rollback_words (suc (more + fuel)) text ≡ rollback_words (suc fuel) text
    go none e ih = rw (rollback_words, e)
    go (some (kw, rest)) e ih =
        let further = ih rest (omega (arith, leading_sql_keyword-shorter text kw rest e)) in
        rw (rollback_words, e, further)
