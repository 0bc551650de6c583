-- ===== src/Driver/Transactions/Shortcut.antt =====
-- The search for the words COMMIT and ROLLBACK, with which `transaction_effects` passes over the
-- scan of the query.
use adbc_driver_monetdb.Prelude.{
  ℕ, String, ◌≡◌, refl, sym, ap, ◌∙◌, inl, inr, Bool, true, false, Option, none, some, List, [],
  ◌∷◌, ◌++◌, map, arith, Bool-cases, Bytes, codes, length, length-map, take-length_append, guard,
  >>=-eq-ok, ok,
}
use adbc_driver_monetdb.Driver.Text.{text_eq→eq}
use adbc_driver_monetdb.Driver.Parameters.Words.{is_word, to_ascii_lower}
use adbc_driver_monetdb.Driver.Parameters.Template.{text_at}
use adbc_driver_monetdb.Driver.Transactions.Keywords.{
  skip_lead, split_word, found_word, leading_sql_keyword, between,
}
use adbc_driver_monetdb.Driver.Transactions.Effects.{
  contains_ascii_case_insensitive, trim_utf8, is_nil, statement_slices, TransactionEffects,
  no_effects, statement_effects, effects_of, scanned, unbound_statements, transaction_effects,
  parameters_not_bound,
}
use adbc_driver_monetdb.Driver.Transactions.Infix.{
  IsInfix, IsSuffix, SuffixOf, skip_lead-suffix, IsSuffix-infix, IsInfix-trans, split_word-append,
  trim-infix, text_at-infix,
}
use mathlib.Core.Path.{subst}

is_word-length : (s : String) (w : Bytes) → is_word s w ≡ true → length (codes s) ≡ length w
unfolding is_word
is_word-length s w h =
    let e = text_eq→eq (map to_ascii_lower w) (codes s) h in
    sym (ap length e) ∙ length-map w to_ascii_lower

contains-infix :
    (s : String) (front back : Bytes) (c : ℕ) (w : Bytes)
    → is_word s (c ∷ w) ≡ true
    → contains_ascii_case_insensitive (front ++ ((c ∷ w) ++ back)) s ≡ true
unfolding contains_ascii_case_insensitive
contains-infix s [] back c w h =
    let n = is_word-length s (c ∷ w) h in simp (n, take-length_append w back, h)
contains-infix s (b ∷ front) back c w h =
    let ih = contains-infix s front back c w h in ground (arith, ih)

-- The keyword of a statement is not empty, and stands in it.
keyword-infix :
    (st kw rest : Bytes)
    → leading_sql_keyword st ≡ some (kw, rest)
    → (c : ℕ) × (w : Bytes) × (kw ≡ c ∷ w) × IsInfix kw st
unfolding leading_sql_keyword
keyword-infix st kw rest h = go (skip_lead between st) refl (skip_lead-suffix between st)
  where
    word :
        (text : Bytes) (p : Bytes × Bytes)
        → split_word text ≡ p
        → IsSuffix text st
        → found_word p ≡ some (kw, rest)
        → (c : ℕ) × (w : Bytes) × (kw ≡ c ∷ w) × IsInfix kw st
    word text ([], r) e s f = absurd (cc)
    word text (c ∷ w, r) e s f =
        let k : c ∷ w ≡ kw = cc in
        let whole_text : text ≡ (c ∷ w) ++ r =
          subst (λ p. text ≡ p.0 ++ p.1) e (split_word-append text) in
        (
          c,
          w,
          sym k,
          rw (sym k) (IsInfix-trans (c ∷ w) text st ([], r, whole_text) (IsSuffix-infix text st s)),
        )

    go :
        (o : Option Bytes)
        → skip_lead between st ≡ o
        → SuffixOf st o
        → (c : ℕ) × (w : Bytes) × (kw ≡ c ∷ w) × IsInfix kw st
    go none e s = absurd (let h' = rw (leading_sql_keyword, e) at h in cc)
    go (some text) e s = word text (split_word text) refl s (rw (leading_sql_keyword, e) at h)

-- A statement of a query that has neither word does nothing to the transaction.
statement_effects-quiet :
    (query st : Bytes) (effects : TransactionEffects)
    → contains_ascii_case_insensitive query "commit" ≡ false
    → contains_ascii_case_insensitive query "rollback" ≡ false
    → IsInfix st query
    → statement_effects effects st ≡ effects
unfolding statement_effects
statement_effects-quiet query st effects nc nr i = go (leading_sql_keyword st) refl
  where
    absent :
        (s : String) (kw rest : Bytes)
        → leading_sql_keyword st ≡ some (kw, rest)
        → contains_ascii_case_insensitive query s ≡ false
        → is_word s kw ≡ false
    absent s kw rest e n =
        let (c, w, k, f) = keyword-infix st kw rest e in
        let (front, back, q) = IsInfix-trans kw st query f i in
        elim (Bool-cases (is_word s kw)) [
          | inr missing ↦ missing
          | inl found_here ↦
              let found = contains-infix s front back c w (rw (sym k) found_here) in
              let q' = subst (λ x. query ≡ front ++ (x ++ back)) k q in
              let found' = subst (λ x. contains_ascii_case_insensitive x s ≡ true) (sym q') found in
              absurd (cc)
        ]

    go :
        (o : Option (Bytes × Bytes))
        → leading_sql_keyword st ≡ o
        → statement_effects effects st ≡ effects
    go none e = rw (statement_effects, e)
    go (some (kw, rest)) e =
        simp (statement_effects, e, absent "commit" kw rest e nc, absent "rollback" kw rest e nr)

effects_of-quiet :
    (query : Bytes) (effects : TransactionEffects) (ranges : List (ℕ × ℕ))
    → contains_ascii_case_insensitive query "commit" ≡ false
    → contains_ascii_case_insensitive query "rollback" ≡ false
    → effects_of effects (map (λ range. trim_utf8 (text_at query range)) ranges) ≡ effects
unfolding effects_of
effects_of-quiet query effects [] nc nr = refl
effects_of-quiet query effects (r ∷ ranges) nc nr =
    let i =
      IsInfix-trans (trim_utf8 (text_at query r)) (text_at query r) query
        (trim-infix (text_at query r)) (text_at-infix query r) in
    ap (λ x. effects_of x (map (λ range. trim_utf8 (text_at query range)) ranges))
      (statement_effects-quiet query (trim_utf8 (text_at query r)) effects nc nr i)
    ∙ effects_of-quiet query effects ranges nc nr

module _ (is_alphanumeric : Bytes → Bool) where
  unbound_statements-ok :
      (query : Bytes) (statements : List Bytes)
      → unbound_statements is_alphanumeric query ≡ ok statements
      → (ranges : List (ℕ × ℕ)) × (statements
          ≡ map (λ range. trim_utf8 (text_at query range)) ranges)
  unfolding unbound_statements statement_slices
  unbound_statements-ok query statements h =
      let (scan, e, h1) = >>=-eq-ok (scanned is_alphanumeric query) _ h in
      let (u, g, h2) = >>=-eq-ok (guard (is_nil scan.slots) parameters_not_bound) _ h1 in
      (scan.statements, ground (arith, h2))

  -- Where the statements of a query can be told apart and have no parameters, what
  -- `transaction_effects` answers is what its loop finds in all of them: the search for the words
  -- COMMIT and ROLLBACK passes over no statement that ends the transaction.
  pub transaction_effects-unbound :
      (query : Bytes) (statements : List Bytes)
      → unbound_statements is_alphanumeric query ≡ ok statements
      → transaction_effects is_alphanumeric query ≡ ok (effects_of no_effects statements)
  unfolding transaction_effects
  transaction_effects-unbound query statements h =
      let (ranges, same) = unbound_statements-ok query statements h in
      split ranges same (contains_ascii_case_insensitive query "commit") refl
        (contains_ascii_case_insensitive query "rollback") refl
    where
      split :
          (ranges : List (ℕ × ℕ))
          → statements ≡ map (λ range. trim_utf8 (text_at query range)) ranges
          → (c : Bool) → contains_ascii_case_insensitive query "commit" ≡ c
          → (r : Bool) → contains_ascii_case_insensitive query "rollback" ≡ r
          → transaction_effects is_alphanumeric query ≡ ok (effects_of no_effects statements)
      split ranges same false c false r =
          let quiet = effects_of-quiet query no_effects ranges c r in
          simp (transaction_effects, c, r, same, quiet)
      split ranges same true c r' r = simp (transaction_effects, c, h)
      split ranges same false c true r = simp (transaction_effects, c, r, h)
