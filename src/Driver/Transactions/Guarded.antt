-- ===== src/Driver/Transactions/Guarded.antt =====
-- A connection whose transaction may be partly written does not commit.
use adbc_driver_monetdb.Prelude.{
  ◌≡◌, refl, ◌⊎◌, inl, inr, Bool, true, some, List, [], ◌∷◌, ◌++◌, Bool-cases, Option-cases, Bytes,
  Outcome, ok, err,
}
use adbc_driver_monetdb.Driver.Text.{Text}
use adbc_driver_monetdb.Driver.Parameters.Words.{is_word}
use adbc_driver_monetdb.Driver.Transactions.Keywords.{is_prepare_statement, leading_sql_keyword}
use adbc_driver_monetdb.Driver.Transactions.Effects.{
  TransactionEffects, no_effects, unbound_statements, statement_effects, effects_of,
}
use adbc_driver_monetdb.Driver.Transactions.Session.{
  Session, rollback_required, commit_error, guard_transaction_commit,
}
use adbc_driver_monetdb.Driver.Transactions.Shortcut.{transaction_effects-unbound}
use adbc_driver_monetdb.Driver.Transactions.Updates.{
  UpdateError, execute_update, any_prepares, execute_update_script, set_autocommit_option,
  adbc_error, prepare_not_accepted,
}
use adbc_driver_monetdb.Driver.Transactions.Server.{Server}

-- A later statement does not take back that one commits.
statement_effects-commit :
    (effects : TransactionEffects) (statement : Bytes)
    → effects.commit ≡ true
    → (statement_effects effects statement).commit ≡ true
unfolding statement_effects
statement_effects-commit effects statement h = elim (Option-cases (leading_sql_keyword statement)) [
  | inl no_word ↦ rw (statement_effects, no_word) h
  | inr ((keyword, rest), e) ↦ elim (Bool-cases (is_word "commit" keyword)) [
    | inl commits ↦ rw (statement_effects, e, commits) refl
    | inr no_commit ↦ elim (Bool-cases (is_word "rollback" keyword)) [
      | inl rolls ↦ rw (statement_effects, e, no_commit, rolls) h
      | inr neither ↦ rw (statement_effects, e, no_commit, neither) h
    ]
  ]
]

effects_of-commit :
    (effects : TransactionEffects) (statements : List Bytes)
    → effects.commit ≡ true
    → (effects_of effects statements).commit ≡ true
unfolding effects_of
effects_of-commit effects [] h = h
effects_of-commit effects (statement ∷ statements) h =
    effects_of-commit (statement_effects effects statement) statements
      (statement_effects-commit effects statement h)

statement_effects-found :
    (effects : TransactionEffects) (statement keyword rest : Bytes)
    → leading_sql_keyword statement ≡ some (keyword, rest)
    → is_word "commit" keyword ≡ true
    → (statement_effects effects statement).commit ≡ true
unfolding statement_effects
statement_effects-found effects statement keyword rest e c = rw (statement_effects, e, c) refl

effects_of-found :
    (effects : TransactionEffects) (before after : List Bytes) (statement keyword rest : Bytes)
    → leading_sql_keyword statement ≡ some (keyword, rest)
    → is_word "commit" keyword ≡ true
    → (effects_of effects (before ++ statement ∷ after)).commit ≡ true
unfolding effects_of
effects_of-found effects [] after statement keyword rest e c =
    effects_of-commit (statement_effects effects statement) after
      (statement_effects-found effects statement keyword rest e c)
effects_of-found effects (first ∷ before) after statement keyword rest e c =
    effects_of-found (statement_effects effects first) before after statement keyword rest e c

-- A result that refuses, for the poison or since there is a PREPARE, and changes nothing.
abbrev pub Refuses : {W A : Type 0} → Bool → Text → W → Outcome UpdateError A × W → Type 0
Refuses prepares reason before (result, after) =
    (after ≡ before)
    × ((result ≡ err (adbc_error (rollback_required reason)))
        ⊎ ((prepares ≡ true) × (result ≡ err prepare_not_accepted)))

module _ {S P : Type 0} (is_alphanumeric : Bytes → Bool) (server : Server S P) where
  guarded_commit :
      (effects : TransactionEffects) (session : Session) (reason : Text)
      → effects.commit ≡ true
      → session.transaction_poison ≡ some reason
      → guard_transaction_commit effects session ≡ err (rollback_required reason)
  unfolding guard_transaction_commit commit_error
  guarded_commit effects session reason c p = rw (c, p)

  -- Where an operation has failed in the middle of its writes, a query one of whose statements begins
  -- with the word COMMIT, in any case and wherever it stands among the others, is refused before
  -- anything is sent to the server, as one statement or as a script: with SQLSTATE 25000, or as a
  -- PREPARE, if it is one or has one. Autocommit cannot be enabled. Neither the server nor the session
  -- changes.
  pub poisoned_commit-refused :
      (query : Bytes) (before after : List Bytes) (statement keyword rest : Bytes) (s : S)
      (session : Session) (reason : Text)
      → session.transaction_poison ≡ some reason
      → unbound_statements is_alphanumeric query ≡ ok (before ++ statement ∷ after)
      → leading_sql_keyword statement ≡ some (keyword, rest)
      → is_word "commit" keyword ≡ true
      → Refuses
          (is_prepare_statement query)
          reason
          (s, session)
          (execute_update is_alphanumeric server query (s, session))
        × Refuses
            (any_prepares (before ++ statement ∷ after))
            reason
            (s, session)
            (execute_update_script is_alphanumeric server query (s, session))
        × (set_autocommit_option server true (s, session)
            ≡ (err (adbc_error (rollback_required reason)), (s, session)))
  unfolding execute_update execute_update_script set_autocommit_option
  poisoned_commit-refused query before after statement keyword rest s session reason p u e c =
      let statements = before ++ statement ∷ after in
      let effects = effects_of no_effects statements in
      let te = transaction_effects-unbound is_alphanumeric query statements u in
      let found = effects_of-found no_effects before after statement keyword rest e c in
      let g = guarded_commit effects session reason found p in
      let g' = guarded_commit (record no_effects { commit = true }) session reason refl p in
      (
        elim (Bool-cases (is_prepare_statement query)) [
          | inl prepares ↦ rw prepares (refl, inr (refl, refl))
          | inr np ↦ rw (np, te, g) (refl, inl refl)
        ],
        elim (Bool-cases (any_prepares statements)) [
          | inl prepares ↦ rw (u, prepares) (refl, inr (refl, refl))
          | inr np ↦ rw (u, np, te, g) (refl, inl refl)
        ],
        rw g',
      )
