-- ===== src/Driver/Transactions/Updates.antt =====
-- `execute_update`, `execute_update_script`, `validate_unbound_query` and the AutoCommit arm of
-- `set_option`: queries that go to the server and what they do to the session. The state is the
-- server's and the session's.
use adbc_driver_monetdb.Prelude.{
  ℕ, ◌^◌, Bool, false, not, ◌&&◌, ◌||◌, Option, none, some, List, [], ◌∷◌, ltb, leb, ◌==◌,
  if◌then◌else◌, Bytes, codes, length, ℤ, pos_part, neg_part, ◌+ℤ◌, pos, Outcome, guard, map_err,
  ok, err, panic,
}
use adbc_driver_monetdb.Driver.Errors.State.{AdbcError}
use adbc_driver_monetdb.Driver.Parameters.Template.{
  ParameterLayout, QueryTemplate, CompileError, compile_query, positional_layout, named_layout,
}
use adbc_driver_monetdb.Driver.Transactions.Keywords.{is_prepare_statement, is_transaction_rollback}
use adbc_driver_monetdb.Driver.Transactions.Effects.{
  StatementError, no_effects, unbound_statements, transaction_effects,
}
use adbc_driver_monetdb.Driver.Transactions.Session.{
  Session, guard_transaction_commit, apply_transaction_rollback, same, clear_modified,
}
use adbc_driver_monetdb.Driver.Transactions.Server.{
  Call, Server, ◌>>=◌, ◌>>◌, pure, fail, mapped, lift,
}

pub data UpdateError : Type 0 where
  statement_error : StatementError → UpdateError
  compile_error : CompileError → UpdateError
  adbc_error : AdbcError → UpdateError
  prepare_not_accepted not_bound count_overflow : UpdateError

abbrev pub Update : Type 0 → Type 0 → Type 0
Update S A = Call (S × Session) UpdateError A

unfoldable pub parameter_count : ParameterLayout → ℕ
parameter_count (positional_layout count) = count
parameter_count (named_layout names) = length names

unfoldable pub validate_unbound_query : (Bytes → Bool) → Bytes → Outcome UpdateError (Unit {0})
validate_unbound_query is_alphanumeric query =
    if is_prepare_statement query
    then err prepare_not_accepted
    else no_parameters (compile_query is_alphanumeric query)
  where
    no_parameters : Outcome CompileError QueryTemplate → Outcome UpdateError (Unit {0})
    no_parameters (ok template) =
        if parameter_count template.layout == 0 then ok tt else err not_bound
    no_parameters (err e) = err (compile_error e)
    no_parameters panic = panic

-- `i64::checked_add`
abbrev pub checked_add_i64 : ℤ → ℤ → Option ℤ
checked_add_i64 a b =
    let sum = a +ℤ b in
    if ltb (pos_part sum) (2 ^ 63) && leb (neg_part sum) (2 ^ 63) then some sum else none

-- What one statement of the script adds to the count, if it has one.
unfoldable pub add_rows : Option ℤ → Option ℤ → Outcome UpdateError (Option ℤ)
add_rows total none = ok total
add_rows total (some rows) =
    elim (checked_add_i64 (elim total [ none ↦ pos 0 | some rows_before ↦ rows_before ]) rows) [
      | none ↦ err count_overflow
      | some sum ↦ ok (some sum)
    ]

unfoldable pub any_prepares : List Bytes → Bool
any_prepares [] = false
any_prepares (s ∷ ss) = is_prepare_statement s || any_prepares ss

module _ {S P : Type 0} (server : Server S P) where
  -- `cursor.execute(query).map_err(map_cursor_error)?`
  unfoldable pub run_query : Bytes → Update S (Unit {0})
  run_query query (s, session) =
      let (r, s') = mapped server (server.execute query s) in (map_err adbc_error r, (s', session))

  abbrev pub count_of : S → Option ℤ
  count_of s = if server.has_result_set s then none else server.affected_rows s

  unfoldable pub run_statements : List Bytes → Option ℤ → Update S (Option ℤ)
  run_statements [] total = pure total
  run_statements (statement ∷ statements) total = do
    run_query statement
    _ ← λ w. (
      ok tt,
      (
        w.0,
        apply_transaction_rollback
            (record no_effects { rollback = is_transaction_rollback statement }) w.1,
      ),
    )
    total' ← λ w. (add_rows total (count_of w.0), w)
    run_statements statements total'

  -- `set_option(AutoCommit, enabled)`, up to the note in the options.
  unfoldable pub set_autocommit_option : Bool → Update S (Unit {0})
  set_autocommit_option enabled = do
    _ ← λ w. (
      map_err adbc_error (guard_transaction_commit (record no_effects { commit = enabled }) w.1),
      w,
    )
    current ← λ w.
        let (r, s') = mapped server (server.autocommit w.0) in (map_err adbc_error r, (s', w.1))
    _ ← if enabled && not current then run_query (codes "COMMIT") else pure tt
    _ ← if same enabled current then pure tt else (λ w.
        let (r, s') = mapped server (server.set_autocommit enabled w.0) in
        (map_err adbc_error r, (s', w.1)))
    λ w. (ok tt, (w.0, clear_modified enabled current w.1))

module _ {S P : Type 0} (is_alphanumeric : Bytes → Bool) (server : Server S P) where
  unfoldable pub execute_update : Bytes → Update S (Option ℤ)
  execute_update query = if is_prepare_statement query then fail prepare_not_accepted else (do
    effects ← lift (map_err statement_error (transaction_effects is_alphanumeric query))
    _ ← λ w. (map_err adbc_error (guard_transaction_commit effects w.1), w)
    run_query server query
    λ w. (ok (count_of server w.0), (w.0, apply_transaction_rollback effects w.1)))

  unfoldable pub execute_update_script : Bytes → Update S (Option ℤ)
  execute_update_script query = do
    statements ← lift (map_err statement_error (unbound_statements is_alphanumeric query))
    _ ← lift (guard (not (any_prepares statements)) prepare_not_accepted)
    effects ← lift (map_err statement_error (transaction_effects is_alphanumeric query))
    _ ← λ w. (map_err adbc_error (guard_transaction_commit effects w.1), w)
    run_statements server statements none
