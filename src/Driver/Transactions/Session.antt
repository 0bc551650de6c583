-- ===== src/Driver/Transactions/Session.antt =====
-- What `DriverConnection` keeps about the transaction, `TransactionWriteGuard`,
-- `guard_transaction_commit` and `apply_transaction_rollback`.
use adbc_driver_monetdb.Prelude.{
  Bool, true, false, not, ◌&&◌, ◌||◌, Option, none, some, List, [], ◌∷◌, ◌++◌, if◌then◌else◌, Bytes,
  codes, Outcome, ◌>>=◌, ok, err,
}
use adbc_driver_monetdb.Driver.Text.{Text}
use adbc_driver_monetdb.Driver.Errors.State.{AdbcError, invalid_state}
use adbc_driver_monetdb.Driver.Transactions.Effects.{
  TransactionEffects, StatementError, parameterized_statements, statement_may_modify,
}

pub record Session : Type 0 where
  pub transaction_modified : Bool
  pub transaction_poison : Option Text

abbrev pub new_session : Session
new_session = record { transaction_modified = false; transaction_poison = none }

-- The first reason stays.
unfoldable pub poison_transaction : Text → Session → Session
poison_transaction reason s = record s {
  transaction_poison = elim s.transaction_poison [ none ↦ some reason | some first ↦ some first ];
}

abbrev pub rollback_required : Text → AdbcError
rollback_required poison = record {
  message = poison ++ codes "; ROLLBACK is required";
  status = invalid_state;
  sqlstate = codes "25000";
  private_data = false;
  details = [];
}

-- The `expect` holds: "25000" is a SQLSTATE.
unfoldable pub commit_error : Session → Option AdbcError
commit_error s = elim s.transaction_poison [
  | none ↦ none
  | some poison ↦ some (rollback_required poison)
]

unfoldable pub clear_transaction_poison : Session → Session
clear_transaction_poison s = record s { transaction_poison = none }

pub record WriteGuard : Type 0 where
  pub modifies : Bool
  pub prior_writes : Bool

-- `.map(statement_may_modify).collect::<Result<Vec<_>>>()?.any(…)`
unfoldable pub any_may_modify : (Bytes → Bool) → List Bytes → Outcome StatementError Bool
any_may_modify is_alphanumeric [] = ok false
any_may_modify is_alphanumeric (s ∷ ss) = do
  first ← statement_may_modify is_alphanumeric s
  others ← any_may_modify is_alphanumeric ss
  ok (first || others)

unfoldable pub query_modifies : (Bytes → Bool) → Option Bytes → Outcome StatementError Bool
query_modifies is_alphanumeric none = ok true
query_modifies is_alphanumeric (some query) = do
  statements ← parameterized_statements is_alphanumeric query
  any_may_modify is_alphanumeric statements

-- `TransactionWriteGuard::new` behind its test of the query, and its `drop`.
unfoldable pub write_guard : Bool → Session → WriteGuard × Session
write_guard modifies s = (
  record { modifies = modifies; prior_writes = s.transaction_modified },
  record s { transaction_modified = modifies || s.transaction_modified },
)

unfoldable pub drop_write_guard : WriteGuard → Session → Session
drop_write_guard g s = record s { transaction_modified = g.modifies || s.transaction_modified }

unfoldable pub guard_transaction_commit :
    TransactionEffects → Session → Outcome AdbcError (Unit {0})
guard_transaction_commit effects s =
    if effects.commit
    then elim (commit_error s) [ none ↦ ok tt | some poison ↦ err poison ]
    else ok tt

unfoldable pub apply_transaction_rollback : TransactionEffects → Session → Session
apply_transaction_rollback effects s =
    let ended = record s {
      transaction_modified = not (effects.commit || effects.rollback) && s.transaction_modified;
    } in
    if effects.rollback then clear_transaction_poison ended else ended

abbrev pub same : Bool → Bool → Bool
same true b = b
same false b = not b

-- The end of the AutoCommit arm of `set_option`: `enabled || enabled != current`.
unfoldable pub clear_modified : Bool → Bool → Session → Session
clear_modified enabled current s =
    if enabled || not (same enabled current) then record s { transaction_modified = false } else s
