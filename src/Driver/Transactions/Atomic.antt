-- ===== src/Driver/Transactions/Atomic.antt =====
-- `AtomicScope`, `begin_atomic`, `combine_atomic_error`, `combine_error` and `finish_atomic`.
use adbc_driver_monetdb.Prelude.{
  Bool, true, false, ◌||◌, Option, none, some, ◌++◌, if◌then◌else◌, Bytes, codes, Outcome, ok, err,
  panic,
}
use adbc_driver_monetdb.Driver.Text.{Text}
use adbc_driver_monetdb.Driver.Errors.State.{AdbcError}
use adbc_driver_monetdb.Driver.Errors.{CursorError, map_cursor_error}
use adbc_driver_monetdb.Driver.Transactions.Server.{Call, Server, ◌>>=◌, ◌>>◌, pure, fail, mapped}

pub data AtomicScope : Type 0 where
  autocommit_scope caller_transaction : AtomicScope
  savepoint_scope : Bytes → Bool → AtomicScope

unfoldable pub scope_name : AtomicScope → Bytes
scope_name autocommit_scope = codes "autocommit"
scope_name caller_transaction = codes "transaction"
scope_name (savepoint_scope name retain) = codes "savepoint"

pub data CallerTransactionScope : Type 0 where
  direct savepoint : CallerTransactionScope

abbrev pub is_direct : CallerTransactionScope → Bool
is_direct direct = true
is_direct savepoint = false

abbrev pub also_failed : Text → Text → Text → Text
also_failed message context secondary =
    message ++ codes "; " ++ context ++ codes " also failed: " ++ secondary

abbrev pub failed_with : Text → Text → Text
failed_with context message = context ++ codes " failed: " ++ message

-- Two results where either may be an error.
unfoldable pub combine_error :
    {A B : Type 0} → Outcome AdbcError A → Outcome AdbcError B → Text → Outcome AdbcError A
combine_error result (ok b) context = result
combine_error (err root) (err secondary) context =
    err (record root { message = also_failed root.message context secondary.message })
combine_error (ok a) (err secondary) context =
    err (record secondary { message = failed_with context secondary.message })
combine_error panic second context = panic
combine_error result panic context = panic

module _ {S P : Type 0} (server : Server S P) where
  unfoldable pub combine_atomic_error :
      {A : Type 0}
      → Outcome AdbcError A
      → Outcome (CursorError P) (Unit {0})
      → Text
      → Outcome AdbcError A
  combine_atomic_error result (ok u) context = result
  combine_atomic_error (err root) (err secondary) context =
      err (record root { message = also_failed root.message context (server.display secondary) })
  combine_atomic_error (ok a) (err secondary) context =
      let mapped_error = map_cursor_error server.display secondary in
      err (record mapped_error { message = failed_with context mapped_error.message })
  combine_atomic_error panic second context = panic
  combine_atomic_error result panic context = panic

  -- The scope that is begun, from what the server says of its autocommit mode.
  unfoldable pub begin_scope :
      Bytes
      → Call S AdbcError Bool
      → CallerTransactionScope
      → Bool
      → Option Bool
      → Bool
      → Call S AdbcError AtomicScope
  begin_scope name temporary caller_scope prior_writes exists true = do
    _ ← λ s. mapped server (server.set_autocommit false s)
    pure autocommit_scope
  begin_scope name temporary caller_scope prior_writes exists false =
      if prior_writes || is_direct caller_scope then pure caller_transaction else (do
        retain ← elim exists [ some e ↦ pure e | none ↦ temporary ]
        _ ← λ s. mapped server (server.execute (codes "SAVEPOINT " ++ name) s)
        pure (savepoint_scope name retain))

  -- `name` is the name that `savepoint_name` gives, `temporary` what
  -- `transaction_scoped_temporary_table_state` reads of the server.
  unfoldable pub begin_atomic :
      Bytes
      → Call S AdbcError Bool
      → CallerTransactionScope
      → Bool
      → Option Bool
      → Call S AdbcError AtomicScope
  begin_atomic name temporary caller_scope prior_writes exists = do
    originally_autocommit ← λ s. mapped server (server.autocommit s)
    begin_scope name temporary caller_scope prior_writes exists originally_autocommit

  -- The statement that makes the work of a scope final.
  unfoldable pub finalize : AtomicScope → Call S (CursorError P) (Unit {0})
  finalize autocommit_scope = server.execute (codes "COMMIT")
  finalize caller_transaction = pure tt
  finalize (savepoint_scope name true) = pure tt
  finalize (savepoint_scope name false) = server.execute (codes "RELEASE SAVEPOINT " ++ name)

  -- The statements that undo the work of a scope.
  unfoldable pub recover : AtomicScope → Call S (CursorError P) (Unit {0})
  recover autocommit_scope = server.execute (codes "ROLLBACK")
  recover caller_transaction = pure tt
  recover (savepoint_scope name true) = server.execute (codes "ROLLBACK TO SAVEPOINT " ++ name)
  recover (savepoint_scope name false) = do
    server.execute (codes "ROLLBACK TO SAVEPOINT " ++ name)
    server.execute (codes "RELEASE SAVEPOINT " ++ name)

  -- The first `match` of `finish_atomic`.
  unfoldable pub finalized : {A : Type 0} → AtomicScope → Outcome AdbcError A → Call S AdbcError A
  finalized scope (ok value) = (λ s. mapped server (finalize scope s)) >>= λ u. pure value
  finalized scope (err root) = fail root
  finalized scope panic = λ s. (panic, s)

  -- `if result.is_err() { … }`
  unfoldable pub recovered :
      {A : Type 0} → AtomicScope → Outcome AdbcError A × S → Outcome AdbcError A × S
  recovered scope (ok value, s) = (ok value, s)
  recovered scope (err root, s) =
      let (r, s') = recover scope s in
      (combine_atomic_error (err root) r (codes "transaction recovery"), s')
  recovered scope (panic, s) = (panic, s)

  -- `if matches!(scope, AtomicScope::Autocommit) { … }`
  unfoldable pub restored :
      {A : Type 0} → AtomicScope → Outcome AdbcError A × S → Outcome AdbcError A × S
  restored autocommit_scope (panic, s) = (panic, s)
  restored autocommit_scope (result, s) =
      let (r, s') = server.set_autocommit true s in
      (combine_atomic_error result r (codes "restoring autocommit"), s')
  restored scope (result, s) = (result, s)

  unfoldable pub finish_atomic :
      {A : Type 0} → AtomicScope → Outcome AdbcError A → Call S AdbcError A
  finish_atomic scope operation s = restored scope (recovered scope (finalized scope operation s))
