-- ===== src/Driver/Transactions/Reports.antt =====
-- The errors that `finish_atomic` and `combine_error` report.
use adbc_driver_monetdb.Prelude.{
  ◌≡◌, refl, sym, ap, ◌≢◌, Bool, true, false, [], ◌++◌, append-nil, append_assoc, Bytes, codes,
  Outcome, ok, err, panic,
}
use adbc_driver_monetdb.Driver.Text.{Text}
use adbc_driver_monetdb.Driver.Errors.State.{AdbcError}
use adbc_driver_monetdb.Driver.Errors.{CursorError}
use adbc_driver_monetdb.Driver.Transactions.Server.{Server, after_call}
use adbc_driver_monetdb.Driver.Transactions.Atomic.{
  combine_atomic_error, AtomicScope, finalized, recover, recovered, restored, finish_atomic,
  autocommit_scope, caller_transaction, savepoint_scope,
}

-- `e` is the error `root` with more text behind its message.
abbrev pub Extends : AdbcError → AdbcError → Type 0
Extends root e = (more : Text) × (e ≡ record root { message = root.message ++ more })

Extends-refl : (root : AdbcError) → Extends root root
Extends-refl root = ([], ap (λ m. record root { message = m }) (sym (append-nil root.message)))

-- A result that is `root`, extended.
abbrev pub Reports : {A : Type 0} → AdbcError → Outcome AdbcError A → Type 0
Reports root (ok a) = ⊥
Reports root (err e) = Extends root e
Reports root panic = ⊥

-- The calls of the `monetdb` crate return: it reports what fails as errors.
pub record NeverPanics {S P : Type 0} (server : Server S P) : Type 0 where
  pub execute : (sql : Bytes) (s : S) → (server.execute sql s).0 ≢ panic
  pub set_autocommit : (enabled : Bool) (s : S) → (server.set_autocommit enabled s).0 ≢ panic

module _ {S P : Type 0} (server : Server S P) (returns : NeverPanics server) where
  combine_atomic-Reports :
      (A : Type 0) (root e : AdbcError) (r : Outcome (CursorError P) (Unit {0})) (context : Text)
      → r ≢ panic
      → Extends root e
      → Reports {A = A} root (combine_atomic_error server {A = A} (err e) r context)
  unfolding combine_atomic_error
  combine_atomic-Reports A root e (ok u) context n h = h
  combine_atomic-Reports A root e panic context n h = absurd (n refl)
  combine_atomic-Reports A root e (err x) context n (more, h) = (
    more ++ codes "; " ++ context ++ codes " also failed: " ++ server.display x,
    simp (h, append_assoc),
  )

  recover-returns : (scope : AtomicScope) (s : S) → (recover server scope s).0 ≢ panic
  unfolding recover
  recover-returns autocommit_scope s = returns.execute _ s
  recover-returns caller_transaction s = λ e. cc
  recover-returns (savepoint_scope name true) s = returns.execute _ s
  recover-returns (savepoint_scope name false) s =
      go (server.execute (codes "ROLLBACK TO SAVEPOINT " ++ name) s) (returns.execute _ s)
    where
      go :
          (p : Outcome (CursorError P) (Unit {0}) × S)
          → p.0 ≢ panic
          → (after_call p (λ _. server.execute (codes "RELEASE SAVEPOINT " ++ name))).0 ≢ panic
      go (ok u, t) n = returns.execute _ t
      go (err e, t) n = λ e. cc
      go (panic, t) n = n

  recovered-Reports :
      (A : Type 0) (scope : AtomicScope) (root : AdbcError) (s : S)
      → Reports {A = A} root (recovered server {A = A} scope (err root, s)).0
  unfolding recovered
  recovered-Reports A scope root s =
      combine_atomic-Reports A root root _ _ (recover-returns scope s) (Extends-refl root)

  restored-Reports :
      {A : Type 0} (scope : AtomicScope) (root : AdbcError) (p : Outcome AdbcError A × S)
      → Reports root p.0
      → Reports root (restored server scope p).0
  unfolding restored
  restored-Reports autocommit_scope root (ok a, s) h = absurd h
  restored-Reports {A = A} autocommit_scope root (err e, s) h =
      combine_atomic-Reports A root e _ _ (returns.set_autocommit true s) h
  restored-Reports autocommit_scope root (panic, s) h = absurd h
  restored-Reports caller_transaction root (r, s) h = h
  restored-Reports (savepoint_scope name retain) root (r, s) h = h

  -- Whatever fails besides in the recovery from it, the error of an operation is what
  -- `finish_atomic` reports: the same status, SQLSTATE and details, and its message in front of what
  -- is added to it. The calls of the server return, with or without an error.
  pub finish_atomic-root :
      (A : Type 0) (scope : AtomicScope) (root : AdbcError) (s : S)
      → Reports {A = A} root (finish_atomic server {A = A} scope (err root) s).0
  unfolding finish_atomic finalized
  finish_atomic-root A scope root s =
      restored-Reports scope root _ (recovered-Reports A scope root s)
