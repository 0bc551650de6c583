-- ===== src/Driver/Transactions/Promises.antt =====
-- What is supposed of the server by the theorems on the scopes of `begin_atomic`.
use adbc_driver_monetdb.Prelude.{◌≡◌, Bool, Option, none, some, ◌++◌, Bytes, codes, ok, err}
use adbc_driver_monetdb.Driver.Errors.{CursorError}
use adbc_driver_monetdb.Driver.Transactions.Server.{Server}

-- What a server with transactions promises of its statements: `current` is the data that the session
-- sees, `committed` the data that a rollback goes back to, `at_savepoint` the data at a savepoint,
-- `at_end` what the end of a transaction leaves of data: a temporary table whose lifetime ends with
-- the transaction loses its rows, or is dropped. Releasing a savepoint does that too.
pub record IsTransactional {S P : Type 0} (server : Server S P) (D : Type 0) : Type 0 where
  pub current : S → D
  pub committed : S → D
  pub at_savepoint : Bytes → S → Option D
  pub automatic : S → Bool
  pub at_end : D → D
  pub rollback :
      (s : S)
      → (server.execute (codes "ROLLBACK") s).0 ≡ ok tt
      → (current (server.execute (codes "ROLLBACK") s).1 ≡ committed s)
        × (committed (server.execute (codes "ROLLBACK") s).1 ≡ committed s)
  pub commit :
      (s : S)
      → (server.execute (codes "COMMIT") s).0 ≡ ok tt
      → (current (server.execute (codes "COMMIT") s).1 ≡ at_end (current s))
        × (committed (server.execute (codes "COMMIT") s).1 ≡ at_end (current s))
  pub failed_commit :
      (s : S) (e : CursorError P)
      → (server.execute (codes "COMMIT") s).0 ≡ err e
      → committed (server.execute (codes "COMMIT") s).1 ≡ committed s
  pub rollback_to :
      (name : Bytes) (s : S) (d : D)
      → at_savepoint name s ≡ some d
      → (server.execute (codes "ROLLBACK TO SAVEPOINT " ++ name) s).0 ≡ ok tt
      → current (server.execute (codes "ROLLBACK TO SAVEPOINT " ++ name) s).1 ≡ d
  pub release :
      (name : Bytes) (s : S)
      → (server.execute (codes "RELEASE SAVEPOINT " ++ name) s).0 ≡ ok tt
      → (current (server.execute (codes "RELEASE SAVEPOINT " ++ name) s).1 ≡ at_end (current s))
        × (at_savepoint name (server.execute (codes "RELEASE SAVEPOINT " ++ name) s).1 ≡ none)
  pub failed_release :
      (name : Bytes) (s : S) (e : CursorError P)
      → (server.execute (codes "RELEASE SAVEPOINT " ++ name) s).0 ≡ err e
      → at_savepoint name (server.execute (codes "RELEASE SAVEPOINT " ++ name) s).1
        ≡ at_savepoint name s
  -- With nothing pending a change of the mode changes no data.
  pub mode :
      (enabled : Bool) (s : S)
      → current s ≡ committed s
      → (current (server.set_autocommit enabled s).1 ≡ current s)
        × (committed (server.set_autocommit enabled s).1 ≡ committed s)
  pub mode_set :
      (enabled : Bool) (s : S)
      → (server.set_autocommit enabled s).0 ≡ ok tt
      → automatic (server.set_autocommit enabled s).1 ≡ enabled
