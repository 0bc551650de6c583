-- ===== src/Driver/Transactions/Server.antt =====
-- What driver.rs uses of `monetdb::Connection` and `monetdb::Cursor`, as operations on the state `S`
-- of the connection, the chain of calls that may fail, and the names of savepoints. The timeouts that
-- the code passes along are part of the operations.
use adbc_driver_monetdb.Prelude.{Bool, Option, Bytes, ℤ, Outcome, ok, err, panic}
use adbc_driver_monetdb.Driver.Text.{Text}
use adbc_driver_monetdb.Driver.Errors.State.{AdbcError}
use adbc_driver_monetdb.Driver.Errors.{CursorError, map_cursor_error}

-- A call on a state: its result and the state behind it.
abbrev pub Call : Type 0 → Type 0 → Type 0 → Type 0
Call S E A = S → Outcome E A × S

abbrev pub after_call : {S E A B : Type 0} → Outcome E A × S → (A → Call S E B) → Outcome E B × S
after_call (ok a, s) next = next a s
after_call (err e, s) next = (err e, s)
after_call (panic, s) next = (panic, s)

infixl 5 ◌>>=◌ ◌>>◌
abbrev pub ◌>>=◌ : {S E A B : Type 0} → Call S E A → (A → Call S E B) → Call S E B
(call >>= next) s = after_call (call s) next

abbrev pub ◌>>◌ : {S E B : Type 0} → Call S E (Unit {0}) → Call S E B → Call S E B
call >> next = call >>= λ _. next

abbrev pub pure : {S E A : Type 0} → A → Call S E A
pure a s = (ok a, s)

abbrev pub fail : {S E A : Type 0} → E → Call S E A
fail e s = (err e, s)

-- The result of a call that changes no state.
abbrev pub lift : {S E A : Type 0} → Outcome E A → Call S E A
lift r s = (r, s)

-- A cursor shares the connection's state: `has_result_set` and `affected_rows` are those of the last
-- statement.
pub record Server (S P : Type 0) : Type 0 where
  pub execute : Bytes → Call S (CursorError P) (Unit {0})
  pub autocommit : Call S (CursorError P) Bool
  pub set_autocommit : Bool → Call S (CursorError P) (Unit {0})
  pub has_result_set : S → Bool
  pub affected_rows : S → Option ℤ
  pub display : CursorError P → Text

-- `result.map_err(map_cursor_error)`
abbrev pub mapped :
    {S P A : Type 0} → Server S P → Outcome (CursorError P) A × S → Outcome AdbcError A × S
mapped server (ok a, s) = (ok a, s)
mapped server (err e, s) = (err (map_cursor_error server.display e), s)
mapped server (panic, s) = (panic, s)
