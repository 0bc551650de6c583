-- ===== src/Driver/Errors/Tests.antt =====
-- The mapping of errors on concrete codes.
use adbc_driver_monetdb.Prelude.{ℕ, ◌≡◌, refl, ◌⊎◌, false, none, some, [], codes}
use adbc_driver_monetdb.Driver.Text.{text_eq, trim_end_by, is_whitespace, drop_while, Text}
use adbc_driver_monetdb.Driver.Errors.State.{unknown, AdbcError, invalid_state, io, unauthorized}
use adbc_driver_monetdb.Driver.Errors.Mapping.{
  CursorError, has_prefix, contains, is_transaction_conflict, code_status, sqlstate_status,
  sqlstate_string, map_cursor_error, connect_error_status, server, connect_io, socket_attempts,
}
use adbc_driver_monetdb.Driver.Errors.Laws.{map_cursor_error-IsSqlstate, IsSqlstate}

conflict_status :
    sqlstate_status (some (codes "42000")) (codes "CREATE TABLE: transaction conflict detected ")
    ≡ unknown
unfolding sqlstate_status code_status is_transaction_conflict text_eq has_prefix contains
    trim_end_by is_whitespace drop_while
conflict_status = refl

denied_status : sqlstate_status (some (codes "42000")) (codes "access denied for x") ≡ unauthorized
unfolding sqlstate_status code_status is_transaction_conflict text_eq has_prefix contains
    trim_end_by is_whitespace drop_while
denied_status = refl

class_status_of : sqlstate_status (some (codes "2D001")) [] ≡ invalid_state
unfolding sqlstate_status code_status is_transaction_conflict text_eq has_prefix contains
    trim_end_by is_whitespace drop_while
class_status_of = refl

redirected : connect_error_status {P = ℕ} (socket_attempts (connect_io 1) 2) ≡ io
unfolding connect_error_status
redirected = refl

abbrev shown : CursorError ℕ → Text
shown e = codes "failed"

abbrev denied : AdbcError
denied = map_cursor_error shown (server (some (codes "42000")) (codes "no"))

map_cursor_error-IsSqlstate_example :
    (denied.private_data ≡ false)
    × ((IsSqlstate (codes "42000") × (sqlstate_string denied ≡ some (codes "42000")))
        ⊎ (¬ IsSqlstate (codes "42000") × (sqlstate_string denied ≡ none)))
map_cursor_error-IsSqlstate_example = map_cursor_error-IsSqlstate shown (codes "42000") (codes "no")
