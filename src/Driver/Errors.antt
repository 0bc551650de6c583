-- ===== src/Driver/Errors.antt =====
-- The errors of crates/adbc-monetdb/src/driver.rs: how SQLSTATEs and the errors of the `monetdb`
-- crate become ADBC errors.
pub mod State
mod Mapping
mod Laws
mod Tests
pub use Mapping.*
unfoldable pub use Mapping.{
  is_transaction_conflict, sqlstate_status, parse_sqlstate, map_cursor_error, connect_error_status,
  sqlstate_string, is_terminal, cursor_status,
}
