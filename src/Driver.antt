-- ===== src/Driver.antt =====
-- crates/adbc-monetdb/src/driver.rs: the driver.
pub mod Text
pub mod Quoting
pub mod Cache
pub mod Metadata
pub mod Windows
pub mod Parameters
pub mod Identifiers
pub mod Errors
pub mod Transactions
pub mod Ingest
pub mod Options
