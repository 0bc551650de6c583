-- ===== src/Decode.antt =====
-- crates/monetdb-arrow/src/decode.rs: columns from the wire.
pub mod Error
pub mod Strings
pub mod Blobs
pub mod Times
pub mod Fixed
pub mod Plains
pub mod Dates
mod Counted
pub mod Calendar
mod Tests
pub mod Decimals
