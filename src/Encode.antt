-- ===== src/Encode.antt =====
-- crates/monetdb-arrow/src/encode.rs: columns to the wire.
pub mod Error
pub mod Strings
pub mod Blobs
pub mod Times
pub mod Fixed
pub mod Plains
pub mod Dates
pub mod Decimals
