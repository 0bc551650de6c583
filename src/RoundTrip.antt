-- ===== src/RoundTrip.antt =====
-- The encoder of encode.rs against the decoder of decode.rs.
pub mod Backrefs
pub mod Pieces
pub mod Rows
pub mod Seen
pub mod Expanding
pub mod Plain
pub mod Strings
pub mod Times
pub mod Blobs
pub mod Fixed
pub mod Decimals
mod Native
pub mod Plains
pub mod Days
pub mod Dates
pub mod Timestamps
mod Tests
