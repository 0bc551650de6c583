-- ===== src/Driver/Parameters.antt =====
-- The query templates of crates/adbc-monetdb/src/driver/parameters.rs.
pub mod Words
pub mod Procedural
pub mod Lexer
pub mod Scan
pub mod Template
pub mod Moves
pub mod Tiling
pub mod Scanned
pub mod Tiles
mod Tests
