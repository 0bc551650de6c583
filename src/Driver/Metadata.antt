-- ===== src/Driver/Metadata.antt =====
-- The filters of crates/adbc-monetdb/src/driver/metadata.rs.
pub mod Like
pub mod Meaning
pub mod Greedy
pub mod Matches
pub mod Predicates
mod Quoted
mod Tests
