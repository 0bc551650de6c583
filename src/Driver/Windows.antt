-- ===== src/Driver/Windows.antt =====
-- The sizes of read and write windows of crates/adbc-monetdb/src/driver.rs.
pub mod Alignment
pub mod Sizes
pub mod Scheduler
pub mod Progress
pub mod Fetch
mod Read
mod Tests
