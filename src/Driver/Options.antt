-- ===== src/Driver/Options.antt =====
-- The options of crates/adbc-monetdb/src/driver.rs: their keys and the values that they take.
pub mod Values
pub mod Keys
mod Laws
mod Enumerations
mod Tests
