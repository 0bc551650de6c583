-- ===== src/Driver/Transactions.antt =====
-- Transactions in crates/adbc-monetdb/src/driver.rs: what a query does to the transaction, the state
-- that a connection keeps about it, and updates that happen as a whole or not at all.
pub mod Keywords
pub mod Effects
pub mod Server
pub mod Atomic
pub mod Session
pub mod Updates
mod Refine
mod Guarded
pub mod Batches
mod Filled
mod Reports
mod Infix
mod Promises
mod Recovery
mod Shortcut
mod RollbackWords
mod Tests
