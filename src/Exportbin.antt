-- ===== src/Exportbin.antt =====
-- crates/monetdb-arrow/src/exportbin.rs: the `Xexportbin` frame.
pub mod Error
pub mod Header
pub mod Frame
pub mod Ranges
pub mod Overlap
pub mod Safety
pub mod Toc
pub mod Sound
mod Tests
