-- ===== src/Exportbin/Error.antt =====
-- `FrameError` of crates/monetdb-arrow/src/exportbin.rs. A server message keeps its bytes;
-- `from_utf8_lossy` and its replacement characters are not modelled.
use adbc_driver_monetdb.Prelude.{String, Bytes}

pub data FrameError : Type 0 where
  server : Bytes → FrameError
  malformed : String → FrameError
