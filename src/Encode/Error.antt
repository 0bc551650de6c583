-- ===== src/Encode/Error.antt =====
-- `EncodeError::InvalidValue` of crates/monetdb-arrow/src/encode.rs; the other variant,
-- `Unsupported`, carries an Arrow type and is built by no modelled function.
use adbc_driver_monetdb.Prelude.{ℕ, String}

pub data EncodeError : Type 0 where
  invalid_value : ℕ → String → EncodeError
