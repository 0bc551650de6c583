-- ===== src/Decode/Error.antt =====
-- `DecodeError` of crates/monetdb-arrow/src/decode.rs. The variants that wrap an error of another
-- crate (`Cursor`, `Arrow`) are built by no modelled function.
use adbc_driver_monetdb.Prelude.{ℕ, ◌-◌, ◌^◌, String, ℤ}
use adbc_driver_monetdb.Wire.{MonetType}
use adbc_driver_monetdb.Exportbin.Error.{FrameError}

pub data DecodeError : Type 0 where
  frame : FrameError → DecodeError
  result_id : ℕ → ℤ → DecodeError
  start_row : ℕ → ℕ → DecodeError
  row_count : ℕ → ℕ → DecodeError
  column_count : ℕ → ℕ → DecodeError
  wrong_length : ℕ → ℕ → DecodeError
  invalid_column : String → DecodeError
  invalid_value : ℕ → String → DecodeError
  invalid_utf8 : ℕ → DecodeError
  invalid_backref : ℕ → DecodeError
  unsupported : MonetType → DecodeError

-- `i32::MAX`, the limit of Arrow's 32-bit offsets.
abbrev pub i32_max : ℕ
i32_max = 2 ^ 31 - 1
