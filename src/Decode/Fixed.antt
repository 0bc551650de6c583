-- ===== src/Decode/Fixed.antt =====
-- `expect_fixed`, and the loops over the values of one width that the decoders share.
use adbc_driver_monetdb.Prelude.{
  ℕ, zero, suc, ◌+◌, List, [], ◌∷◌, ◌==◌, Bytes, checked_mul, length, take, drop, Outcome, ◌>>=◌,
  guard, ok_or, ok,
}
use adbc_driver_monetdb.Decode.Error.{DecodeError, wrong_length, invalid_column}

unfoldable pub expect_fixed : Bytes → ℕ → ℕ → Outcome DecodeError (Unit {0})
expect_fixed bytes rows width = do
  expected ← ok_or (checked_mul rows width) (invalid_column "column length overflows")
  guard (length bytes == expected) (wrong_length expected (length bytes))

-- `for (row, chunk) in bytes.chunks_exact(width).enumerate()`, with the chunks that are left.
unfoldable pub each_chunk :
    {A : Type 0}
    → (ℕ → Bytes → Outcome DecodeError A)
    → ℕ
    → ℕ
    → ℕ
    → Bytes
    → Outcome DecodeError (List A)
each_chunk value width row zero bytes = ok []
each_chunk value width row (suc left) bytes = do
  v ← value row (take width bytes)
  vs ← each_chunk value width (row + 1) left (drop width bytes)
  ok (v ∷ vs)

unfoldable pub decode_fixed :
    {A : Type 0}
    → (ℕ → Bytes → Outcome DecodeError A)
    → ℕ
    → Bytes
    → ℕ
    → Outcome DecodeError (List A)
decode_fixed value width bytes rows = do
  _ ← expect_fixed bytes rows width
  each_chunk value width 0 rows bytes
