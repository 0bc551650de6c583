-- ===== src/Encode/Fixed.antt =====
-- The loops over the rows of an array that the encoders share.
use adbc_driver_monetdb.Prelude.{ℕ, ◌+◌, List, [], ◌∷◌, Bytes, Outcome, ◌>>=◌, ok}
use adbc_driver_monetdb.Encode.Error.{EncodeError}

-- `for row in 0..array.len() { … }`, each round of which appends to `out`.
unfoldable pub each_row :
    {A : Type 0}
    → (ℕ → A → Bytes → Outcome EncodeError Bytes)
    → ℕ
    → List A
    → Bytes
    → Outcome EncodeError Bytes
each_row append row [] out = ok out
each_row append row (v ∷ vs) out = do out' ← append row v out; each_row append (row + 1) vs out'
