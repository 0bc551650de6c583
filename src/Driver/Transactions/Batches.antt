-- ===== src/Driver/Transactions/Batches.antt =====
-- The batches in which `execute_updates_atomic_from_first` sends the rest of its queries, and the
-- script that `execute_update_batch` makes of one.
use adbc_driver_monetdb.Prelude.{
  ℕ, ◌*◌, true, not, ◌&&◌, Option, none, some, List, [], ◌∷◌, ◌++◌, ltb, ◌==◌, if◌then◌else◌, Bytes,
  codes, saturating_add, length, Outcome, ok, err, panic,
}
use adbc_driver_monetdb.Driver.Transactions.Effects.{trim_front, is_nil}
use mathlib.Core.List.{reverse}

abbrev pub parameter_update_batch_rows : ℕ
parameter_update_batch_rows = 1_024

abbrev pub parameter_update_batch_bytes : ℕ
parameter_update_batch_bytes = 8 * 1_024 * 1_024

-- A batch, the query that did not fit in it, and the queries after it.
pub record Filled (E : Type 0) : Type 0 where
  pub batch : List Bytes
  pub pending : Option Bytes
  pub rest : List (Outcome E Bytes)

-- The inner `while`, on the queries that the stream has yet to give; a query is its SQL.
unfoldable pub fill_batch :
    {E : Type 0} → List Bytes → ℕ → List (Outcome E Bytes) → Outcome E (Filled E)
fill_batch batch sql_bytes [] = ok (record { batch = batch; pending = none; rest = [] })
fill_batch batch sql_bytes (err e ∷ queries) =
    if ltb (length batch) parameter_update_batch_rows
    then err e
    else ok (record { batch = batch; pending = none; rest = err e ∷ queries })
fill_batch batch sql_bytes (panic ∷ queries) =
    if ltb (length batch) parameter_update_batch_rows
    then panic
    else ok (record { batch = batch; pending = none; rest = panic ∷ queries })
fill_batch batch sql_bytes (ok query ∷ queries) =
    let next_bytes = saturating_add (saturating_add sql_bytes (length query)) 2 in
    let filled = fill_batch (batch ++ query ∷ []) next_bytes queries in
    if ltb (length batch) parameter_update_batch_rows
    then if not (is_nil batch) && ltb parameter_update_batch_bytes next_bytes
      then ok (record { batch = batch; pending = some query; rest = queries })
      else filled
    else ok (record { batch = batch; pending = none; rest = ok query ∷ queries })

-- The head of the outer loop: the query that was left over begins the batch.
unfoldable pub next_batch :
    {E : Type 0} → Option Bytes → List (Outcome E Bytes) → Outcome E (Filled E)
next_batch none queries = fill_batch [] 0 queries
next_batch (some query) queries = fill_batch (query ∷ []) (length query) queries

-- `query.sql.trim_end().trim_end_matches(';')`
abbrev pub drop_semicolons : Bytes → Bytes
drop_semicolons [] = []
drop_semicolons (b ∷ bs) = let rest = drop_semicolons bs in if b == b';' then rest else b ∷ bs

unfoldable pub script_statement : Bytes → Bytes
script_statement query = reverse (drop_semicolons (trim_front true 0 (reverse query)))

unfoldable pub batch_script : List Bytes → Bytes
batch_script [] = []
batch_script (query ∷ queries) = script_statement query ++ codes ";\n" ++ batch_script queries
