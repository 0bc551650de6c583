-- ===== src/Driver/Windows/Scheduler.antt =====
-- `ReadWindowScheduler`: how many rows the next read asks for. Its fields are filled from the column
-- types by `new`; a division by a zero estimate does not occur, since `observe` keeps it positive.
use adbc_driver_monetdb.Prelude.{
  ℕ, ◌-◌, ◌/◌, ◌%◌, ◌^◌, min, max, Bool, true, false, ◌&&◌, Option, none, some, ltb, if◌then◌else◌,
  saturating_add, saturating_mul,
}
use adbc_driver_monetdb.Driver.Windows.Alignment.{export_granule_rows, export_alignment_rows}

abbrev pub max_read_window_growth : ℕ
max_read_window_growth = 4

pub record ReadWindowScheduler : Type 0 where
  pub exact_batch_rows : Option ℕ
  pub window_budget_bytes : ℕ
  pub full_granule_fits : Bool
  pub estimated_bytes_per_row : ℕ
  pub initial_rows_limit : Option ℕ
  pub previous_rows : Option ℕ
  pub observed_rows : ℕ

abbrev pub unwrap_or : Option ℕ → ℕ → ℕ
unwrap_or none n = n
unwrap_or (some m) n = m

-- The rows that the byte budget allows, no fewer than a granule where a granule is known to fit.
unfoldable pub budget_rows : ReadWindowScheduler → ℕ
budget_rows s =
    max (max (s.window_budget_bytes / s.estimated_bytes_per_row) 1)
      (if s.full_granule_fits then export_granule_rows else 1)

-- The first window is limited on its own, a later one by the growth from the one before.
unfoldable pub target_rows : ReadWindowScheduler → ℕ
target_rows s = elim s.previous_rows [
  | none ↦ min (budget_rows s) (unwrap_or s.initial_rows_limit (2 ^ 64 - 1))
  | some previous ↦ min (budget_rows s) (saturating_mul previous max_read_window_growth)
]

unfoldable pub aligned_rows : ReadWindowScheduler → ℕ → ℕ
aligned_rows s remaining =
    let target = target_rows s in
    let alignment = export_alignment_rows target in
    let target_end = saturating_add s.observed_rows target in
    let aligned_end = target_end - target_end % alignment in
    min (max (aligned_end - s.observed_rows) 1) remaining

unfoldable pub next_rows : ReadWindowScheduler → ℕ → ℕ × ReadWindowScheduler
next_rows s remaining =
    let rows : ℕ = elim s.exact_batch_rows [
      | some exact ↦ min exact remaining
      | none ↦ aligned_rows s remaining
    ] in
    (rows, record s { previous_rows = some rows })

abbrev pub is_adaptive : Option ℕ → Bool
is_adaptive none = true
is_adaptive (some n) = false

unfoldable pub observe : ℕ → ℕ → ReadWindowScheduler → ReadWindowScheduler
observe bytes rows s =
    let observed = saturating_add s.observed_rows rows in
    if is_adaptive s.exact_batch_rows && ltb 0 rows
    then record s {
      observed_rows = observed;
      estimated_bytes_per_row = max (saturating_add bytes (rows - 1) / rows) 1;
    }
    else record s { observed_rows = observed }

unfoldable pub response_capacity : ReadWindowScheduler → ℕ → Bool → ℕ
response_capacity s requested_rows adopt_frame =
    if adopt_frame
    then 0
    else saturating_add (saturating_mul s.estimated_bytes_per_row requested_rows) 4096
