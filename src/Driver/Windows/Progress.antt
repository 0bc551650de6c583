-- ===== src/Driver/Windows/Progress.antt =====
-- The windows of `ReadWindowScheduler` make progress, and end on export boundaries.
use adbc_driver_monetdb.Prelude.{
  ℕ, zero, suc, ◌-◌, ◌*◌, ◌^◌, ◌≤◌, ◌<◌, ◌≡◌, ◌≢◌, ◌⊎◌, inl, inr, true, ◌&&◌, none, some, arith,
  ltb, Bool-cases, Option-cases,
}
use adbc_driver_monetdb.Driver.Windows.Alignment.{export_granule_rows}
use adbc_driver_monetdb.Driver.Windows.Scheduler.{
  ReadWindowScheduler, unwrap_or, aligned_rows, next_rows, observe, is_adaptive,
}

-- The estimate is positive, and so is a fixed batch size.
abbrev pub WfScheduler : ReadWindowScheduler → Type 0
WfScheduler s = (0 < s.estimated_bytes_per_row) × (s.exact_batch_rows ≢ some 0)

pub next_rows-progress :
    (s : ReadWindowScheduler) (remaining : ℕ)
    → WfScheduler s
    → 0 < remaining
    → (0 < (next_rows s remaining).0) × ((next_rows s remaining).0 ≤ remaining)
unfolding next_rows aligned_rows
next_rows-progress s remaining (e, n) h = elim (Option-cases s.exact_batch_rows) [
  | inl is ↦ rw (next_rows, is, aligned_rows) (omega arith, omega arith)
  | inr (zero, is) ↦ absurd (n is)
  | inr (suc exact, is) ↦ rw (next_rows, is) (omega arith, omega arith)
]

pub next_rows-WfScheduler :
    (s : ReadWindowScheduler) (remaining : ℕ)
    → WfScheduler s
    → WfScheduler (next_rows s remaining).1
unfolding next_rows
next_rows-WfScheduler s remaining w = w

pub observe-WfScheduler :
    (s : ReadWindowScheduler) (bytes rows : ℕ) → WfScheduler s → WfScheduler (observe bytes rows s)
unfolding observe
observe-WfScheduler s bytes rows (e, n) =
    elim (Bool-cases (is_adaptive s.exact_batch_rows && ltb 0 rows)) [
      | inl is ↦ rw (observe, is) (omega arith, n)
      | inr is ↦ rw (observe, is) (e, n)
    ]

-- The most rows that a window may have by the one before it, or as the first one.
abbrev pub growth_limit : ReadWindowScheduler → ℕ
growth_limit s = elim s.previous_rows [
  | none ↦ unwrap_or s.initial_rows_limit (2 ^ 64 - 1)
  | some previous ↦ 4 * previous
]

-- The bytes that are expected of `rows` rows are within the budget, or a granule is known to fit, or
-- it is a single row.
abbrev pub FitsBudget : ReadWindowScheduler → ℕ → Type 0
FitsBudget s rows =
    (rows * s.estimated_bytes_per_row ≤ s.window_budget_bytes)
    ⊎ ((s.full_granule_fits ≡ true) × (rows ≤ export_granule_rows))
    ⊎ (rows ≤ 1)
