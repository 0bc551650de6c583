-- ===== src/Driver/Windows/Sizes.antt =====
-- The adaptive sizes. A `Duration` is a number of nanoseconds.
use adbc_driver_monetdb.Prelude.{
  ℕ, ◌-◌, ◌*◌, ◌/◌, ◌^◌, ◌≤◌, min, max, ◌||◌, Option, none, some, arith, ltb, leb, ◌==◌,
  if◌then◌else◌,
}

abbrev pub mib : ℕ
mib = 1024 * 1024

abbrev pub min_read_window_bytes : ℕ
min_read_window_bytes = mib

abbrev pub max_automatic_read_granule_bytes : ℕ
max_automatic_read_granule_bytes = 512 * mib

abbrev pub remote_write_window_rtt : ℕ
remote_write_window_rtt = 5000000

abbrev pub max_adaptive_insert_rows : ℕ
max_adaptive_insert_rows = 10000

-- The crossover is computed in `u128`, two exchanges at two microseconds for each value.
unfoldable pub adaptive_insert_rows : ℕ → ℕ → ℕ
adaptive_insert_rows configured_rows measured_round_trip =
    let micros = measured_round_trip / 1000 in
    let crossover = min (micros * 2) (2 ^ 128 - 1) / 2 in
    let rows = if ltb crossover (2 ^ 64) then crossover else 2 ^ 64 - 1 in
    if configured_rows == 0 || ltb measured_round_trip 500000
    then configured_rows
    else max configured_rows (min rows max_adaptive_insert_rows)

unfoldable pub adaptive_incompressible_window_bytes : ℕ → ℕ → ℕ
adaptive_incompressible_window_bytes physical_window_budget measured_round_trip =
    if leb remote_write_window_rtt measured_round_trip
    then physical_window_budget
    else min (64 * mib) physical_window_budget

unfoldable pub adaptive_physical_window_bytes : ℕ → ℕ → ℕ → ℕ
adaptive_physical_window_bytes window_budget measured_round_trip columns =
    if leb remote_write_window_rtt measured_round_trip
    then window_budget
    else min (if leb 512 columns then 48 * mib else 128 * mib) window_budget

-- `memory_limit.map_or(target, |limit| target.min((limit / 8).max(least)))`
abbrev pub within_memory : ℕ → ℕ → Option ℕ → ℕ
within_memory target least none = target
within_memory target least (some limit) = min target (max (limit / 8) least)

unfoldable pub automatic_read_window_bytes_for_memory : Option ℕ → ℕ → ℕ
automatic_read_window_bytes_for_memory memory_limit measured_round_trip =
    within_memory (if leb remote_write_window_rtt measured_round_trip then 128 * mib else 64 * mib)
      min_read_window_bytes memory_limit

unfoldable pub automatic_write_window_bytes_for_memory : Option ℕ → ℕ
automatic_write_window_bytes_for_memory memory_limit =
    within_memory (512 * mib) (4 * mib) memory_limit

unfoldable pub effective_automatic_read_window_bytes : ℕ → Option ℕ → Option ℕ → ℕ
effective_automatic_read_window_bytes base fixed_granule_capacity memory_limit =
    let maximum =
      within_memory max_automatic_read_granule_bytes min_read_window_bytes memory_limit in
    elim fixed_granule_capacity [
      | none ↦ base
      | some capacity ↦ if leb capacity maximum then max base capacity else base
    ]

-- `effective_read_window_bytes`, with the memory limit of the system given.
unfoldable pub effective_read_window_bytes : Option ℕ → Option ℕ → ℕ → Option ℕ → ℕ
effective_read_window_bytes memory_limit configured measured_round_trip fixed_granule_capacity =
    elim configured [
      | some base ↦ base
      | none ↦
          effective_automatic_read_window_bytes
            (automatic_read_window_bytes_for_memory memory_limit measured_round_trip)
            fixed_granule_capacity memory_limit
    ]

-- With no window configured and a memory limit known, the read window is at least 1 MiB, at most
-- 512 MiB, and at most an eighth of the limit where that is 1 MiB or more.
pub effective_read_window-bounds :
    (limit measured_round_trip : ℕ) (fixed_granule_capacity : Option ℕ)
    → (min_read_window_bytes
        ≤ effective_read_window_bytes (some limit) none measured_round_trip fixed_granule_capacity)
      × (effective_read_window_bytes (some limit) none measured_round_trip fixed_granule_capacity
          ≤ min (512 * mib) (max (limit / 8) min_read_window_bytes))
unfolding effective_read_window_bytes effective_automatic_read_window_bytes
    automatic_read_window_bytes_for_memory
effective_read_window-bounds limit rtt none = ground arith
effective_read_window-bounds limit rtt (some capacity) = ground arith
