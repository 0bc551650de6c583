-- ===== src/Driver/Windows/Tests.antt =====
-- Sizes of driver.rs' own tests, and the theorems on windows at concrete schedulers.
use adbc_driver_monetdb.Prelude.{
  ℕ, ◌*◌, ◌/◌, ◌%◌, ◌≤◌, ◌<◌, min, max, ◌≡◌, refl, ◌⊎◌, Bool, true, false, none, some, [], ◌∷◌, map,
  arith, Bytes, codes, is_utf8, Outcome, ok, err,
}
use adbc_driver_monetdb.Driver.Windows.Alignment.{
  export_granule_rows, leading_zeros, export_alignment_rows, round_small_batch, round_large_batch,
  round_read_batch_rows, round_read_batch_rows-granule,
}
use adbc_driver_monetdb.Driver.Windows.Sizes.{
  mib, min_read_window_bytes, effective_read_window_bytes, effective_read_window-bounds,
}
use adbc_driver_monetdb.Driver.Windows.Scheduler.{ReadWindowScheduler}
use adbc_driver_monetdb.Driver.Windows.Fetch.{check_frame, fetch_windows, too_many_rows}
use adbc_driver_monetdb.Driver.Windows.Read.{IsRead, fetch_windows-IsRead}
use adbc_driver_monetdb.Exportbin.Frame.{parse_frame_header}
use adbc_driver_monetdb.Exportbin.Header.{
  parse_header, parse_fields, split_fields, parse_i64, parse_u64, parse_nonempty, parse_digits,
  starts_with,
}

rounds_to_granules :
    map round_read_batch_rows (0 ∷ 100 ∷ 65_537 ∷ 200_000 ∷ []) ≡ 0 ∷ 128 ∷ 65_536 ∷ 262_144 ∷ []
unfolding round_read_batch_rows round_small_batch round_large_batch export_alignment_rows
    leading_zeros
rounds_to_granules = refl

round_read_batch_rows-granule_example :
    ((round_read_batch_rows 100 % export_granule_rows ≡ 0)
      ⊎ (export_granule_rows % round_read_batch_rows 100 ≡ 0))
    × (100 < 2 * round_read_batch_rows 100)
    × (round_read_batch_rows 100 ≤ 2 * 100)
round_read_batch_rows-granule_example = round_read_batch_rows-granule 100 (omega arith)

effective_read_window-bounds_example :
    (min_read_window_bytes
      ≤ effective_read_window_bytes (some (1024 * mib)) none 1000 (some (96 * mib)))
    × (effective_read_window_bytes (some (1024 * mib)) none 1000 (some (96 * mib))
        ≤ min (512 * mib) (max (1024 * mib / 8) min_read_window_bytes))
effective_read_window-bounds_example =
    effective_read_window-bounds (1024 * mib) 1000 (some (96 * mib))

abbrev small_scheduler : ReadWindowScheduler
small_scheduler = record {
  exact_batch_rows = none;
  window_budget_bytes = 1000;
  full_granule_fits = false;
  estimated_bytes_per_row = 10;
  initial_rows_limit = some 1;
  previous_rows = some 8;
  observed_rows = 9;
}

-- A server that has one row for each request, of the result 7.
one_row : ℕ → ℕ → Outcome ℕ Bytes
one_row start rows = ok (codes "&6 7 2 1 0\n")

one_row_check : check_frame {E = ℕ} 7 0 4 (codes "&6 7 2 1 0\n") ≡ ok 1
unfolding check_frame parse_frame_header parse_header parse_fields split_fields parse_i64 parse_u64
    parse_nonempty parse_digits starts_with is_utf8
one_row_check = refl

-- More rows than were asked for are refused.
too_many_check : check_frame {E = ℕ} 7 0 0 (codes "&6 7 2 1 0\n") ≡ err too_many_rows
unfolding check_frame parse_frame_header parse_header parse_fields split_fields parse_i64 parse_u64
    parse_nonempty parse_digits starts_with is_utf8
too_many_check = refl

abbrev always : ℕ → Bool
always row = true

fetch_windows-IsRead_example :
    IsRead 7 50 0
      (fetch_windows 51 7 50 one_row always 0 small_scheduler).0
      (fetch_windows 51 7 50 one_row always 0 small_scheduler).1
fetch_windows-IsRead_example =
    fetch_windows-IsRead 51 7 50 one_row always 0 small_scheduler
      (omega arith, λ e. ground (arith, e)) (omega arith) (omega arith)
