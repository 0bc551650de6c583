-- ===== src/Driver/Windows/Fetch.antt =====
-- The loop that fetches a binary result in the background (the thread over a `BinaryFetchTask`):
-- `fetch` is `fetch_binary_into` of the `monetdb` crate, `receives` whether the receiver of the frame
-- at a row is still there. The buffers that are used again and the statistics are left out.
use adbc_driver_monetdb.Prelude.{
  ℕ, zero, suc, ◌+◌, ◌-◌, Bool, true, false, List, [], ◌∷◌, ltb, leb, ◌==◌, Bytes, length, ℤ, pos,
  negsuc, Outcome, ◌>>=◌, guard, map_err, ok, err, panic,
}
use adbc_driver_monetdb.Exportbin.Error.{FrameError}
use adbc_driver_monetdb.Exportbin.Frame.{parse_frame_header}
use adbc_driver_monetdb.Driver.Windows.Scheduler.{ReadWindowScheduler, next_rows, observe}

pub record BinaryFrame : Type 0 where
  pub start_row : ℕ
  pub requested_rows : ℕ
  pub response : Bytes

pub data FetchError (E : Type 0) : Type 0 where
  cursor_failed : E → FetchError E
  bad_frame : FrameError → FetchError E
  wrong_result_id wrong_start_row too_many_rows : FetchError E

-- How the loop ends.
pub data FetchEnd (E : Type 0) : Type 0 where
  all_read empty_window receiver_gone fetch_panicked out_of_fuel : FetchEnd E
  failed : FetchError E → FetchEnd E

-- `u64::try_from(id) == Ok(expected)`
abbrev pub is_id : ℤ → ℕ → Bool
is_id (pos id) expected = id == expected
is_id (negsuc n) expected = false

-- The checks of a response, which give the rows that it has.
unfoldable pub check_frame : {E : Type 0} → ℕ → ℕ → ℕ → Bytes → Outcome (FetchError E) ℕ
check_frame result_id next_row requested_rows response = do
  frame ← map_err bad_frame (parse_frame_header response)
  _ ← guard (is_id frame.result_id result_id) wrong_result_id
  _ ← guard (frame.start_row == next_row) wrong_start_row
  _ ← guard (leb frame.row_count requested_rows) too_many_rows
  ok frame.row_count

-- The frames that are sent, and the end.
abbrev pub Fetched : Type 0 → Type 0
Fetched E = List BinaryFrame × FetchEnd E

module _ {E : Type 0} where
  -- What follows a response: the frame is sent, an empty one ends the loop.
  abbrev pub after_frame :
      Bool → BinaryFrame → Outcome (FetchError E) ℕ → (ℕ → Fetched E) → Fetched E
  after_frame receives frame (err e) rest = ([], failed e)
  after_frame receives frame panic rest = ([], fetch_panicked)
  after_frame false frame (ok rows) rest = ([], receiver_gone)
  after_frame true frame (ok zero) rest = (frame ∷ [], empty_window)
  after_frame true frame (ok (suc n)) rest = (frame ∷ (rest (suc n)).0, (rest (suc n)).1)

  abbrev pub after_fetch : Outcome E Bytes → (Bytes → Fetched E) → Fetched E
  after_fetch (ok response) rest = rest response
  after_fetch (err e) rest = ([], failed (cursor_failed e))
  after_fetch panic rest = ([], fetch_panicked)

  unfoldable pub fetch_windows :
      ℕ → ℕ → ℕ → (ℕ → ℕ → Outcome E Bytes) → (ℕ → Bool) → ℕ → ReadWindowScheduler → Fetched E
  fetch_windows zero result_id total_rows fetch receives next_row s = ([], out_of_fuel)
  fetch_windows (suc fuel) result_id total_rows fetch receives next_row s =
      elim (ltb next_row total_rows) [
        | false ↦ ([], all_read)
        | true ↦
            let (requested, s') = next_rows s (total_rows - next_row) in
            after_fetch (fetch next_row requested) (λ response.
              after_frame (receives next_row)
                (record { start_row = next_row; requested_rows = requested; response = response })
                (check_frame result_id next_row requested response)
                (λ rows.
                  fetch_windows fuel result_id total_rows fetch receives (next_row + rows)
                    (observe (length response) rows s')))
      ]
