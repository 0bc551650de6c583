-- ===== src/Driver/Windows/Read.antt =====
-- The frames of a result that is fetched window by window.
use adbc_driver_monetdb.Prelude.{
  ℕ, zero, suc, ◌+◌, ◌-◌, ◌≤◌, ◌<◌, ◌≡◌, refl, ap, inl, inr, Bool, true, false, List, [], ◌∷◌,
  arith, ltb, leb, ◌==◌, Bool-cases, Bytes, length, ℤ, pos, negsuc, Outcome, guard, map_err,
  >>=-eq-ok, ok, err, panic,
}
use mathlib.Core.Path.{subst}
use adbc_driver_monetdb.Exportbin.Error.{FrameError}
use adbc_driver_monetdb.Exportbin.Header.{ExportbinHeader}
use adbc_driver_monetdb.Exportbin.Frame.{parse_frame_header}
use adbc_driver_monetdb.Driver.Windows.Scheduler.{ReadWindowScheduler, next_rows, observe}
use adbc_driver_monetdb.Driver.Windows.Progress.{
  WfScheduler, next_rows-progress, next_rows-WfScheduler, observe-WfScheduler,
}
use adbc_driver_monetdb.Driver.Windows.Fetch.{
  BinaryFrame, FetchError, FetchEnd, is_id, check_frame, Fetched, after_frame, after_fetch,
  fetch_windows, all_read, empty_window, receiver_gone, fetch_panicked, failed, cursor_failed,
  bad_frame, wrong_result_id, wrong_start_row, too_many_rows, is_id,
}

-- The header of the frame's response has this result, this number of rows and the frame's start.
abbrev pub HasRows : ℕ → BinaryFrame → ℕ → Type 0
HasRows result_id f rows =
    (header : ExportbinHeader) × (parse_frame_header f.response ≡ ok header)
    × (header.result_id ≡ pos result_id)
    × (header.row_count ≡ rows)
    × (header.start_row ≡ f.start_row)

-- The frames are those of the rows from an index on, each at the row behind the one before; they end
-- with the last row, with an empty window, or where something fails.
pub data IsRead {E : Type 0} (result_id total_rows : ℕ)
    : ℕ → List BinaryFrame → FetchEnd E → Type 0 where
  read_all : IsRead result_id total_rows total_rows [] all_read
  stopped :
      (next_row : ℕ) (e : FetchError E)
      → next_row < total_rows
      → IsRead result_id total_rows next_row [] (failed e)
  panicked :
      (next_row : ℕ)
      → next_row < total_rows
      → IsRead result_id total_rows next_row [] fetch_panicked
  unreceived :
      (next_row : ℕ) → next_row < total_rows → IsRead result_id total_rows next_row [] receiver_gone
  read_nothing :
      (next_row : ℕ) (f : BinaryFrame)
      → next_row < total_rows
      → f.start_row ≡ next_row
      → HasRows result_id f 0
      → IsRead result_id total_rows next_row (f ∷ []) empty_window
  read_window :
      (next_row rows : ℕ) (f : BinaryFrame) (fs : List BinaryFrame) (end : FetchEnd E)
      → f.start_row ≡ next_row
      → HasRows result_id f rows
      → 0 < rows
      → rows ≤ f.requested_rows
      → next_row + f.requested_rows ≤ total_rows
      → IsRead result_id total_rows (next_row + rows) fs end
      → IsRead result_id total_rows next_row (f ∷ fs) end

id_same : (id : ℤ) (expected : ℕ) → is_id id expected ≡ true → id ≡ pos expected
id_same (pos id) expected h = ap pos (ground arith)
id_same (negsuc n) expected h = absurd (cc)

module _ {E : Type 0} where
  guard-holds : (b : Bool) (e : FetchError E) (u : Unit {0}) → guard b e ≡ ok u → b ≡ true
  guard-holds true e u h = refl
  guard-holds false e u h = absurd (cc)

  ok-injective : (a b : ℕ) → ◌≡◌ {A = Outcome (FetchError E) ℕ} (ok a) (ok b) → a ≡ b
  ok-injective a b h = cc

  parsed :
      (o : Outcome FrameError ExportbinHeader) (header : ExportbinHeader)
      → map_err {F = FetchError E} bad_frame o ≡ ok header
      → o ≡ ok header
  parsed (ok h) header e = cc
  parsed (err x) header e = absurd (cc)
  parsed panic header e = absurd (cc)

  check_frame-HasRows :
      (result_id next_row requested rows : ℕ) (response : Bytes)
      → check_frame {E = E} result_id next_row requested response ≡ ok rows
      → HasRows result_id
          (record { start_row = next_row; requested_rows = requested; response = response })
          rows
        × (rows ≤ requested)
  unfolding check_frame
  check_frame-HasRows result_id next_row requested rows response h =
      let (frame, p, h1) = >>=-eq-ok (map_err bad_frame (parse_frame_header response)) _ h in
      let (u, i, h2) = >>=-eq-ok (guard (is_id frame.result_id result_id) wrong_result_id) _ h1 in
      let (v, st, h3) = >>=-eq-ok (guard (frame.start_row == next_row) wrong_start_row) _ h2 in
      let (w, le, h4) = >>=-eq-ok (guard (leb frame.row_count requested) too_many_rows) _ h3 in
      let same = ok-injective frame.row_count rows h4 in
      let start = guard-holds (frame.start_row == next_row) wrong_start_row v st in
      let few = guard-holds (leb frame.row_count requested) too_many_rows w le in
      (
        (
          frame,
          parsed (parse_frame_header response) frame p,
          id_same frame.result_id result_id (guard-holds _ wrong_result_id u i),
          same,
          ground arith,
        ),
        ground arith,
      )

  after_frame-IsRead :
      (result_id total_rows next_row requested : ℕ) (response : Bytes) (receives : Bool)
      (o : Outcome (FetchError E) ℕ) (rest : ℕ → Fetched E)
      → next_row < total_rows
      → next_row + requested ≤ total_rows
      → ((rows : ℕ)
          → o ≡ ok rows
          → HasRows result_id
              (record { start_row = next_row; requested_rows = requested; response = response })
              rows
            × (rows ≤ requested))
      → ((rows : ℕ)
          → 0 < rows
          → rows ≤ requested
          → IsRead result_id total_rows (next_row + rows) (rest rows).0 (rest rows).1)
      → IsRead result_id total_rows next_row
          (after_frame receives
            (record { start_row = next_row; requested_rows = requested; response = response })
            o
            rest).0
          (after_frame receives
            (record { start_row = next_row; requested_rows = requested; response = response })
            o
            rest).1
  after_frame-IsRead result_id total next requested response receives (err e) rest lt le has read =
      stopped next e lt
  after_frame-IsRead result_id total next requested response receives panic rest lt le has read =
      panicked next lt
  after_frame-IsRead result_id total next requested response false (ok rows) rest lt le has read =
      unreceived next lt
  after_frame-IsRead result_id total next requested response true (ok zero) rest lt le has read =
      read_nothing next _ lt refl (has 0 refl).0
  after_frame-IsRead result_id total next requested response true (ok (suc n)) rest lt le has read =
      let (rows_there, few) = has (suc n) refl in
      read_window next (suc n) _ _ _ refl rows_there (omega arith) few le
        (read (suc n) (omega arith) few)

  after_fetch-IsRead :
      (result_id total_rows next_row requested : ℕ) (receives : Bool) (o : Outcome E Bytes)
      (rest : Bytes → ℕ → Fetched E)
      → next_row < total_rows
      → next_row + requested ≤ total_rows
      → ((response : Bytes) (rows : ℕ)
          → 0 < rows
          → rows ≤ requested
          → IsRead result_id total_rows
              (next_row + rows)
              (rest response rows).0
              (rest response rows).1)
      → IsRead result_id total_rows next_row
          (after_fetch o (λ response.
            after_frame receives
              (record { start_row = next_row; requested_rows = requested; response = response })
              (check_frame result_id next_row requested response)
              (rest response))).0
          (after_fetch o (λ response.
            after_frame receives
              (record { start_row = next_row; requested_rows = requested; response = response })
              (check_frame result_id next_row requested response)
              (rest response))).1
  after_fetch-IsRead result_id total next requested receives (err e) rest lt fits read =
      stopped next (cursor_failed e) lt
  after_fetch-IsRead result_id total next requested receives panic rest lt fits read =
      panicked next lt
  after_fetch-IsRead result_id total next requested receives (ok response) rest lt fits read =
      after_frame-IsRead result_id total next requested response receives
        (check_frame result_id next requested response) (rest response) lt fits
        (λ rows. check_frame-HasRows result_id next requested rows response) (read response)

  -- Reading a result with a well-formed scheduler ends, whatever the server answers, within as many
  -- windows as there are rows and one more test. Each frame that is sent begins at the row behind the
  -- one before, is of the result and has the rows that its header says, at least one and no more than were asked for, and
  -- no more are asked for than are left. Only the last may have none, which ends the reading; besides
  -- it ends at the last row, or with an error, or when nobody receives.
  pub fetch_windows-IsRead :
      (fuel result_id total_rows : ℕ) (fetch : ℕ → ℕ → Outcome E Bytes) (receives : ℕ → Bool)
      (next_row : ℕ) (s : ReadWindowScheduler)
      → WfScheduler s
      → next_row ≤ total_rows
      → total_rows - next_row < fuel
      → IsRead result_id total_rows next_row
          (fetch_windows fuel result_id total_rows fetch receives next_row s).0
          (fetch_windows fuel result_id total_rows fetch receives next_row s).1
  unfolding fetch_windows
  fetch_windows-IsRead zero result_id total fetch receives next s w le h = absurd (omega arith)
  fetch_windows-IsRead (suc fuel) result_id total fetch receives next s w le h =
      elim (Bool-cases (ltb next total)) [
        | inr over ↦
            let at_end : total ≡ next = ground arith in
            rw (fetch_windows, over)
              (subst (λ n. IsRead {E = E} result_id total n [] all_read) at_end read_all)
        | inl more ↦
            let lt : next < total = ground arith in
            let (positive, within) = next_rows-progress s (total - next) w (omega arith) in
            let fits : next + (next_rows s (total - next)).0 ≤ total = omega (arith, within) in
            rw (fetch_windows, more)
              (after_fetch-IsRead result_id total next (next_rows s (total - next)).0
                (receives next) (fetch next (next_rows s (total - next)).0) _ lt fits
                (λ response rows some_rows few.
                  fetch_windows-IsRead fuel result_id total fetch receives (next + rows)
                    (observe (length response) rows (next_rows s (total - next)).1)
                    (observe-WfScheduler (next_rows s (total - next)).1 (length response) rows
                      (next_rows-WfScheduler s (total - next) w))
                    (omega (arith, few, fits)) (omega (arith, some_rows, few, fits, h))))
      ]
