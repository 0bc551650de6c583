-- ===== src/Exportbin/Toc.antt =====
-- The table of contents of a frame: its entries lie in the body, and reading them never panics.
use adbc_driver_monetdb.Prelude.{
  ℕ, ◌+◌, ◌-◌, ◌*◌, ◌/◌, ◌≤◌, ◌≡◌, refl, ◌≢◌, false, some, List, [], ◌∷◌, map, arith, Bytes,
  checked_sub, checked_mul, All, length, take, drop, length-take, length-drop, ℤ, pos, negsuc,
  >>=-ne-panic, ok, panic,
}
use adbc_driver_monetdb.Exportbin.Header.{ExportbinHeader}
use adbc_driver_monetdb.Exportbin.Frame.{
  ByteRange, read_ranges, column_slices, toc_position, is_toc_misplaced, table_of_contents,
  toc_ranges,
}
use adbc_driver_monetdb.Exportbin.Safety.{
  Within, slice-ok, find_error_message-ne-panic, read_ranges-Within, read_ranges-ne-panic,
}

toc_placed :
    (len column_count body_start toc_pos toc_len : ℕ)
    → checked_mul column_count 16 ≡ some toc_len
    → is_toc_misplaced len column_count body_start toc_pos toc_len ≡ false
    → (toc_len ≡ 16 * column_count) × (body_start ≤ toc_pos) × (toc_pos + toc_len + 8 ≡ len)
toc_placed len column_count body_start toc_pos toc_len h k = ground arith

-- The bytes of the table of contents.
abbrev toc_bytes : Bytes → ℕ → ℕ → Bytes
toc_bytes frame toc_pos toc_len = take (toc_pos + toc_len - toc_pos) (drop toc_pos frame)

length-toc_bytes :
    (frame : Bytes) (toc_pos toc_len : ℕ)
    → toc_pos + toc_len ≤ length frame
    → length (toc_bytes frame toc_pos toc_len) ≡ toc_len
length-toc_bytes frame toc_pos toc_len h = omega (
  arith,
  length-take (toc_pos + toc_len - toc_pos) (drop toc_pos frame),
  length-drop toc_pos frame,
)

toc_ranges-parts :
    (frame : Bytes) (header : ExportbinHeader) (body_start toc_pos : ℕ) (ranges : List ByteRange)
    → toc_ranges frame header body_start toc_pos ≡ ok ranges
    → (toc_len : ℕ) × (checked_mul header.column_count 16 ≡ some toc_len)
      × (is_toc_misplaced (length frame) header.column_count body_start toc_pos toc_len ≡ false)
      × (read_ranges
            (length (toc_bytes frame toc_pos toc_len) / 16)
            (toc_bytes frame toc_pos toc_len)
            body_start
            toc_pos
          ≡ ok ranges)
unfolding toc_ranges
toc_ranges-parts frame header body_start toc_pos ranges h = ground arith

table_of_contents-parts :
    (frame : Bytes) (header : ExportbinHeader) (body_start toc_pos : ℕ) (ranges : List ByteRange)
    → table_of_contents frame header body_start ≡ ok (toc_pos, ranges)
    → toc_ranges frame header body_start toc_pos ≡ ok ranges
unfolding table_of_contents
table_of_contents-parts frame header body_start toc_pos ranges h = ground arith

-- The table of contents has an entry for each column of the header, its entries lie between the
-- header and the table, and the table and the trailer end the frame.
pub table_of_contents-Within :
    (frame : Bytes) (header : ExportbinHeader) (body_start toc_pos : ℕ) (ranges : List ByteRange)
    → table_of_contents frame header body_start ≡ ok (toc_pos, ranges)
    → (length ranges ≡ header.column_count)
      × All (Within body_start toc_pos) ranges
      × (toc_pos + 16 * header.column_count + 8 ≡ length frame)
table_of_contents-Within frame header body_start toc_pos ranges h =
    let inner = table_of_contents-parts frame header body_start toc_pos ranges h in
    let (toc_len, len, placed, read) =
      toc_ranges-parts frame header body_start toc_pos ranges inner in
    let (exact, after, whole) = toc_placed (length frame) _ body_start toc_pos toc_len len placed in
    let (count, within) = read_ranges-Within _ _ body_start toc_pos ranges read in
    (omega (arith, length-toc_bytes frame toc_pos toc_len (omega arith)), within, omega arith)

toc_position-ne-panic :
    (frame : Bytes) (toc_pos : ℤ) → 8 ≤ length frame → toc_position frame toc_pos ≢ panic
unfolding toc_position
toc_position-ne-panic frame (pos n) h = λ e. cc
toc_position-ne-panic frame (negsuc n) h =
    >>=-ne-panic _ _ (find_error_message-ne-panic frame (negsuc n) h) (λ message e p. cc)

toc_ranges-ne-panic :
    (frame : Bytes) (header : ExportbinHeader) (body_start toc_pos : ℕ)
    → toc_ranges frame header body_start toc_pos ≢ panic
unfolding toc_ranges
toc_ranges-ne-panic frame header body_start toc_pos p =
    let toc_len = header.column_count * 16 in
    let toc = toc_bytes frame toc_pos toc_len in
    ground (
      arith,
      toc_placed (length frame) header.column_count body_start toc_pos toc_len,
      read_ranges-ne-panic (length toc / 16) toc body_start toc_pos,
    )

pub table_of_contents-ne-panic :
    (frame : Bytes) (header : ExportbinHeader) (body_start : ℕ)
    → 8 ≤ length frame
    → table_of_contents frame header body_start ≢ panic
unfolding table_of_contents
table_of_contents-ne-panic frame header body_start h =
    let start : checked_sub (length frame) 8 ≡ some (length frame - 8) = ground arith in
    rw (start, slice-ok frame (length frame - 8) (length frame) (omega arith) (omega arith))
      (>>=-ne-panic _ _ (toc_position-ne-panic frame _ h) (λ toc_pos e.
        >>=-ne-panic _ _ (toc_ranges-ne-panic frame header body_start toc_pos) (λ ranges k p. cc)))

-- The bytes of a range.
abbrev pub column_of : Bytes → ByteRange → Bytes
column_of frame range = take (range.1 - range.0) (drop range.0 frame)

pub column_slices-Within :
    (frame : Bytes) (body_start toc_pos : ℕ) (ranges : List ByteRange)
    → toc_pos ≤ length frame
    → All (Within body_start toc_pos) ranges
    → column_slices frame ranges ≡ ok (map (column_of frame) ranges)
unfolding column_slices
column_slices-Within frame body_start toc_pos [] h w = refl
column_slices-Within frame body_start toc_pos (range ∷ ranges) h (w, ws) = rw (
  slice-ok frame range.0 range.1 (omega arith) (omega arith),
  column_slices-Within frame body_start toc_pos ranges h ws,
)
