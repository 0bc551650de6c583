-- ===== src/Exportbin/Frame.antt =====
-- `parse_frame` and `parse_frame_header`. A range is a pair of its ends, and a column is the bytes
-- of the frame in its range. A slice or an index out of bounds is a panic.
use adbc_driver_monetdb.Prelude.{
  ℕ, zero, suc, ◌+◌, ◌-◌, ◌/◌, ◌^◌, Bool, false, not, ◌&&◌, ◌||◌, Option, none, some, List, [], ◌∷◌,
  ltb, leb, ◌==◌, if◌then◌else◌, Bytes, checked_add, checked_sub, checked_mul, le_value, slice,
  position, length, get_elem?, take, drop, ℤ, signed64, to_usize, pos, negsuc, Outcome, ◌>>=◌, ◌>>◌,
  guard, ok_or, expect, ok, err,
}
use adbc_driver_monetdb.Exportbin.Error.{FrameError, malformed, server}
use adbc_driver_monetdb.Exportbin.Header.{ExportbinHeader, header_prefix, parse_header}

pub record ExportbinFrame : Type 0 where
  pub result_id : ℤ
  pub row_count : ℕ
  pub start_row : ℕ
  pub columns : List Bytes

abbrev pub ByteRange : Type 0
ByteRange = ℕ × ℕ

-- `i64::from_le_bytes`
abbrev pub le_i64 : Bytes → ℤ
le_i64 bytes = signed64 (le_value bytes)

-- `message.strip_prefix(b"!").unwrap_or(message)`
abbrev pub strip_bang : Bytes → Bytes
strip_bang [] = []
strip_bang (b ∷ bs) = if b == b'!' then bs else b ∷ bs

-- Up to the first NUL; the slice at `offset` panics behind the end.
unfoldable pub read_error_message : Bytes → ℕ → Outcome FrameError Bytes
read_error_message frame offset = do
  message ← slice frame offset (length frame)
  ok (strip_bang (elim (position 0 message) [ none ↦ message | some end ↦ take end message ]))

-- `frame.get(offset) == Some(&b'!')`
abbrev pub is_bang_at : Bytes → ℕ → Bool
is_bang_at frame offset = elim (get_elem? frame offset) [ none ↦ false | some b ↦ b == b'!' ]

-- The magnitude of a negative `toc_pos`; `checked_neg` fails at the least `i64`.
abbrev pub checked_neg : ℤ → Option ℕ
checked_neg (pos n) = if n == 0 then some 0 else none
checked_neg (negsuc n) = if n == 2 ^ 63 - 1 then none else some (suc n)

unfoldable pub find_error_message : Bytes → ℤ → Outcome FrameError Bytes
find_error_message frame toc_pos =
    let invalid = malformed "invalid in-frame error offset" in
    do
      message_end ← expect (checked_sub (length frame) 8)
      offset ← ok_or (checked_neg toc_pos) invalid
      guard (ltb offset message_end && is_bang_at frame offset) invalid
      shortened ← slice frame 0 message_end
      read_error_message shortened offset

unfoldable pub column_range : ℤ → ℤ → ℕ → ℕ → Outcome FrameError ByteRange
column_range start length body_start toc_pos = do
  start ← ok_or (to_usize start) (malformed "negative column offset")
  length ← ok_or (to_usize length) (malformed "negative column offset")
  end ← ok_or (checked_add start length) (malformed "column extent overflows")
  guard (leb body_start start && leb end toc_pos) (malformed "column data out of bounds")
  ok (start, end)

-- The loop over the table of contents, by the entries of 16 bytes that are left.
unfoldable pub read_ranges : ℕ → Bytes → ℕ → ℕ → Outcome FrameError (List ByteRange)
read_ranges zero toc body_start toc_pos = ok []
read_ranges (suc entries) toc body_start toc_pos = do
  range ← column_range (le_i64 (take 8 toc)) (le_i64 (take 8 (drop 8 toc))) body_start toc_pos
  ranges ← read_ranges entries (drop 16 toc) body_start toc_pos
  ok (range ∷ ranges)

-- `ranges.iter().filter(|range| !range.is_empty())`
unfoldable pub occupied : List ByteRange → List ByteRange
occupied [] = []
occupied ((start, end) ∷ ranges) =
    if ltb start end then (start, end) ∷ occupied ranges else occupied ranges

-- `sort_unstable_by_key(|range| range.start)`
unfoldable pub insert_by_start : ByteRange → List ByteRange → List ByteRange
insert_by_start range [] = range ∷ []
insert_by_start range (other ∷ ranges) =
    if leb range.0 other.0 then range ∷ other ∷ ranges else other ∷ insert_by_start range ranges

unfoldable pub sort_by_start : List ByteRange → List ByteRange
sort_by_start [] = []
sort_by_start (range ∷ ranges) = insert_by_start range (sort_by_start ranges)

-- `windows(2).any(|pair| pair[0].end > pair[1].start)`
unfoldable pub any_overlap : List ByteRange → Bool
any_overlap [] = false
any_overlap (a ∷ []) = false
any_overlap (a ∷ b ∷ ranges) = ltb b.0 a.1 || any_overlap (b ∷ ranges)

-- `ranges.into_iter().map(|range| &frame[range])`
unfoldable pub column_slices : Bytes → List ByteRange → Outcome FrameError (List Bytes)
column_slices frame [] = ok []
column_slices frame (range ∷ ranges) = do
  column ← slice frame range.0 range.1
  columns ← column_slices frame ranges
  ok (column ∷ columns)

abbrev pub is_length : Option ℕ → ℕ → Bool
is_length none n = false
is_length (some m) n = m == n

-- `toc_pos.checked_add(toc_len).and_then(|end| end.checked_add(8))`
abbrev pub expected_end : ℕ → ℕ → Option ℕ
expected_end toc_pos toc_len = elim (checked_add toc_pos toc_len) [
  | none ↦ none
  | some end ↦ checked_add end 8
]

-- A negative position is an error of the server, whose message it points at.
unfoldable pub toc_position : Bytes → ℤ → Outcome FrameError ℕ
toc_position frame (negsuc n) = do
  message ← find_error_message frame (negsuc n)
  err (server message)
toc_position frame (pos n) = ok n

-- The test that the table and the trailer end the frame, and that the table starts in its body.
abbrev pub is_toc_misplaced : ℕ → ℕ → ℕ → ℕ → ℕ → Bool
is_toc_misplaced len column_count body_start toc_pos toc_len =
    ltb (len / 16) column_count
    || ltb toc_pos body_start
    || not (is_length (expected_end toc_pos toc_len) len)

-- The entries of the table of contents at `toc_pos`.
unfoldable pub toc_ranges : Bytes → ExportbinHeader → ℕ → ℕ → Outcome FrameError (List ByteRange)
toc_ranges frame header body_start toc_pos = do
  toc_len ←
      ok_or (checked_mul header.column_count 16) (malformed "table of contents length overflows")
  guard (not (is_toc_misplaced (length frame) header.column_count body_start toc_pos toc_len))
      (malformed "table of contents out of bounds")
  toc ← slice frame toc_pos (toc_pos + toc_len)
  read_ranges (length toc / 16) toc body_start toc_pos

-- The position of the table of contents and its entries, for a frame whose header is read.
unfoldable pub table_of_contents :
    Bytes → ExportbinHeader → ℕ → Outcome FrameError (ℕ × List ByteRange)
table_of_contents frame header body_start = do
  trailer_start ← expect (checked_sub (length frame) 8)
  trailer ← slice frame trailer_start (length frame)
  toc_pos ← toc_position frame (le_i64 trailer)
  ranges ← toc_ranges frame header body_start toc_pos
  ok (toc_pos, ranges)

abbrev pub starts_with_bang : Bytes → Bool
starts_with_bang [] = false
starts_with_bang (b ∷ bs) = b == b'!'

unfoldable pub textual_error {ℓ} : {A : Type ℓ} → Bytes → Outcome FrameError A
textual_error frame = do message ← read_error_message frame 0; err (server message)

-- The frame behind its header: the table of contents, the test for overlaps, the columns.
unfoldable pub parse_body : Bytes → ExportbinHeader → ℕ → Outcome FrameError ExportbinFrame
parse_body frame header body_start = do
  (toc_pos, ranges) ← table_of_contents frame header body_start
  guard (not (any_overlap (sort_by_start (occupied ranges)))) (malformed "column ranges overlap")
  columns ← column_slices frame ranges
  ok (record {
    result_id = header.result_id;
    row_count = header.row_count;
    start_row = header.start_row;
    columns = columns;
  })

unfoldable pub parse_frame : Bytes → Outcome FrameError ExportbinFrame
parse_frame frame =
    if starts_with_bang frame
    then textual_error frame
    else if ltb (length frame) (length header_prefix + 8)
    then err (malformed "response too short")
    else do (header, body_start) ← parse_header frame; parse_body frame header body_start

unfoldable pub parse_frame_header : Bytes → Outcome FrameError ExportbinHeader
parse_frame_header frame =
    if starts_with_bang frame
    then textual_error frame
    else do (header, body_start) ← parse_header frame; ok header
