-- ===== src/Exportbin/Sound.antt =====
-- `parse_frame` never panics, and the columns of a parsed frame lie in its body, apart.
use adbc_driver_monetdb.Prelude.{
  ℕ, suc, ◌+◌, ◌-◌, ◌*◌, ◌≤◌, ◌<◌, min, ◌≡◌, ap, ◌∙◌, ◌≢◌, inl, inr, true, false, not, some, List,
  [], ◌∷◌, map, arith, ltb, Bool-cases, Option-cases, Bytes, All, position, length, take, drop,
  length-take, Outcome, ◌>>=◌, ◌>>◌, guard, >>=-eq-ok, >>=-ne-panic, ok, panic,
}
use adbc_driver_monetdb.Exportbin.Error.{FrameError, malformed}
use adbc_driver_monetdb.Exportbin.Header.{
  ExportbinHeader, header_prefix, starts_with, parse_fields, split_fields, parse_header,
}
use adbc_driver_monetdb.Exportbin.Frame.{
  ByteRange, column_slices, table_of_contents, ExportbinFrame, textual_error, parse_body,
  parse_frame, occupied, sort_by_start, any_overlap, starts_with_bang,
}
use adbc_driver_monetdb.Exportbin.Ranges.{AllDisjoint}
use adbc_driver_monetdb.Exportbin.Overlap.{overlap_exact}
use adbc_driver_monetdb.Exportbin.Safety.{Within, position-lt, read_error_message-ne-panic}
use adbc_driver_monetdb.Exportbin.Toc.{
  column_of, table_of_contents-Within, table_of_contents-ne-panic, column_slices-Within,
}

parse_fields-ne-panic : (fields : List Bytes) → parse_fields fields ≢ panic
unfolding parse_fields
parse_fields-ne-panic [] = λ e. cc
parse_fields-ne-panic (a ∷ []) = λ e. ground arith
parse_fields-ne-panic (a ∷ b ∷ []) = λ e. ground arith
parse_fields-ne-panic (a ∷ b ∷ c ∷ []) = λ e. ground arith
parse_fields-ne-panic (a ∷ b ∷ c ∷ d ∷ rest) = λ e. ground arith

position_after_prefix :
    (rest : Bytes) (i : ℕ) → position b'\n' (b'&' ∷ b'6' ∷ b' ' ∷ rest) ≡ some i → 3 ≤ i
position_after_prefix rest i h = elim (Option-cases (position b'\n' rest)) [
  | inl e ↦ ground (arith, e)
  | inr (j, e) ↦ ground (arith, e)
]

prefix_split :
    (frame : Bytes)
    → starts_with frame header_prefix ≡ true
    → (rest : Bytes) × (frame ≡ b'&' ∷ b'6' ∷ b' ' ∷ rest)
unfolding starts_with
prefix_split [] h = cc
prefix_split (a ∷ []) h = ground arith
prefix_split (a ∷ b ∷ []) h = ground arith
prefix_split (a ∷ b ∷ c ∷ rest) h = (rest, ground arith)

take_three :
    (m : ℕ) (a b c : ℕ) (rest : Bytes)
    → 3 ≤ m
    → take m (a ∷ b ∷ c ∷ rest) ≡ a ∷ b ∷ c ∷ take (m - 3) rest
take_three m a b c rest h =
    let e : m ≡ suc (suc (suc (m - 3))) = omega arith in ap (λ k. take k (a ∷ b ∷ c ∷ rest)) e

-- A line that begins with the prefix has its line feed behind it.
line_end-bounds :
    (frame : Bytes) (line_end : ℕ)
    → starts_with frame header_prefix ≡ true
    → position b'\n' (take (min (length frame) 128) frame) ≡ some line_end
    → (3 ≤ line_end) × (line_end < length frame)
line_end-bounds frame line_end h k =
    let (rest, split) = prefix_split frame h in
    let m = min (length frame) 128 in
    let front : take m frame ≡ b'&' ∷ b'6' ∷ b' ' ∷ take (m - 3) rest =
      ap (take m) split ∙ take_three m b'&' b'6' b' ' rest (omega (arith, ap length split)) in
    (
      position_after_prefix (take (m - 3) rest) line_end (rw front at k),
      omega (arith, position-lt b'\n' (take m frame) line_end k, length-take m frame),
    )

parse_header-ne-panic : (frame : Bytes) → parse_header frame ≢ panic
unfolding parse_header
parse_header-ne-panic frame p =
    elim (Option-cases (position b'\n' (take (min (length frame) 128) frame))) [
      | inl e ↦ ground (arith, e)
      | inr (line_end, e) ↦ ground (
        arith,
        e,
        line_end-bounds frame line_end,
        parse_fields-ne-panic (split_fields [] (take (line_end - 3) (drop 3 frame))),
      )
    ]

textual_error-ne-panic : (frame : Bytes) → textual_error {A = ExportbinFrame} frame ≢ panic
unfolding textual_error
textual_error-ne-panic frame =
    >>=-ne-panic _ _ (read_error_message-ne-panic frame 0 (omega arith)) (λ message e p. cc)

parse_body-ne-panic :
    (frame : Bytes) (header : ExportbinHeader) (body_start : ℕ)
    → 8 ≤ length frame
    → parse_body frame header body_start ≢ panic
unfolding parse_body
parse_body-ne-panic frame header body_start h =
    >>=-ne-panic _ _ (table_of_contents-ne-panic frame header body_start h)
      (λ (toc_pos, ranges) e q.
        let (count, within, whole) =
          table_of_contents-Within frame header body_start toc_pos ranges e in
        ground (arith, column_slices-Within frame body_start toc_pos ranges (omega arith) within))

-- On every response, well formed or not, `parse_frame` returns a frame or an error: no slice, index
-- or subtraction of it is out of bounds.
pub parse_frame-ne-panic : (frame : Bytes) → parse_frame frame ≢ panic
unfolding parse_frame
parse_frame-ne-panic frame p = elim (Bool-cases (starts_with_bang frame)) [
  | inl e ↦ textual_error-ne-panic frame (rw e at p)
  | inr e ↦ elim (Bool-cases (ltb (length frame) 11)) [
    | inl short ↦ ground (arith, e, short)
    | inr long ↦
        let body : (parse_header frame >>= λ r. parse_body frame r.0 r.1) ≡ panic =
          rw (e, long) at p in
        >>=-ne-panic _ _ (parse_header-ne-panic frame)
          (λ (header, body_start) k. parse_body-ne-panic frame header body_start (ground arith))
          body
  ]
]

parse_frame-parts :
    (frame : Bytes) (parsed : ExportbinFrame)
    → parse_frame frame ≡ ok parsed
    → (r : ExportbinHeader × ℕ) × (parse_header frame ≡ ok r)
      × (parse_body frame r.0 r.1 ≡ ok parsed)
unfolding parse_frame textual_error
parse_frame-parts frame parsed h = elim (Bool-cases (starts_with_bang frame)) [
  | inl e ↦ ground (arith, e)
  | inr e ↦ elim (Bool-cases (ltb (length frame) 11)) [
    | inl short ↦ ground (arith, e, short)
    | inr long ↦ >>=-eq-ok (parse_header frame) (λ r. parse_body frame r.0 r.1) (rw (e, long) at h)
  ]
]

-- What `parse_body` does with the table of contents.
abbrev from_toc : Bytes → ExportbinHeader → ℕ × List ByteRange → Outcome FrameError ExportbinFrame
from_toc frame header r = do
  guard (not (any_overlap (sort_by_start (occupied r.1)))) (malformed "column ranges overlap")
  columns ← column_slices frame r.1
  ok (record {
    result_id = header.result_id;
    row_count = header.row_count;
    start_row = header.start_row;
    columns = columns;
  })

from_toc-parts :
    (frame : Bytes) (header : ExportbinHeader) (r : ℕ × List ByteRange) (parsed : ExportbinFrame)
    → from_toc frame header r ≡ ok parsed
    → (any_overlap (sort_by_start (occupied r.1)) ≡ false)
      × (column_slices frame r.1 ≡ ok parsed.columns)
      × (parsed.result_id ≡ header.result_id)
      × (parsed.row_count ≡ header.row_count)
      × (parsed.start_row ≡ header.start_row)
from_toc-parts frame header r parsed h = ground arith

parse_body-parts :
    (frame : Bytes) (header : ExportbinHeader) (body_start : ℕ) (parsed : ExportbinFrame)
    → parse_body frame header body_start ≡ ok parsed
    → (r : ℕ × List ByteRange) × (table_of_contents frame header body_start ≡ ok r)
      × (from_toc frame header r ≡ ok parsed)
unfolding parse_body
parse_body-parts frame header body_start parsed h =
    >>=-eq-ok (table_of_contents frame header body_start) (from_toc frame header) h

-- A frame that `parse_frame` accepts has the identity of its header line and as many columns as the
-- header says. Each column is a range of the frame between the header line and the table of
-- contents, no two ranges share a byte, and the table and the trailer fill the rest of the frame.
pub parse_frame_sound :
    (frame : Bytes) (parsed : ExportbinFrame)
    → parse_frame frame ≡ ok parsed
    → (header : ExportbinHeader) × (body_start : ℕ) × (toc_pos : ℕ) × (ranges : List ByteRange)
      × (parse_header frame ≡ ok (header, body_start))
      × (parsed.result_id ≡ header.result_id)
      × (parsed.row_count ≡ header.row_count)
      × (parsed.start_row ≡ header.start_row)
      × (parsed.columns ≡ map (column_of frame) ranges)
      × (length ranges ≡ header.column_count)
      × All (Within body_start toc_pos) ranges
      × AllDisjoint ranges
      × (toc_pos + 16 * header.column_count + 8 ≡ length frame)
parse_frame_sound frame parsed h =
    let (start, header_read, body) = parse_frame-parts frame parsed h in
    let header = start.0 in
    let body_start = start.1 in
    let (found, toc, rest) = parse_body-parts frame header body_start parsed body in
    let toc_pos = found.0 in
    let ranges = found.1 in
    let (apart, slices, id, rows, first) = from_toc-parts frame header found parsed rest in
    let (count, within, whole) =
      table_of_contents-Within frame header body_start toc_pos ranges toc in
    (
      header,
      body_start,
      toc_pos,
      ranges,
      header_read,
      id,
      rows,
      first,
      cc (slices, column_slices-Within frame body_start toc_pos ranges (omega arith) within),
      count,
      within,
      (overlap_exact ranges).0 apart,
      whole,
    )
