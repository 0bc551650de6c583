-- ===== src/Exportbin/Tests.antt =====
-- The theorems on frames at concrete frames, and the frames of exportbin.rs' own tests.
use adbc_driver_monetdb.Prelude.{
  ℕ, ◌+◌, ◌-◌, ◌*◌, ◌^◌, ◌≡◌, refl, ◌≢◌, ◌↔◌, false, List, [], ◌∷◌, ◌++◌, map, Bytes, codes, All,
  le_value, le_bytes, length, pos, is_utf8, ok, err, panic,
}
use adbc_driver_monetdb.Exportbin.Error.{server, malformed}
use adbc_driver_monetdb.Exportbin.Header.{
  ExportbinHeader, starts_with, split_fields, parse_digits, parse_nonempty, parse_u64, parse_i64,
  parse_fields, parse_header,
}
use adbc_driver_monetdb.Exportbin.Frame.{
  ByteRange, ExportbinFrame, read_error_message, find_error_message, column_range, read_ranges,
  occupied, insert_by_start, sort_by_start, any_overlap, column_slices, toc_position, toc_ranges,
  table_of_contents, textual_error, parse_body, parse_frame,
}
use adbc_driver_monetdb.Exportbin.Ranges.{AllDisjoint}
use adbc_driver_monetdb.Exportbin.Overlap.{overlap_exact}
use adbc_driver_monetdb.Exportbin.Safety.{Within}
use adbc_driver_monetdb.Exportbin.Toc.{column_of}
use adbc_driver_monetdb.Exportbin.Sound.{parse_frame_sound, parse_frame-ne-panic}

entry : ℕ → ℕ → Bytes
unfolding le_bytes
entry start length = le_bytes 8 start ++ le_bytes 8 length

-- Two columns, of two bytes and of one, behind a header line of 13 bytes.
abbrev two_columns : Bytes
two_columns =
    codes "&6 7 2 3 100\n" ++ (1 ∷ 2 ∷ 3 ∷ []) ++ entry 13 2 ++ entry 15 1 ++ le_bytes 8 16

abbrev parsed_two_columns : ExportbinFrame
parsed_two_columns = record {
  result_id = pos 7;
  row_count = 3;
  start_row = 100;
  columns = (1 ∷ 2 ∷ []) ∷ (3 ∷ []) ∷ [];
}

parses_two_column_frame : parse_frame two_columns ≡ ok parsed_two_columns
unfolding parse_frame parse_body table_of_contents toc_ranges toc_position read_ranges column_range
    column_slices any_overlap sort_by_start insert_by_start occupied parse_header parse_fields
    split_fields parse_i64 parse_u64 parse_nonempty parse_digits starts_with is_utf8 le_value entry
parses_two_column_frame = refl

-- The second column begins inside the first.
rejects_overlapping_column_ranges :
    parse_frame
      (codes "&6 7 2 3 100\n" ++ (1 ∷ 2 ∷ 3 ∷ []) ++ entry 13 2 ++ entry 14 1 ++ le_bytes 8 16)
    ≡ err (malformed "column ranges overlap")
unfolding parse_frame parse_body table_of_contents toc_ranges toc_position read_ranges column_range
    column_slices any_overlap sort_by_start insert_by_start occupied parse_header parse_fields
    split_fields parse_i64 parse_u64 parse_nonempty parse_digits starts_with is_utf8 le_value entry
rejects_overlapping_column_ranges = refl

reports_textual_server_error :
    parse_frame (codes "!42000 syntax error" ++ 0 ∷ []) ≡ err (server (codes "42000 syntax error"))
unfolding parse_frame textual_error read_error_message
reports_textual_server_error = refl

-- The trailer is -11, which points at the message behind the header line.
reports_in_frame_server_error :
    parse_frame (codes "&6 1 1 0 0\n!wrong" ++ 0 ∷ [] ++ le_bytes 8 (2 ^ 64 - 11))
    ≡ err (server (codes "wrong"))
unfolding parse_frame parse_body table_of_contents toc_position find_error_message
    read_error_message parse_header parse_fields split_fields parse_i64 parse_u64 parse_nonempty
    parse_digits starts_with is_utf8 le_value le_bytes
reports_in_frame_server_error = refl

parse_frame-ne-panic_example : parse_frame (codes "&6 1 ") ≢ panic
parse_frame-ne-panic_example = parse_frame-ne-panic (codes "&6 1 ")

overlap_exact_example :
    (any_overlap (sort_by_start (occupied ((4, 6) ∷ (1, 4) ∷ []))) ≡ false)
    ↔ AllDisjoint ((4, 6) ∷ (1, 4) ∷ [])
overlap_exact_example = overlap_exact ((4, 6) ∷ (1, 4) ∷ [])

parse_frame_sound_example :
    (header : ExportbinHeader) × (body_start : ℕ) × (toc_pos : ℕ) × (ranges : List ByteRange)
    × (parse_header two_columns ≡ ok (header, body_start))
    × (parsed_two_columns.result_id ≡ header.result_id)
    × (parsed_two_columns.row_count ≡ header.row_count)
    × (parsed_two_columns.start_row ≡ header.start_row)
    × (parsed_two_columns.columns ≡ map (column_of two_columns) ranges)
    × (length ranges ≡ header.column_count)
    × All (Within body_start toc_pos) ranges
    × AllDisjoint ranges
    × (toc_pos + 16 * header.column_count + 8 ≡ length two_columns)
parse_frame_sound_example = parse_frame_sound two_columns parsed_two_columns parses_two_column_frame
