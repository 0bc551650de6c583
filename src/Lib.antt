-- ===== src/Lib.antt =====
-- A model of the MonetDB ADBC driver (crates/monetdb-arrow and crates/adbc-monetdb), and what it
-- guarantees.
--
-- The driver asks a MonetDB server for windows of a result in its binary export format, parses each
-- response frame, and decodes its columns to Arrow; in the other direction it encodes Arrow columns
-- for a binary COPY. On the way from a client it cuts a query at its parameters, keeps a cache of
-- prepared statements, and chooses the sizes of the windows.
--
-- The files, by the code that they are about:
-- - Prelude: numbers, lists, bytes and UTF-8. `Outcome` is the result of a Rust function: a value, an
--   error or a panic; an index, a slice or an `expect` that can fail is written out as one.
-- - Wire: crates/monetdb-arrow/src/wire.rs, `fixed_wire_width`.
-- - Exportbin: crates/monetdb-arrow/src/exportbin.rs. `parse_frame` takes the bytes of a response to a
--   frame whose columns are slices of it. Header, Frame: the definitions. Ranges, Overlap, Safety, Toc,
--   Sound: the proofs.
-- - Decode, Encode: crates/monetdb-arrow/src/decode.rs and encode.rs: strings with back-references,
--   BLOBs, times, dates, timestamps, decimals, UUIDs, booleans, integers and OIDs. An Arrow array is the
--   list of its optional values. Fixed has the loops over values of one width; Decode.Calendar relates
--   `days_from_civil` to the calendar; RoundTrip joins encoder and decoder, and IsCalendar, in
--   RoundTrip.Days, is what is supposed of chrono's dates.
-- - Driver.Cache: `PreparedCache` of crates/adbc-monetdb/src/driver.rs. State has its operations, each
--   returning its result and the new state; the source's `new` and `insert` are `new_cache` and
--   `insert_prepared` here, and its `trim` is `trim_cache`.
-- - Driver.Metadata: the filters of crates/adbc-monetdb/src/driver/metadata.rs: Like has
--   `validate_like_pattern` and `like_pattern_matches`, Predicates the SQL predicates. Driver.Quoting is
--   the quoting that they share with Driver.Identifiers.
-- - Driver.Windows: `ReadWindowScheduler`, `round_read_batch_rows`, the adaptive sizes and, in Fetch, the
--   loop `fetch_binary_frames` of crates/adbc-monetdb/src/driver.rs.
-- - Driver.Identifiers: `quote_identifier` and `qualified_name` of crates/adbc-monetdb/src/driver.rs.
-- - Driver.Errors: `sqlstate_status`, `parse_sqlstate`, `map_cursor_error` and `connect_error_status` of
--   crates/adbc-monetdb/src/driver.rs.
-- - Driver.Transactions: the transactions of the same file. Keywords and Effects read the statements of
--   a query, Session is what `DriverConnection` keeps about the transaction, Server is what the code
--   uses of the protocol client, as a record of operations on a state, Updates are `execute_update`,
--   `execute_update_script` and the autocommit option, Atomic is `begin_atomic` and `finish_atomic`,
--   Batches are the batches of a parameter batch. IsTransactional, in Promises, is what is supposed of
--   a server with transactions, NeverPanics, in Reports, that the calls of the client return.
-- - Driver.Ingest: `CompressedArena`, `reserve_ingest_memory` and `align_append_schema` of the same file.
-- - Driver.Options: the options of the same file: Keys has their keys, in a URI and as options, and what
--   is checked of each, Values the integers, Booleans and enumerations that they are set to.
-- - Driver.Parameters: `scan_query`, `ProceduralScan`, `compile_query` and `render` of
--   crates/adbc-monetdb/src/driver/parameters.rs. Lexer and Scan have the scanner: a record of its
--   local variables, and one round of its loop.
--
-- Machine integers are native numbers with their bounds written out: `usize` and `u64` have 64 bits,
-- and checked and saturating operations are those of the source. A text is a list of code points, a
-- query for the scanner is a list of its UTF-8 bytes.
--
-- Loops over data run on that data. Four loops run on fuel: the trimming of the cache has one round
-- for each entry, since each removes one; the scanner has one for each byte and one more, since each
-- round moves on; the LIKE matcher has one for each token and each start of the last `%`; the
-- fetching of windows has one for each row and one more, since each window has a row. The ten groups
-- of a long back-reference hold 64 bits.
--
-- A hash map is an association list: with equal use counts, which only a saturated counter gives, the
-- eviction takes the first. The prepared statements, literal fallbacks and templates of the cache are
-- parameters, and so are `char::is_alphanumeric` for the scanner and the memory of the system.
--
-- Not modelled: the connection protocol, the threads but for `fetch_binary_frames`, the reader without
-- prefetching, the retries of prepared statements, the loading of metadata, the LZ4 codec, the
-- floating-point and dictionary columns, and the Python packages. The text of an error from the server
-- stays bytes, without the replacement characters of `from_utf8_lossy`.
pub mod Prelude
pub mod Wire
pub mod Exportbin
pub mod Decode
pub mod Encode
pub mod RoundTrip
pub mod Driver
