-- ===== src/Driver/Options/Values.antt =====
-- The values of options: `integer_option` and what is made of it, the enumerations, the Booleans.
-- Texts are UTF-8. The messages of the errors are left out.
use adbc_driver_monetdb.Prelude.{
  ℕ, ◌*◌, Bool, true, false, ◌||◌, Option, none, some, ltb, leb, ◌==◌, if◌then◌else◌, Bytes, codes,
  ℤ, to_usize, pos, negsuc, Outcome, ◌>>=◌, ok_or, ok, err,
}
use adbc_driver_monetdb.Exportbin.Header.{parse_i64}
use adbc_driver_monetdb.Driver.Parameters.Words.{is_word}
use adbc_driver_monetdb.Driver.Text.{text_eq}
use adbc_driver_monetdb.Driver.Windows.Alignment.{round_read_batch_rows}
use adbc_driver_monetdb.Driver.Windows.Sizes.{min_read_window_bytes}

-- `adbc_core::options::OptionValue`; a floating-point value is its bits.
pub data OptionValue : Type 0 where
  string_value bytes_value : Bytes → OptionValue
  int_value : ℤ → OptionValue
  double_value : ℕ → OptionValue

pub data OptionError : Type 0 where
  not_an_integer negative not_positive too_long too_small : OptionError
  not_a_string unknown_value has_newline database_only unknown_key : OptionError

unfoldable pub integer_option : OptionValue → Outcome OptionError ℤ
integer_option (string_value text) = ok_or (parse_i64 text) not_an_integer
integer_option (int_value value) = ok value
integer_option (bytes_value b) = err not_an_integer
integer_option (double_value b) = err not_an_integer

unfoldable pub nonnegative_usize_option : OptionValue → Outcome OptionError ℕ
nonnegative_usize_option value = do i ← integer_option value; ok_or (to_usize i) negative

unfoldable pub read_batch_rows_option : OptionValue → Outcome OptionError ℕ
read_batch_rows_option value = do
  rows ← nonnegative_usize_option value
  ok (round_read_batch_rows rows)

unfoldable pub write_batch_rows_option : OptionValue → Outcome OptionError (Option ℕ)
write_batch_rows_option value = do
  rows ← nonnegative_usize_option value
  ok (if rows == 0 then none else some rows)

abbrev pub min_write_window_bytes : ℕ
min_write_window_bytes = 4 * 1_024 * 1_024

-- `usize::try_from(bytes).ok().filter(…)`, where 0 is automatic.
abbrev pub window_bytes : ℕ → ℤ → Outcome OptionError (Option ℕ)
window_bytes minimum (negsuc n) = err too_small
window_bytes minimum (pos n) =
    if n == 0 then ok none else if leb minimum n then ok (some n) else err too_small

unfoldable pub read_window_bytes_option : OptionValue → Outcome OptionError (Option ℕ)
read_window_bytes_option value = do i ← integer_option value; window_bytes min_read_window_bytes i

unfoldable pub write_window_bytes_option : OptionValue → Outcome OptionError (Option ℕ)
write_window_bytes_option value = do i ← integer_option value; window_bytes min_write_window_bytes i

-- `max_timeout_seconds` is the constant of the `monetdb` crate.
unfoldable pub timeout_seconds : ℕ → OptionValue → Outcome OptionError ℕ
timeout_seconds max_timeout_seconds value = do
  seconds ← nonnegative_usize_option value
  if ltb max_timeout_seconds seconds then err too_long else ok seconds

abbrev pub string_option : OptionValue → Outcome OptionError Bytes
string_option (string_value text) = ok text
string_option _ = err not_a_string

unfoldable pub parse_bool_option : Bytes → Outcome OptionError Bool
parse_bool_option text =
    if is_word "true" text || is_word "1" text || is_word "enabled" text || is_word "on" text
    then ok true
    else if is_word "false" text
        || is_word "0" text
        || is_word "disabled" text
        || is_word "off" text
    then ok false
    else err unknown_value

unfoldable pub option_bool : OptionValue → Outcome OptionError Bool
option_bool value = string_option value >>= λ text. parse_bool_option text

-- `bool::to_string`
abbrev pub bool_text : Bool → Bytes
bool_text true = codes "true"
bool_text false = codes "false"

pub data IngestPartial : Type 0 where
  block allow : IngestPartial

unfoldable pub ingest_partial_text : IngestPartial → Bytes
ingest_partial_text block = codes "block"
ingest_partial_text allow = codes "allow"

unfoldable pub parse_ingest_partial : OptionValue → Outcome OptionError IngestPartial
parse_ingest_partial value = string_option value >>= λ text.
    if text_eq text (codes "block")
    then ok block
    else if text_eq text (codes "allow")
    then ok allow
    else err unknown_value

pub data IngestAtomicity : Type 0 where
  transaction savepoint : IngestAtomicity

unfoldable pub ingest_atomicity_text : IngestAtomicity → Bytes
ingest_atomicity_text transaction = codes "transaction"
ingest_atomicity_text savepoint = codes "savepoint"

unfoldable pub parse_ingest_atomicity : OptionValue → Outcome OptionError IngestAtomicity
parse_ingest_atomicity value = string_option value >>= λ text.
    if text_eq text (codes "transaction")
    then ok transaction
    else if text_eq text (codes "savepoint")
    then ok savepoint
    else err unknown_value

pub data ConstrainedAppend : Type 0 where
  append_auto append_direct : ConstrainedAppend

unfoldable pub constrained_append_text : ConstrainedAppend → Bytes
constrained_append_text append_auto = codes "auto"
constrained_append_text append_direct = codes "direct"

unfoldable pub parse_constrained_append : OptionValue → Outcome OptionError ConstrainedAppend
parse_constrained_append value = string_option value >>= λ text.
    if text_eq text (codes "auto")
    then ok append_auto
    else if text_eq text (codes "direct")
    then ok append_direct
    else err unknown_value

pub data WireCompression : Type 0 where
  no_compression auto_compression lz4 : WireCompression

unfoldable pub wire_compression_text : WireCompression → Bytes
wire_compression_text no_compression = codes "none"
wire_compression_text auto_compression = codes "auto"
wire_compression_text lz4 = codes "lz4"

unfoldable pub parse_wire_compression : OptionValue → Outcome OptionError WireCompression
parse_wire_compression value = string_option value >>= λ text.
    if text_eq text (codes "none")
    then ok no_compression
    else if text_eq text (codes "auto")
    then ok auto_compression
    else if text_eq text (codes "lz4")
    then ok lz4
    else err unknown_value
