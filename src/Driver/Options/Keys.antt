-- ===== src/Driver/Options/Keys.antt =====
-- The keys of options: `tuning_option_from_uri_key`, `tuning_uri_key`, `validate_tuning_option`,
-- `TimeoutOption` and `ClientInfoOption`, and the timeouts that are set.
use adbc_driver_monetdb.Prelude.{
  ℕ, Bool, false, ◌||◌, Option, none, some, List, [], ◌∷◌, ◌==◌, if◌then◌else◌, Bytes, codes,
  Outcome, ◌>>=◌, ok, err, panic,
}
use adbc_driver_monetdb.Driver.Text.{text_eq}
use adbc_driver_monetdb.Driver.Options.Values.{
  OptionValue, OptionError, string_value, nonnegative_usize_option, read_window_bytes_option,
  write_window_bytes_option, timeout_seconds, string_option, parse_bool_option, bool_text,
  parse_constrained_append, parse_wire_compression, not_positive, has_newline, database_only,
  unknown_key,
}

-- A `match` of a text against constants, as its rows: the first constant that is the text.
unfoldable pub matching : Bytes → List (Bytes × Bytes) → Option Bytes
matching key [] = none
matching key ((l, r) ∷ rows) =
    let later = matching key rows in if text_eq l key then some r else later

abbrev pub uri_rows : List (Bytes × Bytes)
uri_rows =
    (codes "read_window_bytes", codes "adbc.monetdb.read_window_bytes")
    ∷ (codes "write_window_bytes", codes "adbc.monetdb.write_window_bytes")
    ∷ (codes "ingest_insert_rows", codes "adbc.monetdb.ingest_insert_rows")
    ∷ (codes "prepared_cache_capacity", codes "adbc.monetdb.prepared_cache_capacity")
    ∷ (codes "prepare_threshold", codes "adbc.monetdb.prepare_threshold")
    ∷ (codes "wire_compression", codes "adbc.monetdb.wire_compression")
    ∷ (codes "constrained_append", codes "adbc.monetdb.constrained_append")
    ∷ []

abbrev pub tuning_option_from_uri_key : Bytes → Option Bytes
tuning_option_from_uri_key key = matching key uri_rows

abbrev pub option_rows : List (Bytes × Bytes)
option_rows =
    (codes "adbc.monetdb.read_window_bytes", codes "read_window_bytes")
    ∷ (codes "adbc.monetdb.write_window_bytes", codes "write_window_bytes")
    ∷ (codes "adbc.monetdb.ingest_insert_rows", codes "ingest_insert_rows")
    ∷ (codes "adbc.monetdb.prepared_cache_capacity", codes "prepared_cache_capacity")
    ∷ (codes "adbc.monetdb.prepare_threshold", codes "prepare_threshold")
    ∷ (codes "adbc.monetdb.wire_compression", codes "wire_compression")
    ∷ (codes "adbc.monetdb.constrained_append", codes "constrained_append")
    ∷ []

abbrev pub tuning_uri_key : Bytes → Option Bytes
tuning_uri_key option = matching option option_rows

abbrev pub discard : {A : Type 0} → Outcome OptionError A → Outcome OptionError (Unit {0})
discard (ok a) = ok tt
discard (err e) = err e
discard panic = panic

unfoldable pub validate_tuning_option : Bytes → OptionValue → Outcome OptionError (Unit {0})
validate_tuning_option key value =
    if text_eq key (codes "adbc.monetdb.read_window_bytes")
    then discard (read_window_bytes_option value)
    else if text_eq key (codes "adbc.monetdb.write_window_bytes")
    then discard (write_window_bytes_option value)
    else if text_eq key (codes "adbc.monetdb.ingest_insert_rows")
    then discard (nonnegative_usize_option value)
    else if text_eq key (codes "adbc.monetdb.prepared_cache_capacity")
    then (nonnegative_usize_option value >>= λ capacity.
        if capacity == 0 then err not_positive else ok tt)
    else if text_eq key (codes "adbc.monetdb.prepare_threshold")
    then discard (nonnegative_usize_option value)
    else if text_eq key (codes "adbc.monetdb.wire_compression")
    then discard (parse_wire_compression value)
    else if text_eq key (codes "adbc.monetdb.constrained_append")
    then discard (parse_constrained_append value)
    else err unknown_key

pub data TimeoutOption : Type 0 where
  connect_timeout read_timeout write_timeout operation_timeout : TimeoutOption

unfoldable pub timeout_from_key : Bytes → Option TimeoutOption
timeout_from_key key =
    if text_eq key (codes "adbc.monetdb.connect_timeout_seconds")
    then some connect_timeout
    else if text_eq key (codes "adbc.monetdb.read_timeout_seconds")
    then some read_timeout
    else if text_eq key (codes "adbc.monetdb.write_timeout_seconds")
    then some write_timeout
    else if text_eq key (codes "adbc.monetdb.operation_timeout_seconds")
    then some operation_timeout
    else none

unfoldable pub timeout_uri_key : TimeoutOption → Bytes
timeout_uri_key connect_timeout = codes "connect_timeout"
timeout_uri_key read_timeout = codes "read_timeout"
timeout_uri_key write_timeout = codes "write_timeout"
timeout_uri_key operation_timeout = codes "operation_timeout"

-- Seconds, where nothing is no timeout.
pub record Timeouts : Type 0 where
  pub read : Option ℕ
  pub write : Option ℕ
  pub operation : Option ℕ

abbrev pub duration_of : ℕ → Option ℕ
duration_of seconds = if seconds == 0 then none else some seconds

abbrev pub put_timeout : TimeoutOption → ℕ → Timeouts → Outcome OptionError Timeouts
put_timeout connect_timeout seconds t = err database_only
put_timeout read_timeout seconds t = ok (record t { read = duration_of seconds })
put_timeout write_timeout seconds t = ok (record t { write = duration_of seconds })
put_timeout operation_timeout seconds t = ok (record t { operation = duration_of seconds })

unfoldable pub set_runtime_timeout :
    ℕ → TimeoutOption → OptionValue → Timeouts → Outcome OptionError Timeouts
set_runtime_timeout max_timeout_seconds timeout value t = do
  seconds ← timeout_seconds max_timeout_seconds value
  put_timeout timeout seconds t

pub data ClientInfoOption : Type 0 where
  client_application client_remark client_enabled : ClientInfoOption

unfoldable pub client_info_from_key : Bytes → Option ClientInfoOption
client_info_from_key key =
    if text_eq key (codes "adbc.monetdb.client_application")
    then some client_application
    else if text_eq key (codes "adbc.monetdb.client_remark")
    then some client_remark
    else if text_eq key (codes "adbc.monetdb.client_info")
    then some client_enabled
    else none

unfoldable pub client_info_uri_key : ClientInfoOption → Bytes
client_info_uri_key client_application = codes "client_application"
client_info_uri_key client_remark = codes "client_remark"
client_info_uri_key client_enabled = codes "client_info"

unfoldable pub client_info_default : ClientInfoOption → Bytes
client_info_default client_application = []
client_info_default client_remark = []
client_info_default client_enabled = codes "true"

abbrev pub contains_newline : Bytes → Bool
contains_newline [] = false
contains_newline (b ∷ bs) = b == b'\n' || contains_newline bs

abbrev pub validate_client_text : ClientInfoOption → Bytes → Outcome OptionError Bytes
validate_client_text client_enabled text =
    parse_bool_option text >>= λ enabled. ok (bool_text enabled)
validate_client_text _ text = if contains_newline text then err has_newline else ok text

unfoldable pub validate_client_info :
    ClientInfoOption → OptionValue → Outcome OptionError OptionValue
validate_client_info option value = do
  text ← string_option value
  valid ← validate_client_text option text
  ok (string_value valid)
