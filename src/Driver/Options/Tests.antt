-- ===== src/Driver/Options/Tests.antt =====
-- The keys and the values of options at concrete texts.
use adbc_driver_monetdb.Prelude.{
  ◌≡◌, refl, ◌↔◌, true, none, some, [], ◌∷◌, codes, pos, negsuc, ok, err,
}
use adbc_driver_monetdb.Driver.Text.{text_eq}
use adbc_driver_monetdb.Driver.Parameters.Words.{is_word}
use adbc_driver_monetdb.Driver.Options.Values.{
  string_value, int_value, block, savepoint, append_direct, lz4, not_positive, negative, too_small,
  too_long, database_only, has_newline, ingest_partial_text, parse_ingest_partial,
  ingest_atomicity_text, parse_ingest_atomicity, constrained_append_text, parse_constrained_append,
  wire_compression_text, parse_wire_compression, integer_option, nonnegative_usize_option,
  read_window_bytes_option, write_batch_rows_option, timeout_seconds, option_bool,
  parse_bool_option,
}
use adbc_driver_monetdb.Driver.Options.Keys.{
  tuning_option_from_uri_key, tuning_uri_key, validate_tuning_option, Timeouts, read_timeout,
  connect_timeout, set_runtime_timeout, validate_client_info, client_remark, client_enabled,
  matching,
}
use adbc_driver_monetdb.Driver.Options.Enumerations.{option_texts-exact}

option_texts-exact_example :
    ((tuning_option_from_uri_key (codes "prepare_threshold")
        ≡ some (codes "adbc.monetdb.prepare_threshold"))
      ↔ (tuning_uri_key (codes "adbc.monetdb.prepare_threshold")
          ≡ some (codes "prepare_threshold")))
    × ((parse_ingest_partial (string_value (codes "lz4")) ≡ ok block)
        ↔ (string_value (codes "lz4") ≡ string_value (ingest_partial_text block)))
    × ((parse_ingest_atomicity (string_value (codes "lz4")) ≡ ok savepoint)
        ↔ (string_value (codes "lz4") ≡ string_value (ingest_atomicity_text savepoint)))
    × ((parse_constrained_append (string_value (codes "lz4")) ≡ ok append_direct)
        ↔ (string_value (codes "lz4") ≡ string_value (constrained_append_text append_direct)))
    × ((parse_wire_compression (string_value (codes "lz4")) ≡ ok lz4)
        ↔ (string_value (codes "lz4") ≡ string_value (wire_compression_text lz4)))
option_texts-exact_example =
    option_texts-exact (codes "prepare_threshold") (codes "adbc.monetdb.prepare_threshold")
      (string_value (codes "lz4")) block savepoint append_direct lz4

tuning_key_missing : tuning_uri_key (codes "prepare_threshold") ≡ none
unfolding matching text_eq
tuning_key_missing = refl

no_capacity :
    validate_tuning_option (codes "adbc.monetdb.prepared_cache_capacity") (int_value (pos 0))
    ≡ err not_positive
unfolding validate_tuning_option text_eq nonnegative_usize_option integer_option
no_capacity = refl

narrow_window : read_window_bytes_option (int_value (pos 5)) ≡ err too_small
unfolding read_window_bytes_option integer_option
narrow_window = refl

automatic_rows : write_batch_rows_option (int_value (pos 0)) ≡ ok none
unfolding write_batch_rows_option nonnegative_usize_option integer_option
automatic_rows = refl

negative_rows : write_batch_rows_option (int_value (negsuc 0)) ≡ err negative
unfolding write_batch_rows_option nonnegative_usize_option integer_option
negative_rows = refl

any_case : option_bool (string_value (codes "ENABLED")) ≡ ok true
unfolding option_bool parse_bool_option is_word text_eq
any_case = refl

long_timeout : timeout_seconds 60 (int_value (pos 61)) ≡ err too_long
unfolding timeout_seconds nonnegative_usize_option integer_option
long_timeout = refl

abbrev waiting : Timeouts
waiting = record { read = none; write = some 3; operation = none }

read_timeout_set :
    set_runtime_timeout 60 read_timeout (int_value (pos 9)) waiting
    ≡ ok (record { read = some 9; write = some 3; operation = none })
unfolding set_runtime_timeout timeout_seconds nonnegative_usize_option integer_option
read_timeout_set = refl

connect_timeout_late :
    set_runtime_timeout 60 connect_timeout (int_value (pos 9)) waiting ≡ err database_only
unfolding set_runtime_timeout timeout_seconds nonnegative_usize_option integer_option
connect_timeout_late = refl

remark_line : validate_client_info client_remark (string_value (b'\n' ∷ [])) ≡ err has_newline
unfolding validate_client_info
remark_line = refl

enabled_text :
    validate_client_info client_enabled (string_value (codes "On"))
    ≡ ok (string_value (codes "true"))
unfolding validate_client_info parse_bool_option is_word text_eq
enabled_text = refl
