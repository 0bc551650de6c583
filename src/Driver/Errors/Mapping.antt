-- ===== src/Driver/Errors/Mapping.antt =====
-- `sqlstate_status`, `parse_sqlstate`, `map_cursor_error` and `connect_error_status`. Texts are
-- code points; the texts of the errors of the `monetdb` crate are made by a parameter.
use adbc_driver_monetdb.Prelude.{
  ℕ, String, Bool, true, false, not, ◌&&◌, ◌||◌, Option, none, some, List, [], ◌∷◌, leb, ◌==◌,
  if◌then◌else◌, codes, length,
}
use adbc_driver_monetdb.Driver.Text.{Text, text_eq, trim_end_by, is_whitespace}
use adbc_driver_monetdb.Driver.Errors.State.{
  Status, AdbcError, error, attach_error_detail, unknown, not_implemented, not_found,
  already_exists, invalid_arguments, invalid_state, invalid_data, integrity, internal, io,
  cancelled, timeout, unauthenticated, unauthorized,
}
use mathlib.Core.List.{reverse}

-- `text.starts_with(prefix)`
unfoldable pub has_prefix : Text → Text → Bool
has_prefix text [] = true
has_prefix [] (c ∷ cs) = false
has_prefix (x ∷ text) (c ∷ cs) = x == c && has_prefix text cs

abbrev pub ends_with : Text → Text → Bool
ends_with text suffix = has_prefix (reverse text) (reverse suffix)

-- `text.contains(needle)`
unfoldable pub contains : Text → Text → Bool
contains [] needle = has_prefix [] needle
contains (x ∷ text) needle = has_prefix (x ∷ text) needle || contains text needle

abbrev pub one_of : Text → List String → Bool
one_of code [] = false
one_of code (s ∷ ss) = text_eq code (codes s) || one_of code ss

abbrev pub ends_with_any : Text → List String → Bool
ends_with_any message [] = false
ends_with_any message (s ∷ ss) = ends_with message (codes s) || ends_with_any message ss

unfoldable pub is_transaction_conflict : Text → Text → Bool
is_transaction_conflict sqlstate message =
    one_of sqlstate ("42000" ∷ "25000" ∷ "25S01" ∷ [])
    && (ends_with_any (trim_end_by is_whitespace message) (
          "conflict with another transaction" ∷ "conflicts with another transaction"
          ∷ "transaction conflict detected"
          ∷ "transaction conflict detected while setting default value"
          ∷ "failed due to transaction conflict" ∷ [])
        || has_prefix message (codes "TRANSACTION CONFLICT in storage_api."))

-- The `match` on the code.
unfoldable pub code_status : Text → Status
code_status code =
    if one_of code ("42S02" ∷ "42S22" ∷ "3F000" ∷ "42703" ∷ [])
    then not_found
    else if one_of code ("42S01" ∷ "42710" ∷ [])
    then already_exists
    else if one_of code ("40002" ∷ [])
    then integrity
    else if one_of code ("42501" ∷ [])
    then unauthorized
    else if one_of code ("28000" ∷ [])
    then unauthenticated
    else if one_of code ("57014" ∷ [])
    then cancelled
    else if one_of code ("HYT00" ∷ "HYT01" ∷ [])
    then timeout
    else if one_of code ("2DM30" ∷ [])
    then invalid_state
    else class_status code
  where
    class_status : Text → Status
    class_status c =
        if has_prefix c (codes "23")
        then integrity
        else if has_prefix c (codes "25") || has_prefix c (codes "2D")
        then invalid_state
        else if has_prefix c (codes "28")
        then unauthorized
        else if has_prefix c (codes "42")
        then invalid_arguments
        else unknown

unfoldable pub sqlstate_status : Option Text → Text → Status
sqlstate_status none message = unknown
sqlstate_status (some sqlstate) message =
    if is_transaction_conflict sqlstate message
    then unknown
    else if one_of sqlstate ("42000" ∷ []) && contains message (codes "access denied")
    then unauthorized
    else code_status sqlstate

-- `u8::is_ascii_alphanumeric`
abbrev pub is_ascii_alphanumeric : ℕ → Bool
is_ascii_alphanumeric b =
    (leb b'0' b && leb b b'9') || (leb b'A' b && leb b b'Z') || (leb b'a' b && leb b b'z')

abbrev pub all_bytes : (ℕ → Bool) → Text → Bool
all_bytes p [] = true
all_bytes p (b ∷ bs) = p b && all_bytes p bs

unfoldable pub parse_sqlstate : Text → Option (List ℕ)
parse_sqlstate code =
    if length code == 5 && all_bytes is_ascii_alphanumeric code then some code else none

abbrev pub any_nonzero : List ℕ → Bool
any_nonzero [] = false
any_nonzero (c ∷ cs) = not (c == 0) || any_nonzero cs

unfoldable pub sqlstate_string : AdbcError → Option Text
sqlstate_string value = if any_nonzero value.sqlstate then some value.sqlstate else none

-- `monetdb::CursorError`, with `P` for what the variants carry besides.
pub data CursorError (P : Type 0) : Type 0 where
  closed cancelled_call timed_out poisoned no_result_set prepared_result upload_complete :
      CursorError P
  io_error framing bad_reply conversion invalid_range result_not_resident file_transfer
        upload_refused metadata :
      P → CursorError P
  server : Option Text → Text → CursorError P

unfoldable pub is_terminal : {P : Type 0} → CursorError P → Bool
is_terminal closed = true
is_terminal cancelled_call = true
is_terminal timed_out = true
is_terminal (io_error p) = true
is_terminal (framing p) = true
is_terminal (bad_reply p) = true
is_terminal poisoned = true
is_terminal _ = false

unfoldable pub cursor_status : {P : Type 0} → CursorError P → Status
cursor_status closed = invalid_state
cursor_status no_result_set = invalid_state
cursor_status cancelled_call = cancelled
cursor_status timed_out = timeout
cursor_status (io_error p) = io
cursor_status (framing p) = invalid_data
cursor_status (bad_reply p) = invalid_data
cursor_status (conversion p) = invalid_data
cursor_status (invalid_range p) = invalid_data
cursor_status (result_not_resident p) = invalid_data
cursor_status (file_transfer p) = invalid_data
cursor_status upload_complete = invalid_data
cursor_status (upload_refused p) = invalid_data
cursor_status prepared_result = invalid_state
cursor_status (metadata p) = internal
cursor_status poisoned = internal
cursor_status (server sqlstate message) = sqlstate_status sqlstate message

-- `error.sqlstate().and_then(parse_sqlstate)` of a server error.
unfoldable pub cursor_sqlstate : {P : Type 0} → CursorError P → Option (List ℕ)
cursor_sqlstate (server (some code) message) = parse_sqlstate code
cursor_sqlstate _ = none

abbrev pub terminal_error_detail : Text
terminal_error_detail = codes "adbc.monetdb.connection_terminal"

module _ {P : Type 0} (display : CursorError P → Text) where
  unfoldable pub map_cursor_error : CursorError P → AdbcError
  map_cursor_error value =
      let plain = error (display value) (cursor_status value) in
      let result : AdbcError = elim (cursor_sqlstate value) [
        | some code ↦ record plain { sqlstate = code }
        | none ↦ plain
      ] in
      if is_terminal value
      then attach_error_detail result terminal_error_detail (codes "true")
      else result

-- `monetdb::ConnectError`
pub data ConnectError (P : Type 0) : Type 0 where
  connect_timeout too_many_redirects tls_not_supported unix_domain tls_downgrade
        only_sql_supported :
      ConnectError P
  rejected connect_io utf invalid_challenge unsupported_hash_algo unexpected_response parm
        tls_error :
      P → ConnectError P
  socket_attempts : ConnectError P → P → ConnectError P

unfoldable pub connect_error_status : {P : Type 0} → ConnectError P → Status
connect_error_status (rejected p) = unauthenticated
connect_error_status connect_timeout = timeout
connect_error_status (connect_io p) = io
connect_error_status (socket_attempts tcp others) = connect_error_status tcp
connect_error_status (utf p) = invalid_data
connect_error_status (invalid_challenge p) = invalid_data
connect_error_status (unsupported_hash_algo p) = invalid_data
connect_error_status tls_downgrade = invalid_data
connect_error_status (unexpected_response p) = invalid_data
connect_error_status too_many_redirects = io
connect_error_status tls_not_supported = not_implemented
connect_error_status unix_domain = not_implemented
connect_error_status (parm p) = invalid_arguments
connect_error_status (tls_error p) = invalid_arguments
connect_error_status only_sql_supported = invalid_arguments
