-- ===== src/Driver/Errors/State.antt =====
-- `adbc_core::error::Error` as the driver fills it, and `error`, `attach_error_detail`.
use adbc_driver_monetdb.Prelude.{ℕ, Bool, true, false, List, [], ◌∷◌, ◌++◌, Bytes}
use adbc_driver_monetdb.Driver.Text.{Text}

-- The statuses of ADBC that the driver gives.
pub data Status : Type 0 where
  unknown not_implemented not_found already_exists invalid_arguments invalid_state invalid_data :
      Status
  integrity internal io cancelled timeout unauthenticated unauthorized : Status

-- `private_data` is whether the vendor code is the marker for details.
pub record AdbcError : Type 0 where
  pub message : Text
  pub status : Status
  pub sqlstate : List ℕ
  pub private_data : Bool
  pub details : List (Text × Bytes)

-- The five zeros of an error that has no SQLSTATE.
abbrev pub no_sqlstate : List ℕ
no_sqlstate = 0 ∷ 0 ∷ 0 ∷ 0 ∷ 0 ∷ []

abbrev pub error : Text → Status → AdbcError
error message status = record {
  message = message;
  status = status;
  sqlstate = no_sqlstate;
  private_data = false;
  details = [];
}

abbrev pub attach_error_detail : AdbcError → Text → Bytes → AdbcError
attach_error_detail value key detail = record value {
  private_data = true;
  details = value.details ++ (key, detail) ∷ [];
}
