-- ===== src/Driver/Errors/Laws.antt =====
-- The SQLSTATE that a server error shows.
use adbc_driver_monetdb.Prelude.{
  ℕ, ◌≡◌, refl, ◌⊎◌, inl, inr, true, false, not, none, some, [], ◌∷◌, arith, ◌==◌, length,
}
use adbc_driver_monetdb.Driver.Text.{Text}
use adbc_driver_monetdb.Driver.Errors.Mapping.{
  CursorError, is_ascii_alphanumeric, all_bytes, parse_sqlstate, any_nonzero, sqlstate_string,
  is_terminal, cursor_sqlstate, map_cursor_error, server,
}

alphanumeric-ne-zero : (b : ℕ) → is_ascii_alphanumeric b ≡ true → not (b == 0) ≡ true
alphanumeric-ne-zero b h = ground arith

any_nonzero-alphanumeric :
    (code : Text)
    → length code ≡ 5
    → all_bytes is_ascii_alphanumeric code ≡ true
    → any_nonzero code ≡ true
any_nonzero-alphanumeric [] h e = absurd (omega arith)
any_nonzero-alphanumeric (b ∷ code) h e = ground (arith, alphanumeric-ne-zero b)

-- A code of five ASCII letters and digits.
abbrev pub IsSqlstate : Text → Type 0
IsSqlstate code = (length code ≡ 5) × (all_bytes is_ascii_alphanumeric code ≡ true)

parse_sqlstate-cases :
    (code : Text)
    → (IsSqlstate code × (parse_sqlstate code ≡ some code))
      ⊎ (¬ IsSqlstate code × (parse_sqlstate code ≡ none))
unfolding parse_sqlstate
parse_sqlstate-cases code = ground arith

module _ {P : Type 0} (display : CursorError P → Text) where
  -- The error that the driver makes of a server error is not terminal, has the server's code as its
  -- SQLSTATE where that is five ASCII letters and digits, and no SQLSTATE where it is anything else.
  pub map_cursor_error-IsSqlstate :
      (code message : Text)
      → let e = map_cursor_error display (server (some code) message) in
        (e.private_data ≡ false)
        × ((IsSqlstate code × (sqlstate_string e ≡ some code))
            ⊎ (¬ IsSqlstate code × (sqlstate_string e ≡ none)))
  unfolding map_cursor_error sqlstate_string cursor_sqlstate is_terminal
  map_cursor_error-IsSqlstate code message = elim (parse_sqlstate-cases code) [
    | inl (s, p) ↦ simp p (refl, inl (s, rw (any_nonzero-alphanumeric code s.0 s.1)))
    | inr (n, p) ↦ simp p (refl, inr (n, refl))
  ]
