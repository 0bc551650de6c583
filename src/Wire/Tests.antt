-- ===== src/Wire/Tests.antt =====
-- The theorem on decimal widths at a concrete decimal, and widths of wire.rs' own test.
use adbc_driver_monetdb.Prelude.{◌^◌, ◌≤◌, ◌≡◌, refl, none, some, [], ◌∷◌, map}
use adbc_driver_monetdb.Wire.{
  fixed_wire_width, integer_limit, decimal_width_fits, bool, date, time_tz, timestamp, uuid, blob,
  decimal,
}

fixed_widths_cover_wire_types :
    map fixed_wire_width (bool ∷ date ∷ time_tz ∷ timestamp ∷ uuid ∷ decimal 0 0 ∷ blob ∷ [])
    ≡ some 1 ∷ some 4 ∷ some 8 ∷ some 12 ∷ some 16 ∷ none ∷ none ∷ []
unfolding fixed_wire_width
fixed_widths_cover_wire_types = refl

width_of_18 : fixed_wire_width (decimal 18 2) ≡ some 8
unfolding fixed_wire_width
width_of_18 = refl

decimal_width_fits_example : (1 ≤ 18) × (18 ≤ 38) × (10 ^ 18 ≤ integer_limit 8)
decimal_width_fits_example = decimal_width_fits 18 2 8 width_of_18
