-- ===== src/Wire.antt =====
-- crates/monetdb-arrow/src/wire.rs: the byte width of a value on the wire.
mod Tests
use adbc_driver_monetdb.Prelude.{
  ℕ, ◌-◌, ◌*◌, ◌^◌, ◌≤◌, ◌≡◌, refl, Bool, true, Option, none, some, arith, leb, ◌==◌, if◌then◌else◌,
  leb→le, all_below, all_below_sound,
}

-- `monetdb::MonetType`, as wire.rs matches it. A decimal has a precision and a scale; the length
-- of a varchar is not read.
pub data MonetType : Type 0 where
  bool tiny_int small_int int big_int huge_int oid : MonetType
  real double : MonetType
  month_interval day_interval sec_interval : MonetType
  date time time_tz timestamp timestamp_tz : MonetType
  uuid blob url inet inet4 inet6 json geometry xml : MonetType
  decimal : ℕ → ℕ → MonetType
  varchar : ℕ → MonetType

-- The `match precision` of a decimal; its last arm takes 0 and everything above 38.
decimal_width : ℕ → Option ℕ
decimal_width precision =
    if precision == 0
    then none
    else if leb precision 2
    then some 1
    else if leb precision 4
    then some 2
    else if leb precision 9
    then some 4
    else if leb precision 18
    then some 8
    else if leb precision 38
    then some 16
    else none

unfoldable pub fixed_wire_width : MonetType → Option ℕ
unfolding decimal_width
fixed_wire_width bool = some 1
fixed_wire_width tiny_int = some 1
fixed_wire_width small_int = some 2
fixed_wire_width int = some 4
fixed_wire_width real = some 4
fixed_wire_width month_interval = some 4
fixed_wire_width date = some 4
fixed_wire_width big_int = some 8
fixed_wire_width oid = some 8
fixed_wire_width double = some 8
fixed_wire_width day_interval = some 8
fixed_wire_width sec_interval = some 8
fixed_wire_width time = some 8
fixed_wire_width time_tz = some 8
fixed_wire_width timestamp = some 12
fixed_wire_width timestamp_tz = some 12
fixed_wire_width huge_int = some 16
fixed_wire_width uuid = some 16
fixed_wire_width (decimal precision scale) = decimal_width precision
fixed_wire_width (varchar n) = none
fixed_wire_width blob = none
fixed_wire_width url = none
fixed_wire_width inet = none
fixed_wire_width inet4 = none
fixed_wire_width inet6 = none
fixed_wire_width json = none
fixed_wire_width geometry = none
fixed_wire_width xml = none

-- An integer of `width` bytes below its sign bit.
abbrev pub integer_limit : ℕ → ℕ
integer_limit width = 2 ^ (8 * width - 1)

decimal_table : ℕ → Bool
decimal_table precision = elim (decimal_width precision) [
  | none ↦ precision == 0
  | some width ↦ leb (10 ^ precision) (integer_limit width)
]

decimal_table_holds : all_below 39 decimal_table ≡ true
unfolding decimal_table decimal_width
decimal_table_holds = refl

decimal_width_range :
    (precision width : ℕ)
    → decimal_width precision ≡ some width
    → (1 ≤ precision) × (precision ≤ 38)
unfolding decimal_width
decimal_width_range precision width h = ground arith

decimal_table-le :
    (precision width : ℕ)
    → decimal_width precision ≡ some width
    → decimal_table precision ≡ true
    → 10 ^ precision ≤ integer_limit width
unfolding decimal_table
decimal_table-le precision width h t = leb→le _ _ (rw (h, decimal_table) at t)

-- A decimal type with a fixed width has a precision from 1 to 38, and every unscaled value of that
-- precision is below the limit of the signed integer of that width.
pub decimal_width_fits :
    (precision scale width : ℕ)
    → fixed_wire_width (decimal precision scale) ≡ some width
    → (1 ≤ precision) × (precision ≤ 38) × (10 ^ precision ≤ integer_limit width)
unfolding fixed_wire_width
decimal_width_fits precision scale width h =
    let (lo, hi) = decimal_width_range precision width h in
    (
      lo,
      hi,
      decimal_table-le precision width h
          (all_below_sound 39 decimal_table precision decimal_table_holds (omega arith)),
    )
