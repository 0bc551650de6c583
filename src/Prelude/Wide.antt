-- ===== src/Prelude/Wide.antt =====
-- Little-endian integers of any width, signed ones in two's complement.
use adbc_driver_monetdb.Prelude.Tests.{ltb, if◌then◌else◌}
use adbc_driver_monetdb.Prelude.Int.{ℤ, pos, negsuc, pos_part, neg_part}
use adbc_driver_monetdb.Prelude.ByteStrings.{le_value, le_bytes}
use Prim.Native.Nat.{ℕ, zero, suc, ◌-◌, ◌*◌, ◌/◌, ◌≤◌, ◌<◌}
use mathlib.Core.Path.{◌≡◌}
use native.Mathlib.Omega.{arith}

-- 256 ^ width
abbrev pub byte_power : ℕ → ℕ
byte_power zero = 1
byte_power (suc k) = 256 * byte_power k

pub le_value-le_bytes : (k n : ℕ) → n < byte_power k → le_value (le_bytes k n) ≡ n
unfolding le_value le_bytes
le_value-le_bytes zero n h = omega arith
le_value-le_bytes (suc k) n h =
    let ih = le_value-le_bytes k (n / 256) (omega arith) in omega (arith, ih)

-- Half of the values of a signed integer of a width: `-MIN`.
abbrev pub half_range : ℕ → ℕ
half_range width = byte_power width / 2

-- The integer that bits stand for, and its bits.
abbrev pub signed : ℕ → ℕ → ℤ
signed width w = if ltb w (half_range width) then pos w else negsuc (byte_power width - w - 1)

abbrev pub bits : ℕ → ℤ → ℕ
bits width (pos n) = n
bits width (negsuc n) = byte_power width - n - 1

-- `<$type>::try_from(value)` succeeds.
abbrev pub IsSigned : ℕ → ℤ → Type 0
IsSigned width a = (pos_part a < half_range width) × (neg_part a ≤ half_range width)

pub signed-bits : (width : ℕ) (a : ℤ) → IsSigned width a → signed width (bits width a) ≡ a
signed-bits width (pos n) h = ground arith
signed-bits width (negsuc n) h = ground arith

pub bits-lt : (width : ℕ) (a : ℤ) → IsSigned width a → bits width a < byte_power width
bits-lt width (pos n) h = omega arith
bits-lt width (negsuc n) h = omega arith
