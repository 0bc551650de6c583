-- ===== src/Prelude/ByteStrings.antt =====
-- Byte strings, `usize` arithmetic at 64 bits, and little-endian integers.
use adbc_driver_monetdb.Prelude.Tests.{ltb, leb, if◌then◌else◌, ◌==◌}
use adbc_driver_monetdb.Prelude.Lists.{length, take, drop}
use adbc_driver_monetdb.Prelude.Results.{Outcome, ok, panic}
use Prim.Native.Nat.{ℕ, zero, suc, ◌+◌, ◌-◌, ◌*◌, ◌/◌, ◌%◌, ◌^◌, ◌<◌, min}
use Prim.Native.Char.{code}
use Prim.Native.String.{String}
use mathlib.Core.Path.{◌≡◌, refl}
use mathlib.Core.Bool.{◌&&◌}
use mathlib.Core.Option.{Option, none, some}
use mathlib.Core.List.{List, [], ◌∷◌, ◌++◌}
use native.Mathlib.Omega.{arith}

abbrev pub Bytes : Type 0
Bytes = List ℕ

abbrev pub IsByte : ℕ → Type 0
IsByte b = b < 256

-- The bytes of an ASCII literal.
abbrev pub codes : String → Bytes
codes String.[] = []
codes (String.◌∷◌ c s) = code c ∷ codes s

abbrev pub usize_mod : ℕ
usize_mod = 2 ^ 64

abbrev pub IsUsize : ℕ → Type 0
IsUsize n = n < 2 ^ 64

abbrev pub checked_add : ℕ → ℕ → Option ℕ
checked_add a b = if ltb (a + b) (2 ^ 64) then some (a + b) else none

abbrev pub checked_sub : ℕ → ℕ → Option ℕ
checked_sub a b = if leb b a then some (a - b) else none

abbrev pub checked_mul : ℕ → ℕ → Option ℕ
checked_mul a b = if ltb (a * b) (2 ^ 64) then some (a * b) else none

abbrev pub saturating_add : ℕ → ℕ → ℕ
saturating_add a b = min (a + b) (2 ^ 64 - 1)

abbrev pub saturating_mul : ℕ → ℕ → ℕ
saturating_mul a b = min (a * b) (2 ^ 64 - 1)

module _ {ℓ} {A : Type ℓ} where
  abbrev pub All {κ} : (A → Type κ) → List A → Type κ
  All P [] = Unit {κ}
  All P (x ∷ xs) = P x × All P xs

  pub All-append {κ} :
      (P : A → Type κ) (front back : List A) → All P front → All P back → All P (front ++ back)
  All-append P [] back h k = k
  All-append P (x ∷ front) back (h, hs) k = (h, All-append P front back hs k)

-- The value of little-endian bytes, and the first `k` little-endian bytes of a value.
unfoldable pub le_value : Bytes → ℕ
le_value [] = 0
le_value (b ∷ bs) = b + 256 * le_value bs

unfoldable pub le_bytes : ℕ → ℕ → Bytes
le_bytes zero n = []
le_bytes (suc k) n = (n % 256) ∷ le_bytes k (n / 256)

pub le_value-le_bytes_8 : (n : ℕ) → n < 2 ^ 64 → le_value (le_bytes 8 n) ≡ n
unfolding le_value le_bytes
le_value-le_bytes_8 n h = omega arith

pub length-le_bytes : (k n : ℕ) → length (le_bytes k n) ≡ k
unfolding le_bytes
length-le_bytes zero n = refl
length-le_bytes (suc k) n = omega (arith, length-le_bytes k (n / 256))

-- `&bytes[a..b]`
abbrev pub slice {ℓ} : {E : Type ℓ} → Bytes → ℕ → ℕ → Outcome E Bytes
slice bytes a b =
    if leb a b && leb b (length bytes) then ok (take (b - a) (drop a bytes)) else panic

-- `bytes.iter().position(|&b| b == value)`
abbrev pub position : ℕ → Bytes → Option ℕ
position value [] = none
position value (b ∷ bs) =
    if b == value then some 0 else elim (position value bs) [ none ↦ none | some i ↦ some (i + 1) ]

-- `mapped[offset..offset + bytes.len()].copy_from_slice(bytes)`, within the bounds.
abbrev pub write_at : ℕ → Bytes → Bytes → Bytes
write_at offset bytes mapped = take offset mapped ++ (bytes ++ drop (offset + length bytes) mapped)
