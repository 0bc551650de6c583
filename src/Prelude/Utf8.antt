-- ===== src/Prelude/Utf8.antt =====
-- Well-formed UTF-8, as `str::from_utf8` accepts it.
use adbc_driver_monetdb.Prelude.Tests.{ltb, leb, ◌==◌, if◌then◌else◌}
use adbc_driver_monetdb.Prelude.ByteStrings.{Bytes}
use Prim.Native.Nat.{ℕ, ◌≤◌, ◌<◌}
use mathlib.Core.Path.{◌≡◌}
use mathlib.Core.Bool.{Bool, true, false, ◌&&◌}
use mathlib.Core.Logic.{◌⊎◌}
use mathlib.Core.List.{[], ◌∷◌}
use native.Mathlib.Omega.{arith}

between : ℕ → ℕ → ℕ → Bool
between lo hi b = leb lo b && leb b hi

-- The range of the second byte after the lead byte `b` of three or four bytes.
second : ℕ → ℕ → Bool
unfolding between
second b c =
    if b == 0xe0
    then between 0xa0 0xbf c
    else if b == 0xed
    then between 0x80 0x9f c
    else if b == 0xf0
    then between 0x90 0xbf c
    else if b == 0xf4
    then between 0x80 0x8f c
    else between 0x80 0xbf c

-- The number of bytes that follow a lead byte; 4 stands for a byte that is no lead byte.
follow : ℕ → ℕ
unfolding between
follow b =
    if ltb b 0x80
    then 0
    else if between 0xc2 0xdf b
    then 1
    else if between 0xe0 0xef b
    then 2
    else if between 0xf0 0xf4 b
    then 3
    else 4

-- `pending` says which bytes the character that was begun still needs.
pub data Pending : Type 0 where
  start : Pending
  after_lead : ℕ → ℕ → Pending
  tail_bytes : ℕ → Pending

is_tail : Pending → Bytes → Bool
unfolding between second follow
is_tail start [] = true
is_tail start (b ∷ bs) =
    let n = follow b in
    let next = is_tail (if n == 0 then start else after_lead b n) bs in ltb n 4 && next
is_tail (after_lead b n) [] = false
is_tail (after_lead b n) (c ∷ bs) =
    let next =
      is_tail (if n == 1 then start else if n == 2 then tail_bytes 1 else tail_bytes 2) bs in
    second b c && next
is_tail (tail_bytes n) [] = false
is_tail (tail_bytes n) (c ∷ bs) =
    let next = is_tail (if n == 1 then start else tail_bytes 1) bs in between 0x80 0xbf c && next

unfoldable pub is_utf8 : Bytes → Bool
unfolding is_tail
is_utf8 bs = is_tail start bs

-- A text begins with an ASCII byte or with a lead byte, never with a continuation byte.
pub is_utf8-head : (b : ℕ) (bs : Bytes) → is_utf8 (b ∷ bs) ≡ true → (b < 0x80) ⊎ (0xc2 ≤ b)
unfolding is_utf8
is_utf8-head b bs h = ground arith
