-- ===== src/RoundTrip/Backrefs.antt =====
-- `append_backref` against `long_backref`: the distance comes back, whatever follows it.
use adbc_driver_monetdb.Prelude.{
  ℕ, zero, suc, ◌+◌, ◌-◌, ◌*◌, ◌/◌, ◌%◌, ◌^◌, ◌≤◌, ◌<◌, ◌≡◌, refl, sym, ap, ◌∙◌, [], ◌∷◌, ◌++◌,
  arith, Bytes, IsUsize, length, ok,
}
use adbc_driver_monetdb.Decode.Strings.{long_backref_loop, long_backref}
use adbc_driver_monetdb.Encode.Strings.{backref_groups}
use native.Mathlib.Nat.{add-mul, div-add-mod', mul_assoc, pow-succ'}

-- The unit of the next group of seven bits.
next_unit : (shift : ℕ) → 2 ^ (shift + 7) ≡ 128 * 2 ^ shift
next_unit zero = refl
next_unit (suc shift) =
    let carry : suc shift + 7 ≡ suc (shift + 7) = omega arith in
    rw (carry, pow-succ' 2 (shift + 7), pow-succ' 2 shift, next_unit shift) (omega arith)

-- The groups above the lowest, and the lowest one, make up the number, in any unit.
groups_value : (w unit : ℕ) → w / 128 * (128 * unit) + w % 128 * unit ≡ w * unit
groups_value w unit =
    ap (λ n. n + w % 128 * unit) (sym (mul_assoc (w / 128) 128 unit))
    ∙ sym (add-mul (w / 128 * 128) (w % 128) unit)
    ∙ ap (λ n. n * unit) (div-add-mod' w 128)

le-div : (a p m : ℕ) → 0 < p → a * p ≤ m → a ≤ m / p
le-div a p m h k = grind arith

pow-pos : (s : ℕ) → 0 < 2 ^ s
pow-pos zero = omega arith
pow-pos (suc s) = omega (arith, pow-pos s)

module _ (row index acc shift : ℕ) (rest : Bytes) where
  last_byte :
      (w : ℕ)
      → w < 128
      → acc + w * 2 ^ shift < 2 ^ 64
      → long_backref_loop (w ∷ rest) row index acc shift ≡ ok (acc + w * 2 ^ shift, index + 1)
  unfolding long_backref_loop
  last_byte w hw fits =
      ground (arith, le-div w (2 ^ shift) (2 ^ 64 - 1) (pow-pos shift) (omega arith))

  inner_byte :
      (g : ℕ)
      → g < 128
      → shift + 7 < 64
      → acc + g * 2 ^ shift < 2 ^ 64
      → long_backref_loop ((g + 0x80) ∷ rest) row index acc shift
        ≡ long_backref_loop rest row (index + 1) (acc + g * 2 ^ shift) (shift + 7)
  unfolding long_backref_loop
  inner_byte g hg hs fits =
      ground (arith, le-div g (2 ^ shift) (2 ^ 64 - 1) (pow-pos shift) (omega arith))

groups_last : (k w : ℕ) → w < 128 → backref_groups (suc k) w ≡ w ∷ []
unfolding backref_groups
groups_last k w h = ground arith

groups_more :
    (k w : ℕ) → 128 ≤ w → backref_groups (suc k) w ≡ (w % 128 + 0x80) ∷ backref_groups k (w / 128)
unfolding backref_groups
groups_more k w h = ground arith

-- `w` is what is still to be read, and it counts from bit `shift` on.
groups_read :
    (k j w row index acc shift : ℕ) (rest : Bytes)
    → shift ≡ 7 * j
    → k + j ≡ 9
    → w < 128 ^ suc k
    → acc + w * 2 ^ shift < 2 ^ 64
    → long_backref_loop (backref_groups (suc k) w ++ rest) row index acc shift
      ≡ ok (acc + w * 2 ^ shift, index + length (backref_groups (suc k) w))
groups_read zero j w row index acc shift rest hs hj hw fits =
    ground (arith, groups_last 0 w, last_byte row index acc shift rest w (omega arith) fits)
groups_read (suc k) j w row index acc shift rest hs hj hw fits = ground (
  arith,
  groups_last (suc k) w,
  groups_more (suc k) w,
  last_byte row index acc shift rest w,
  next_unit shift,
  groups_value w (2 ^ shift),
  inner_byte row index acc shift (backref_groups (suc k) (w / 128) ++ rest) (w % 128),
  groups_read k (j + 1) (w / 128) row (index + 1) (acc + w % 128 * 2 ^ shift) (shift + 7) rest,
)

-- Every `usize` distance is read back from the groups that `append_backref` writes for it, with the
-- number of bytes that it took; ten groups are enough.
pub long_backref-groups :
    (distance row : ℕ) (rest : Bytes)
    → IsUsize distance
    → long_backref (backref_groups 10 distance ++ rest) row
      ≡ ok (distance, length (backref_groups 10 distance))
unfolding long_backref
long_backref-groups distance row rest h =
    ground (arith, groups_read 9 0 distance row 0 0 0 rest refl refl (omega arith))
