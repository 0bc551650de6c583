-- ===== src/Driver/Windows/Alignment.antt =====
-- `export_alignment_rows` and `round_read_batch_rows`: powers of two below the export granule.
use adbc_driver_monetdb.Prelude.{
  ℕ, zero, suc, ◌+◌, ◌-◌, ◌*◌, ◌/◌, ◌%◌, ◌^◌, ◌≤◌, ◌<◌, min, max, ◌≡◌, refl, ◌≢◌, ◌⊎◌, inl, inr,
  Bool, ◌||◌, none, some, arith, ltb, leb, ◌==◌, if◌then◌else◌, ltb→lt, leb→le, ==_iff, Bool-cases,
  all_below_sound, checked_add, saturating_mul,
}
use native.Mathlib.Nat.{pow-succ', pow-le-pow_right}
use native.Mathlib.Decide.{dec_le}

abbrev pub export_granule_rows : ℕ
export_granule_rows = 131072

-- The zero bits above the highest one bit, in a number of `w` bits.
unfoldable pub leading_zeros : ℕ → ℕ → ℕ
leading_zeros zero n = 0
leading_zeros (suc w) n = if leb (2 ^ w) n then 0 else suc (leading_zeros w n)

-- `1 << n` on `usize`, for `n` below 64.
unfoldable pub export_alignment_rows : ℕ → ℕ
export_alignment_rows target =
    2 ^ (64 - 1 - leading_zeros 64 (min (max target 1) export_granule_rows))

abbrev pub i64_fits : ℕ → Bool
i64_fits n = ltb n (2 ^ 63)

-- Below a granule: the nearer one of two powers of two, the upper at a tie.
unfoldable pub round_small_batch : ℕ → ℕ
round_small_batch rows =
    let lower = export_alignment_rows rows in
    let upper = min (saturating_mul lower 2) export_granule_rows in
    if lower == rows then rows else if leb (upper - rows) (rows - lower) then upper else lower

-- Above a granule: the nearer multiple of it, as long as that fits an `i64`.
unfoldable pub round_large_batch : ℕ → ℕ
round_large_batch rows =
    let lower = rows / export_granule_rows * export_granule_rows in
    if lower == 0 || leb (export_granule_rows / 2) (rows - lower)
    then elim (checked_add lower export_granule_rows) [
      | none ↦ lower
      | some upper ↦ if i64_fits upper then upper else lower
    ]
    else lower

unfoldable pub round_read_batch_rows : ℕ → ℕ
round_read_batch_rows rows =
    if rows % export_granule_rows == 0
    then rows
    else if ltb rows export_granule_rows
    then round_small_batch rows
    else round_large_batch rows

-- The power of two at the highest one bit is at most the number, and its double is above it.
leading_zeros-bounds :
    (w n : ℕ)
    → 0 < n
    → n < 2 ^ w
    → (leading_zeros w n < w)
      × (2 ^ (w - 1 - leading_zeros w n) ≤ n)
      × (n < 2 * 2 ^ (w - 1 - leading_zeros w n))
unfolding leading_zeros
leading_zeros-bounds zero n p h = absurd (omega arith)
leading_zeros-bounds (suc w) n p h = elim (Bool-cases (leb (2 ^ w) n)) [
  | inl e ↦
      let top : suc w - 1 - 0 ≡ w = omega arith in
      rw (leading_zeros, e, top) (omega arith, leb→le (2 ^ w) n e, omega (arith, pow-succ' 2 w))
  | inr e ↦
      let (l, below, above) = leading_zeros-bounds w n p (ground arith) in
      let same : suc w - 1 - suc (leading_zeros w n) ≡ w - 1 - leading_zeros w n = omega arith in
      rw (leading_zeros, e, same) (omega arith, below, above)
]

divides_granule : (k : ℕ) → k < 18 → export_granule_rows % 2 ^ k ≡ 0
divides_granule k h =
    (==_iff (export_granule_rows % 2 ^ k) 0).0
      (all_below_sound 18 (λ k. export_granule_rows % 2 ^ k == 0) k refl h)

-- Small powers of two are the only ones below the granule.
exponent-lt : (k : ℕ) → 2 ^ k ≤ export_granule_rows → k < 18
exponent-lt k h = elim (dec_le k 17) [
  | yes small ↦ omega arith
  | no big ↦
      let least : 2 ^ 18 ≤ 2 ^ k = pow-le-pow_right (omega arith) {i = 18} (omega arith) in
      absurd (omega arith)
]

-- For a target within the granule: a power of two that divides the granule, at most the target, and
-- more than half of it.
pub export_alignment_rows-small :
    (target : ℕ)
    → 0 < target
    → target ≤ export_granule_rows
    → (export_granule_rows % export_alignment_rows target ≡ 0)
      × (0 < export_alignment_rows target)
      × (export_alignment_rows target ≤ target)
      × (target < 2 * export_alignment_rows target)
unfolding export_alignment_rows
export_alignment_rows-small target p h =
    let clamped : min (max target 1) export_granule_rows ≡ target = omega arith in
    let (l, below, above) = leading_zeros-bounds 64 target p (omega arith) in
    let small = exponent-lt (64 - 1 - leading_zeros 64 target) (omega arith) in
    rw (export_alignment_rows, clamped) (divides_granule _ small, omega arith, below, above)

export_alignment_rows-clamp :
    (target : ℕ)
    → export_alignment_rows target ≡ export_alignment_rows (min (max target 1) export_granule_rows)
unfolding export_alignment_rows
export_alignment_rows-clamp target =
    let again : min (max (min (max target 1) export_granule_rows) 1) export_granule_rows
        ≡ min (max target 1) export_granule_rows =
      omega arith in
    rw (export_alignment_rows, again) refl

-- For any target the alignment is positive, divides the export granule, is at most the target where
-- that is positive, and is more than half of the target within the granule.
pub export_alignment_rows-divides :
    (target : ℕ)
    → (export_granule_rows % export_alignment_rows target ≡ 0)
      × (0 < export_alignment_rows target)
      × (export_alignment_rows target ≤ max target 1)
      × (min (max target 1) export_granule_rows < 2 * export_alignment_rows target)
export_alignment_rows-divides target =
    let (d, p, le, lt) =
      export_alignment_rows-small (min (max target 1) export_granule_rows) (omega arith)
        (omega arith) in
    rw (export_alignment_rows-clamp target) (d, p, omega arith, lt)

alignment_exponent :
    (rows : ℕ)
    → 0 < rows
    → rows < export_granule_rows
    → (k : ℕ) × (export_alignment_rows rows ≡ 2 ^ k) × (k < 17)
unfolding export_alignment_rows
alignment_exponent rows p h =
    let clamped : min (max rows 1) export_granule_rows ≡ rows = omega arith in
    let k = 64 - 1 - leading_zeros 64 rows in
    let (l, below, above) = leading_zeros-bounds 64 rows p (omega arith) in
    let small = exponent-lt k (omega arith) in
    (
      k,
      rw (export_alignment_rows, clamped) refl,
      elim (dec_le k 16) [
        | yes le ↦ omega arith
        | no gt ↦
            let top : k ≡ 17 = omega arith in
            let least : 2 ^ 17 ≤ 2 ^ k = rw top (omega arith) in absurd (omega arith)
      ],
    )

small_batch_divides :
    (rows : ℕ)
    → 0 < rows
    → rows < export_granule_rows
    → (export_granule_rows % round_small_batch rows ≡ 0)
      × (rows < 2 * round_small_batch rows)
      × (round_small_batch rows ≤ 2 * rows)
unfolding round_small_batch
small_batch_divides rows p h =
    let (d, q, le, lt) = export_alignment_rows-small rows p (omega arith) in
    let (k, is_pow, small) = alignment_exponent rows p h in
    let lower = export_alignment_rows rows in
    let twice : 2 ^ suc k ≡ 2 * 2 ^ k = pow-succ' 2 k in
    let bound : 2 ^ suc k ≤ 2 ^ 17 = pow-le-pow_right (omega arith) {j = 17} (omega arith) in
    let upper : min (saturating_mul lower 2) export_granule_rows ≡ 2 ^ suc k = omega arith in
    elim (Bool-cases (lower == rows)) [
      | inl e ↦
          let same : lower ≡ rows = ground arith in
          rw (round_small_batch, e) (rw same at d, omega arith, omega arith)
      | inr e ↦ elim (Bool-cases (leb (2 ^ suc k - rows) (rows - lower))) [
        | inl near ↦
            rw (round_small_batch, e, upper, near)
              (divides_granule (suc k) (omega arith), omega arith, omega arith)
        | inr far ↦ rw (round_small_batch, e, upper, far) (d, omega arith, omega arith)
      ]
    ]

large_batch_multiple :
    (rows : ℕ)
    → export_granule_rows < rows
    → (round_large_batch rows % export_granule_rows ≡ 0)
      × (rows < 2 * round_large_batch rows)
      × (round_large_batch rows ≤ 2 * rows)
unfolding round_large_batch
large_batch_multiple rows h =
    let lower = rows / export_granule_rows * export_granule_rows in
    let plain : (lower % export_granule_rows ≡ 0) × (rows < 2 * lower) × (lower ≤ 2 * rows) =
      (omega arith, omega arith, omega arith) in
    let next : ((lower + export_granule_rows) % export_granule_rows ≡ 0)
        × (rows < 2 * (lower + export_granule_rows))
        × (lower + export_granule_rows ≤ 2 * rows) =
      (omega arith, omega arith, omega arith) in
    elim (Bool-cases (lower == 0 || leb (export_granule_rows / 2) (rows - lower))) [
      | inl up ↦ elim (Bool-cases (ltb (lower + export_granule_rows) (2 ^ 64))) [
        | inl fits ↦ elim (Bool-cases (i64_fits (lower + export_granule_rows))) [
          | inl e ↦ rw (round_large_batch, up, fits, e) next
          | inr e ↦ rw (round_large_batch, up, fits, e) plain
        ]
        | inr over ↦ rw (round_large_batch, up, over) plain
      ]
      | inr down ↦ rw (round_large_batch, down) plain
    ]

-- A positive batch size is rounded to a multiple of the export granule or to a divisor of it, and the
-- rounded size is more than half of the given one and at most twice it.
pub round_read_batch_rows-granule :
    (rows : ℕ)
    → 0 < rows
    → ((round_read_batch_rows rows % export_granule_rows ≡ 0)
        ⊎ (export_granule_rows % round_read_batch_rows rows ≡ 0))
      × (rows < 2 * round_read_batch_rows rows)
      × (round_read_batch_rows rows ≤ 2 * rows)
unfolding round_read_batch_rows
round_read_batch_rows-granule rows p = elim (Bool-cases (rows % export_granule_rows == 0)) [
  | inl e ↦
      let whole : rows % export_granule_rows ≡ 0 = ground arith in
      rw (round_read_batch_rows, e) (inl whole, omega arith, omega arith)
  | inr e ↦ elim (Bool-cases (ltb rows export_granule_rows)) [
    | inl below ↦
        let (d, lt, le) = small_batch_divides rows p (ltb→lt _ _ below) in
        rw (round_read_batch_rows, e, below) (inr d, lt, le)
    | inr above ↦
        let other : rows % export_granule_rows ≢ 0 = λ z. ground (arith, z) in
        let ge : export_granule_rows ≤ rows = ground arith in
        let gt : export_granule_rows < rows = elim (dec_le rows export_granule_rows) [
          | yes le ↦
              let same : rows ≡ 131072 = omega arith in absurd (other (rw same (omega arith)))
          | no more ↦ omega arith
        ] in
        let (d, lt, le) = large_batch_multiple rows gt in
        rw (round_read_batch_rows, e, above) (inl d, lt, le)
  ]
]
