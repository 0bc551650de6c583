-- ===== src/Exportbin/Overlap.antt =====
-- The test for overlapping column ranges is exact.
use adbc_driver_monetdb.Prelude.{
  ℕ, ◌≤◌, ◌≡◌, refl, ◌↔◌, inl, inr, false, List, [], ◌∷◌, arith, ltb, Bool-cases, All,
}
use adbc_driver_monetdb.Exportbin.Frame.{ByteRange, occupied, sort_by_start, any_overlap}
use adbc_driver_monetdb.Exportbin.Ranges.{
  Disjoint, AllDisjoint, NonEmpty, occupied-NonEmpty, sort-All, sort-AllDisjoint, AllDisjoint-sort,
  IsSorted, sort-IsSorted,
}

-- Each range ends before every later one begins.
abbrev Chained : List ByteRange → Type 0
Chained [] = Unit
Chained (a ∷ l) = All (λ b. a.1 ≤ b.0) l × Chained l

All-before : (x y : ℕ) (l : List ByteRange) → x ≤ y → All (λ c. y ≤ c.0) l → All (λ c. x ≤ c.0) l
All-before x y [] h k = tt
All-before x y (c ∷ l) h (kc, kl) = (omega arith, All-before x y l h kl)

no_overlap-Chained : (l : List ByteRange) → All NonEmpty l → any_overlap l ≡ false → Chained l
unfolding any_overlap
no_overlap-Chained [] n h = tt
no_overlap-Chained (a ∷ []) n h = (tt, tt)
no_overlap-Chained (a ∷ b ∷ l) (na, (nb, nl)) h =
    let ab : a.1 ≤ b.0 = ground arith in
    let rest = no_overlap-Chained (b ∷ l) (nb, nl) (ground arith) in
    ((ab, All-before a.1 b.1 l (omega arith) rest.0), rest)

Chained-AllDisjoint : (l : List ByteRange) → Chained l → AllDisjoint l
Chained-AllDisjoint [] h = tt
Chained-AllDisjoint (a ∷ l) (ha, hl) = (go l ha, Chained-AllDisjoint l hl)
  where
    go : (m : List ByteRange) → All (λ b. a.1 ≤ b.0) m → All (Disjoint a) m
    go [] h = tt
    go (b ∷ m) (hb, hm) = (omega arith, go m hm)

AllDisjoint-no_overlap :
    (l : List ByteRange) → All NonEmpty l → IsSorted l → AllDisjoint l → any_overlap l ≡ false
unfolding any_overlap
AllDisjoint-no_overlap [] n s d = refl
AllDisjoint-no_overlap (a ∷ []) n s d = refl
AllDisjoint-no_overlap (a ∷ b ∷ l) (na, (nb, nl)) ((ab, _), sl) ((dab, _), dl) =
    ground (arith, AllDisjoint-no_overlap (b ∷ l) (nb, nl) sl dl)

occupied-All :
    (a : ByteRange) (l : List ByteRange) → All (Disjoint a) l → All (Disjoint a) (occupied l)
unfolding occupied
occupied-All a [] h = tt
occupied-All a ((start, end) ∷ l) (h, hl) = elim (Bool-cases (ltb start end)) [
  | inl e ↦ rw e (h, occupied-All a l hl)
  | inr e ↦ rw e (occupied-All a l hl)
]

All-occupied :
    (a : ByteRange) (l : List ByteRange) → All (Disjoint a) (occupied l) → All (Disjoint a) l
unfolding occupied
All-occupied a [] h = tt
All-occupied a ((start, end) ∷ l) h = elim (Bool-cases (ltb start end)) [
  | inl e ↦
      let g : All (Disjoint a) ((start, end) ∷ occupied l) = rw e at h in
      (g.0, All-occupied a l g.1)
  | inr e ↦ let g : All (Disjoint a) (occupied l) = rw e at h in (ground arith, All-occupied a l g)
]

empty-Disjoint : (start end : ℕ) (l : List ByteRange) → end ≤ start → All (Disjoint (start, end)) l
empty-Disjoint start end [] h = tt
empty-Disjoint start end (b ∷ l) h = (inl h, empty-Disjoint start end l h)

occupied-AllDisjoint : (l : List ByteRange) → AllDisjoint l → AllDisjoint (occupied l)
unfolding occupied
occupied-AllDisjoint [] h = tt
occupied-AllDisjoint ((start, end) ∷ l) (h, hl) = elim (Bool-cases (ltb start end)) [
  | inl e ↦ rw e (occupied-All (start, end) l h, occupied-AllDisjoint l hl)
  | inr e ↦ rw e (occupied-AllDisjoint l hl)
]

AllDisjoint-occupied : (l : List ByteRange) → AllDisjoint (occupied l) → AllDisjoint l
unfolding occupied
AllDisjoint-occupied [] h = tt
AllDisjoint-occupied ((start, end) ∷ l) h = elim (Bool-cases (ltb start end)) [
  | inl e ↦
      let g : AllDisjoint ((start, end) ∷ occupied l) = rw e at h in
      (All-occupied (start, end) l g.0, AllDisjoint-occupied l g.1)
  | inr e ↦
      let g : AllDisjoint (occupied l) = rw e at h in
      (empty-Disjoint start end l (ground arith), AllDisjoint-occupied l g)
]

-- The test of `parse_frame` on the sorted occupied ranges passes exactly when every two of the
-- ranges share no byte.
pub overlap_exact :
    (ranges : List ByteRange)
    → (any_overlap (sort_by_start (occupied ranges)) ≡ false) ↔ AllDisjoint ranges
overlap_exact ranges =
    let nonempty = sort-All NonEmpty (occupied ranges) (occupied-NonEmpty ranges) in
    (
      λ h. AllDisjoint-occupied ranges (
          AllDisjoint-sort (occupied ranges) (
            Chained-AllDisjoint _
              (no_overlap-Chained (sort_by_start (occupied ranges)) nonempty h))),
      λ d.
          AllDisjoint-no_overlap (sort_by_start (occupied ranges)) nonempty
            (sort-IsSorted (occupied ranges))
            (sort-AllDisjoint (occupied ranges) (occupied-AllDisjoint ranges d)),
    )
