-- ===== src/Exportbin/Ranges.antt =====
-- Disjoint ranges, and how sorting by the start treats them.
use adbc_driver_monetdb.Prelude.{
  ℕ, ◌≤◌, ◌<◌, ◌⊎◌, inl, inr, List, [], ◌∷◌, arith, leb, leb→le, Bool-cases, All,
}
use adbc_driver_monetdb.Exportbin.Frame.{ByteRange, occupied, insert_by_start, sort_by_start}

-- Two ranges share no byte: one is empty, or one ends before the other begins.
abbrev pub Disjoint : ByteRange → ByteRange → Type 0
Disjoint a b = (a.1 ≤ a.0) ⊎ ((b.1 ≤ b.0) ⊎ ((a.1 ≤ b.0) ⊎ (b.1 ≤ a.0)))

abbrev pub AllDisjoint : List ByteRange → Type 0
AllDisjoint [] = Unit
AllDisjoint (a ∷ ranges) = All (Disjoint a) ranges × AllDisjoint ranges

abbrev pub NonEmpty : ByteRange → Type 0
NonEmpty a = a.0 < a.1

pub Disjoint-symm : (a b : ByteRange) → Disjoint a b → Disjoint b a
Disjoint-symm a b h = omega arith

pub occupied-NonEmpty : (ranges : List ByteRange) → All NonEmpty (occupied ranges)
unfolding occupied
occupied-NonEmpty [] = tt
occupied-NonEmpty ((start, end) ∷ ranges) = ground (arith, occupied-NonEmpty ranges)

module _ {κ} (P : ByteRange → Type κ) where
  insert-All : (a : ByteRange) (l : List ByteRange) → P a → All P l → All P (insert_by_start a l)
  unfolding insert_by_start
  insert-All a [] ha hl = (ha, tt)
  insert-All a (b ∷ l) ha (hb, hl) = elim (Bool-cases (leb a.0 b.0)) [
    | inl le ↦ rw le (ha, (hb, hl))
    | inr gt ↦ rw gt (hb, insert-All a l ha hl)
  ]

  All-insert : (a : ByteRange) (l : List ByteRange) → All P (insert_by_start a l) → P a × All P l
  unfolding insert_by_start
  All-insert a [] h = h
  All-insert a (b ∷ l) h = elim (Bool-cases (leb a.0 b.0)) [
    | inl le ↦ let g : All P (a ∷ b ∷ l) = rw le at h in g
    | inr gt ↦
        let g : All P (b ∷ insert_by_start a l) = rw gt at h in
        let (ha, hl) = All-insert a l g.1 in (ha, (g.0, hl))
  ]

  pub sort-All : (l : List ByteRange) → All P l → All P (sort_by_start l)
  unfolding sort_by_start
  sort-All [] h = tt
  sort-All (a ∷ l) (ha, hl) = insert-All a (sort_by_start l) ha (sort-All l hl)

  pub All-sort : (l : List ByteRange) → All P (sort_by_start l) → All P l
  unfolding sort_by_start
  All-sort [] h = tt
  All-sort (a ∷ l) h = let (ha, hl) = All-insert a (sort_by_start l) h in (ha, All-sort l hl)

pub All-Disjoint-symm :
    (a : ByteRange) (l : List ByteRange) → All (Disjoint a) l → All (λ b. Disjoint b a) l
All-Disjoint-symm a [] h = tt
All-Disjoint-symm a (b ∷ l) (hb, hl) = (Disjoint-symm a b hb, All-Disjoint-symm a l hl)

insert-AllDisjoint :
    (a : ByteRange) (l : List ByteRange)
    → All (Disjoint a) l
    → AllDisjoint l
    → AllDisjoint (insert_by_start a l)
unfolding insert_by_start
insert-AllDisjoint a [] h d = (tt, tt)
insert-AllDisjoint a (b ∷ l) (hb, hl) (db, dl) = elim (Bool-cases (leb a.0 b.0)) [
  | inl le ↦ rw le ((hb, hl), (db, dl))
  | inr gt ↦
      rw gt (insert-All (Disjoint b) a l (Disjoint-symm a b hb) db, insert-AllDisjoint a l hl dl)
]

AllDisjoint-insert :
    (a : ByteRange) (l : List ByteRange)
    → AllDisjoint (insert_by_start a l)
    → All (Disjoint a) l × AllDisjoint l
unfolding insert_by_start
AllDisjoint-insert a [] h = (tt, tt)
AllDisjoint-insert a (b ∷ l) h = elim (Bool-cases (leb a.0 b.0)) [
  | inl le ↦ let g : AllDisjoint (a ∷ b ∷ l) = rw le at h in g
  | inr gt ↦
      let g : AllDisjoint (b ∷ insert_by_start a l) = rw gt at h in
      let (ha, dl) = AllDisjoint-insert a l g.1 in
      let (ba, bl) = All-insert (Disjoint b) a l g.0 in ((Disjoint-symm b a ba, ha), (bl, dl))
]

pub sort-AllDisjoint : (l : List ByteRange) → AllDisjoint l → AllDisjoint (sort_by_start l)
unfolding sort_by_start
sort-AllDisjoint [] h = tt
sort-AllDisjoint (a ∷ l) (ha, hl) =
    insert-AllDisjoint a (sort_by_start l) (sort-All (Disjoint a) l ha) (sort-AllDisjoint l hl)

pub AllDisjoint-sort : (l : List ByteRange) → AllDisjoint (sort_by_start l) → AllDisjoint l
unfolding sort_by_start
AllDisjoint-sort [] h = tt
AllDisjoint-sort (a ∷ l) h =
    let (ha, hl) = AllDisjoint-insert a (sort_by_start l) h in
    (All-sort (Disjoint a) l ha, AllDisjoint-sort l hl)

-- Sorted by their starts.
abbrev pub IsSorted : List ByteRange → Type 0
IsSorted [] = Unit
IsSorted (a ∷ l) = All (λ b. a.0 ≤ b.0) l × IsSorted l

All-le_trans : (x y : ℕ) (l : List ByteRange) → x ≤ y → All (λ c. y ≤ c.0) l → All (λ c. x ≤ c.0) l
All-le_trans x y [] h k = tt
All-le_trans x y (c ∷ l) h (kc, kl) = (omega arith, All-le_trans x y l h kl)

insert-IsSorted : (a : ByteRange) (l : List ByteRange) → IsSorted l → IsSorted (insert_by_start a l)
unfolding insert_by_start
insert-IsSorted a [] h = (tt, tt)
insert-IsSorted a (b ∷ l) (hb, hl) = elim (Bool-cases (leb a.0 b.0)) [
  | inl le ↦ rw le ((leb→le _ _ le, All-le_trans a.0 b.0 l (leb→le _ _ le) hb), (hb, hl))
  | inr gt ↦ rw gt (insert-All (λ c. b.0 ≤ c.0) a l (ground arith) hb, insert-IsSorted a l hl)
]

pub sort-IsSorted : (l : List ByteRange) → IsSorted (sort_by_start l)
unfolding sort_by_start
sort-IsSorted [] = tt
sort-IsSorted (a ∷ l) = insert-IsSorted a (sort_by_start l) (sort-IsSorted l)
