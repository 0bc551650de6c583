-- ===== src/Driver/Cache/Newest.antt =====
-- What `trim` keeps: the entry that is used last, and of two entries never only the one used first.
use adbc_driver_monetdb.Prelude.{
  ℕ, zero, suc, ◌≤◌, ◌<◌, min, ◌≡◌, sym, ap, ◌∙◌, ◌⊎◌, inl, inr, none, some, [], ◌∷◌, arith,
  Bool-cases, Option-cases, All, length,
}
use native.Mathlib.Decide.{dec_le}
use adbc_driver_monetdb.Driver.Text.{Text, text_eq_iff, text_eq, text_eq→eq}
use adbc_driver_monetdb.Driver.Cache.Map.{
  find, remove, NodupKeys, find-remove, remove-NodupKeys, All-remove, length-remove, length-remove,
}
use adbc_driver_monetdb.Driver.Cache.State.{
  CachedPrepared, Entries, oldest, trim_loop, PreparedCache, trim_cache,
}
use adbc_driver_monetdb.Driver.Cache.Trim.{
  oldest-found, oldest-All, trim_loop_round, trim_loop_done, trim_loop_zero, trim_loop-All,
}

module _ {E F T : Type 0} where
  -- An entry of `k`, or one that was used before `used`.
  abbrev pub IsEarlier : Text → ℕ → Text × CachedPrepared E F T → Type 0
  IsEarlier k used e = (e.0 ≡ k) ⊎ (e.1.last_used < used)

  -- Where no entry was used before `used`, only the one of `k` is left.
  only_key :
      (k : Text) (used : ℕ) (m : Entries E F T)
      → NodupKeys m
      → All (IsEarlier k used) m
      → All (λ e. used ≤ e.1.last_used) m
      → length m ≤ 1
  unfolding find
  only_key k used [] n h late = omega arith
  only_key k used ((i, x) ∷ []) n h late = omega arith
  only_key k used ((i, x) ∷ (j, y) ∷ m) (ni, n) (hi, (hj, hm)) (li, (lj, lm)) =
      let i_is : i ≡ k = elim hi [ inl e ↦ e | inr lt ↦ absurd (omega arith) ] in
      let j_is : j ≡ k = elim hj [ inl e ↦ e | inr lt ↦ absurd (omega arith) ] in
      ground (arith, text_eq_iff j i)

  pub newest_kept :
      (k : Text) (c : CachedPrepared E F T) (fuel capacity : ℕ) (m : Entries E F T)
      → 0 < capacity
      → NodupKeys m
      → All (IsEarlier k c.last_used) m
      → find k m ≡ some c
      → find k (trim_loop fuel capacity m) ≡ some c
  newest_kept k c zero capacity m p n h e = rw (trim_loop_zero capacity m) e
  newest_kept k c (suc fuel) capacity m p n h e = elim (dec_le (length m) capacity) [
    | yes small ↦ rw (trim_loop_done (suc fuel) capacity m small) e
    | no big ↦
        let (j, used, o, round) = trim_loop_round fuel capacity m (omega arith) in
        elim (Bool-cases (text_eq j k)) [
          | inl same ↦
              let at_k : oldest m ≡ some (k, used) = rw (text_eq→eq j k same) at o in
              let (d, found, at) = oldest-found m k used n at_k in
              let is_c : c.last_used ≡ used = ground arith in
              absurd
                (omega (arith, only_key k c.last_used m n h (rw is_c (oldest-All m k used at_k))))
          | inr other ↦ rw round (
              newest_kept k c fuel capacity (remove j m) p (remove-NodupKeys j m n)
                (All-remove _ j m h) (ground (arith, find-remove j k m)))
        ]
  ]

  -- An entry that `trim` drops was used no later than any that it keeps.
  trim_loop_drops_oldest :
      (j : Text) (c : CachedPrepared E F T) (fuel capacity : ℕ) (m : Entries E F T)
      → NodupKeys m
      → find j m ≡ some c
      → find j (trim_loop fuel capacity m) ≡ none
      → All (λ e. c.last_used ≤ e.1.last_used) (trim_loop fuel capacity m)
  trim_loop_drops_oldest j c zero capacity m n e gone =
      absurd (let h = rw (trim_loop_zero capacity m) at gone in cc)
  trim_loop_drops_oldest j c (suc fuel) capacity m n e gone = elim (dec_le (length m) capacity) [
    | yes small ↦ absurd (let h = rw (trim_loop_done (suc fuel) capacity m small) at gone in cc)
    | no big ↦
        let (k, used, o, round) = trim_loop_round fuel capacity m (omega arith) in
        let gone' = rw round at gone in
        rw round (elim (Bool-cases (text_eq k j)) [
          | inl same ↦
              let at_j : oldest m ≡ some (j, used) = rw (text_eq→eq k j same) at o in
              let (d, found, at) = oldest-found m j used n at_j in
              let is_c : c.last_used ≡ used = ground arith in
              rw is_c (
                trim_loop-All _ fuel capacity (remove k m)
                  (All-remove _ k m (oldest-All m j used at_j)))
          | inr other ↦
              trim_loop_drops_oldest j c fuel capacity (remove k m) (remove-NodupKeys k m n)
                (ground (arith, find-remove k j m)) gone'
        ])
  ]

  length-trim_loop_exact :
      (fuel capacity : ℕ) (m : Entries E F T)
      → NodupKeys m
      → length m ≤ fuel
      → length (trim_loop fuel capacity m) ≡ min (length m) capacity
  length-trim_loop_exact zero capacity m n h = rw (trim_loop_zero capacity m) (omega arith)
  length-trim_loop_exact (suc fuel) capacity m n h = elim (dec_le (length m) capacity) [
    | yes small ↦ rw (trim_loop_done (suc fuel) capacity m small) (omega arith)
    | no big ↦
        let (k, used, o, round) = trim_loop_round fuel capacity m (omega arith) in
        let (d, found, at) = oldest-found m k used n o in
        let less = length-remove k d m n found in
        let rest =
          length-trim_loop_exact fuel capacity (remove k m) (remove-NodupKeys k m n)
            (omega (arith, less)) in
        rw round (omega (arith, rest, less))
  ]

  trim_loop-find :
      (j : Text) (fuel capacity : ℕ) (m : Entries E F T)
      → NodupKeys m
      → (find j (trim_loop fuel capacity m) ≡ find j m)
        ⊎ (find j (trim_loop fuel capacity m) ≡ none)
  trim_loop-find j zero capacity m n = inl (ap (find j) (trim_loop_zero capacity m))
  trim_loop-find j (suc fuel) capacity m n = elim (dec_le (length m) capacity) [
    | yes small ↦ inl (ap (find j) (trim_loop_done (suc fuel) capacity m small))
    | no big ↦
        let (k, used, o, round) = trim_loop_round fuel capacity m (omega arith) in
        let rest = trim_loop-find j fuel capacity (remove k m) (remove-NodupKeys k m n) in
        elim (Bool-cases (text_eq k j)) [
          | inr other ↦
              let same : find j (remove k m) ≡ find j m = ground (arith, find-remove k j m) in
              rw round (rw same at rest)
          | inl same ↦
              let gone : find j (remove k m) ≡ none = ground (arith, find-remove k j m) in
              rw round (inr (elim rest [ inl e ↦ e ∙ gone | inr e ↦ e ]))
        ]
  ]

  -- `trim` drops entries while there are too many, and only then: it leaves as many as fit the
  -- capacity, or all. Whatever query text is looked up afterwards, its entry is as before, or there
  -- was one that is dropped, and it was used no later than every entry that is kept. The cache has one
  -- entry for each query text.
  pub trim_cache-drops_oldest :
      (j : Text) (c : PreparedCache E F T)
      → NodupKeys c.entries
      → (length (trim_cache c).entries ≡ min (length c.entries) c.capacity)
        × ((find j (trim_cache c).entries ≡ find j c.entries)
            ⊎ ((find j (trim_cache c).entries ≡ none)
                × (was : CachedPrepared E F T) × (find j c.entries ≡ some was)
                × All (λ e. was.last_used ≤ e.1.last_used) (trim_cache c).entries))
  unfolding trim_cache
  trim_cache-drops_oldest j c n =
      let fuel = length c.entries in
      (
        length-trim_loop_exact fuel c.capacity c.entries n (omega arith),
        elim (trim_loop-find j fuel c.capacity c.entries n) [
          | inl kept ↦ inl kept
          | inr gone ↦ elim (Option-cases (find j c.entries)) [
            | inl missing ↦ inl (gone ∙ sym missing)
            | inr (was, found) ↦ inr (
              gone,
              was,
              found,
              trim_loop_drops_oldest j was fuel c.capacity c.entries n found gone,
            )
          ]
        ],
      )
