-- ===== src/Driver/Cache/Trim.antt =====
-- `trim`: it ends within its fuel, bounds the entries, and drops the least recently used.
use adbc_driver_monetdb.Prelude.{
  ℕ, zero, suc, ◌≤◌, ◌<◌, ◌≡◌, refl, sym, ap, ◌⊎◌, inl, inr, false, none, some, [], ◌∷◌, arith, ltb,
  leb, lt→ltb, leb→le, Bool-cases, Option-cases, All, length,
}
use native.Mathlib.Decide.{dec_le}
use adbc_driver_monetdb.Driver.Text.{Text, text_eq_iff}
use adbc_driver_monetdb.Driver.Cache.Map.{
  find, NodupKeys, remove, remove-NodupKeys, length-remove, All-remove,
}
use adbc_driver_monetdb.Driver.Cache.State.{Entries, CachedPrepared, oldest, trim_loop}

module _ {E F T : Type 0} where
  oldest-none : (m : Entries E F T) → oldest m ≡ none → m ≡ []
  unfolding oldest
  oldest-none [] h = refl
  oldest-none ((k, c) ∷ m) h = ground arith

  -- The head is the oldest, or the oldest of the tail is.
  oldest-cons :
      (j : Text) (d : CachedPrepared E F T) (m : Entries E F T) (k : Text) (used : ℕ)
      → oldest ((j, d) ∷ m) ≡ some (k, used)
      → ((k ≡ j)
          × (used ≡ d.last_used)
          × ((oldest m ≡ none) ⊎ ((r : Text × ℕ) × (oldest m ≡ some r) × (d.last_used ≤ r.1))))
        ⊎ ((oldest m ≡ some (k, used)) × (used ≤ d.last_used))
  unfolding oldest
  oldest-cons j d m k used h = elim (Option-cases (oldest m)) [
    | inl e ↦ inl (ground (arith, e), ground (arith, e), inl e)
    | inr ((i, u), e) ↦ elim (Bool-cases (leb d.last_used u)) [
      | inl le ↦
          inl (ground (arith, e), ground (arith, e), inr ((i, u), e, leb→le d.last_used u le))
      | inr gt ↦ inr (ground (arith, e), ground (arith, e))
    ]
  ]

  -- The entry that `oldest` finds is there, and none was used before it.
  pub oldest-found :
      (m : Entries E F T) (k : Text) (used : ℕ)
      → NodupKeys m
      → oldest m ≡ some (k, used)
      → (c : CachedPrepared E F T) × (find k m ≡ some c) × (c.last_used ≡ used)
  unfolding find
  oldest-found [] k used n h = unfold oldest in cc
  oldest-found ((j, d) ∷ m) k used (nj, nm) h = elim (oldest-cons j d m k used h) [
    | inl (same, at, _) ↦ (d, ground (arith, text_eq_iff j k), sym at)
    | inr (later, _) ↦
        let (c, found, at) = oldest-found m k used nm later in
        (c, ground (arith, text_eq_iff j k), at)
  ]

  All-le :
      (m : Entries E F T) (x y : ℕ)
      → x ≤ y
      → All (λ e. y ≤ e.1.last_used) m
      → All (λ e. x ≤ e.1.last_used) m
  All-le [] x y h hm = tt
  All-le (e ∷ m) x y h (he, hm) = (omega arith, All-le m x y h hm)

  pub oldest-All :
      (m : Entries E F T) (k : Text) (used : ℕ)
      → oldest m ≡ some (k, used)
      → All (λ e. used ≤ e.1.last_used) m
  oldest-All [] k used h = tt
  oldest-All ((j, d) ∷ m) k used h = elim (oldest-cons j d m k used h) [
    | inl (same, at, inl none_left) ↦ rw (oldest-none m none_left) (omega arith, tt)
    | inl (same, at, inr (r, e, le)) ↦
        (omega arith, All-le m used r.1 (omega arith) (oldest-All m r.0 r.1 e))
    | inr (later, le) ↦ (le, oldest-All m k used later)
  ]

  -- One round of the loop, with the entry that it removes.
  pub trim_loop_round :
      (fuel capacity : ℕ) (m : Entries E F T)
      → capacity < length m
      → (k : Text) × (used : ℕ) × (oldest m ≡ some (k, used))
        × (trim_loop (suc fuel) capacity m ≡ trim_loop fuel capacity (remove k m))
  unfolding trim_loop
  trim_loop_round fuel capacity m h = elim (Option-cases (oldest m)) [
    | inl e ↦ absurd (omega (arith, ap length (oldest-none m e)))
    | inr ((k, used), e) ↦ (k, used, e, rw (trim_loop, lt→ltb _ _ h, e) refl)
  ]

  pub trim_loop_done :
      (fuel capacity : ℕ) (m : Entries E F T) → length m ≤ capacity → trim_loop fuel capacity m ≡ m
  unfolding trim_loop
  trim_loop_done zero capacity m h = refl
  trim_loop_done (suc fuel) capacity m h =
      let small : ltb capacity (length m) ≡ false = ground arith in rw (trim_loop, small) refl

  pub trim_loop_zero : (capacity : ℕ) (m : Entries E F T) → trim_loop 0 capacity m ≡ m
  unfolding trim_loop
  trim_loop_zero capacity m = refl

  -- With fuel for every entry the loop ends by its test.
  pub length-trim_loop :
      (fuel capacity : ℕ) (m : Entries E F T)
      → NodupKeys m
      → length m ≤ fuel
      → length (trim_loop fuel capacity m) ≤ capacity
  length-trim_loop zero capacity m n h =
      rw (trim_loop_done 0 capacity m (omega arith)) (omega arith)
  length-trim_loop (suc fuel) capacity m n h = elim (dec_le (length m) capacity) [
    | yes small ↦ rw (trim_loop_done (suc fuel) capacity m small) small
    | no big ↦
        let (k, used, e, round) = trim_loop_round fuel capacity m (omega arith) in
        let (c, found, at) = oldest-found m k used n e in
        rw round (
          length-trim_loop fuel capacity (remove k m) (remove-NodupKeys k m n)
            (omega (arith, length-remove k c m n found)))
  ]

  pub trim_loop-NodupKeys :
      (fuel capacity : ℕ) (m : Entries E F T) → NodupKeys m → NodupKeys (trim_loop fuel capacity m)
  trim_loop-NodupKeys zero capacity m n = unfold trim_loop in n
  trim_loop-NodupKeys (suc fuel) capacity m n = elim (dec_le (length m) capacity) [
    | yes small ↦ rw (trim_loop_done (suc fuel) capacity m small) n
    | no big ↦
        let (k, used, e, round) = trim_loop_round fuel capacity m (omega arith) in
        rw round (trim_loop-NodupKeys fuel capacity (remove k m) (remove-NodupKeys k m n))
  ]

  pub trim_loop-All :
      (P : Text × CachedPrepared E F T → Type 0) (fuel capacity : ℕ) (m : Entries E F T)
      → All P m
      → All P (trim_loop fuel capacity m)
  trim_loop-All P zero capacity m n = unfold trim_loop in n
  trim_loop-All P (suc fuel) capacity m n = elim (dec_le (length m) capacity) [
    | yes small ↦ rw (trim_loop_done (suc fuel) capacity m small) n
    | no big ↦
        let (k, used, e, round) = trim_loop_round fuel capacity m (omega arith) in
        rw round (trim_loop-All P fuel capacity (remove k m) (All-remove P k m n))
  ]
