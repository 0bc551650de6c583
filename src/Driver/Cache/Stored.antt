-- ===== src/Driver/Cache/Stored.antt =====
-- What an operation of `PreparedCache` stores, a later one finds.
use adbc_driver_monetdb.Prelude.{
  ℕ, ◌+◌, ◌^◌, ◌≤◌, ◌<◌, ◌≡◌, refl, ap, ◌∙◌, inl, inr, Option, none, some, [], ◌∷◌, arith,
  Option-cases, saturating_add, All,
}
use adbc_driver_monetdb.Driver.Text.{Text}
use adbc_driver_monetdb.Driver.Cache.Map.{find, insert-NodupKeys, All-insert, find-insert_same}
use adbc_driver_monetdb.Driver.Cache.State.{
  PreparedCache, PrepareOutcome, CachedPrepared, Entries, normalize_prepared_query, trim_cache,
  next_use, store, get_outcome, entry_of, get, touch, insert_prepared, prepared, literal, deferred,
}
use adbc_driver_monetdb.Driver.Cache.Newest.{newest_kept, IsEarlier}
use adbc_driver_monetdb.Driver.Cache.Invariant.{WfCache, get_outcome-WfCache}

-- A query text that `normalize_prepared_query` leaves as it is once it is normalized.
abbrev pub IsSettled : Text → Type 0
IsSettled query =
    normalize_prepared_query (normalize_prepared_query query) ≡ normalize_prepared_query query

module _ {E F T : Type 0} where
  All-IsEarlier :
      (k : Text) (x y : ℕ) (m : Entries E F T)
      → x < y
      → All (λ e. e.1.last_used ≤ x) m
      → All (IsEarlier k y) m
  All-IsEarlier k x y [] h hm = tt
  All-IsEarlier k x y (e ∷ m) h (he, hm) = (inr (omega arith), All-IsEarlier k x y m h hm)

  -- The entry that is stored with a new count is there after `trim`.
  pub find-store :
      (k : Text) (o : PrepareOutcome E F T) (c : PreparedCache E F T)
      → WfCache c
      → c.use_counter + 1 < 2 ^ 64
      → find k (store k o (next_use c)).entries
        ≡ some (record { outcome = o; last_used = (next_use c).use_counter })
  unfolding store trim_cache next_use
  find-store k o c (p, l, n, a, u) room =
      newest_kept k _ _ c.capacity _ p (insert-NodupKeys k _ c.entries n)
        (All-insert _ k _ c.entries (inl refl)
          (All-IsEarlier k c.use_counter _ c.entries (omega arith) a))
        (find-insert_same k _ c.entries)

  get_found :
      (query : Text) (was : CachedPrepared E F T) (c : PreparedCache E F T)
      → find (normalize_prepared_query query) c.entries ≡ some was
      → (get query c).0 ≡ entry_of (some was.outcome)
  unfolding get get_outcome next_use
  get_found query was c h = rw (get, get_outcome, next_use, h) refl

  get_outcome-use_counter :
      (query : Text) (c : PreparedCache E F T)
      → (get_outcome query c).1.use_counter ≡ saturating_add c.use_counter 1
  unfolding get_outcome next_use touch
  get_outcome-use_counter query c =
      elim (Option-cases (find (normalize_prepared_query query) c.entries)) [
        | inl e ↦ rw (get_outcome, next_use, e) refl
        | inr (was, e) ↦ rw (get_outcome, next_use, e) refl
      ]

  get_outcome_again :
      (query : Text) (o : PrepareOutcome E F T) (c : PreparedCache E F T)
      → (get_outcome query c).0 ≡ some o
      → (was : CachedPrepared E F T) × (find
            (normalize_prepared_query query)
            (get_outcome query c).1.entries
          ≡ some was)
        × (was.outcome ≡ o)
  unfolding get_outcome next_use touch
  get_outcome_again query o c h =
      elim (Option-cases (find (normalize_prepared_query query) c.entries)) [
        | inl e ↦ absurd (let h' = rw (get_outcome, next_use, e) at h in cc)
        | inr (was, e) ↦
            let k = normalize_prepared_query query in
            let h' : some was.outcome ≡ some o = rw (get_outcome, next_use, e) at h in
            (
              record { outcome = was.outcome; last_used = (next_use c).use_counter },
              rw (get_outcome, next_use, e) (find-insert_same k _ c.entries),
              ground arith,
            )
      ]

  entry_of-prepared :
      (o : Option (PrepareOutcome E F T)) (x : E) → entry_of o ≡ some x → o ≡ some (prepared x)
  entry_of-prepared none x h = cc
  entry_of-prepared (some (prepared y)) x h = cc
  entry_of-prepared (some (literal f)) x h = cc
  entry_of-prepared (some (deferred t n)) x h = cc

  -- Where the text of a query is settled by one normalization and the use counter is two below its
  -- end, the statement that `insert` returns is the statement that `get` then finds: the one that
  -- was there before, or else the new one, which `trim` does not drop.
  pub insert_prepared-get :
      (query : Text) (x : E) (c : PreparedCache E F T)
      → WfCache c
      → IsSettled query
      → c.use_counter + 2 < 2 ^ 64
      → (get query (insert_prepared query x c).1).0 ≡ some (insert_prepared query x c).0
  unfolding insert_prepared
  insert_prepared-get query x c w settled_text room =
      let k = normalize_prepared_query query in
      let c' = (get_outcome k c).1 in
      elim (Option-cases (entry_of (get_outcome k c).0)) [
        | inl e ↦
            let w' = get_outcome-WfCache k c w in
            let count = get_outcome-use_counter k c in
            rw (insert_prepared, e)
              (get_found query _ _ (find-store k (prepared x) c' w' (omega arith)))
        | inr (y, e) ↦
            let (was, found, is_y) = get_outcome_again k (prepared y) c (entry_of-prepared _ y e) in
            let found_at_k : find k c'.entries ≡ some was = rw settled_text at found in
            rw (insert_prepared, e)
              (get_found query was c' found_at_k ∙ ap (λ o. entry_of (some o)) is_y)
      ]
