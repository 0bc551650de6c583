-- ===== src/Driver/Cache/Reachable.antt =====
-- The operations of `PreparedCache` as steps between states, and the states that they reach.
use adbc_driver_monetdb.Prelude.{ℕ, ◌≡◌, sym, inl, inr, [], arith, ltb, ltb→lt, Bool-cases, ok}
use adbc_driver_monetdb.Driver.Text.{Text}
use adbc_driver_monetdb.Driver.Cache.State.{
  PreparedCache, PrepareRequest, new_cache, set_capacity, clear, get_outcome, prepare_decision,
  insert_prepared, insert_literal, replace_prepared_with_literal, remove_if_id,
}
use adbc_driver_monetdb.Driver.Cache.Invariant.{
  WfCache, get_outcome-WfCache, prepare_decision-WfCache, insert_prepared-WfCache,
  insert_literal-WfCache, replace-WfCache, remove_if_id-WfCache, set_capacity-WfCache,
}

-- One call on a shared cache; `id_of` reads the identifier of a prepared entry.
pub data CacheStep {E F T : Type 0} (id_of : E → ℕ)
    : PreparedCache E F T → PreparedCache E F T → Type 0 where
  getting : (query : Text) (c : PreparedCache E F T) → CacheStep id_of c (get_outcome query c).1
  deciding :
      (query : Text) (t : T) (threshold : ℕ) (request : PrepareRequest) (c : PreparedCache E F T)
      → CacheStep id_of c (prepare_decision query t threshold request c).1
  inserting :
      (query : Text) (x : E) (c : PreparedCache E F T)
      → CacheStep id_of c (insert_prepared query x c).1
  inserting_literal :
      (query : Text) (f : F) (c : PreparedCache E F T)
      → CacheStep id_of c (insert_literal query f c).1
  replacing :
      (query : Text) (id : ℕ) (f : F) (c : PreparedCache E F T)
      → CacheStep id_of c (replace_prepared_with_literal id_of query id f c).1
  removing :
      (query : Text) (id : ℕ) (c : PreparedCache E F T)
      → CacheStep id_of c (remove_if_id id_of query id c)
  clearing : (c : PreparedCache E F T) → CacheStep id_of c (clear c)
  resizing :
      (capacity : ℕ) (c d : PreparedCache E F T)
      → set_capacity {X = Text} capacity c ≡ ok d
      → CacheStep id_of c d

-- The states of a cache that was made with a capacity.
pub data Reachable {E F T : Type 0} (id_of : E → ℕ) : PreparedCache E F T → Type 0 where
  made :
      (capacity : ℕ) (c : PreparedCache E F T)
      → new_cache {X = Text} capacity ≡ ok c
      → Reachable id_of c
  after : (c d : PreparedCache E F T) → Reachable id_of c → CacheStep id_of c d → Reachable id_of d

module _ {E F T : Type 0} (id_of : E → ℕ) where
  step-WfCache : (c d : PreparedCache E F T) → CacheStep id_of c d → WfCache c → WfCache d
  step-WfCache _ _ (getting query c) w = get_outcome-WfCache query c w
  step-WfCache _ _ (deciding query t n r c) w = prepare_decision-WfCache query t n r c w
  step-WfCache _ _ (inserting query x c) w = insert_prepared-WfCache query x c w
  step-WfCache _ _ (inserting_literal query f c) w = insert_literal-WfCache query f c w
  step-WfCache _ _ (replacing query id f c) w = replace-WfCache id_of query id f c w
  step-WfCache _ _ (removing query id c) w = remove_if_id-WfCache id_of query id c w
  step-WfCache _ _ (clearing c) (p, l, n, a, u) = unfold clear in (p, omega arith, tt, tt, u)
  step-WfCache _ _ (resizing capacity c d h) w = set_capacity-WfCache capacity c d w h

  made-WfCache :
      (capacity : ℕ) (c : PreparedCache E F T) → new_cache {X = Text} capacity ≡ ok c → WfCache c
  unfolding new_cache
  made-WfCache capacity c h = elim (Bool-cases (ltb 0 capacity)) [
    | inl e ↦
        let made_cache : PreparedCache E F T = record {
          capacity = capacity;
          entries = [];
          use_counter = 0;
        } in
        let same : made_cache ≡ c = ground (arith, e) in
        let w : WfCache made_cache = (ltb→lt 0 capacity e, omega arith, tt, tt, omega arith) in
        rw (sym same) w
    | inr e ↦ ground (arith, e)
  ]

  -- In every state that calls of the cache's operations reach, whatever their order: the capacity is
  -- positive, no more entries than the capacity are held, no query text has two entries, no entry is
  -- marked as used later than the counter says, and the counter fits 64 bits.
  pub Reachable-WfCache : (c : PreparedCache E F T) → Reachable id_of c → WfCache c
  Reachable-WfCache c (made capacity _ h) = made-WfCache capacity c h
  Reachable-WfCache c (after b _ r s) = step-WfCache b c s (Reachable-WfCache b r)
