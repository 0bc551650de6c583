-- ===== src/Driver/Cache/Invariant.antt =====
-- The invariant of `PreparedCache` over every sequence of its operations.
use adbc_driver_monetdb.Prelude.{
  ℕ, ◌≤◌, ◌<◌, ◌≡◌, inl, inr, ◌||◌, some, [], ◌∷◌, arith, ltb, ◌==◌, ltb→lt, Bool-cases,
  Option-cases, IsUsize, saturating_add, All, length, ok,
}
use adbc_driver_monetdb.Driver.Text.{Text}
use adbc_driver_monetdb.Driver.Cache.Map.{
  find, remove, NodupKeys, insert-NodupKeys, remove-NodupKeys, length-insert_found,
  length-remove-le, All-insert, All-remove,
}
use adbc_driver_monetdb.Driver.Cache.State.{
  PreparedCache, PrepareOutcome, CachedPrepared, Entries, trim_cache, next_use, store, touch,
  PrepareRequest, normalize_prepared_query, set_capacity, get_outcome, entry_of, decide_deferred,
  decide_cached, decide_absent, prepare_decision, insert_prepared, settled, insert_literal,
  kept_literal, replace_prepared_with_literal, is_prepared_as, remove_if_id, prepared, literal,
  deferred, declare, execute, force,
}
use adbc_driver_monetdb.Driver.Cache.Trim.{length-trim_loop, trim_loop-NodupKeys, trim_loop-All}

module _ {E F T : Type 0} where
  abbrev pub WfCache : PreparedCache E F T → Type 0
  WfCache c =
      (0 < c.capacity)
      × (length c.entries ≤ c.capacity)
      × NodupKeys c.entries
      × All (λ e. e.1.last_used ≤ c.use_counter) c.entries
      × IsUsize c.use_counter

  All-later :
      (m : Entries E F T) (x y : ℕ)
      → x ≤ y
      → All (λ e. e.1.last_used ≤ x) m
      → All (λ e. e.1.last_used ≤ y) m
  All-later [] x y h hm = tt
  All-later (e ∷ m) x y h (he, hm) = (omega arith, All-later m x y h hm)

  next_use-WfCache : (c : PreparedCache E F T) → WfCache c → WfCache (next_use c)
  unfolding next_use
  next_use-WfCache c (p, l, n, a, u) =
      (p, l, n, All-later c.entries _ _ (omega arith) a, omega arith)

  -- Without the bound on the length, `trim` gives the whole.
  trim_cache-WfCache :
      (c : PreparedCache E F T)
      → 0 < c.capacity
      → NodupKeys c.entries
      → All (λ e. e.1.last_used ≤ c.use_counter) c.entries
      → IsUsize c.use_counter
      → WfCache (trim_cache c)
  unfolding trim_cache
  trim_cache-WfCache c p n a u = (
    p,
    length-trim_loop (length c.entries) c.capacity c.entries n (omega arith),
    trim_loop-NodupKeys _ c.capacity c.entries n,
    trim_loop-All _ _ c.capacity c.entries a,
    u,
  )

  store-WfCache :
      (k : Text) (o : PrepareOutcome E F T) (c : PreparedCache E F T)
      → WfCache c
      → WfCache (store k o c)
  unfolding store
  store-WfCache k o c (p, l, n, a, u) =
      trim_cache-WfCache _ p (insert-NodupKeys k _ c.entries n)
        (All-insert _ k _ c.entries (omega arith) a) u

  touch-WfCache :
      (k : Text) (o : PrepareOutcome E F T) (was : CachedPrepared E F T) (c : PreparedCache E F T)
      → find k c.entries ≡ some was
      → WfCache c
      → WfCache (touch k o c)
  unfolding touch
  touch-WfCache k o was c found (p, l, n, a, u) = (
    p,
    omega (arith, length-insert_found k _ was c.entries found),
    insert-NodupKeys k _ c.entries n,
    All-insert _ k _ c.entries (omega arith) a,
    u,
  )

  forget-WfCache :
      (k : Text) (c : PreparedCache E F T)
      → WfCache c
      → WfCache (record c { entries = remove k c.entries })
  forget-WfCache k c (p, l, n, a, u) = (
    p,
    omega (arith, length-remove-le k c.entries),
    remove-NodupKeys k c.entries n,
    All-remove _ k c.entries a,
    u,
  )

  pub get_outcome-WfCache :
      (query : Text) (c : PreparedCache E F T) → WfCache c → WfCache (get_outcome query c).1
  unfolding get_outcome
  get_outcome-WfCache query c w =
      let w' = next_use-WfCache c w in
      elim (Option-cases (find (normalize_prepared_query query) (next_use c).entries)) [
        | inl e ↦ rw (get_outcome, e) w'
        | inr (was, e) ↦ rw (get_outcome, e) (touch-WfCache _ was.outcome was (next_use c) e w')
      ]

  decide_deferred-WfCache :
      (k : Text) (t : T) (n threshold : ℕ) (request : PrepareRequest) (was : CachedPrepared E F T)
      (c : PreparedCache E F T)
      → find k c.entries ≡ some was
      → WfCache c
      → WfCache (decide_deferred k t n threshold request c).1
  unfolding decide_deferred
  decide_deferred-WfCache k t n threshold declare was c e w = touch-WfCache k _ was c e w
  decide_deferred-WfCache k t n threshold execute was c e w =
      elim (Bool-cases (threshold == 0 || ltb (saturating_add n 1) threshold)) [
        | inl below ↦ rw below (touch-WfCache k _ was c e w)
        | inr reached ↦ rw reached (forget-WfCache k c w)
      ]
  decide_deferred-WfCache k t n threshold force was c e w = forget-WfCache k c w

  decide_cached-WfCache :
      (k : Text) (o : PrepareOutcome E F T) (threshold : ℕ) (request : PrepareRequest)
      (was : CachedPrepared E F T) (c : PreparedCache E F T)
      → find k c.entries ≡ some was
      → WfCache c
      → WfCache (decide_cached k o threshold request c).1
  unfolding decide_cached
  decide_cached-WfCache k (prepared x) threshold request was c e w = touch-WfCache k _ was c e w
  decide_cached-WfCache k (literal f) threshold request was c e w = touch-WfCache k _ was c e w
  decide_cached-WfCache k (deferred t n) threshold request was c e w =
      decide_deferred-WfCache k t n threshold request was c e w

  decide_absent-WfCache :
      (k : Text) (t : T) (threshold : ℕ) (request : PrepareRequest) (c : PreparedCache E F T)
      → WfCache c
      → WfCache (decide_absent k t threshold request c).1
  unfolding decide_absent
  decide_absent-WfCache k t threshold declare c w = elim (Bool-cases (threshold == 1)) [
    | inl e ↦ rw e w
    | inr e ↦ rw e (store-WfCache k _ c w)
  ]
  decide_absent-WfCache k t threshold execute c w = elim (Bool-cases (threshold == 1)) [
    | inl e ↦ rw e w
    | inr e ↦ rw e (store-WfCache k _ c w)
  ]
  decide_absent-WfCache k t threshold force c w = w

  pub prepare_decision-WfCache :
      (query : Text) (t : T) (threshold : ℕ) (request : PrepareRequest) (c : PreparedCache E F T)
      → WfCache c
      → WfCache (prepare_decision query t threshold request c).1
  unfolding prepare_decision
  prepare_decision-WfCache query t threshold request c w =
      let w' = next_use-WfCache c w in
      elim (Option-cases (find (normalize_prepared_query query) (next_use c).entries)) [
        | inl e ↦
            rw (prepare_decision, e) (decide_absent-WfCache _ t threshold request (next_use c) w')
        | inr (was, e) ↦
            rw (prepare_decision, e)
              (decide_cached-WfCache _ was.outcome threshold request was (next_use c) e w')
      ]

  pub insert_prepared-WfCache :
      (query : Text) (x : E) (c : PreparedCache E F T)
      → WfCache c
      → WfCache (insert_prepared query x c).1
  unfolding insert_prepared
  insert_prepared-WfCache query x c w =
      let k = normalize_prepared_query query in
      let w' = get_outcome-WfCache k c w in
      elim (Option-cases (entry_of (get_outcome k c).0)) [
        | inl e ↦ rw (insert_prepared, e) (store-WfCache k _ _ (next_use-WfCache _ w'))
        | inr (was, e) ↦ rw (insert_prepared, e) w'
      ]

  pub insert_literal-WfCache :
      (query : Text) (f : F) (c : PreparedCache E F T)
      → WfCache c
      → WfCache (insert_literal query f c).1
  unfolding insert_literal
  insert_literal-WfCache query f c w =
      let k = normalize_prepared_query query in
      let w' = get_outcome-WfCache k c w in
      elim (Option-cases (settled (get_outcome k c).0)) [
        | inl e ↦ rw (insert_literal, e) (store-WfCache k _ _ (next_use-WfCache _ w'))
        | inr (was, e) ↦ rw (insert_literal, e) w'
      ]

  pub replace-WfCache :
      (id_of : E → ℕ) (query : Text) (id : ℕ) (f : F) (c : PreparedCache E F T)
      → WfCache c
      → WfCache (replace_prepared_with_literal id_of query id f c).1
  unfolding replace_prepared_with_literal
  replace-WfCache id_of query id f c w =
      let k = normalize_prepared_query query in
      elim (Option-cases (kept_literal id_of id f (find k c.entries))) [
        | inl e ↦ rw (replace_prepared_with_literal, e) (store-WfCache k _ _ (next_use-WfCache _ w))
        | inr (was, e) ↦ rw (replace_prepared_with_literal, e) w
      ]

  pub remove_if_id-WfCache :
      (id_of : E → ℕ) (query : Text) (id : ℕ) (c : PreparedCache E F T)
      → WfCache c
      → WfCache (remove_if_id id_of query id c)
  unfolding remove_if_id
  remove_if_id-WfCache id_of query id c w =
      let k = normalize_prepared_query query in
      elim (Bool-cases (is_prepared_as id_of id (find k c.entries))) [
        | inl e ↦ rw e (forget-WfCache k c w)
        | inr e ↦ rw e w
      ]

  pub set_capacity-WfCache :
      (capacity : ℕ) (c d : PreparedCache E F T)
      → WfCache c
      → set_capacity {X = Text} capacity c ≡ ok d
      → WfCache d
  unfolding set_capacity
  set_capacity-WfCache capacity c d (p, l, n, a, u) h = elim (Bool-cases (ltb 0 capacity)) [
    | inl e ↦
        let w = trim_cache-WfCache (record c { capacity = capacity }) (ltb→lt 0 capacity e) n a u in
        let same : trim_cache (record c { capacity = capacity }) ≡ d = ground (arith, e) in
        rw same at w
    | inr e ↦ ground (arith, e)
  ]
