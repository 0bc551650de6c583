-- ===== src/Driver/Cache/State.antt =====
-- `PreparedCache`: what is known of each query text, the least recently used first to go. The values
-- behind an `Arc` (entries, fallbacks, templates) are types of their own; of an entry the cache reads
-- its id only. An operation returns its result and the new state.
use adbc_driver_monetdb.Prelude.{
  ℕ, zero, suc, Bool, true, false, ◌||◌, Option, none, some, List, [], ◌∷◌, ltb, leb, ◌==◌,
  if◌then◌else◌, saturating_add, length, Outcome, ok, panic,
}
use adbc_driver_monetdb.Driver.Text.{Text, is_whitespace, trim_end_by, trim}
use adbc_driver_monetdb.Driver.Cache.Map.{find, insert, remove}

pub data PrepareOutcome (E F T : Type 0) : Type 0 where
  prepared : E → PrepareOutcome E F T
  literal : F → PrepareOutcome E F T
  deferred : T → ℕ → PrepareOutcome E F T

pub data PrepareRequest : Type 0 where
  declare execute force : PrepareRequest

pub data PrepareDecision (E F T : Type 0) : Type 0 where
  outcome_is : PrepareOutcome E F T → Bool → PrepareDecision E F T
  prepare : PrepareDecision E F T

pub record CachedPrepared (E F T : Type 0) : Type 0 where
  pub outcome : PrepareOutcome E F T
  pub last_used : ℕ

abbrev pub Entries : Type 0 → Type 0 → Type 0 → Type 0
Entries E F T = List (Text × CachedPrepared E F T)

pub record PreparedCache (E F T : Type 0) : Type 0 where
  pub capacity : ℕ
  pub entries : Entries E F T
  pub use_counter : ℕ

-- `query.trim().trim_end_matches(';').trim_end()`
unfoldable pub normalize_prepared_query : Text → Text
unfolding is_whitespace
normalize_prepared_query query =
    trim_end_by is_whitespace (trim_end_by (λ c. c == b';') (trim query))

module _ {E F T : Type 0} where
  -- `min_by_key(|(_, cached)| cached.last_used)`: the key and its count. Two entries share a count
  -- only when the counter is saturated; the hash map then yields one of them, here it is the first.
  unfoldable pub oldest : Entries E F T → Option (Text × ℕ)
  oldest [] = none
  oldest ((k, cached) ∷ entries) = elim (oldest entries) [
    | none ↦ some (k, cached.last_used)
    | some (j, used) ↦
        if leb cached.last_used used then some (k, cached.last_used) else some (j, used)
  ]

  -- The `while` of `trim`, with fuel; each round removes an entry.
  unfoldable pub trim_loop : ℕ → ℕ → Entries E F T → Entries E F T
  trim_loop zero capacity entries = entries
  trim_loop (suc fuel) capacity entries = elim (ltb capacity (length entries)) [
    | false ↦ entries
    | true ↦ elim (oldest entries) [
      | none ↦ entries
      | some (k, used) ↦ trim_loop fuel capacity (remove k entries)
    ]
  ]

  -- As many rounds as there are entries.
  unfoldable pub trim_cache : PreparedCache E F T → PreparedCache E F T
  trim_cache c = record c { entries = trim_loop (length c.entries) c.capacity c.entries }

  -- `saturating_add` on `u64`.
  unfoldable pub next_use : PreparedCache E F T → PreparedCache E F T
  next_use c = record c { use_counter = saturating_add c.use_counter 1 }

  -- A positive capacity is asserted.
  unfoldable pub new_cache {ℓ} : {X : Type ℓ} → ℕ → Outcome X (PreparedCache E F T)
  new_cache capacity =
      if ltb 0 capacity
      then ok (record { capacity = capacity; entries = []; use_counter = 0 })
      else panic

  unfoldable pub set_capacity {ℓ} :
      {X : Type ℓ} → ℕ → PreparedCache E F T → Outcome X (PreparedCache E F T)
  set_capacity capacity c =
      if ltb 0 capacity then ok (trim_cache (record c { capacity = capacity })) else panic

  unfoldable pub clear : PreparedCache E F T → PreparedCache E F T
  clear c = record c { entries = [] }

  -- `entries.insert(query, CachedPrepared { outcome, last_used })` and `trim`.
  unfoldable pub store : Text → PrepareOutcome E F T → PreparedCache E F T → PreparedCache E F T
  store k outcome c = trim_cache (record c {
    entries = insert k (record { outcome = outcome; last_used = c.use_counter }) c.entries;
  })

  -- `cached.last_used = last_used` on an entry that is there.
  unfoldable pub touch : Text → PrepareOutcome E F T → PreparedCache E F T → PreparedCache E F T
  touch k outcome c = record c {
    entries = insert k (record { outcome = outcome; last_used = c.use_counter }) c.entries;
  }

  unfoldable pub get_outcome :
      Text → PreparedCache E F T → Option (PrepareOutcome E F T) × PreparedCache E F T
  get_outcome query c =
      let k = normalize_prepared_query query in
      let c' = next_use c in
      elim (find k c'.entries) [
        | none ↦ (none, c')
        | some cached ↦ (some cached.outcome, touch k cached.outcome c')
      ]

  -- The statement that is prepared, if that is the outcome.
  abbrev pub entry_of : Option (PrepareOutcome E F T) → Option E
  entry_of (some (prepared e)) = some e
  entry_of (some (literal f)) = none
  entry_of (some (deferred t n)) = none
  entry_of none = none

  unfoldable pub get : Text → PreparedCache E F T → Option E × PreparedCache E F T
  get query c = let (outcome, c') = get_outcome query c in (entry_of outcome, c')

  -- A deferred query: the executions are counted, and at the threshold the entry makes room.
  unfoldable pub decide_deferred :
      Text
      → T
      → ℕ
      → ℕ
      → PrepareRequest
      → PreparedCache E F T
      → PrepareDecision E F T × PreparedCache E F T
  decide_deferred k template executions threshold declare c =
      (outcome_is (deferred template executions) true, touch k (deferred template executions) c)
  decide_deferred k template executions threshold execute c =
      let count = saturating_add executions 1 in
      if threshold == 0 || ltb count threshold
      then (outcome_is (deferred template count) true, touch k (deferred template count) c)
      else (prepare, record c { entries = remove k c.entries })
  decide_deferred k template executions threshold force c =
      (prepare, record c { entries = remove k c.entries })

  unfoldable pub decide_cached :
      Text
      → PrepareOutcome E F T
      → ℕ
      → PrepareRequest
      → PreparedCache E F T
      → PrepareDecision E F T × PreparedCache E F T
  decide_cached k (prepared e) threshold request c =
      (outcome_is (prepared e) true, touch k (prepared e) c)
  decide_cached k (literal f) threshold request c =
      (outcome_is (literal f) true, touch k (literal f) c)
  decide_cached k (deferred t n) threshold request c = decide_deferred k t n threshold request c

  -- A query that the cache does not know: it is deferred, unless a statement is wanted at once.
  unfoldable pub decide_absent :
      Text
      → T
      → ℕ
      → PrepareRequest
      → PreparedCache E F T
      → PrepareDecision E F T × PreparedCache E F T
  decide_absent k template threshold declare c =
      if threshold == 1
      then (prepare, c)
      else (outcome_is (deferred template 0) false, store k (deferred template 0) c)
  decide_absent k template threshold execute c =
      if threshold == 1
      then (prepare, c)
      else (outcome_is (deferred template 1) false, store k (deferred template 1) c)
  decide_absent k template threshold force c = (prepare, c)

  unfoldable pub prepare_decision :
      Text
      → T
      → ℕ
      → PrepareRequest
      → PreparedCache E F T
      → PrepareDecision E F T × PreparedCache E F T
  prepare_decision query template threshold request c =
      let k = normalize_prepared_query query in
      let c' = next_use c in
      elim (find k c'.entries) [
        | some cached ↦ decide_cached k cached.outcome threshold request c'
        | none ↦ decide_absent k template threshold request c'
      ]

  -- The name is `insert` in the source: an entry that is there is kept.
  unfoldable pub insert_prepared : Text → E → PreparedCache E F T → E × PreparedCache E F T
  insert_prepared query candidate c =
      let k = normalize_prepared_query query in
      let (existing, c') = get_outcome k c in
      elim (entry_of existing) [
        | some e ↦ (e, c')
        | none ↦ (candidate, store k (prepared candidate) (next_use c'))
      ]

  -- Anything but a deferral.
  abbrev pub settled : Option (PrepareOutcome E F T) → Option (PrepareOutcome E F T)
  settled (some (prepared e)) = some (prepared e)
  settled (some (literal f)) = some (literal f)
  settled (some (deferred t n)) = none
  settled none = none

  unfoldable pub insert_literal :
      Text → F → PreparedCache E F T → PrepareOutcome E F T × PreparedCache E F T
  insert_literal query candidate c =
      let k = normalize_prepared_query query in
      let (existing, c') = get_outcome k c in
      elim (settled existing) [
        | some outcome ↦ (outcome, c')
        | none ↦ (literal candidate, store k (literal candidate) (next_use c'))
      ]

  -- What `replace_prepared_with_literal` returns without a change: a literal that is there, or the
  -- candidate where another statement took the entry's place.
  abbrev pub kept_literal : (E → ℕ) → ℕ → F → Option (CachedPrepared E F T) → Option F
  kept_literal id_of id candidate none = none
  kept_literal id_of id candidate (some cached) = elim cached.outcome [
    | prepared e ↦ if id_of e == id then none else some candidate
    | literal f ↦ some f
    | deferred t n ↦ none
  ]

  unfoldable pub replace_prepared_with_literal :
      (E → ℕ) → Text → ℕ → F → PreparedCache E F T → F × PreparedCache E F T
  replace_prepared_with_literal id_of query id candidate c =
      let k = normalize_prepared_query query in
      elim (kept_literal id_of id candidate (find k c.entries)) [
        | some f ↦ (f, c)
        | none ↦ (candidate, store k (literal candidate) (next_use c))
      ]

  abbrev pub is_prepared_as : (E → ℕ) → ℕ → Option (CachedPrepared E F T) → Bool
  is_prepared_as id_of id none = false
  is_prepared_as id_of id (some cached) = elim cached.outcome [
    | prepared e ↦ id_of e == id
    | literal f ↦ false
    | deferred t n ↦ false
  ]

  unfoldable pub remove_if_id : (E → ℕ) → Text → ℕ → PreparedCache E F T → PreparedCache E F T
  remove_if_id id_of query id c =
      let k = normalize_prepared_query query in
      if is_prepared_as id_of id (find k c.entries)
      then record c { entries = remove k c.entries }
      else c
