-- ===== src/Driver/Cache/Tests.antt =====
-- The cache at small capacities, and its theorems there. Entries, fallbacks and templates are numbers.
use adbc_driver_monetdb.Prelude.{
  ℕ, suc, ◌≤◌, ◌<◌, ◌≡◌, refl, ◌⊎◌, none, some, [], ◌∷◌, arith, ltb, if◌then◌else◌, codes, All,
  length,
}
use adbc_driver_monetdb.Driver.Text.{
  text_eq, is_whitespace, drop_while, trim_start, trim_end_by, trim,
}
use adbc_driver_monetdb.Driver.Cache.Map.{find, remove, NodupKeys}
use adbc_driver_monetdb.Driver.Cache.State.{
  PreparedCache, CachedPrepared, normalize_prepared_query, oldest, trim_loop, trim_cache, new_cache,
  get, prepare_decision, insert_prepared, prepared, deferred, execute, outcome_is, prepare,
}
use adbc_driver_monetdb.Driver.Cache.Invariant.{WfCache}
use adbc_driver_monetdb.Driver.Cache.Reachable.{
  Reachable-WfCache, Reachable, made, inserting, after,
}
use adbc_driver_monetdb.Driver.Cache.Newest.{trim_cache-drops_oldest}
use adbc_driver_monetdb.Driver.Cache.Stored.{insert_prepared-get, IsSettled}
use adbc_driver_monetdb.Driver.Cache.Threshold.{execute_until_threshold, executes}

abbrev Cache : Type 0
Cache = PreparedCache ℕ ℕ ℕ

abbrev one_entry : ℕ → ℕ → CachedPrepared ℕ ℕ ℕ
one_entry id used = record { outcome = prepared id; last_used = used }

abbrev empty_cache : Cache
empty_cache = record { capacity = 1; entries = []; use_counter = 0 }

-- Two entries in a cache for one.
abbrev full_cache : Cache
full_cache = record {
  capacity = 1;
  entries = (codes "a", one_entry 7 1) ∷ (codes "b", one_entry 8 2) ∷ [];
  use_counter = 2;
}

empty_cache-WfCache : WfCache empty_cache
empty_cache-WfCache = (omega arith, omega arith, tt, tt, omega arith)

normalizes : normalize_prepared_query (codes " select 1 ; ") ≡ codes "select 1"
unfolding normalize_prepared_query is_whitespace trim trim_start trim_end_by drop_while
normalizes = refl

-- A second normalization can go on.
normalizes_again : normalize_prepared_query (codes "a; ;") ≡ codes "a;"
unfolding normalize_prepared_query is_whitespace trim trim_start trim_end_by drop_while
normalizes_again = refl

empty_cache-Reachable : Reachable (λ id. id) empty_cache
unfolding new_cache
empty_cache-Reachable = made 1 empty_cache refl

abbrev after_insert : Cache
after_insert = (insert_prepared (codes "a") 7 empty_cache).1

Reachable-WfCache_example : WfCache after_insert
Reachable-WfCache_example =
    Reachable-WfCache (λ id. id) after_insert
      (after empty_cache after_insert empty_cache-Reachable (inserting (codes "a") 7 empty_cache))

a-IsSettled : IsSettled (codes "a")
unfolding normalize_prepared_query is_whitespace trim trim_start trim_end_by drop_while
a-IsSettled = refl

insert_prepared-get_example :
    (get (codes "a") (insert_prepared (codes "a") 7 empty_cache).1).0
    ≡ some (insert_prepared (codes "a") 7 empty_cache).0
insert_prepared-get_example =
    insert_prepared-get (codes "a") 7 empty_cache empty_cache-WfCache a-IsSettled (omega arith)

full_cache-NodupKeys : NodupKeys full_cache.entries
unfolding find text_eq
full_cache-NodupKeys = (refl, (refl, tt))

finds_a : find (codes "a") full_cache.entries ≡ some (one_entry 7 1)
unfolding find text_eq
finds_a = refl

drops_a : find (codes "a") (trim_cache full_cache).entries ≡ none
unfolding find text_eq trim_cache trim_loop oldest remove
drops_a = refl

trim_cache-drops_oldest_example :
    (length (trim_cache full_cache).entries ≡ 1)
    × ((find (codes "a") (trim_cache full_cache).entries ≡ find (codes "a") full_cache.entries)
        ⊎ ((find (codes "a") (trim_cache full_cache).entries ≡ none)
            × (was : CachedPrepared ℕ ℕ ℕ) × (find (codes "a") full_cache.entries ≡ some was)
            × All (λ e. was.last_used ≤ e.1.last_used) (trim_cache full_cache).entries))
trim_cache-drops_oldest_example =
    trim_cache-drops_oldest (codes "a") full_cache full_cache-NodupKeys

absent_at_first : find (normalize_prepared_query (codes "a")) empty_cache.entries ≡ none
unfolding find
absent_at_first = refl

execute_until_threshold_example :
    ((prepare_decision (codes "a") 5 3 execute (executes (codes "a") 5 3 2 empty_cache)).0
      ≡ (if ltb (suc 2) 3 then outcome_is (deferred 5 (suc 2)) (ltb 0 2) else prepare))
    × ((suc 2 < 3)
        ⊎ (find
              (normalize_prepared_query (codes "a"))
              (prepare_decision
                (codes "a")
                5
                3
                execute
                (executes (codes "a") 5 3 2 empty_cache)).1.entries
            ≡ none))
execute_until_threshold_example =
    execute_until_threshold (codes "a") 5 3 2 empty_cache empty_cache-WfCache (omega arith)
      absent_at_first (omega arith) (omega arith)
