-- ===== src/Driver/Cache/Threshold.antt =====
-- The executions of a query text up to the one that prepares it: `prepare_decision` with `Execute`.
use adbc_driver_monetdb.Prelude.{
  ℕ, zero, suc, ◌+◌, ◌^◌, ◌<◌, ◌≡◌, refl, ◌≢◌, ◌⊎◌, inl, inr, true, false, ◌||◌, none, some, arith,
  ltb, ◌==◌, if◌then◌else◌, Bool-cases, Option-cases, saturating_add,
}
use adbc_driver_monetdb.Driver.Text.{Text, text_eq_iff}
use adbc_driver_monetdb.Driver.Cache.Map.{find, find-insert_same, find-remove}
use adbc_driver_monetdb.Driver.Cache.State.{
  PreparedCache, PrepareDecision, CachedPrepared, normalize_prepared_query, next_use, touch,
  decide_deferred, decide_cached, decide_absent, prepare_decision, deferred, execute, outcome_is,
  prepare, PrepareOutcome, trim_cache, store, prepared, literal,
}
use adbc_driver_monetdb.Driver.Cache.Stored.{find-store}
use adbc_driver_monetdb.Driver.Cache.Invariant.{WfCache}

module _ {E F T : Type 0} (query : Text) (template : T) (threshold : ℕ) where
  abbrev decision : PreparedCache E F T → PrepareDecision E F T × PreparedCache E F T
  decision c = prepare_decision query template threshold execute c

  -- The cache after so many executions.
  abbrev pub executes : ℕ → PreparedCache E F T → PreparedCache E F T
  executes zero c = c
  executes (suc n) c = (decision (executes n c)).1

  -- After `n` executions the query is known and they are counted.
  abbrev IsCounted : ℕ → PreparedCache E F T → Type 0
  IsCounted n c =
      (was : CachedPrepared E F T) × (find (normalize_prepared_query query) c.entries ≡ some was)
      × (was.outcome ≡ deferred template n)

  decide_absent-use_counter :
      (k : Text) (c : PreparedCache E F T)
      → (decide_absent k template threshold execute c).1.use_counter ≡ c.use_counter
  unfolding decide_absent store trim_cache
  decide_absent-use_counter k c = elim (Bool-cases (threshold == 1)) [
    | inl e ↦ rw (decide_absent, e) refl
    | inr e ↦ rw (decide_absent, e) refl
  ]

  decide_cached-use_counter :
      (k : Text) (o : PrepareOutcome E F T) (c : PreparedCache E F T)
      → (decide_cached k o threshold execute c).1.use_counter ≡ c.use_counter
  unfolding decide_cached decide_deferred touch
  decide_cached-use_counter k (prepared e) c = refl
  decide_cached-use_counter k (literal f) c = refl
  decide_cached-use_counter k (deferred t n) c =
      elim (Bool-cases (threshold == 0 || ltb (saturating_add n 1) threshold)) [
        | inl e ↦ rw (decide_cached, decide_deferred, e) refl
        | inr e ↦ rw (decide_cached, decide_deferred, e) refl
      ]

  prepare_decision-use_counter :
      (c : PreparedCache E F T) → (decision c).1.use_counter ≡ saturating_add c.use_counter 1
  unfolding prepare_decision next_use
  prepare_decision-use_counter c =
      let k = normalize_prepared_query query in
      elim (Option-cases (find k c.entries)) [
        | inl e ↦ rw (prepare_decision, next_use, e) (decide_absent-use_counter k (next_use c))
        | inr (was, e) ↦
            rw (prepare_decision, next_use, e)
              (decide_cached-use_counter k was.outcome (next_use c))
      ]

  first-IsCounted :
      (c : PreparedCache E F T)
      → WfCache c
      → c.use_counter + 1 < 2 ^ 64
      → find (normalize_prepared_query query) c.entries ≡ none
      → threshold ≢ 1
      → ((decision c).0 ≡ outcome_is (deferred template 1) false) × IsCounted 1 (decision c).1
  unfolding prepare_decision decide_absent next_use
  first-IsCounted c w room absent many =
      let not_one : (threshold == 1) ≡ false = ground arith in
      (
        rw (prepare_decision, next_use, absent, decide_absent, not_one) refl,
        (
          record { outcome = deferred template 1; last_used = (next_use c).use_counter },
          rw (prepare_decision, next_use, absent, decide_absent, not_one)
              (find-store (normalize_prepared_query query) (deferred template 1) c w room),
          refl,
        ),
      )

  first_prepared :
      (c : PreparedCache E F T)
      → threshold ≡ 1
      → find (normalize_prepared_query query) c.entries ≡ none
      → ((decision c).0 ≡ prepare)
        × (find (normalize_prepared_query query) (decision c).1.entries ≡ none)
  unfolding prepare_decision decide_absent next_use
  first_prepared c one absent = (
    rw (prepare_decision, next_use, absent, decide_absent, one) refl,
    rw (prepare_decision, next_use, absent, decide_absent, one) absent,
  )

  next-IsCounted :
      (n : ℕ) (c : PreparedCache E F T)
      → n + 1 < threshold
      → threshold < 2 ^ 64
      → IsCounted n c
      → ((decision c).0 ≡ outcome_is (deferred template (suc n)) true)
        × IsCounted (suc n) (decision c).1
  unfolding prepare_decision decide_cached decide_deferred next_use touch
  next-IsCounted n c below small (was, found, counted) =
      let count : saturating_add n 1 ≡ suc n = omega arith in
      let test : (threshold == 0 || ltb (suc n) threshold) ≡ true = ground arith in
      (
        rw (prepare_decision, next_use, found, decide_cached, counted, decide_deferred, count, test)
            refl,
        (
          record { outcome = deferred template (suc n); last_used = (next_use c).use_counter },
          rw
              (
                prepare_decision, next_use, found, decide_cached, counted, decide_deferred, count,
                test, touch,
              )
              (find-insert_same (normalize_prepared_query query) _ c.entries),
          refl,
        ),
      )

  last_counted :
      (n : ℕ) (c : PreparedCache E F T)
      → suc n ≡ threshold
      → threshold < 2 ^ 64
      → IsCounted n c
      → ((decision c).0 ≡ prepare)
        × (find (normalize_prepared_query query) (decision c).1.entries ≡ none)
  unfolding prepare_decision decide_cached decide_deferred next_use
  last_counted n c at small (was, found, counted) =
      let count : saturating_add n 1 ≡ suc n = omega arith in
      let test : (threshold == 0 || ltb (suc n) threshold) ≡ false = ground arith in
      let k = normalize_prepared_query query in
      (
        rw (prepare_decision, next_use, found, decide_cached, counted, decide_deferred, count, test)
            refl,
        rw (prepare_decision, next_use, found, decide_cached, counted, decide_deferred, count, test)
            (ground (arith, text_eq_iff k k, find-remove k k c.entries)),
      )

  -- The state after the first executions, as long as they stay below the threshold.
  executes-IsCounted :
      (n : ℕ) (c : PreparedCache E F T)
      → WfCache c
      → c.use_counter + n + 1 < 2 ^ 64
      → find (normalize_prepared_query query) c.entries ≡ none
      → n + 1 < threshold
      → threshold < 2 ^ 64
      → IsCounted (suc n) (executes (suc n) c)
  executes-IsCounted zero c w room absent below small =
      (first-IsCounted c w (omega arith) absent (λ e. omega arith)).1
  executes-IsCounted (suc n) c w room absent below small =
      (next-IsCounted (suc n) (executes (suc n) c) (omega arith) small
        (executes-IsCounted n c w (omega arith) absent (omega arith) small)).1

  -- For a positive threshold and a query text that the cache does not know, the execution after `n`
  -- others, `n` below the threshold, is deferred with the count `n + 1` where that is below the
  -- threshold, and flagged as a cache hit unless it is the first; the execution that reaches the
  -- threshold prepares, and the text then has no entry. The cache is well-formed, and its use counter
  -- and the threshold stay below 2 ^ 64.
  pub execute_until_threshold :
      (n : ℕ) (c : PreparedCache E F T)
      → WfCache c
      → c.use_counter + n + 1 < 2 ^ 64
      → find (normalize_prepared_query query) c.entries ≡ none
      → n < threshold
      → threshold < 2 ^ 64
      → ((prepare_decision query template threshold execute (executes n c)).0 ≡ (
          if ltb (suc n) threshold
          then outcome_is (deferred template (suc n)) (ltb 0 n)
          else prepare))
        × ((suc n < threshold)
            ⊎ (find
                  (normalize_prepared_query query)
                  (prepare_decision query template threshold execute (executes n c)).1.entries
                ≡ none))
  execute_until_threshold zero c w room absent below small = elim (Bool-cases (ltb 1 threshold)) [
    | inl more ↦
        let many : threshold ≢ 1 = λ e. ground (arith, e) in
        let (now, later) = first-IsCounted c w (omega arith) absent many in
        (rw more now, inl (ground arith))
    | inr one ↦ let (now, gone) = first_prepared c (ground arith) absent in (rw one now, inr gone)
  ]
  execute_until_threshold (suc n) c w room absent below small =
      let counted = executes-IsCounted n c w (omega arith) absent (omega arith) small in
      let hit : ltb 0 (suc n) ≡ true = ground arith in
      elim (Bool-cases (ltb (suc (suc n)) threshold)) [
        | inl more ↦
            let lt : suc (suc n) < threshold = ground arith in
            let (now, later) = next-IsCounted (suc n) _ (omega arith) small counted in
            (rw (more, hit) now, inl lt)
        | inr one ↦
            let (now, gone) = last_counted (suc n) _ (ground arith) small counted in
            (rw one now, inr gone)
      ]
