-- ===== src/Driver/Parameters/Scanned.antt =====
-- `scan_query` ends, and its slots are in order.
use adbc_driver_monetdb.Prelude.{
  ℕ, zero, suc, ◌+◌, ◌-◌, ◌<◌, min, ◌≡◌, refl, ◌≢◌, inl, inr, Bool, Option, none, some, arith,
  Bool-cases, Option-cases, Bytes, length, get_elem?, Outcome, ok, err, panic,
}
use adbc_driver_monetdb.Driver.Metadata.Meaning.{get_elem?-lt}
use adbc_driver_monetdb.Driver.Parameters.Lexer.{ScanState, ScanError}
use adbc_driver_monetdb.Driver.Parameters.Scan.{
  scan_query, scan_round, scan_loop, QueryScan, initial_state, is_terminated, finish_scan,
}
use adbc_driver_monetdb.Driver.Parameters.Moves.{IsOrdered, IsOrdered-le}
use adbc_driver_monetdb.Driver.Parameters.Tiling.{scan_round-IsScanned}

-- What the loop gives: an answer, with the slots in order if it is a state.
abbrev IsAnswer : Bytes → Option (Outcome ScanError ScanState) → Type 0
IsAnswer bytes none = ⊥
IsAnswer bytes (some (ok s)) = IsOrdered 0 s.slots (length bytes)
IsAnswer bytes (some (err e)) = Unit
IsAnswer bytes (some panic) = Unit

scan_loop-IsAnswer :
    (fuel : ℕ) (is_alphanumeric : Bytes → Bool) (bytes : Bytes) (s : ScanState)
    → length bytes - s.index < fuel
    → IsOrdered 0 s.slots (min s.index (length bytes))
    → IsAnswer bytes (scan_loop fuel is_alphanumeric bytes s)
unfolding scan_loop
scan_loop-IsAnswer zero w bytes s h o = absurd (omega arith)
scan_loop-IsAnswer (suc fuel) w bytes s h o = elim (Option-cases (get_elem? bytes s.index)) [
  | inl e ↦ rw (scan_loop, e) (IsOrdered-le 0 _ (length bytes) s.slots o (omega arith))
  | inr (current, e) ↦
      rw (scan_loop, e)
        (go current (scan_round w bytes current s) refl (get_elem?-lt bytes s.index current e)
          (λ s' l o'. scan_loop-IsAnswer fuel w bytes s' l o'))
]
  where
    go :
        (current : ℕ) (r : Outcome ScanError ScanState)
        → scan_round w bytes current s ≡ r
        → s.index < length bytes
        → ((s' : ScanState)
            → length bytes - s'.index < fuel
            → IsOrdered 0 s'.slots (min s'.index (length bytes))
            → IsAnswer bytes (scan_loop fuel w bytes s'))
        → IsAnswer bytes (elim r [
          | ok s' ↦ scan_loop fuel w bytes s'
          | err x ↦ some (err x)
          | panic ↦ some panic
        ])
    go current (ok s') is l ih =
        let (on, o') = scan_round-IsScanned w bytes current s s' l o is in ih s' (omega arith) o'
    go current (err x) is l ih = tt
    go current panic is l ih = tt

finish_scan-slots :
    (bytes : Bytes) (s : ScanState) (scan : QueryScan)
    → finish_scan bytes s ≡ ok scan
    → IsOrdered 0 s.slots (length bytes)
    → IsOrdered 0 scan.slots (length bytes)
unfolding finish_scan
finish_scan-slots bytes s scan h o = elim (Bool-cases (is_terminated s.state)) [
  | inl e ↦
      let h' = rw (finish_scan, e) at h in
      let same : scan.slots ≡ s.slots = ground (arith, h') in rw same o
  | inr e ↦ absurd (let h' = rw (finish_scan, e) at h in cc)
]

-- The loop of `scan_query` has an answer for every query, valid UTF-8 or not: the length of the query
-- and one round more is fuel enough.
pub scan_loop-ends :
    (is_alphanumeric : Bytes → Bool) (bytes : Bytes)
    → scan_loop (length bytes + 1) is_alphanumeric bytes initial_state ≢ none
unfolding initial_state
scan_loop-ends w bytes h =
    let a =
      scan_loop-IsAnswer (length bytes + 1) w bytes initial_state (omega arith) (omega arith) in
    rw h at a

-- Where `scan_query` accepts a query, the parameter slots that it found follow one another without
-- overlap from the start of the query to its end, and each is within the query.
pub scan_query-IsOrdered :
    (is_alphanumeric : Bytes → Bool) (bytes : Bytes) (scan : QueryScan)
    → scan_query is_alphanumeric bytes ≡ ok scan
    → IsOrdered 0 scan.slots (length bytes)
unfolding scan_query initial_state
scan_query-IsOrdered w bytes scan h =
    go (scan_loop (length bytes + 1) w bytes initial_state) refl
      (scan_loop-IsAnswer (length bytes + 1) w bytes initial_state (omega arith) (omega arith))
  where
    go :
        (r : Option (Outcome ScanError ScanState))
        → scan_loop (length bytes + 1) w bytes initial_state ≡ r
        → IsAnswer bytes r
        → IsOrdered 0 scan.slots (length bytes)
    go none e a = absurd a
    go (some (err x)) e a = absurd (let h' = rw (scan_query, e) at h in cc)
    go (some panic) e a = absurd (let h' = rw (scan_query, e) at h in cc)
    go (some (ok s)) e a = finish_scan-slots bytes s scan (rw (scan_query, e) at h) a
