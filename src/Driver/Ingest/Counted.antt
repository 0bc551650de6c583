-- ===== src/Driver/Ingest/Counted.antt =====
-- The counter is the sum of the reservations that are held.
use adbc_driver_monetdb.Prelude.{
  ℕ, ◌+◌, ◌^◌, ◌≤◌, ◌<◌, ◌≡◌, refl, ap, ◌∙◌, List, [], ◌∷◌, ◌++◌, arith,
}
use adbc_driver_monetdb.Driver.Ingest.Reservations.{
  Pool, ingest_memory_reservation_fits, allowed_bytes, reserve_round, reserved_bytes, release,
  PoolStep, ReachablePool, reserving, unlimited, dropping, started, stepped,
}

abbrev pub total : List ℕ → ℕ
total [] = 0
total (n ∷ ns) = n + total ns

total-append : (xs ys : List ℕ) → total (xs ++ ys) ≡ total xs + total ys
total-append [] ys = omega arith
total-append (x ∷ xs) ys = omega (arith, total-append xs ys)

abbrev pub IsCountedPool : Pool → Type 0
IsCountedPool pool = (pool.reserved ≡ total pool.held) × (pool.reserved < 2 ^ 64)

reserve_round-IsCounted :
    (limit current bytes seen : ℕ) (pool later : Pool)
    → IsCountedPool pool
    → reserve_round limit current bytes seen pool ≡ reserved_bytes later
    → IsCountedPool later × (current + later.reserved ≤ allowed_bytes limit)
unfolding reserve_round ingest_memory_reservation_fits
reserve_round-IsCounted limit current bytes seen pool later w h = ground (arith, w, h)

reserve_round-held :
    (limit current bytes seen : ℕ) (pool later : Pool)
    → reserve_round limit current bytes seen pool ≡ reserved_bytes later
    → later.held ≡ bytes ∷ pool.held
unfolding reserve_round
reserve_round-held limit current bytes seen pool later h = ground (arith, h)

release-IsCounted :
    (bytes : ℕ) (front back : List ℕ) (reserved : ℕ)
    → reserved ≡ total (front ++ bytes ∷ back)
    → reserved < 2 ^ 64
    → release bytes reserved ≡ total (front ++ back)
unfolding release
release-IsCounted bytes front back reserved e small =
    let a = total-append front (bytes ∷ back) in
    let b = total-append front back in ground (arith, a, b, e)

step-IsCounted :
    (pool later : Pool) → PoolStep pool later → IsCountedPool pool → IsCountedPool later
step-IsCounted _ _ (reserving limit current bytes seen pool later h) w =
    (reserve_round-IsCounted limit current bytes seen pool later w h).0
step-IsCounted _ _ (unlimited pool) (e, small) = (omega (arith, e), small)
step-IsCounted _ _ (dropping bytes front back pool h) (e, small) =
    let r = release-IsCounted bytes front back pool.reserved (e ∙ ap total h) small in
    let a = total-append front (bytes ∷ back) in
    let b = total-append front back in (r, omega (arith, r, a, b, e, ap total h))

reachable-IsCounted : (pool : Pool) → ReachablePool pool → IsCountedPool pool
reachable-IsCounted _ started = (refl, omega arith)
reachable-IsCounted later (stepped pool _ r s) =
    step-IsCounted pool later s (reachable-IsCounted pool r)

-- However the rounds of concurrent ingests and the drops of their reservations interleave, the counter
-- is the sum of the reservations that are held, without wrapping; and a round that has its reservation
-- leaves the memory in use and all reservations together within nine tenths of the limit.
pub reserve_ingest_memory-IsCounted :
    (limit current bytes seen : ℕ) (pool later : Pool)
    → ReachablePool pool
    → reserve_round limit current bytes seen pool ≡ reserved_bytes later
    → (pool.reserved ≡ total pool.held)
      × (later.reserved ≡ total later.held)
      × (later.held ≡ bytes ∷ pool.held)
      × (current + total later.held ≤ allowed_bytes limit)
reserve_ingest_memory-IsCounted limit current bytes seen pool later r h =
    let w = reachable-IsCounted pool r in
    let ((e, small), fits) = reserve_round-IsCounted limit current bytes seen pool later w h in
    (w.0, e, reserve_round-held limit current bytes seen pool later h, omega (arith, e, fits))
