-- ===== src/Driver/Ingest/Reservations.antt =====
-- `ingest_memory_reservation_bytes`, `ingest_memory_reservation_fits`, `reserve_ingest_memory` and the
-- `drop` of a reservation: threads that share one atomic counter.
use adbc_driver_monetdb.Prelude.{
  ℕ, ◌+◌, ◌-◌, ◌*◌, ◌/◌, ◌%◌, ◌^◌, ◌≡◌, Bool, false, none, some, List, [], ◌∷◌, ◌++◌, leb, ◌==◌,
  if◌then◌else◌, checked_add, saturating_add, saturating_mul,
}

abbrev pub encode_staging_bytes : ℕ
encode_staging_bytes = 16 * 1_024 * 1_024

abbrev pub ingest_reservation_source_bytes : ℕ
ingest_reservation_source_bytes = 64 * 1_024 * 1_024

unfoldable pub ingest_memory_reservation_bytes : ℕ → ℕ
ingest_memory_reservation_bytes physical_window_budget =
    saturating_add (saturating_mul (saturating_add physical_window_budget encode_staging_bytes) 2)
      ingest_reservation_source_bytes

unfoldable pub ingest_memory_reservation_fits : ℕ → ℕ → ℕ → ℕ → Bool
ingest_memory_reservation_fits allowed current reserved requested =
    elim (checked_add current reserved) [
      | none ↦ false
      | some total ↦ elim (checked_add total requested) [
        | none ↦ false
        | some required ↦ leb required allowed
      ]
    ]

-- `limit.saturating_mul(9) / 10`
abbrev pub allowed_bytes : ℕ → ℕ
allowed_bytes limit = saturating_mul limit 9 / 10

-- The counter, and the reservations that are held.
pub record Pool : Type 0 where
  pub reserved : ℕ
  pub held : List ℕ

abbrev pub empty_pool : Pool
empty_pool = record { reserved = 0; held = [] }

-- What one round of the loop of `reserve_ingest_memory` does, with the value of the counter that the
-- thread has seen: it gives up, it goes on with the value that the counter has, or it has a
-- reservation.
pub data Round : Type 0 where
  refused : Round
  retried : ℕ → Round
  reserved_bytes : Pool → Round

unfoldable pub reserve_round : ℕ → ℕ → ℕ → ℕ → Pool → Round
reserve_round limit current bytes seen pool =
    if ingest_memory_reservation_fits (allowed_bytes limit) current seen bytes
    then if pool.reserved == seen
      then reserved_bytes
          (record { reserved = saturating_add seen bytes; held = bytes ∷ pool.held })
      else retried pool.reserved
    else refused

-- `fetch_sub` wraps; a reservation of no bytes changes nothing.
unfoldable pub release : ℕ → ℕ → ℕ
release bytes reserved = if bytes == 0 then reserved else (reserved + 2 ^ 64 - bytes) % 2 ^ 64

-- The steps of all threads on the counter, in any order: a round that has its reservation, one that
-- reserves nothing without a limit on the memory, and the drop of a reservation.
pub data PoolStep : Pool → Pool → Type 0 where
  reserving :
      (limit current bytes seen : ℕ) (pool later : Pool)
      → reserve_round limit current bytes seen pool ≡ reserved_bytes later
      → PoolStep pool later
  unlimited : (pool : Pool) → PoolStep pool (record pool { held = 0 ∷ pool.held })
  dropping :
      (bytes : ℕ) (front back : List ℕ) (pool : Pool)
      → pool.held ≡ front ++ bytes ∷ back
      → PoolStep pool (record { reserved = release bytes pool.reserved; held = front ++ back })

pub data ReachablePool : Pool → Type 0 where
  started : ReachablePool empty_pool
  stepped : (pool later : Pool) → ReachablePool pool → PoolStep pool later → ReachablePool later
