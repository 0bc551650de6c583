-- ===== src/Driver/Ingest/Tests.antt =====
-- The arena, the reservations and the alignment of columns on small examples.
use adbc_driver_monetdb.Prelude.{
  ℕ, ◌+◌, ◌≤◌, ◌≡◌, refl, sym, ◌∙◌, inl, inr, Bool, true, false, ◌&&◌, Option, some, List, [], ◌∷◌,
  ◌++◌, Bool-cases, Bytes, codes, All, ok,
}
use adbc_driver_monetdb.Wire.{
  MonetType, bool, tiny_int, small_int, int, big_int, huge_int, oid, real, double, month_interval,
  day_interval, sec_interval, date, time, time_tz, timestamp, timestamp_tz, uuid, blob, url, inet,
  inet4, inet6, json, geometry, xml, decimal, varchar,
}
use adbc_driver_monetdb.Driver.Text.{text_eq}
use adbc_driver_monetdb.Driver.Identifiers.{quote_identifier}
use adbc_driver_monetdb.Driver.Ingest.Arena.{CompressedSlab, CompressedData, store_in, store_bytes}
use adbc_driver_monetdb.Driver.Ingest.Slabs.{WfArena}
use adbc_driver_monetdb.Driver.Ingest.Kept.{
  store_bytes-IsKept, ArenaOf, IsReadBack, stored, empty_arena,
}
use adbc_driver_monetdb.Driver.Ingest.Reservations.{
  Pool, ingest_memory_reservation_fits, allowed_bytes, empty_pool, reserve_round, ReachablePool,
  reserving, started, stepped,
}
use adbc_driver_monetdb.Driver.Ingest.Counted.{reserve_ingest_memory-IsCounted, total}
use adbc_driver_monetdb.Driver.Ingest.Append.{
  AppendColumn, Field, eq_ignore_ascii_case, position_from, folded_from, append_column_index,
  append_monet_types_match, string_wire, align_field, align_fields, align_append_schema,
  quoted_column_list, insert_parameter_query,
}
use adbc_driver_monetdb.Driver.Ingest.Aligned.{Distinct}
use adbc_driver_monetdb.Driver.Ingest.Targets.{align_append_schema-GoTo, AllGoTo}

-- The allocation gives five bytes, whatever is asked for.
five_bytes : ℕ → Option Bytes
five_bytes n = some (0 ∷ 0 ∷ 0 ∷ 0 ∷ 0 ∷ [])

abbrev first_arena : List CompressedSlab
first_arena = record { mapped = 1 ∷ 2 ∷ 0 ∷ 0 ∷ 0 ∷ []; used = 2 } ∷ []

abbrev second_arena : List CompressedSlab
second_arena = record { mapped = 1 ∷ 2 ∷ 7 ∷ 8 ∷ 0 ∷ []; used = 4 } ∷ []

abbrev third_arena : List CompressedSlab
third_arena =
    record { mapped = 1 ∷ 2 ∷ 7 ∷ 8 ∷ 0 ∷ []; used = 4 }
    ∷ record { mapped = 5 ∷ 5 ∷ 5 ∷ 0 ∷ 0 ∷ []; used = 3 }
    ∷ []

abbrev place : ℕ → ℕ → CompressedData
place slab offset = record { slab = slab; offset = offset }

abbrev three_stored : List (CompressedData × Bytes)
three_stored = (place 1 0, 5 ∷ 5 ∷ 5 ∷ []) ∷ (place 0 2, 7 ∷ 8 ∷ []) ∷ (place 0 0, 1 ∷ 2 ∷ []) ∷ []

third_arena-ArenaOf : ArenaOf five_bytes third_arena three_stored
unfolding store_bytes store_in five_bytes
third_arena-ArenaOf =
    stored (5 ∷ 5 ∷ 5 ∷ []) second_arena (place 1 0) third_arena _
      (stored (7 ∷ 8 ∷ []) first_arena (place 0 2) second_arena _
        (stored (1 ∷ 2 ∷ []) [] (place 0 0) first_arena [] empty_arena refl) refl)
      refl

store_bytes-IsKept_example :
    All (IsReadBack five_bytes third_arena) three_stored × WfArena third_arena
store_bytes-IsKept_example =
    store_bytes-IsKept five_bytes third_arena three_stored third_arena-ArenaOf

-- Ten bytes are reserved, and then twenty under a limit of 100 with 40 in use.
abbrev one_held : Pool
one_held = record { reserved = 10; held = 10 ∷ [] }

abbrev two_held : Pool
two_held = record { reserved = 30; held = 20 ∷ 10 ∷ [] }

one_held-ReachablePool : ReachablePool one_held
unfolding reserve_round ingest_memory_reservation_fits
one_held-ReachablePool =
    stepped empty_pool one_held started (reserving 100 40 10 0 empty_pool one_held refl)

reserve_ingest_memory-IsCounted_example :
    (10 ≡ total one_held.held)
    × (30 ≡ total two_held.held)
    × (two_held.held ≡ 20 ∷ one_held.held)
    × (40 + total two_held.held ≤ allowed_bytes 100)
unfolding reserve_round ingest_memory_reservation_fits
reserve_ingest_memory-IsCounted_example =
    reserve_ingest_memory-IsCounted 100 40 20 10 one_held two_held one_held-ReachablePool refl

abbrev is_int : MonetType → Bool
is_int int = true
is_int _ = false

is_int-eq : (t : MonetType) → is_int t ≡ true → t ≡ int
is_int-eq int h = refl
is_int-eq bool h = absurd (cc)
is_int-eq tiny_int h = absurd (cc)
is_int-eq small_int h = absurd (cc)
is_int-eq big_int h = absurd (cc)
is_int-eq huge_int h = absurd (cc)
is_int-eq oid h = absurd (cc)
is_int-eq real h = absurd (cc)
is_int-eq double h = absurd (cc)
is_int-eq month_interval h = absurd (cc)
is_int-eq day_interval h = absurd (cc)
is_int-eq sec_interval h = absurd (cc)
is_int-eq date h = absurd (cc)
is_int-eq time h = absurd (cc)
is_int-eq time_tz h = absurd (cc)
is_int-eq timestamp h = absurd (cc)
is_int-eq timestamp_tz h = absurd (cc)
is_int-eq uuid h = absurd (cc)
is_int-eq blob h = absurd (cc)
is_int-eq url h = absurd (cc)
is_int-eq inet h = absurd (cc)
is_int-eq inet4 h = absurd (cc)
is_int-eq inet6 h = absurd (cc)
is_int-eq json h = absurd (cc)
is_int-eq geometry h = absurd (cc)
is_int-eq xml h = absurd (cc)
is_int-eq (decimal p s) h = absurd (cc)
is_int-eq (varchar n) h = absurd (cc)

-- Of the equality of types the example needs that of `int`.
abbrev equal_ints : MonetType → MonetType → Bool
equal_ints a b = is_int a && is_int b

equal_ints-eq : (a b : MonetType) → equal_ints a b ≡ true → a ≡ b
equal_ints-eq a b h = elim (Bool-cases (is_int a)) [
  | inl first ↦ let h' = rw first at h in is_int-eq a first ∙ sym (is_int-eq b h')
  | inr no_int ↦ absurd (let h' = rw no_int at h in cc)
]

abbrev columns : List AppendColumn
columns =
    record { name = codes "id"; data_type = int; nullable = false }
    ∷ record { name = codes "Label"; data_type = varchar 5; nullable = true }
    ∷ []

abbrev fields : List Field
fields =
    record { field_name = codes "LABEL"; monet_type = some json }
    ∷ record { field_name = codes "id"; monet_type = some int }
    ∷ []

align_append_schema-GoTo_example :
    (indices : List ℕ) × AllGoTo equal_ints equal_ints-eq columns fields indices
      (codes "Label" ∷ codes "id" ∷ [])
    × Distinct indices
unfolding align_append_schema align_fields align_field append_column_index position_from folded_from
    eq_ignore_ascii_case text_eq append_monet_types_match string_wire
align_append_schema-GoTo_example =
    align_append_schema-GoTo equal_ints equal_ints-eq fields columns
      (codes "Label" ∷ codes "id" ∷ []) refl

insert_text :
    insert_parameter_query (codes "t") (codes "a" ∷ [])
    ≡ ok (codes "INSERT INTO t (" ++ (34 ∷ 97 ∷ 34 ∷ []) ++ codes ") VALUES (?)")
unfolding insert_parameter_query quoted_column_list quote_identifier
insert_text = refl
