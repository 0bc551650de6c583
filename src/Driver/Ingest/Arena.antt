-- ===== src/Driver/Ingest/Arena.antt =====
-- `CompressedArena`. `map_anon` is the allocation of the `memmap2` crate.
use adbc_driver_monetdb.Prelude.{
  ℕ, ◌+◌, ◌-◌, ◌*◌, max, Bool, false, Option, none, some, List, [], ◌∷◌, ◌++◌, leb, if◌then◌else◌,
  Bytes, slice, write_at, length, get_elem?, set, Outcome, ◌>>=◌, ok_or, ok, panic,
}

pub record CompressedSlab : Type 0 where
  pub mapped : Bytes
  pub used : ℕ

pub record CompressedData : Type 0 where
  pub slab : ℕ
  pub offset : ℕ

pub data ArenaError : Type 0 where
  allocation_failed : ArenaError

abbrev pub compressed_arena_slab_bytes : ℕ
compressed_arena_slab_bytes = 16 * 1_024 * 1_024

abbrev pub last_slab : List CompressedSlab → Option CompressedSlab
last_slab [] = none
last_slab (s ∷ []) = some s
last_slab (s ∷ t ∷ slabs) = last_slab (t ∷ slabs)

abbrev pub has_room : ℕ → CompressedSlab → Bool
has_room len slab = leb len (length slab.mapped - slab.used)

-- The end of `store`, with the index of the slab.
unfoldable pub store_in :
    ℕ → Bytes → List CompressedSlab → Outcome ArenaError (CompressedData × List CompressedSlab)
store_in index bytes slabs = elim (get_elem? slabs index) [
  | none ↦ panic
  | some storage ↦
      if leb (storage.used + length bytes) (length storage.mapped)
      then ok (
        record { slab = index; offset = storage.used },
        set slabs index (record {
          mapped = write_at storage.used bytes storage.mapped;
          used = storage.used + length bytes;
        }),
      )
      else panic
]

abbrev pub reusable : ℕ → List CompressedSlab → Bool
reusable len slabs = elim (last_slab slabs) [ none ↦ false | some slab ↦ has_room len slab ]

module _ (map_anon : ℕ → Option Bytes) where
  unfoldable pub store_bytes :
      Bytes → List CompressedSlab → Outcome ArenaError (CompressedData × List CompressedSlab)
  store_bytes bytes slabs =
      if reusable (length bytes) slabs then store_in (length slabs - 1) bytes slabs else (do
        mapped ← ok_or (map_anon (max compressed_arena_slab_bytes (length bytes))) allocation_failed
        store_in (length slabs) bytes (slabs ++ record { mapped = mapped; used = 0 } ∷ []))

unfoldable pub slice_of : List CompressedSlab → CompressedData → ℕ → Outcome ArenaError Bytes
slice_of slabs d len = elim (get_elem? slabs d.slab) [
  | none ↦ panic
  | some storage ↦ slice storage.mapped d.offset (d.offset + len)
]

unfoldable pub physical_bytes : List CompressedSlab → ℕ
physical_bytes [] = 0
physical_bytes (slab ∷ slabs) = length slab.mapped + physical_bytes slabs
