-- ===== src/Driver/Ingest/Kept.antt =====
-- `CompressedArena::store` keeps what the arena has.
use adbc_driver_monetdb.Prelude.{
  ℕ, ◌-◌, ◌≤◌, max, ◌≡◌, ◌∙◌, inl, inr, Option, List, [], ◌∷◌, ◌++◌, arith, Bool-cases, Bytes, All,
  All-append, length, get_elem?-append_left, get_elem?-bound, ok_or, >>=-eq-ok, ok,
}
use adbc_driver_monetdb.Driver.Ingest.Arena.{
  CompressedSlab, CompressedData, compressed_arena_slab_bytes, reusable, store_bytes, slice_of,
  allocation_failed,
}
use adbc_driver_monetdb.Driver.Ingest.Slabs.{
  IsStored, WfArena, IsKept, IsStoring, store_in-new, store_in-IsKept,
}

abbrev fresh : Bytes → CompressedSlab
fresh mapped = record { mapped = mapped; used = 0 }

append-IsKept :
    (slabs : List CompressedSlab) (new : CompressedSlab) (e : CompressedData) (len : ℕ)
    → IsStored slabs e len
    → IsKept slabs (slabs ++ new ∷ []) e len
unfolding slice_of
append-IsKept slabs new e len (t, et, within) =
    let g = get_elem?-append_left slabs (new ∷ []) e.slab (get_elem?-bound slabs e.slab t et) in
    (rw (slice_of, g), (t, g ∙ et, within))

module _ (map_anon : ℕ → Option Bytes) where
  store_bytes-WfArena :
      (bytes : Bytes) (slabs : List CompressedSlab) (d : CompressedData)
      (later : List CompressedSlab)
      → WfArena slabs
      → store_bytes map_anon bytes slabs ≡ ok (d, later)
      → IsStoring slabs later d bytes
  unfolding store_bytes
  store_bytes-WfArena bytes slabs d later w h = elim (Bool-cases (reusable (length bytes) slabs)) [
    | inl room ↦ store_in-new (length slabs - 1) bytes slabs d later w (rw (store_bytes, room) at h)
    | inr full ↦
        let h' = rw (store_bytes, full) at h in
        let (mapped, a, h'') =
          >>=-eq-ok
            (ok_or (map_anon (max compressed_arena_slab_bytes (length bytes))) allocation_failed) _
            h' in
        let w' =
          All-append (λ (s : CompressedSlab). s.used ≤ length s.mapped) slabs (fresh mapped ∷ []) w
            (omega arith, tt) in
        store_in-new (length slabs) bytes (slabs ++ fresh mapped ∷ []) d later w' h''
  ]

  -- An earlier range has the same bytes at the same place, in whatever slab it is.
  store_bytes-earlier :
      (bytes : Bytes) (slabs : List CompressedSlab) (d : CompressedData)
      (later : List CompressedSlab) (e : CompressedData) (len : ℕ)
      → WfArena slabs
      → IsStored slabs e len
      → store_bytes map_anon bytes slabs ≡ ok (d, later)
      → IsKept slabs later e len
  unfolding store_bytes
  store_bytes-earlier bytes slabs d later e len w k h =
      elim (Bool-cases (reusable (length bytes) slabs)) [
        | inl room ↦
            store_in-IsKept (length slabs - 1) bytes slabs d later e len w k
              (rw (store_bytes, room) at h)
        | inr full ↦
            let h' = rw (store_bytes, full) at h in
            let (mapped, a, h'') =
              >>=-eq-ok
                (ok_or (map_anon (max compressed_arena_slab_bytes (length bytes)))
                  allocation_failed)
                _ h' in
            let more = slabs ++ fresh mapped ∷ [] in
            let w' =
              All-append (λ (s : CompressedSlab). s.used ≤ length s.mapped) slabs
                (fresh mapped ∷ []) w (omega arith, tt) in
            let (same, k') = append-IsKept slabs (fresh mapped) e len k in
            let (same', k'') = store_in-IsKept (length slabs) bytes more d later e len w' k' h'' in
            (same' ∙ same, k'')
      ]

  -- The arenas that `store` makes of an empty one, with what has been stored and where.
  pub data ArenaOf : List CompressedSlab → List (CompressedData × Bytes) → Type 0 where
    empty_arena : ArenaOf [] []
    stored :
        (bytes : Bytes) (slabs : List CompressedSlab) (d : CompressedData)
        (later : List CompressedSlab) (before : List (CompressedData × Bytes))
        → ArenaOf slabs before
        → store_bytes map_anon bytes slabs ≡ ok (d, later)
        → ArenaOf later ((d, bytes) ∷ before)

  -- `slice` gives the bytes that were stored, at the place that `store` returned.
  abbrev pub IsReadBack : List CompressedSlab → CompressedData × Bytes → Type 0
  IsReadBack slabs (d, bytes) =
      (slice_of slabs d (length bytes) ≡ ok bytes) × IsStored slabs d (length bytes)

  still_read :
      (bytes : Bytes) (slabs : List CompressedSlab) (d : CompressedData)
      (later : List CompressedSlab) (before : List (CompressedData × Bytes))
      → WfArena slabs
      → store_bytes map_anon bytes slabs ≡ ok (d, later)
      → All (IsReadBack slabs) before
      → All (IsReadBack later) before
  still_read bytes slabs d later [] w h all = tt
  still_read bytes slabs d later ((e, b) ∷ before) w h ((read, k), all) =
      let (same, k') = store_bytes-earlier bytes slabs d later e (length b) w k h in
      ((same ∙ read, k'), still_read bytes slabs d later before w h all)

  -- Whatever is stored in an arena that begins empty, and in whatever slabs it goes: everything that
  -- was stored so far is what `slice` gives at the place that `store` returned for it, within what
  -- its slab has in use, and no slab is used beyond its end.
  pub store_bytes-IsKept :
      (slabs : List CompressedSlab) (all : List (CompressedData × Bytes))
      → ArenaOf slabs all
      → All (IsReadBack slabs) all × WfArena slabs
  store_bytes-IsKept _ _ empty_arena = (tt, tt)
  store_bytes-IsKept _ _ (stored bytes slabs d later before earlier h) =
      let (read, w) = store_bytes-IsKept slabs before earlier in
      let (new, in_use, w') = store_bytes-WfArena bytes slabs d later w h in
      (((new, in_use), still_read bytes slabs d later before w h read), w')
