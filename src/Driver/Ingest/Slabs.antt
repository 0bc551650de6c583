-- ===== src/Driver/Ingest/Slabs.antt =====
-- What is stored in the arena stays there.
use adbc_driver_monetdb.Prelude.{
  ℕ, zero, suc, ◌+◌, ◌-◌, ◌≤◌, ◌≡◌, refl, sym, ap, ◌∙◌, inl, inr, Option, none, some, List, [], ◌∷◌,
  ◌++◌, arith, leb, ◌==◌, leb→le, ==_iff, Bool-cases, Bytes, All, slice, write_at, length,
  get_elem?, set, length-append, get_elem?-set_self, get_elem?-set_ne, take, drop, take-append-drop,
  length-take, length-drop, take-length_append, drop-length_append, get_elem?-bound, ok,
}
use mathlib.Core.Path.{subst}
use adbc_driver_monetdb.Driver.Ingest.Arena.{
  CompressedSlab, CompressedData, ArenaError, store_in, slice_of,
}

-- No slab is used beyond its end.
abbrev pub WfArena : List CompressedSlab → Type 0
WfArena slabs = All (λ (s : CompressedSlab). s.used ≤ length s.mapped) slabs

-- The stored range is within what its slab has in use.
abbrev pub IsStored : List CompressedSlab → CompressedData → ℕ → Type 0
IsStored slabs d len =
    (s : CompressedSlab) × (get_elem? slabs d.slab ≡ some s) × (d.offset + len ≤ s.used)

take-append_left :
    (n : ℕ) (front back : Bytes) → n ≤ length front → take n (front ++ back) ≡ take n front
take-append_left zero front back h = refl
take-append_left (suc n) [] back h = absurd (omega arith)
take-append_left (suc n) (x ∷ front) back h =
    ap (◌∷◌ x) (take-append_left n front back (omega arith))

range-append_left :
    (from n : ℕ) (front back : Bytes)
    → from + n ≤ length front
    → take n (drop from (front ++ back)) ≡ take n (drop from front)
range-append_left zero n front back h = take-append_left n front back (omega arith)
range-append_left (suc from) n [] back h = absurd (omega arith)
range-append_left (suc from) n (x ∷ front) back h =
    range-append_left from n front back (omega arith)

slice-lem :
    (mapped : Bytes) (from n : ℕ)
    → from + n ≤ length mapped
    → slice {E = ArenaError} mapped from (from + n) ≡ ok (take n (drop from mapped))
slice-lem mapped from n h = let e : from + n - from ≡ n = omega arith in ground (arith, e)

length-write_at :
    (offset : ℕ) (bytes mapped : Bytes)
    → offset + length bytes ≤ length mapped
    → length (write_at offset bytes mapped) ≡ length mapped
length-write_at offset bytes mapped h = omega (
  arith,
  length-append (take offset mapped) (bytes ++ drop (offset + length bytes) mapped),
  length-append bytes (drop (offset + length bytes) mapped),
  length-take offset mapped,
  length-drop (offset + length bytes) mapped,
)

-- The written range has the bytes, and what lies before it is kept.
write_at-new :
    (offset : ℕ) (bytes mapped : Bytes)
    → offset + length bytes ≤ length mapped
    → take (length bytes) (drop offset (write_at offset bytes mapped)) ≡ bytes
write_at-new offset bytes mapped h =
    let n : length (take offset mapped) ≡ offset = length-take offset mapped ∙ omega arith in
    let d : drop offset (write_at offset bytes mapped)
        ≡ bytes ++ drop (offset + length bytes) mapped =
      subst
        (λ k. drop k (write_at offset bytes mapped) ≡ bytes ++ drop (offset + length bytes) mapped)
        n
        (drop-length_append (take offset mapped) (bytes ++ drop (offset + length bytes) mapped)) in
    rw d (take-length_append bytes (drop (offset + length bytes) mapped))

write_at-old :
    (from n offset : ℕ) (bytes mapped : Bytes)
    → from + n ≤ offset
    → offset ≤ length mapped
    → take n (drop from (write_at offset bytes mapped)) ≡ take n (drop from mapped)
write_at-old from n offset bytes mapped h k =
    let e : length (take offset mapped) ≡ offset = length-take offset mapped ∙ omega arith in
    range-append_left from n (take offset mapped) (bytes ++ drop (offset + length bytes) mapped)
      (omega (arith, e))
    ∙ sym (range-append_left from n (take offset mapped) (drop offset mapped) (omega (arith, e)))
    ∙ ap (λ x. take n (drop from x)) (take-append-drop offset mapped)

module _ {ℓ κ} {A : Type ℓ} where
  All-get :
      (P : A → Type κ) (xs : List A) (i : ℕ) (x : A) → All P xs → get_elem? xs i ≡ some x → P x
  All-get P [] i x h e = absurd (cc)
  All-get P (y ∷ xs) zero x (p, ps) e = let same : y ≡ x = cc in subst P same p
  All-get P (y ∷ xs) (suc i) x (p, ps) e = All-get P xs i x ps e

  All-set : (P : A → Type κ) (xs : List A) (i : ℕ) (v : A) → All P xs → P v → All P (set xs i v)
  All-set P [] i v h p = tt
  All-set P (x ∷ xs) zero v (h, hs) p = (p, hs)
  All-set P (x ∷ xs) (suc i) v (h, hs) p = (h, All-set P xs i v hs p)

slice_of-lem :
    (slabs : List CompressedSlab) (d : CompressedData) (len : ℕ) (s : CompressedSlab)
    → get_elem? slabs d.slab ≡ some s
    → d.offset + len ≤ length s.mapped
    → slice_of slabs d len ≡ ok (take len (drop d.offset s.mapped))
unfolding slice_of
slice_of-lem slabs d len s e h = rw (slice_of, e) (slice-lem s.mapped d.offset len h)

abbrev filled : CompressedSlab → Bytes → CompressedSlab
filled s bytes = record { mapped = write_at s.used bytes s.mapped; used = s.used + length bytes }

-- What `store_in` does where it succeeds.
store_in-cases :
    (index : ℕ) (bytes : Bytes) (slabs : List CompressedSlab) (d : CompressedData)
    (later : List CompressedSlab)
    → store_in index bytes slabs ≡ ok (d, later)
    → (s : CompressedSlab) × (get_elem? slabs index ≡ some s)
      × (s.used + length bytes ≤ length s.mapped)
      × (d ≡ record { slab = index; offset = s.used })
      × (later ≡ set slabs index (filled s bytes))
unfolding store_in
store_in-cases index bytes slabs d later h = go (get_elem? slabs index) refl
  where
    go :
        (o : Option CompressedSlab)
        → get_elem? slabs index ≡ o
        → (s : CompressedSlab) × (get_elem? slabs index ≡ some s)
          × (s.used + length bytes ≤ length s.mapped)
          × (d ≡ record { slab = index; offset = s.used })
          × (later ≡ set slabs index (filled s bytes))
    go none e = absurd (let h' = rw (store_in, e) at h in cc)
    go (some s) e =
        let h' = rw (store_in, e) at h in
        elim (Bool-cases (leb (s.used + length bytes) (length s.mapped))) [
          | inr no_room ↦ absurd (let h'' = rw no_room at h' in cc)
          | inl room ↦
              let h'' = rw room at h' in
              (
                s,
                e,
                leb→le _ _ room,
                (let p : (record { slab = index; offset = s.used }) ≡ d = cc in sym p),
                (let p : set slabs index (filled s bytes) ≡ later = cc in sym p),
              )
        ]

-- A stored range has the same bytes, in the same place, afterwards.
abbrev pub IsKept : List CompressedSlab → List CompressedSlab → CompressedData → ℕ → Type 0
IsKept slabs later e len = (slice_of later e len ≡ slice_of slabs e len) × IsStored later e len

abbrev pub IsStoring : List CompressedSlab → List CompressedSlab → CompressedData → Bytes → Type 0
IsStoring slabs later d bytes =
    (slice_of later d (length bytes) ≡ ok bytes) × IsStored later d (length bytes) × WfArena later

pub store_in-new :
    (index : ℕ) (bytes : Bytes) (slabs : List CompressedSlab) (d : CompressedData)
    (later : List CompressedSlab)
    → WfArena slabs
    → store_in index bytes slabs ≡ ok (d, later)
    → IsStoring slabs later d bytes
store_in-new index bytes slabs d later w h =
    let (s, e, room, dd, ll) = store_in-cases index bytes slabs d later h in
    let place : CompressedData = record { slab = index; offset = s.used } in
    let g : get_elem? (set slabs index (filled s bytes)) index ≡ some (filled s bytes) =
      get_elem?-set_self slabs index (filled s bytes) (get_elem?-bound slabs index s e) in
    let n = length-write_at s.used bytes s.mapped room in
    let read =
      slice_of-lem (set slabs index (filled s bytes)) place (length bytes) (filled s bytes) g
        (omega (arith, n)) in
    let stored : IsStoring slabs (set slabs index (filled s bytes)) place bytes = (
      read ∙ ap ok (write_at-new s.used bytes s.mapped room),
      (filled s bytes, g, omega arith),
      All-set (λ (t : CompressedSlab). t.used ≤ length t.mapped) slabs index (filled s bytes) w
          (omega (arith, n)),
    ) in
    subst (λ x. IsStoring slabs x d bytes) (sym ll)
      (subst (λ x. IsStoring slabs (set slabs index (filled s bytes)) x bytes) (sym dd) stored)

some-slab : (s t : CompressedSlab) → some s ≡ some t → s ≡ t
some-slab s t h = cc

pub store_in-IsKept :
    (index : ℕ) (bytes : Bytes) (slabs : List CompressedSlab) (d : CompressedData)
    (later : List CompressedSlab) (e : CompressedData) (len : ℕ)
    → WfArena slabs
    → IsStored slabs e len
    → store_in index bytes slabs ≡ ok (d, later)
    → IsKept slabs later e len
store_in-IsKept index bytes slabs d later e len w (t, et, within) h =
    let (s, es, room, dd, ll) = store_in-cases index bytes slabs d later h in
    let t_fits = All-get (λ (x : CompressedSlab). x.used ≤ length x.mapped) slabs e.slab t w et in
    let before = slice_of-lem slabs e len t et (omega arith) in
    subst (λ x. IsKept slabs x e len) (sym ll)
      (elim (Bool-cases (index == e.slab)) [
        | inr elsewhere ↦
            let g : get_elem? (set slabs index (filled s bytes)) e.slab ≡ some t =
              get_elem?-set_ne slabs (filled s bytes) (λ same. absurd (ground arith)) ∙ et in
            (
              slice_of-lem (set slabs index (filled s bytes)) e len t g (omega arith) ∙ sym before,
              (t, g, within),
            )
        | inl here ↦
            let same : index ≡ e.slab = (==_iff index e.slab).0 here in
            let st : s ≡ t =
              some-slab s t (sym es ∙ subst (λ x. get_elem? slabs x ≡ some t) (sym same) et) in
            let within' = subst (λ x. e.offset + len ≤ x.used) (sym st) within in
            let g : get_elem? (set slabs index (filled s bytes)) e.slab ≡ some (filled s bytes) =
              subst (λ x. get_elem? (set slabs index (filled s bytes)) x ≡ some (filled s bytes))
                same
                (get_elem?-set_self slabs index (filled s bytes)
                  (get_elem?-bound slabs index s es)) in
            let n = length-write_at s.used bytes s.mapped room in
            (
              slice_of-lem (set slabs index (filled s bytes)) e len (filled s bytes) g
                    (omega (arith, n))
                  ∙ ap ok (write_at-old e.offset len s.used bytes s.mapped within' (omega arith))
                  ∙ subst (λ x. ok (take len (drop e.offset x.mapped)) ≡ slice_of slabs e len)
                      (sym st) (sym before),
              (filled s bytes, g, omega arith),
            )
      ])
