-- ===== src/Driver/Cache/Map.antt =====
-- The hash map of the cache as an association list, with the laws that its users need.
use adbc_driver_monetdb.Prelude.{
  ◌+◌, ◌≤◌, ◌≡◌, refl, inl, inr, Option, none, some, List, [], ◌∷◌, arith, if◌then◌else◌,
  Bool-cases, All, length,
}
use adbc_driver_monetdb.Driver.Text.{Text, text_eq, text_eq→eq, text_eq_iff}

module _ {V : Type 0} where
  unfoldable pub find : Text → List (Text × V) → Option V
  find k [] = none
  find k ((j, v) ∷ m) = if text_eq j k then some v else find k m

  unfoldable pub insert : Text → V → List (Text × V) → List (Text × V)
  insert k v [] = (k, v) ∷ []
  insert k v ((j, w) ∷ m) = if text_eq j k then (j, v) ∷ m else (j, w) ∷ insert k v m

  unfoldable pub remove : Text → List (Text × V) → List (Text × V)
  remove k [] = []
  remove k ((j, v) ∷ m) = if text_eq j k then remove k m else (j, v) ∷ remove k m

  abbrev pub NodupKeys : List (Text × V) → Type 0
  NodupKeys [] = Unit
  NodupKeys ((k, v) ∷ m) = (find k m ≡ none) × NodupKeys m

  pub find-insert :
      (k j : Text) (v : V) (m : List (Text × V))
      → find j (insert k v m) ≡ (if text_eq k j then some v else find j m)
  unfolding find insert
  find-insert k j v [] = refl
  find-insert k j v ((i, w) ∷ m) =
      ground (arith, text_eq_iff k j, text_eq_iff i k, text_eq_iff i j, find-insert k j v m)

  pub find-insert_same : (k : Text) (v : V) (m : List (Text × V)) → find k (insert k v m) ≡ some v
  find-insert_same k v m = ground (arith, text_eq_iff k k, find-insert k k v m)

  pub find-remove :
      (k j : Text) (m : List (Text × V))
      → find j (remove k m) ≡ (if text_eq k j then none else find j m)
  unfolding find remove
  find-remove k j [] = ground arith
  find-remove k j ((i, w) ∷ m) =
      ground (arith, text_eq_iff k j, text_eq_iff i k, text_eq_iff i j, find-remove k j m)

  pub insert-NodupKeys :
      (k : Text) (v : V) (m : List (Text × V)) → NodupKeys m → NodupKeys (insert k v m)
  unfolding insert find
  insert-NodupKeys k v [] h = (refl, tt)
  insert-NodupKeys k v ((i, w) ∷ m) (hi, hm) =
      ground
        (arith, text_eq_iff k i, text_eq_iff i k, find-insert k i v m, insert-NodupKeys k v m hm)

  pub remove-NodupKeys : (k : Text) (m : List (Text × V)) → NodupKeys m → NodupKeys (remove k m)
  unfolding remove
  remove-NodupKeys k [] h = tt
  remove-NodupKeys k ((i, w) ∷ m) (hi, hm) =
      ground (arith, find-remove k i m, remove-NodupKeys k m hm)

  pub length-insert :
      (k : Text) (v : V) (m : List (Text × V)) → length (insert k v m) ≤ length m + 1
  unfolding insert
  length-insert k v [] = omega arith
  length-insert k v ((i, w) ∷ m) = ground (arith, length-insert k v m)

  pub length-insert_found :
      (k : Text) (v w : V) (m : List (Text × V))
      → find k m ≡ some w
      → length (insert k v m) ≡ length m
  unfolding insert find
  length-insert_found k v w [] h = cc
  length-insert_found k v w ((i, x) ∷ m) h = ground (arith, length-insert_found k v w m)

  remove_absent : (k : Text) (m : List (Text × V)) → find k m ≡ none → remove k m ≡ m
  unfolding remove find
  remove_absent k [] h = refl
  remove_absent k ((i, w) ∷ m) h = ground (arith, remove_absent k m)

  pub length-remove :
      (k : Text) (w : V) (m : List (Text × V))
      → NodupKeys m
      → find k m ≡ some w
      → length (remove k m) + 1 ≡ length m
  unfolding remove find
  length-remove k w [] n h = cc
  length-remove k w ((i, x) ∷ m) (ni, nm) h =
      ground (arith, text_eq_iff i k, remove_absent k m, length-remove k w m nm)

  pub length-remove-le : (k : Text) (m : List (Text × V)) → length (remove k m) ≤ length m
  unfolding remove
  length-remove-le k [] = omega arith
  length-remove-le k ((i, x) ∷ m) = ground (arith, length-remove-le k m)

  -- A property of all entries.
  pub All-insert :
      (P : Text × V → Type 0) (k : Text) (v : V) (m : List (Text × V))
      → P (k, v)
      → All P m
      → All P (insert k v m)
  unfolding insert
  All-insert P k v [] h hm = (h, tt)
  All-insert P k v ((i, w) ∷ m) h (hi, hm) = elim (Bool-cases (text_eq i k)) [
    | inl e ↦ rw (e, text_eq→eq i k e) (h, hm)
    | inr e ↦ rw e (hi, All-insert P k v m h hm)
  ]

  pub All-remove :
      (P : Text × V → Type 0) (k : Text) (m : List (Text × V)) → All P m → All P (remove k m)
  unfolding remove
  All-remove P k [] h = tt
  All-remove P k ((i, w) ∷ m) (hi, hm) = elim (Bool-cases (text_eq i k)) [
    | inl e ↦ rw e (All-remove P k m hm)
    | inr e ↦ rw e (hi, All-remove P k m hm)
  ]

  pub find-All :
      (P : Text × V → Type 0) (k : Text) (v : V) (m : List (Text × V))
      → All P m
      → find k m ≡ some v
      → P (k, v)
  unfolding find
  find-All P k v [] h e = cc
  find-All P k v ((i, w) ∷ m) (hi, hm) e = elim (Bool-cases (text_eq i k)) [
    | inl same ↦
        let at_k : P (k, w) = rw (text_eq→eq i k same) at hi in
        let found : w ≡ v = ground (arith, same) in rw found at at_k
    | inr other ↦ find-All P k v m hm (rw other at e)
  ]
