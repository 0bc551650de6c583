-- ===== src/Driver/Transactions/Filled.antt =====
-- The batches keep the queries in their order, and within the limits.
use adbc_driver_monetdb.Prelude.{
  ℕ, ◌+◌, ◌≤◌, ◌<◌, ◌≡◌, refl, ap, ◌⊎◌, inl, inr, Bool, true, false, not, ◌&&◌, Option, none, some,
  List, [], ◌∷◌, ◌++◌, map, append-nil, append_assoc, arith, ltb, if◌then◌else◌, ltb→lt, Bytes,
  saturating_add, length, length-append, Outcome, ok, err, panic,
}
use adbc_driver_monetdb.Driver.Transactions.Effects.{is_nil}
use mathlib.Core.Path.{subst}
use adbc_driver_monetdb.Driver.Transactions.Batches.{
  Filled, parameter_update_batch_rows, parameter_update_batch_bytes, fill_batch, next_batch,
}

-- The bytes of a script of these queries, with two for the end of each.
abbrev pub script_bytes : List Bytes → ℕ
script_bytes [] = 0
script_bytes (query ∷ queries) = length query + 2 + script_bytes queries

abbrev pub as_list : Option Bytes → List Bytes
as_list none = []
as_list (some query) = query ∷ []

-- What is known of the bytes counted for a batch.
abbrev pub IsCounted : List Bytes → ℕ → Type 0
IsCounted batch sql_bytes =
    (script_bytes batch ≤ sql_bytes + 2) ⊎ (parameter_update_batch_bytes < sql_bytes)

abbrev pub IsSmall : List Bytes → Type 0
IsSmall batch = (length batch ≤ 1) ⊎ (script_bytes batch ≤ parameter_update_batch_bytes + 2)

-- The batch, what is left over and the rest are the queries in order, the batch is within its limits,
-- and it is empty only if nothing is left.
abbrev pub IsFilled : {E : Type 0} → List (Outcome E Bytes) → Outcome E (Filled E) → Type 0
IsFilled queries (err e) = Unit
IsFilled queries panic = Unit
IsFilled queries (ok f) =
    (queries ≡ map ok (f.batch ++ as_list f.pending) ++ f.rest)
    × (length f.batch ≤ parameter_update_batch_rows)
    × IsSmall f.batch
    × ((1 ≤ length f.batch) ⊎ ((f.pending ≡ none) × (f.rest ≡ [])))

map-append {ℓ κ} :
    {A : Type ℓ} {B : Type κ} (f : A → B) (xs ys : List A) → map f (xs ++ ys) ≡ map f xs ++ map f ys
map-append f [] ys = refl
map-append f (x ∷ xs) ys = ap (◌∷◌ (f x)) (map-append f xs ys)

script_bytes-append :
    (xs : List Bytes) (query : Bytes)
    → script_bytes (xs ++ query ∷ []) ≡ script_bytes xs + length query + 2
script_bytes-append [] query = omega arith
script_bytes-append (x ∷ xs) query = omega (arith, script_bytes-append xs query)

IsFilled-if :
    {E : Type 0} (test : Bool) (queries : List (Outcome E Bytes)) (x y : Outcome E (Filled E))
    → (test ≡ true → IsFilled queries x)
    → (test ≡ false → IsFilled queries y)
    → IsFilled queries (if test then x else y)
IsFilled-if true queries x y hx hy = hx refl
IsFilled-if false queries x y hx hy = hy refl

-- A batch that is closed before the queries that follow.
stop :
    {E : Type 0} (batch : List Bytes) (queries : List (Outcome E Bytes))
    → length batch ≤ parameter_update_batch_rows
    → IsSmall batch
    → (1 ≤ length batch) ⊎ (queries ≡ [])
    → IsFilled
        (map ok batch ++ queries)
        (ok (record { batch = batch; pending = none; rest = queries }))
stop batch queries l m (inl n) = (simp (append-nil batch), l, m, inl n)
stop batch queries l m (inr e) = (simp (append-nil batch), l, m, inr (refl, e))

abbrev next_bytes : ℕ → Bytes → ℕ
next_bytes n query = saturating_add (saturating_add n (length query)) 2

-- One query more in a batch.
count_step :
    (n len : ℕ) (held : ℕ)
    → (held ≤ n + 2) ⊎ (parameter_update_batch_bytes < n)
    → (held + len + 2 ≤ saturating_add (saturating_add n len) 2 + 2)
      ⊎ (parameter_update_batch_bytes < saturating_add (saturating_add n len) 2)
count_step n len held h = ground arith

small_step :
    (n len held : ℕ)
    → (held ≤ n + 2) ⊎ (parameter_update_batch_bytes < n)
    → ltb parameter_update_batch_bytes (saturating_add (saturating_add n len) 2) ≡ false
    → held + len + 2 ≤ parameter_update_batch_bytes + 2
small_step n len held h k = ground arith

next_is_nonempty :
    (batch : List Bytes) (b : Bool)
    → (not (is_nil batch) && b) ≡ true
    → (1 ≤ length batch) × (b ≡ true)
next_is_nonempty [] b h = absurd (cc)
next_is_nonempty (x ∷ batch) b h = (omega arith, h)

fits_or_first :
    (batch : List Bytes) (b : Bool)
    → (not (is_nil batch) && b) ≡ false
    → (length batch ≡ 0) ⊎ (b ≡ false)
fits_or_first [] b h = inl refl
fits_or_first (x ∷ batch) b h = inr h

move_query :
    {E : Type 0} (batch : List Bytes) (query : Bytes) (queries : List (Outcome E Bytes))
    → map ok (batch ++ query ∷ []) ++ queries ≡ map ok batch ++ ok query ∷ queries
move_query [] query queries = refl
move_query (b ∷ batch) query queries = ap (◌∷◌ (ok b)) (move_query batch query queries)

fill_batch-IsFilled :
    {E : Type 0} (batch : List Bytes) (sql_bytes : ℕ) (queries : List (Outcome E Bytes))
    → length batch ≤ parameter_update_batch_rows
    → IsCounted batch sql_bytes
    → IsSmall batch
    → IsFilled (map ok batch ++ queries) (fill_batch batch sql_bytes queries)
unfolding fill_batch
fill_batch-IsFilled batch n [] l c m = stop batch [] l m (inr refl)
fill_batch-IsFilled batch n (err e ∷ queries) l c m =
    IsFilled-if (ltb (length batch) parameter_update_batch_rows) _ _ _ (λ h. tt)
      (λ h. stop batch (err e ∷ queries) l m (inl (ground arith)))
fill_batch-IsFilled batch n (panic ∷ queries) l c m =
    IsFilled-if (ltb (length batch) parameter_update_batch_rows) _ _ _ (λ h. tt)
      (λ h. stop batch (panic ∷ queries) l m (inl (ground arith)))
fill_batch-IsFilled batch n (ok query ∷ queries) l c m =
    let next = saturating_add (saturating_add n (length query)) 2 in
    IsFilled-if (ltb (length batch) parameter_update_batch_rows) _ _ _
      (λ h.
        IsFilled-if (not (is_nil batch) && ltb parameter_update_batch_bytes next) _ _ _
          (λ full. (simp (map-append, append_assoc), l, m, inl (next_is_nonempty batch _ full).0))
          (λ fits.
            subst (λ x. IsFilled x (fill_batch (batch ++ query ∷ []) next queries))
              (move_query batch query queries)
              (fill_batch-IsFilled (batch ++ query ∷ []) next queries
                (omega (arith, length-append batch (query ∷ []), ltb→lt _ _ h))
                (rw (script_bytes-append batch query)
                  (count_step n (length query) (script_bytes batch) c))
                (small_next fits))))
      (λ h. stop batch (ok query ∷ queries) l m (inl (ground arith)))
  where
    small_next :
        (not (is_nil batch) && ltb parameter_update_batch_bytes (next_bytes n query)) ≡ false
        → IsSmall (batch ++ query ∷ [])
    small_next fits = elim (fits_or_first batch _ fits) [
      | inl first ↦ inl (omega (arith, length-append batch (query ∷ []), first))
      | inr within ↦ inr (
          rw (script_bytes-append batch query)
            (small_step n (length query) (script_bytes batch) c within))
    ]

-- Each batch of a parameter batch continues the queries where the one before ended: nothing is lost,
-- repeated or moved; it has at most 1,024 queries, and its script, with two bytes to end each query,
-- has at most 8 MiB and two bytes unless it is of one query; and it is empty only when nothing is left.
pub next_batch-IsFilled :
    {E : Type 0} (pending : Option Bytes) (queries : List (Outcome E Bytes))
    → IsFilled (map ok (as_list pending) ++ queries) (next_batch pending queries)
unfolding next_batch
next_batch-IsFilled none queries =
    fill_batch-IsFilled [] 0 queries (omega arith) (inl (omega arith)) (inl (omega arith))
next_batch-IsFilled (some query) queries =
    fill_batch-IsFilled (query ∷ []) (length query) queries (omega arith) (inl (omega arith))
      (inl (omega arith))
