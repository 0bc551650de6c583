-- ===== src/Driver/Metadata/Meaning.antt =====
-- The meaning of a LIKE pattern, and the laws of suffixes that the matcher rests on.
use adbc_driver_monetdb.Prelude.{
  ℕ, zero, suc, ◌+◌, ◌≤◌, ◌<◌, ◌≡◌, refl, sym, inl, inr, Bool, true, false, ◌&&◌, ◌||◌, none, some,
  List, [], ◌∷◌, arith, ◌==◌, Bool-cases, length, get_elem?, drop,
}
use adbc_driver_monetdb.Driver.Text.{Text}
use adbc_driver_monetdb.Driver.Metadata.Like.{LikeToken, skip_many, many, one, exact}

-- Some suffix of the text satisfies the test.
abbrev pub some_suffix : (Text → Bool) → Text → Bool
some_suffix f [] = f []
some_suffix f (c ∷ v) = f (c ∷ v) || some_suffix f v

-- The meaning of a pattern: `many` stands for any text, `one` for any character.
abbrev pub likes : List LikeToken → Text → Bool
likes [] [] = true
likes [] (c ∷ v) = false
likes (many ∷ ts) v = some_suffix (likes ts) v
likes (one ∷ ts) [] = false
likes (one ∷ ts) (c ∷ v) = likes ts v
likes (exact e ∷ ts) [] = false
likes (exact e ∷ ts) (c ∷ v) = e == c && likes ts v

pub some_suffix-drop :
    (f : Text → Bool) (k : ℕ) (v : Text) → some_suffix f (drop k v) ≡ true → some_suffix f v ≡ true
some_suffix-drop f zero v h = h
some_suffix-drop f (suc k) [] h = h
some_suffix-drop f (suc k) (c ∷ v) h =
    let rest : some_suffix f v ≡ true = some_suffix-drop f k v h in ground arith

pub drop-suc {ℓ} : {A : Type ℓ} (k : ℕ) (v : List A) → drop (suc k) v ≡ drop 1 (drop k v)
drop-suc zero v = refl
drop-suc (suc k) [] = refl
drop-suc (suc k) (c ∷ v) = drop-suc k v

drop-nil {ℓ} : {A : Type ℓ} (k : ℕ) → drop {A = A} k [] ≡ []
drop-nil zero = refl
drop-nil (suc k) = refl

pub drop-add {ℓ} : {A : Type ℓ} (k n : ℕ) (v : List A) → drop k (drop n v) ≡ drop (n + k) v
drop-add k zero v = let e : 0 + k ≡ k = omega arith in rw e refl
drop-add k (suc n) [] = rw (drop-nil k, drop-nil (suc n + k)) refl
drop-add k (suc n) (c ∷ v) = let e : suc n + k ≡ suc (n + k) = omega arith in rw e (drop-add k n v)

pub drop-all {ℓ} : {A : Type ℓ} (k : ℕ) (v : List A) → length v ≤ k → drop k v ≡ []
drop-all zero [] h = refl
drop-all zero (c ∷ v) h = absurd (omega arith)
drop-all (suc k) [] h = refl
drop-all (suc k) (c ∷ v) h = drop-all k v (omega arith)

pub some_suffix-cons :
    (f : Text → Bool) (v : Text) → some_suffix f v ≡ (f v || some_suffix f (drop 1 v))
some_suffix-cons f [] = ground arith
some_suffix-cons f (c ∷ v) = refl

pub some_suffix-map :
    (f g : Text → Bool) (k : ℕ) (v : Text)
    → ((w : Text) → f w ≡ true → some_suffix g (drop k w) ≡ true)
    → some_suffix f v ≡ true
    → some_suffix g (drop k v) ≡ true
some_suffix-map f g k [] h s = h [] s
some_suffix-map f g k (c ∷ v) h s = elim (Bool-cases (f (c ∷ v))) [
  | inl e ↦ h (c ∷ v) e
  | inr e ↦
      let rest = some_suffix-map f g k v h (ground arith) in
      some_suffix-drop g 1 (drop k (c ∷ v)) (rw (sym (drop-suc k (c ∷ v))) rest)
]

-- Where every suffix is short enough for the drop to leave nothing.
pub some_suffix-short :
    (f g : Text → Bool) (k : ℕ) (v : Text)
    → length v ≤ k
    → ((w : Text) → f w ≡ true → g (drop k w) ≡ true)
    → some_suffix f v ≡ true
    → g [] ≡ true
some_suffix-short f g k [] l h s = rw (drop-all k [] l) at (h [] s)
some_suffix-short f g k (c ∷ v) l h s = elim (Bool-cases (f (c ∷ v))) [
  | inl e ↦ rw (drop-all k (c ∷ v) l) at (h (c ∷ v) e)
  | inr e ↦ some_suffix-short f g k v (omega arith) h (ground arith)
]

-- An element, and the list from it on.
pub drop-get_elem? {ℓ} :
    {A : Type ℓ} (xs : List A) (i : ℕ) (x : A)
    → get_elem? xs i ≡ some x
    → drop i xs ≡ x ∷ drop (suc i) xs
drop-get_elem? [] i x h = cc
drop-get_elem? (y ∷ xs) zero x h = ground arith
drop-get_elem? (y ∷ xs) (suc i) x h = drop-get_elem? xs i x h

pub drop-get_elem?-none {ℓ} :
    {A : Type ℓ} (xs : List A) (i : ℕ) → get_elem? xs i ≡ none → drop i xs ≡ []
drop-get_elem?-none [] zero h = refl
drop-get_elem?-none [] (suc i) h = refl
drop-get_elem?-none (y ∷ xs) zero h = cc
drop-get_elem?-none (y ∷ xs) (suc i) h = drop-get_elem?-none xs i h

pub get_elem?-lt {ℓ} :
    {A : Type ℓ} (xs : List A) (i : ℕ) (x : A) → get_elem? xs i ≡ some x → i < length xs
get_elem?-lt [] i x h = cc
get_elem?-lt (y ∷ xs) zero x h = omega arith
get_elem?-lt (y ∷ xs) (suc i) x h = omega (arith, get_elem?-lt xs i x h)

pub get_elem?-ge {ℓ} : {A : Type ℓ} (xs : List A) (i : ℕ) → get_elem? xs i ≡ none → length xs ≤ i
get_elem?-ge [] i h = omega arith
get_elem?-ge (y ∷ xs) zero h = cc
get_elem?-ge (y ∷ xs) (suc i) h = omega (arith, get_elem?-ge xs i h)

-- At the end of the text only `many` is left to match.
pub skip_many-likes :
    (ts : List LikeToken) (n : ℕ) → (skip_many ts n == n + length ts) ≡ likes ts []
unfolding skip_many
skip_many-likes [] n = ground arith
skip_many-likes (many ∷ ts) n = ground (arith, skip_many-likes ts (n + 1))
skip_many-likes (one ∷ ts) n = ground arith
skip_many-likes (exact e ∷ ts) n = ground arith
