-- ===== src/Driver/Metadata/Greedy.antt =====
-- The greedy matcher agrees with the meaning of a pattern, within its fuel.
use adbc_driver_monetdb.Prelude.{
  ℕ, zero, suc, ◌+◌, ◌-◌, ◌*◌, ◌≤◌, ◌<◌, ◌≡◌, refl, sym, ap, ◌∙◌, inl, inr, Bool, true, false, ◌||◌,
  Option, none, some, List, [], ◌∷◌, arith, ◌==◌, Bool-cases, Option-cases, length, get_elem?, drop,
  length-drop,
}
use native.Mathlib.Nat.{mul-le-mul_right, suc-mul}
use adbc_driver_monetdb.Driver.Text.{Text}
use adbc_driver_monetdb.Driver.Metadata.Like.{
  LikeToken, takes, is_many, many, one, exact, like_loop, skip_many, like_fuel,
}
use adbc_driver_monetdb.Driver.Metadata.Meaning.{
  likes, some_suffix, drop-suc, drop-get_elem?, some_suffix-drop, drop-add, drop-all,
  some_suffix-cons, some_suffix-map, some_suffix-short, drop-get_elem?-none, get_elem?-lt,
  get_elem?-ge, skip_many-likes,
}

module _ (tokens : List LikeToken) (value : Text) where
  -- Does the rest of the pattern fit the rest of the text?
  abbrev ahead : ℕ → ℕ → Bool
  ahead token character = likes (drop token tokens) (drop character value)

  -- Does the pattern after the `many` at `s` fit some suffix past `retry`?
  abbrev later : ℕ → ℕ → Bool
  later s retry = some_suffix (likes (drop (suc s) tokens)) (drop (suc retry) value)

  -- What the loop knows: the whole fits iff the rest does, or a later start of the last `many` does;
  -- and what follows that `many` has passed `character - retry` characters.
  abbrev IsSound : ℕ → ℕ → Option ℕ → ℕ → Type 0
  IsSound token character none retry =
      (likes tokens value ≡ ahead token character) × (retry ≤ character)
  IsSound token character (some s) retry =
      (k : ℕ) × (retry + k ≡ character)
      × (s < length tokens)
      × (likes tokens value ≡ (ahead token character || later s retry))
      × ((w : Text)
          → likes (drop (suc s) tokens) w ≡ true
          → likes (drop token tokens) (drop k w) ≡ true)

  -- A token that takes a character of its own.
  likes-takes :
      (t : LikeToken) (ts : List LikeToken) (c : ℕ) (v : Text)
      → takes (some t) c ≡ true
      → likes (t ∷ ts) (c ∷ v) ≡ likes ts v
  likes-takes many ts c v h = cc
  likes-takes one ts c v h = refl
  likes-takes (exact e) ts c v h = ground arith

  likes-tail :
      (t : LikeToken) (ts : List LikeToken) (c : ℕ) (u : Text)
      → takes (some t) c ≡ true
      → likes (t ∷ ts) u ≡ true
      → likes ts (drop 1 u) ≡ true
  likes-tail many ts c u h l = cc
  likes-tail one ts c [] h l = cc
  likes-tail one ts c (d ∷ u) h l = l
  likes-tail (exact e) ts c [] h l = cc
  likes-tail (exact e) ts c (d ∷ u) h l = ground arith

  likes-stuck :
      (o : Option LikeToken) (ts : List LikeToken) (c : ℕ) (v : Text)
      → takes o c ≡ false
      → is_many o ≡ false
      → (T : List LikeToken) → ((t : LikeToken) → o ≡ some t → T ≡ t ∷ ts)
      → (o ≡ none → T ≡ [])
      → likes T (c ∷ v) ≡ false
  likes-stuck none ts c v h m T f n = rw (n refl) refl
  likes-stuck (some many) ts c v h m T f n = cc
  likes-stuck (some one) ts c v h m T f n = cc
  likes-stuck (some (exact e)) ts c v h m T f n = rw (f (exact e) refl) (ground arith)

  -- A token that fits is passed.
  IsSound-takes :
      (token character : ℕ) (star : Option ℕ) (retry : ℕ) (t : LikeToken) (c : ℕ)
      → get_elem? value character ≡ some c
      → get_elem? tokens token ≡ some t
      → takes (some t) c ≡ true
      → IsSound token character star retry
      → IsSound (suc token) (suc character) star retry
  IsSound-takes token character star retry t c hc ht fits sound =
      let at_c = drop-get_elem? value character c hc in
      let at_t = drop-get_elem? tokens token t ht in
      let step : ahead token character ≡ ahead (suc token) (suc character) =
        rw (at_c, at_t) (likes-takes t _ c _ fits) in
      go star sound at_t step
    where
      go :
          (star : Option ℕ)
          → IsSound token character star retry
          → drop token tokens ≡ t ∷ drop (suc token) tokens
          → ahead token character ≡ ahead (suc token) (suc character)
          → IsSound (suc token) (suc character) star retry
      go none (l, le) at_t step = (l ∙ step, omega arith)
      go (some s) (k, e, lt, l, p) at_t step = (
        suc k,
        omega arith,
        lt,
        l ∙ ap (λ b. b || later s retry) step,
        λ w h.
            rw (sym (drop-suc k w)) at
              (likes-tail t (drop (suc token) tokens) c (drop k w) fits (rw at_t at (p w h))),
      )

  -- A `many` is passed, and is the last one from here on.
  IsSound-many :
      (token character : ℕ) (star : Option ℕ) (retry : ℕ) (c : ℕ)
      → get_elem? value character ≡ some c
      → get_elem? tokens token ≡ some many
      → token < length tokens
      → IsSound token character star retry
      → IsSound (suc token) character (some token) character
  IsSound-many token character star retry c hc ht below sound =
      let at_t = drop-get_elem? tokens token many ht in
      let tail = likes (drop (suc token) tokens) in
      let split : ahead token character ≡ (ahead (suc token) character || later token character) =
        rw at_t (some_suffix-cons tail (drop character value))
        ∙ ap (λ v. ahead (suc token) character || some_suffix tail v)
            (sym (drop-suc character value)) in
      (0, omega arith, below, whole star sound at_t ∙ split, λ w h. h)
    where
      whole :
          (star : Option ℕ)
          → IsSound token character star retry
          → drop token tokens ≡ many ∷ drop (suc token) tokens
          → likes tokens value ≡ ahead token character
      whole none (l, le) at_t = l
      whole (some s) (k, e, lt, l, p) at_t = elim (Bool-cases (later s retry)) [
        | inl is ↦
            let moved =
              some_suffix-map (likes (drop (suc s) tokens)) (likes (drop (suc token) tokens)) k
                (drop (suc retry) value) (λ w h. rw at_t at (p w h)) is in
            let at : suc retry + k ≡ suc character = omega arith in
            let after_c =
              rw (drop-add k (suc retry) value, at, drop-suc character value) at moved in
            let fits =
              some_suffix-drop (likes (drop (suc token) tokens)) 1 (drop character value) after_c in
            let all : ahead token character ≡ true = rw at_t fits in rw (l, all) refl
        | inr e ↦ rw (l, e) (ground arith)
      ]

  -- Where no token fits, the last `many` takes one more character.
  IsSound-retry :
      (token character s retry c : ℕ)
      → ahead token character ≡ false
      → get_elem? value character ≡ some c
      → IsSound token character (some s) retry
      → IsSound (suc s) (suc retry) (some s) (suc retry)
  IsSound-retry token character s retry c stuck hc (k, e, lt, l, p) =
      let tail = likes (drop (suc s) tokens) in
      let split : later s retry ≡ (ahead (suc s) (suc retry) || later s (suc retry)) =
        some_suffix-cons tail (drop (suc retry) value)
        ∙ ap (λ v. ahead (suc s) (suc retry) || some_suffix tail v)
            (sym (drop-suc (suc retry) value)) in
      (0, omega arith, lt, rw (l, stuck) split, λ w h. h)

  -- At the end of the text the rest of the pattern decides.
  IsSound-end :
      (token character : ℕ) (star : Option ℕ) (retry : ℕ)
      → length value ≤ character
      → IsSound token character star retry
      → likes tokens value ≡ likes (drop token tokens) []
  IsSound-end token character none retry h (l, le) = rw (drop-all character value h) at l
  IsSound-end token character (some s) retry h (k, e, lt, l, p) =
      let l' = rw (drop-all character value h) at l in
      elim (Bool-cases (later s retry)) [
        | inl is ↦
            let small : length (drop (suc retry) value) ≤ k =
              omega (arith, length-drop (suc retry) value) in
            let fits = some_suffix-short _ (likes (drop token tokens)) k _ small p is in
            ground arith
        | inr e' ↦ ground arith
      ]

  -- The rounds that are left at most: for each start of the last `many`, all tokens.
  abbrev rounds : ℕ → ℕ → ℕ
  rounds token retry = (length value - retry) * (length tokens + 2) + (length tokens + 1 - token)

  rounds-many :
      (token retry character : ℕ)
      → retry ≤ character
      → token ≤ length tokens
      → rounds (suc token) character < rounds token retry
  rounds-many token retry character h t =
      let fewer : length value - character ≤ length value - retry = omega arith in
      omega (arith, mul-le-mul_right (length tokens + 2) fewer)

  rounds-retry :
      (token retry s : ℕ)
      → retry < length value
      → token ≤ length tokens
      → rounds (suc s) (suc retry) < rounds token retry
  rounds-retry token retry s h t =
      let one_less : length value - retry ≡ suc (length value - suc retry) = omega arith in
      rw (one_less, suc-mul (length value - suc retry) (length tokens + 2)) (omega arith)

  -- A token that is there is of the one kind or the other.
  many_at : (o : Option LikeToken) → is_many o ≡ true → o ≡ some many
  many_at none h = cc
  many_at (some many) h = refl
  many_at (some one) h = cc
  many_at (some (exact e)) h = cc

  taker_at :
      (o : Option LikeToken) (c : ℕ)
      → takes o c ≡ true
      → (t : LikeToken) × (o ≡ some t) × (takes (some t) c ≡ true)
  taker_at none c h = cc
  taker_at (some t) c h = (t, refl, h)

  stuck-ahead :
      (token character c : ℕ)
      → get_elem? value character ≡ some c
      → takes (get_elem? tokens token) c ≡ false
      → is_many (get_elem? tokens token) ≡ false
      → ahead token character ≡ false
  stuck-ahead token character c e stays stuck = rw (drop-get_elem? value character c e) (
      likes-stuck (get_elem? tokens token) (drop (suc token) tokens) c (drop (suc character) value)
        stays stuck (drop token tokens) (λ t h. drop-get_elem? tokens token t h)
        (λ h. drop-get_elem?-none tokens token h))

  at_end :
      (token character : ℕ) (star : Option ℕ) (retry : ℕ)
      → get_elem? value character ≡ none
      → IsSound token character star retry
      → token ≤ length tokens
      → (skip_many (drop token tokens) token == length tokens) ≡ likes tokens value
  at_end token character star retry e i t =
      let all : length tokens ≡ token + length (drop token tokens) =
        omega (arith, length-drop token tokens) in
      let last = IsSound-end token character star retry (get_elem?-ge value character e) i in
      rw (all, last) (skip_many-likes (drop token tokens) token)

  none-IsSound :
      (token character : ℕ) (star : Option ℕ) (retry : ℕ)
      → star ≡ none
      → IsSound token character star retry
      → IsSound token character none retry
  none-IsSound token character star retry e i = rw e at i

  some-IsSound :
      (token character : ℕ) (star : Option ℕ) (retry s : ℕ)
      → star ≡ some s
      → IsSound token character star retry
      → IsSound token character (some s) retry
  some-IsSound token character star retry s e i = rw e at i

  like_loop_sound :
      (fuel token character : ℕ) (star : Option ℕ) (retry : ℕ)
      → IsSound token character star retry
      → token ≤ length tokens
      → retry ≤ character
      → rounds token retry < fuel
      → like_loop fuel tokens value token character star retry ≡ some (likes tokens value)
  unfolding like_loop
  like_loop_sound zero token character star retry i t r h = absurd (omega arith)
  like_loop_sound (suc fuel) token character star retry i t r h =
      elim (Option-cases (get_elem? value character)) [
        | inl e ↦ rw (like_loop, e) (ap some (at_end token character star retry e i t))
        | inr (c, e) ↦ elim (Bool-cases (takes (get_elem? tokens token) c)) [
          | inl fits ↦
              let (u, ht, hu) = taker_at (get_elem? tokens token) c fits in
              rw (like_loop, e, fits)
                (like_loop_sound fuel (suc token) (suc character) star retry
                  (IsSound-takes token character star retry u c e ht hu i)
                  (omega (arith, get_elem?-lt tokens token u ht)) (omega arith) (omega arith))
          | inr stays ↦ elim (Bool-cases (is_many (get_elem? tokens token))) [
            | inl wild ↦
                let ht = many_at (get_elem? tokens token) wild in
                let below = get_elem?-lt tokens token many ht in
                rw (like_loop, e, stays, wild)
                  (like_loop_sound fuel (suc token) character (some token) character
                    (IsSound-many token character star retry c e ht below i) (omega arith)
                    (omega arith) (omega (arith, rounds-many token retry character r t)))
            | inr stuck ↦
                let behind = stuck-ahead token character c e stays stuck in
                let inside = get_elem?-lt value character c e in
                elim (Option-cases star) [
                  | inl is_none ↦
                      let (l, le) = none-IsSound token character star retry is_none i in
                      rw (like_loop, e, stays, stuck, is_none, l, behind) refl
                  | inr (s, is_s) ↦
                      let i' = some-IsSound token character star retry s is_s i in
                      let (k, at, lt, l, p) = i' in
                      rw (like_loop, e, stays, stuck, is_s)
                        (like_loop_sound fuel (suc s) (suc retry) (some s) (suc retry)
                          (IsSound-retry token character s retry c behind e i') (omega arith)
                          (omega arith) (omega (arith, rounds-retry token retry s (omega arith) t)))
                ]
          ]
        ]
      ]

  -- With the fuel that the code's loop is given, the answer is the meaning of the pattern.
  pub like_loop-likes :
      like_loop (like_fuel tokens value) tokens value 0 0 none 0 ≡ some (likes tokens value)
  like_loop-likes =
      let whole : length value - 0 ≡ length value = omega arith in
      let room : rounds 0 0 < like_fuel tokens value = rw whole (omega arith) in
      like_loop_sound (like_fuel tokens value) 0 0 none 0 (refl, omega arith) (omega arith)
        (omega arith) room
