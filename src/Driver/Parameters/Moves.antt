-- ===== src/Driver/Parameters/Moves.antt =====
-- Slots in order, and the arms of `scan_query` that add no slot.
use adbc_driver_monetdb.Prelude.{
  ℕ, ◌+◌, ◌≤◌, ◌<◌, min, ◌≡◌, refl, sym, inl, inr, ◌&&◌, Option, List, [], ◌∷◌, ◌++◌, arith, ltb,
  ◌==◌, Bool-cases, Bytes, length, drop, ◌>>=◌, >>=-eq-ok, ok,
}
use adbc_driver_monetdb.Driver.Parameters.Procedural.{semicolon_is_internal}
use adbc_driver_monetdb.Driver.Parameters.Words.{is_identifier_continue, identifier_end}
use adbc_driver_monetdb.Driver.Parameters.Lexer.{
  ScanState, ScannedSlot, next_char, is_at, on_semicolon, on_word,
}
use adbc_driver_monetdb.Driver.Parameters.Scan.{
  after_quote, in_escaped_quotes, in_line_comment, in_quotes, in_single_quotes, in_block_comment,
}

-- The slots follow one another between `a` and `b`.
abbrev pub IsOrdered : ℕ → List ScannedSlot → ℕ → Type 0
IsOrdered a [] b = a ≤ b
IsOrdered a (s ∷ slots) b = (a ≤ s.range.0) × (s.range.0 ≤ s.range.1) × IsOrdered s.range.1 slots b

pub IsOrdered-le :
    (a b c : ℕ) (slots : List ScannedSlot) → IsOrdered a slots b → b ≤ c → IsOrdered a slots c
IsOrdered-le a b c [] h l = omega arith
IsOrdered-le a b c (s ∷ slots) (x, y, z) l = (x, y, IsOrdered-le s.range.1 b c slots z l)

pub IsOrdered-append :
    (a b c : ℕ) (slots : List ScannedSlot) (s : ScannedSlot)
    → IsOrdered a slots b
    → b ≤ s.range.0
    → s.range.0 ≤ s.range.1
    → s.range.1 ≤ c
    → IsOrdered a (slots ++ s ∷ []) c
IsOrdered-append a b c [] s h x y z = (omega arith, y, z)
IsOrdered-append a b c (t ∷ slots) s (p, q, r) x y z =
    (p, q, IsOrdered-append t.range.1 b c slots s r x y z)

-- The index does not go back, and the slots stand before it and in the query.
abbrev pub IsScanned : Bytes → ℕ → ScanState → Type 0
IsScanned bytes index s = (index ≤ s.index) × IsOrdered 0 s.slots (min s.index (length bytes))

pub identifier_end-ge : (bytes : Bytes) (end : ℕ) → end ≤ identifier_end bytes end
unfolding identifier_end
identifier_end-ge [] end = omega arith
identifier_end-ge (b ∷ bytes) end = elim (Bool-cases (is_identifier_continue b)) [
  | inl e ↦ rw (identifier_end, e) (omega (arith, identifier_end-ge bytes (end + 1)))
  | inr e ↦ rw (identifier_end, e) (omega arith)
]

pub identifier_end-le : (bytes : Bytes) (end : ℕ) → identifier_end bytes end ≤ end + length bytes
unfolding identifier_end
identifier_end-le [] end = omega arith
identifier_end-le (b ∷ bytes) end = elim (Bool-cases (is_identifier_continue b)) [
  | inl e ↦ rw (identifier_end, e) (omega (arith, identifier_end-le bytes (end + 1)))
  | inr e ↦ rw (identifier_end, e) (omega arith)
]

next_char-gt : (bytes : Bytes) (index i : ℕ) → next_char bytes index ≡ ok i → index < i
unfolding next_char
next_char-gt bytes index i h = ground arith

-- The same slots at an index further on.
pub further :
    (bytes : Bytes) (s s' : ScanState)
    → IsOrdered 0 s.slots (min s.index (length bytes))
    → s'.slots ≡ s.slots
    → s.index < s'.index
    → IsScanned bytes (s.index + 1) s'
further bytes s s' o e l = (omega arith, rw e (IsOrdered-le 0 _ _ s.slots o (omega arith)))

-- A round that changes no slot and sets the index behind the next character or later.
abbrev pub Moves : Bytes → ScanState → ScanState → Type 0
Moves bytes s s' = (s'.slots ≡ s.slots) × (s.index < s'.index)

after_quote-Moves :
    (bytes : Bytes) (q current : ℕ) (next : Option ℕ) (i : ℕ) (s : ScanState)
    → s.index < i
    → Moves bytes s (after_quote q current next i s)
after_quote-Moves bytes q current next i s h = elim (Bool-cases (current == q)) [
  | inl e ↦ elim (Bool-cases (is_at next q)) [
    | inl e' ↦ rw (e, e') (refl, omega arith)
    | inr e' ↦ rw (e, e') (refl, h)
  ]
  | inr e ↦ rw e (refl, h)
]

-- A round that takes the next character and goes on from there.
pub next_char-Moves :
    (bytes : Bytes) (s s' : ScanState) (f : ℕ → ScanState)
    → ((i : ℕ) → s.index < i → Moves bytes s (f i))
    → (next_char bytes s.index >>= λ i. ok (f i)) ≡ ok s'
    → Moves bytes s s'
next_char-Moves bytes s s' f h e =
    let (i, is, same) = >>=-eq-ok (next_char bytes s.index) (λ i. ok (f i)) e in
    let at : f i ≡ s' = ground arith in rw (sym at) (h i (next_char-gt bytes s.index i is))

pub in_escaped_quotes-Moves :
    (bytes : Bytes) (current : ℕ) (next : Option ℕ) (s s' : ScanState)
    → in_escaped_quotes bytes current next s ≡ ok s'
    → Moves bytes s s'
unfolding in_escaped_quotes
in_escaped_quotes-Moves bytes current next s s' e =
    let (i, is, at) = >>=-eq-ok (next_char bytes s.index) _ e in
    let moved = next_char-gt bytes s.index i is in
    elim (Bool-cases (current == b'\\' && ltb i (length bytes))) [
      | inl slash ↦
          let (k, is', at') =
            >>=-eq-ok (next_char bytes i) (λ j. ok (record s { index = j })) (rw slash at at) in
          let moved' = next_char-gt bytes i k is' in
          let same : record s { index = k } ≡ s' = ground arith in rw (sym same) (refl, omega arith)
      | inr plain ↦
          let same : after_quote b'\'' current next i s ≡ s' =
            let e' = rw plain at at in ground (arith, e') in
          rw (sym same) (after_quote-Moves bytes b'\'' current next i s moved)
    ]

pub in_line_comment-Moves :
    (bytes : Bytes) (current : ℕ) (s s' : ScanState)
    → in_line_comment bytes current s ≡ ok s'
    → Moves bytes s s'
unfolding in_line_comment
in_line_comment-Moves bytes current s s' e =
    next_char-Moves bytes s s' _
      (λ i h. elim (Bool-cases (current == 10)) [
        | inl is ↦ rw is (refl, h)
        | inr is ↦ rw is (refl, h)
      ])
      e

pub in_block_comment-Moves :
    (bytes : Bytes) (current : ℕ) (next : Option ℕ) (s s' : ScanState)
    → in_block_comment bytes current next s ≡ ok s'
    → Moves bytes s s'
unfolding in_block_comment
in_block_comment-Moves bytes current next s s' e =
    next_char-Moves bytes s s' _
      (λ i h. elim (Bool-cases (current == b'*' && is_at next b'/')) [
        | inl is ↦ rw is (refl, omega arith)
        | inr is ↦ rw is (refl, h)
      ])
      e

pub in_quotes-Moves :
    (bytes : Bytes) (q current : ℕ) (next : Option ℕ) (s s' : ScanState)
    → in_quotes bytes q current next s ≡ ok s'
    → Moves bytes s s'
unfolding in_quotes
in_quotes-Moves bytes q current next s s' e =
    next_char-Moves bytes s s' _ (λ i h. after_quote-Moves bytes q current next i s h) e

pub in_single_quotes-Moves :
    (bytes : Bytes) (current : ℕ) (next : Option ℕ) (s s' : ScanState)
    → in_single_quotes bytes current next s ≡ ok s'
    → Moves bytes s s'
unfolding in_single_quotes
in_single_quotes-Moves bytes current next s s' e =
    elim (Bool-cases (current == b'\\' && is_at next b'\'')) [
      | inl is ↦ absurd (let e' = rw (in_single_quotes, is) at e in cc)
      | inr is ↦ in_quotes-Moves bytes b'\'' current next s s' (rw (in_single_quotes, is) at e)
    ]

pub on_semicolon-Moves : (bytes : Bytes) (s : ScanState) → Moves bytes s (on_semicolon s)
unfolding on_semicolon
on_semicolon-Moves bytes s = elim (Bool-cases (semicolon_is_internal s.procedural_scan).0) [
  | inl e ↦ rw (on_semicolon, e) (refl, omega arith)
  | inr e ↦ rw (on_semicolon, e) (refl, omega arith)
]

pub on_word-Moves : (bytes : Bytes) (s : ScanState) → Moves bytes s (on_word bytes s)
unfolding on_word
on_word-Moves bytes s =
    (refl, omega (arith, identifier_end-ge (drop (s.index + 1) bytes) (s.index + 1)))
