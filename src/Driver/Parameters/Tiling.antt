-- ===== src/Driver/Parameters/Tiling.antt =====
-- The slots that `scan_query` finds stand in order within the query.
use adbc_driver_monetdb.Prelude.{
  ℕ, ◌+◌, ◌≤◌, ◌<◌, min, ◌≡◌, refl, sym, inl, inr, Bool, true, false, not, ◌&&◌, ◌||◌, Option, none,
  some, arith, ◌==◌, if◌then◌else◌, Bool-cases, Option-cases, Bytes, length, get_elem?, drop,
  length-drop, ok,
}
use adbc_driver_monetdb.Driver.Metadata.Meaning.{get_elem?-lt}
use adbc_driver_monetdb.Driver.Parameters.Words.{identifier_end, is_identifier_start}
use adbc_driver_monetdb.Driver.Parameters.Lexer.{
  ScanState, is_at, on_semicolon, push_slot, on_word, Arm, is_identifier_at, quote_or_word, arm,
  semicolon, whitespace, question, named_slot, word_arm, other_char, line_comment_arm,
  block_comment_arm, quote, code_seen, is_wide_alphanumeric, on_named_slot, apply_arm, line_comment,
  block_comment, LexState, either, is_whitespace_byte, single_quote, escaped_single_quote,
  raw_single_quote, double_quote, byte_before, normal,
}
use adbc_driver_monetdb.Driver.Parameters.Scan.{scan_round}
use adbc_driver_monetdb.Driver.Parameters.Moves.{
  IsOrdered, IsOrdered-append, IsScanned, identifier_end-ge, identifier_end-le, further, Moves,
  next_char-Moves, in_escaped_quotes-Moves, in_line_comment-Moves, in_block_comment-Moves,
  in_quotes-Moves, in_single_quotes-Moves, on_semicolon-Moves, on_word-Moves,
}

-- A new slot stands behind the others, up to the new index.
push_slot-IsScanned :
    (bytes : Bytes) (name : Option (ℕ × ℕ)) (end : ℕ) (s : ScanState)
    → IsOrdered 0 s.slots (min s.index (length bytes))
    → s.index < end
    → end ≤ length bytes
    → IsScanned bytes (s.index + 1) (push_slot name end s)
unfolding push_slot
push_slot-IsScanned bytes name end s o l h =
    (omega arith, IsOrdered-append 0 _ _ s.slots _ o (omega arith) (omega arith) (omega arith))

-- What the loop needs of an arm.
data IsGood (next : Option ℕ) : Arm → Type 0 where
  good_semicolon : IsGood next semicolon
  good_whitespace : IsGood next whitespace
  good_question : IsGood next question
  good_named : is_identifier_at next ≡ true → IsGood next named_slot
  good_word : IsGood next word_arm
  good_other : IsGood next other_char
  good_line : (n : ℕ) → 0 < n → IsGood next (line_comment_arm n)
  good_block : IsGood next block_comment_arm
  good_quote : (q : LexState) (n : ℕ) → 0 < n → IsGood next (quote q n)

IsGood-if :
    (next : Option ℕ) (b : Bool) (x y : Arm)
    → (b ≡ true → IsGood next x)
    → IsGood next y
    → IsGood next (if b then x else y)
IsGood-if next true x y hx hy = hx refl
IsGood-if next false x y hx hy = hy

and_second : (a b c : Bool) → (a && b && c) ≡ true → b ≡ true
and_second a b c h = ground arith

quote_or_word-IsGood :
    (current : ℕ) (next third : Option ℕ) → IsGood next (quote_or_word current next third)
unfolding quote_or_word
quote_or_word-IsGood c next third =
    let one : 0 < 1 = omega arith in
    let two : 0 < 2 = omega arith in
    let three : 0 < 3 = omega arith in
    let raw = (either b'r' b'R' c || either b'x' b'X' c) && is_at next b'\'' in
    let escaped = either b'e' b'E' c && is_at next b'\'' in
    let unicode = either b'u' b'U' c && is_at next b'&' && is_at third b'\'' in
    let unicode_name = either b'u' b'U' c && is_at next b'&' && is_at third b'"' in
    IsGood-if next raw _ _ (λ _. good_quote raw_single_quote 2 two)
      (IsGood-if next escaped _ _ (λ _. good_quote escaped_single_quote 2 two)
        (IsGood-if next unicode _ _ (λ _. good_quote raw_single_quote 3 three)
          (IsGood-if next unicode_name _ _ (λ _. good_quote double_quote 3 three)
            (IsGood-if next (c == b'\'') _ _ (λ _. good_quote single_quote 1 one)
              (IsGood-if next (c == b'"') _ _ (λ _. good_quote double_quote 1 one)
                (IsGood-if next (is_identifier_start c) _ _ (λ _. good_word) good_other))))))

arm-IsGood :
    (current : ℕ) (next third before : Option ℕ) → IsGood next (arm current next third before)
unfolding arm
arm-IsGood c next third before =
    let one : 0 < 1 = omega arith in
    let two : 0 < 2 = omega arith in
    let named_test = c == b':' && is_identifier_at next && not (is_at before b':') in
    IsGood-if next (c == b';') _ _ (λ _. good_semicolon)
      (IsGood-if next (is_whitespace_byte c) _ _ (λ _. good_whitespace)
        (IsGood-if next (c == b'-' && is_at next b'-') _ _ (λ _. good_line 2 two)
          (IsGood-if next (c == b'#') _ _ (λ _. good_line 1 one)
            (IsGood-if next (c == b'/' && is_at next b'*') _ _ (λ _. good_block)
              (IsGood-if next (c == b'?') _ _ (λ _. good_question)
                (IsGood-if next named_test _ _ (λ h. good_named (and_second _ _ _ h))
                  (quote_or_word-IsGood c next third)))))))

-- An identifier byte after `index` is in the query.
name_room :
    (bytes : Bytes) (index : ℕ)
    → is_identifier_at (get_elem? bytes (index + 1)) ≡ true
    → index + 2 ≤ length bytes
name_room bytes index h = elim (Option-cases (get_elem? bytes (index + 1))) [
  | inl e ↦ absurd (let h' = rw e at h in cc)
  | inr (b, e) ↦ omega (arith, get_elem?-lt bytes (index + 1) b e)
]

named_slot-IsScanned :
    (is_alphanumeric : Bytes → Bool) (bytes : Bytes) (s s' : ScanState)
    → s.index + 2 ≤ length bytes
    → IsOrdered 0 s.slots (min s.index (length bytes))
    → on_named_slot is_alphanumeric bytes s ≡ ok s'
    → IsScanned bytes (s.index + 1) s'
unfolding on_named_slot
named_slot-IsScanned w bytes s s' h o e =
    let end = identifier_end (drop (s.index + 2) bytes) (s.index + 2) in
    elim (Bool-cases (is_wide_alphanumeric w (drop end bytes))) [
      | inl wide ↦ absurd (let e' = rw (on_named_slot, wide) at e in cc)
      | inr narrow ↦
          let e' = rw (on_named_slot, narrow) at e in
          let at : push_slot (some (s.index + 1, end)) end s ≡ s' = ground (arith, e') in
          rw (sym at) (
            push_slot-IsScanned bytes (some (s.index + 1, end)) end s o
              (omega (arith, identifier_end-ge (drop (s.index + 2) bytes) (s.index + 2)))
              (omega (
                arith,
                identifier_end-le (drop (s.index + 2) bytes) (s.index + 2),
                length-drop (s.index + 2) bytes,
              )))
    ]

apply_arm-IsScanned :
    (is_alphanumeric : Bytes → Bool) (bytes : Bytes) (a : Arm) (s s' : ScanState)
    → s.index < length bytes
    → IsOrdered 0 s.slots (min s.index (length bytes))
    → IsGood (get_elem? bytes (s.index + 1)) a
    → apply_arm is_alphanumeric bytes a s ≡ ok s'
    → IsScanned bytes (s.index + 1) s'
unfolding apply_arm
apply_arm-IsScanned w bytes semicolon s s' h o g e =
    let (same, on) = on_semicolon-Moves bytes s in
    let at : on_semicolon s ≡ s' = ground arith in
    rw (sym at) (further bytes s (on_semicolon s) o same on)
apply_arm-IsScanned w bytes whitespace s s' h o g e =
    let (same, on) =
      next_char-Moves bytes s s' (λ i. record s { index = i }) (λ i l. (refl, l)) e in
    further bytes s s' o same on
apply_arm-IsScanned w bytes question s s' h o g e =
    let at : push_slot none (s.index + 1) s ≡ s' = ground arith in
    rw (sym at) (push_slot-IsScanned bytes none (s.index + 1) s o (omega arith) (omega arith))
apply_arm-IsScanned w bytes named_slot s s' h o (good_named g) e =
    named_slot-IsScanned w bytes s s' (name_room bytes s.index g) o e
apply_arm-IsScanned w bytes word_arm s s' h o g e =
    let (same, on) = on_word-Moves bytes s in
    let at : on_word bytes s ≡ s' = ground arith in
    rw (sym at) (further bytes s (on_word bytes s) o same on)
apply_arm-IsScanned w bytes other_char s s' h o g e =
    let (same, on) =
      next_char-Moves bytes s s' (λ i. record (code_seen s) { index = i }) (λ i l. (refl, l)) e in
    further bytes s s' o same on
apply_arm-IsScanned w bytes (line_comment_arm n) s s' h o (good_line _ l) e =
    let t = record s { state = line_comment; index = s.index + n } in
    let at : t ≡ s' = ground arith in rw (sym at) (further bytes s t o refl (omega arith))
apply_arm-IsScanned w bytes block_comment_arm s s' h o g e =
    let t = record s { state = block_comment; index = s.index + 2 } in
    let at : t ≡ s' = ground arith in rw (sym at) (further bytes s t o refl (omega arith))
apply_arm-IsScanned w bytes (quote q n) s s' h o (good_quote _ _ l) e =
    let t = record (code_seen s) { state = q; index = s.index + n } in
    let at : t ≡ s' = ground arith in rw (sym at) (further bytes s t o refl (omega arith))

-- A round moves on, and keeps the slots in order.
pub scan_round-IsScanned :
    (is_alphanumeric : Bytes → Bool) (bytes : Bytes) (current : ℕ) (s s' : ScanState)
    → s.index < length bytes
    → IsOrdered 0 s.slots (min s.index (length bytes))
    → scan_round is_alphanumeric bytes current s ≡ ok s'
    → IsScanned bytes (s.index + 1) s'
unfolding scan_round
scan_round-IsScanned w bytes current s s' h o e = go s.state refl
  where
    next : Option ℕ
    next = get_elem? bytes (s.index + 1)

    third : Option ℕ
    third = get_elem? bytes (s.index + 2)

    moved : Moves bytes s s' → IsScanned bytes (s.index + 1) s'
    moved (same, on) = further bytes s s' o same on

    go : (l : LexState) → s.state ≡ l → IsScanned bytes (s.index + 1) s'
    go normal is =
        apply_arm-IsScanned w bytes (arm current next third (byte_before bytes s.index)) s s' h o
          (arm-IsGood current next third (byte_before bytes s.index)) (simp (scan_round, is) at e)
    go single_quote is =
        moved (in_single_quotes-Moves bytes current next s s' (simp (scan_round, is) at e))
    go escaped_single_quote is =
        moved (in_escaped_quotes-Moves bytes current next s s' (simp (scan_round, is) at e))
    go raw_single_quote is =
        moved (in_quotes-Moves bytes b'\'' current next s s' (simp (scan_round, is) at e))
    go double_quote is =
        moved (in_quotes-Moves bytes b'"' current next s s' (simp (scan_round, is) at e))
    go line_comment is =
        moved (in_line_comment-Moves bytes current s s' (simp (scan_round, is) at e))
    go block_comment is =
        moved (in_block_comment-Moves bytes current next s s' (simp (scan_round, is) at e))
