-- ===== src/Driver/Parameters/Tiles.antt =====
-- `compile_query`: the segments of a template and the parameters between them are the whole query.
use adbc_driver_monetdb.Prelude.{
  ℕ, zero, suc, ◌+◌, ◌-◌, ◌≤◌, ◌≡◌, refl, sym, ap, ◌∙◌, Bool, List, [], ◌∷◌, ◌++◌, append-nil,
  append_assoc, arith, leb, Bytes, length, take, drop, Outcome, guard, map_err, >>=-eq-ok, ok, err,
  panic,
}
use adbc_driver_monetdb.Driver.Metadata.Meaning.{drop-add}
use adbc_driver_monetdb.Driver.Parameters.Lexer.{ScannedSlot, ScanError}
use adbc_driver_monetdb.Driver.Parameters.Scan.{scan_query, QueryScan}
use adbc_driver_monetdb.Driver.Parameters.Template.{
  text_at, CompileState, parameter_slot, compile_slot, compile_slots, QueryTemplate,
  initial_compile, compile_query, scan_error, multiple_statements,
}
use adbc_driver_monetdb.Driver.Parameters.Moves.{IsOrdered}
use adbc_driver_monetdb.Driver.Parameters.Scanned.{scan_query-IsOrdered}

-- The texts of the segments and of the scanned slots in turn.
abbrev pub weave : Bytes → List (ℕ × ℕ) → List ScannedSlot → Bytes
weave bytes [] slots = []
weave bytes (segment ∷ segments) [] = text_at bytes segment ++ weave bytes segments []
weave bytes (segment ∷ segments) (s ∷ slots) =
    text_at bytes segment ++ text_at bytes s.range ++ weave bytes segments slots

-- The segments before each slot, and the rest of the query, from `first` on.
abbrev cuts : ℕ → List ScannedSlot → ℕ → List (ℕ × ℕ)
cuts first [] last = (first, last) ∷ []
cuts first (s ∷ slots) last = (first, s.range.0) ∷ cuts s.range.1 slots last

take-nil : (n : ℕ) → take {A = ℕ} n [] ≡ []
take-nil zero = refl
take-nil (suc n) = refl

take-add : (m n : ℕ) (bytes : Bytes) → take m bytes ++ take n (drop m bytes) ≡ take (m + n) bytes
take-add zero n bytes = let e : 0 + n ≡ n = omega arith in rw e refl
take-add (suc m) n [] = rw (take-nil n, take-nil (suc m + n)) refl
take-add (suc m) n (b ∷ bytes) =
    let e : suc m + n ≡ suc (m + n) = omega arith in rw e (ap (λ t. b ∷ t) (take-add m n bytes))

text_at-append :
    (bytes : Bytes) (a b c : ℕ)
    → a ≤ b
    → b ≤ c
    → text_at bytes (a, b) ++ text_at bytes (b, c) ≡ text_at bytes (a, c)
text_at-append bytes a b c h k =
    let middle : a + (b - a) ≡ b = omega arith in
    let whole : b - a + (c - b) ≡ c - a = omega arith in
    let from_b = rw middle at (drop-add (b - a) a bytes) in
    rw (sym from_b) (rw whole at (take-add (b - a) (c - b) (drop a bytes)))

IsOrdered-ends : (a b : ℕ) (slots : List ScannedSlot) → IsOrdered a slots b → a ≤ b
IsOrdered-ends a b [] h = h
IsOrdered-ends a b (s ∷ slots) (x, y, z) = omega (arith, IsOrdered-ends s.range.1 b slots z)

weave-cuts :
    (bytes : Bytes) (first : ℕ) (slots : List ScannedSlot)
    → IsOrdered first slots (length bytes)
    → weave bytes (cuts first slots (length bytes)) slots ≡ text_at bytes (first, length bytes)
weave-cuts bytes first [] o = append-nil _
weave-cuts bytes first (s ∷ slots) (a, b, c) =
    let end = IsOrdered-ends s.range.1 (length bytes) slots c in
    let before = text_at-append bytes first s.range.0 s.range.1 a b in
    rw (before, weave-cuts bytes s.range.1 slots c)
      (text_at-append bytes first s.range.1 (length bytes) (omega arith) end)

compile_slot-cut :
    (bytes : Bytes) (s : ScannedSlot) (c d : CompileState)
    → compile_slot bytes s c ≡ ok d
    → (d.segment_start ≡ s.range.1) × (d.segments ≡ c.segments ++ (c.segment_start, s.range.0) ∷ [])
unfolding compile_slot
compile_slot-cut bytes s c d h =
    let (r, is, same) = >>=-eq-ok (parameter_slot bytes s c) _ h in
    (ground (arith, same), ground (arith, same))

compile_slots-cuts :
    (bytes : Bytes) (slots : List ScannedSlot) (c d : CompileState) (last : ℕ)
    → compile_slots bytes slots c ≡ ok d
    → d.segments ++ (d.segment_start, last) ∷ [] ≡ c.segments ++ cuts c.segment_start slots last
unfolding compile_slots
compile_slots-cuts bytes [] c d last h = let same : c ≡ d = ground arith in rw same refl
compile_slots-cuts bytes (s ∷ slots) c d last h =
    let (e, is, rest) = >>=-eq-ok (compile_slot bytes s c) _ h in
    let (at, segs) = compile_slot-cut bytes s c e is in
    let tail = compile_slots-cuts bytes slots e d last rest in
    tail ∙ rw (at, segs) (append_assoc c.segments _ _)

map_err-eq-ok :
    (r : Outcome ScanError QueryScan) (scan : QueryScan)
    → map_err scan_error r ≡ ok scan
    → r ≡ ok scan
map_err-eq-ok (ok a) scan h = ground arith
map_err-eq-ok (err e) scan h = cc
map_err-eq-ok panic scan h = cc

take-all : (bytes : Bytes) → take (length bytes) bytes ≡ bytes
take-all [] = refl
take-all (b ∷ bytes) = ap (λ t. b ∷ t) (take-all bytes)

text_at-whole : (bytes : Bytes) → text_at bytes (0, length bytes) ≡ bytes
text_at-whole bytes = let e : length bytes - 0 ≡ length bytes = omega arith in rw e (take-all bytes)

-- Where `compile_query` accepts a query, the texts of the template's segments, with the texts of the
-- parameters that `scan_query` found between them, are the query, byte for byte.
pub compile_query-weave :
    (is_alphanumeric : Bytes → Bool) (bytes : Bytes) (t : QueryTemplate)
    → compile_query is_alphanumeric bytes ≡ ok t
    → (scan : QueryScan) × (scan_query is_alphanumeric bytes ≡ ok scan)
      × (weave bytes t.segments scan.slots ≡ bytes)
unfolding compile_query
compile_query-weave w bytes t h =
    let (scan, is, rest) = >>=-eq-ok (map_err scan_error (scan_query w bytes)) _ h in
    let (u, one, rest') =
      >>=-eq-ok (guard (leb (length scan.statements) 1) multiple_statements) _ rest in
    let (c, compiled, last) = >>=-eq-ok (compile_slots bytes scan.slots initial_compile) _ rest' in
    let scanned : scan_query w bytes ≡ ok scan = map_err-eq-ok (scan_query w bytes) scan is in
    let cut = compile_slots-cuts bytes scan.slots initial_compile c (length bytes) compiled in
    let segments : t.segments ≡ cuts 0 scan.slots (length bytes) =
      sym (ground (arith, last)) ∙ cut in
    (
      scan,
      scanned,
      rw segments (
          weave-cuts bytes 0 scan.slots (scan_query-IsOrdered w bytes scan scanned)
          ∙ text_at-whole bytes),
    )
