-- ===== src/Driver/Transactions/Infix.antt =====
-- Where the texts that the statement functions return stand in the text that they read.
use adbc_driver_monetdb.Prelude.{
  ℕ, zero, suc, ◌-◌, ◌≡◌, refl, sym, ap, Bool, true, false, ◌&&◌, ◌||◌, Option, none, some, [], ◌∷◌,
  ◌++◌, append-nil, append_assoc, arith, ◌==◌, if◌then◌else◌, Bytes, get_or, take, drop,
  take-append-drop,
}
use adbc_driver_monetdb.Exportbin.Header.{is_ascii_whitespace}
use adbc_driver_monetdb.Driver.Parameters.Template.{text_at}
use adbc_driver_monetdb.Driver.Transactions.Keywords.{
  Lead, next_is, skip_lead, split_word, between, opening, in_line, in_block, closing,
}
use adbc_driver_monetdb.Driver.Transactions.Effects.{trim_utf8, space_width, trim_front}
use mathlib.Core.Path.{subst}
use mathlib.Core.List.{reverse, reverse-append, reverse-reverse}

pub data IsSuffix (t : Bytes) : Bytes → Type 0 where
  whole : IsSuffix t t
  behind : (b : ℕ) {bs : Bytes} → IsSuffix t bs → IsSuffix t (b ∷ bs)

abbrev pub SuffixOf : Bytes → Option Bytes → Type 0
SuffixOf bs none = Unit
SuffixOf bs (some t) = IsSuffix t bs

SuffixOf-behind : (b : ℕ) (bs : Bytes) (o : Option Bytes) → SuffixOf bs o → SuffixOf (b ∷ bs) o
SuffixOf-behind b bs none h = tt
SuffixOf-behind b bs (some t) h = behind b h

SuffixOf-if :
    (test : Bool) (bs : Bytes) (x y : Option Bytes)
    → SuffixOf bs x
    → SuffixOf bs y
    → SuffixOf bs (if test then x else y)
SuffixOf-if true bs x y hx hy = hx
SuffixOf-if false bs x y hx hy = hy

pub skip_lead-suffix : (m : Lead) (bs : Bytes) → SuffixOf bs (skip_lead m bs)
unfolding skip_lead
skip_lead-suffix between [] = whole
skip_lead-suffix between (b ∷ bs) =
    let go : (m : Lead) → SuffixOf (b ∷ bs) (skip_lead m bs) =
      λ m. SuffixOf-behind b bs (skip_lead m bs) (skip_lead-suffix m bs) in
    SuffixOf-if (is_ascii_whitespace b) (b ∷ bs) (skip_lead between bs) _ (go between) (
      SuffixOf-if ((b == b'-' && next_is b'-' bs) || b == b'#') (b ∷ bs) (skip_lead in_line bs) _
        (go in_line)
        (SuffixOf-if (b == b'/' && next_is b'*' bs) (b ∷ bs) (skip_lead opening bs) (some (b ∷ bs))
          (go opening) whole))
skip_lead-suffix opening [] = tt
skip_lead-suffix opening (b ∷ bs) =
    SuffixOf-behind b bs (skip_lead in_block bs) (skip_lead-suffix in_block bs)
skip_lead-suffix in_line [] = whole
skip_lead-suffix in_line (b ∷ bs) =
    SuffixOf-if (b == b'\n') (b ∷ bs) (skip_lead between bs) (skip_lead in_line bs)
      (SuffixOf-behind b bs (skip_lead between bs) (skip_lead-suffix between bs))
      (SuffixOf-behind b bs (skip_lead in_line bs) (skip_lead-suffix in_line bs))
skip_lead-suffix in_block [] = tt
skip_lead-suffix in_block (b ∷ bs) =
    SuffixOf-if (b == b'*' && next_is b'/' bs) (b ∷ bs) (skip_lead closing bs)
      (skip_lead in_block bs)
      (SuffixOf-behind b bs (skip_lead closing bs) (skip_lead-suffix closing bs))
      (SuffixOf-behind b bs (skip_lead in_block bs) (skip_lead-suffix in_block bs))
skip_lead-suffix closing [] = tt
skip_lead-suffix closing (b ∷ bs) =
    SuffixOf-behind b bs (skip_lead between bs) (skip_lead-suffix between bs)

-- `part` stands somewhere in `text`.
abbrev pub IsInfix : Bytes → Bytes → Type 0
IsInfix part text = (front : Bytes) × (back : Bytes) × (text ≡ front ++ (part ++ back))

pub IsSuffix-infix : (t bs : Bytes) → IsSuffix t bs → IsInfix t bs
IsSuffix-infix t _ whole = ([], [], sym (append-nil t))
IsSuffix-infix t _ (behind b {bs} s) =
    let (front, back, e) = IsSuffix-infix t bs s in (b ∷ front, back, ap (◌∷◌ b) e)

pub IsInfix-trans : (a b c : Bytes) → IsInfix a b → IsInfix b c → IsInfix a c
IsInfix-trans a b c (f, g, e) (h, k, d) = (h ++ f, g ++ k, simp (d, e, append_assoc))

pub IsInfix-refl : (a : Bytes) → IsInfix a a
IsInfix-refl a = ([], [], sym (append-nil a))

pub IsInfix-reverse : (a b : Bytes) → IsInfix a b → IsInfix (reverse a) (reverse b)
IsInfix-reverse a b (f, g, e) = (reverse g, reverse f, simp (e, reverse-append, append_assoc))

pub split_word-append : (bs : Bytes) → let (word, rest) = split_word bs in bs ≡ word ++ rest
unfolding split_word
split_word-append [] = refl
split_word-append (b ∷ bs) = ground (arith, split_word-append bs)

trim_front-suffix : (r : Bool) (skip : ℕ) (bs : Bytes) → IsSuffix (trim_front r skip bs) bs
unfolding trim_front
trim_front-suffix r skip [] = whole
trim_front-suffix r (suc skip) (b ∷ bs) = behind b (trim_front-suffix r skip bs)
trim_front-suffix r zero (b ∷ bs) =
    pick (space_width r b (get_or bs 0 0) (get_or bs 1 0) == 0)
      (behind b (trim_front-suffix r (space_width r b (get_or bs 0 0) (get_or bs 1 0) - 1) bs))
  where
    pick :
        (test : Bool) {x : Bytes}
        → IsSuffix x (b ∷ bs)
        → IsSuffix (if test then b ∷ bs else x) (b ∷ bs)
    pick true h = whole
    pick false h = h

pub trim-infix : (text : Bytes) → IsInfix (trim_utf8 text) text
unfolding trim_utf8
trim-infix text =
    let front = trim_front false 0 text in
    let back = trim_front true 0 (reverse front) in
    let found =
      IsInfix-reverse back (reverse front)
        (IsSuffix-infix back (reverse front) (trim_front-suffix true 0 (reverse front))) in
    let inner : IsInfix (reverse back) front =
      subst (λ x. IsInfix (reverse back) x) (reverse-reverse front) found in
    IsInfix-trans (reverse back) front text inner
      (IsSuffix-infix front text (trim_front-suffix false 0 text))

pub text_at-infix : (query : Bytes) (range : ℕ × ℕ) → IsInfix (text_at query range) query
text_at-infix query (first, last) =
    (take first query, drop (last - first) (drop first query), simp (take-append-drop))
