-- ===== src/Driver/Quoting.antt =====
-- Quotes in SQL texts: `replace` of a quote by two of it, and how SQL reads the result, for the
-- identifiers and the string literals of crates/adbc-monetdb/src/driver.rs.
use adbc_driver_monetdb.Prelude.{
  ℕ, ◌≡◌, refl, ap, inl, inr, Bool, true, false, ◌||◌, Option, none, some, [], ◌∷◌, ◌++◌, arith,
  ◌==◌, if◌then◌else◌, Bool-cases,
}
use adbc_driver_monetdb.Driver.Text.{Text}

abbrev pub has_nul : Text → Bool
has_nul [] = false
has_nul (c ∷ text) = c == 0 || has_nul text

-- `text.replace(quote, …)`, where the quote is one character.
abbrev pub double : ℕ → Text → Text
double quote [] = []
double quote (c ∷ text) =
    if c == quote then quote ∷ quote ∷ double quote text else c ∷ double quote text

abbrev pub prepend : ℕ → Option (Text × Text) → Option (Text × Text)
prepend c none = none
prepend c (some (name, rest)) = some (c ∷ name, rest)

-- How SQL reads a quoted text behind its first quote: two quotes are one, and a single one ends it.
-- The result is the text and what follows.
abbrev pub read_quoted : ℕ → Text → Option (Text × Text)
read_quoted quote [] = none
read_quoted quote (c ∷ []) = if c == quote then some ([], []) else none
read_quoted quote (c ∷ d ∷ text) =
    let doubled = read_quoted quote text in
    let single = read_quoted quote (d ∷ text) in
    if c == quote
    then (if d == quote then prepend c doubled else some ([], d ∷ text))
    else prepend c single

abbrev pub starts_quoted : ℕ → Text → Bool
starts_quoted quote [] = false
starts_quoted quote (c ∷ text) = c == quote

quote-same : (quote : ℕ) → (quote == quote) ≡ true
quote-same quote = ground arith

read_end :
    (quote : ℕ) (rest : Text)
    → starts_quoted quote rest ≡ false
    → read_quoted quote (quote ∷ rest) ≡ some ([], rest)
read_end quote [] h = rw (quote-same quote) refl
read_end quote (c ∷ rest) h = rw (quote-same quote, h) refl

read_plain :
    (quote c : ℕ) (text : Text) (name rest : Text)
    → (c == quote) ≡ false
    → read_quoted quote text ≡ some (name, rest)
    → read_quoted quote (c ∷ text) ≡ some (c ∷ name, rest)
read_plain quote c [] name rest h e = cc
read_plain quote c (d ∷ text) name rest h e = rw (h, e) refl

pub read_quoted-double :
    (quote : ℕ) (name rest : Text)
    → starts_quoted quote rest ≡ false
    → read_quoted quote (double quote name ++ quote ∷ rest) ≡ some (name, rest)
read_quoted-double quote [] rest h = read_end quote rest h
read_quoted-double quote (c ∷ name) rest h = elim (Bool-cases (c == quote)) [
  | inl e ↦
      let is : quote ≡ c = ground arith in
      rw (e, quote-same quote, read_quoted-double quote name rest h)
        (ap (λ d. some (d ∷ name, rest)) is)
  | inr e ↦ rw e (read_plain quote c _ name rest e (read_quoted-double quote name rest h))
]
