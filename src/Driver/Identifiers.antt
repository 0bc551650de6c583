-- ===== src/Driver/Identifiers.antt =====
-- `quote_identifier` and `qualified_name` of crates/adbc-monetdb/src/driver.rs.
mod Tests
use adbc_driver_monetdb.Prelude.{
  ◌≡◌, refl, sym, ap, ◌∙◌, inl, inr, true, false, ◌&&◌, Option, none, some, [], ◌∷◌, ◌++◌,
  append-nil, append_assoc, arith, ◌==◌, if◌then◌else◌, Bool-cases, Outcome, ◌>>=◌, ◌>>◌, >>=-eq-ok,
  ok, err,
}
use adbc_driver_monetdb.Driver.Text.{Text}
use adbc_driver_monetdb.Driver.Quoting.{
  has_nul, double, read_quoted, starts_quoted, read_quoted-double,
}

pub data IdentifierError : Type 0 where
  identifier_has_nul : IdentifierError

-- `identifier.replace('"', "\"\"")`
abbrev pub double_quotes : Text → Text
double_quotes = double b'"'

unfoldable pub quote_identifier : Text → Outcome IdentifierError Text
quote_identifier identifier =
    if has_nul identifier
    then err identifier_has_nul
    else ok (b'"' ∷ double_quotes identifier ++ b'"' ∷ [])

unfoldable pub qualified_name : Option Text → Text → Outcome IdentifierError Text
qualified_name none table = quote_identifier table
qualified_name (some schema) table = do
  s ← quote_identifier schema
  t ← quote_identifier table
  ok (s ++ b'.' ∷ t)

-- A name alone, or a schema, a dot and a name.
abbrev pub read_rest : Text → Text → Option (Option Text × Text)
read_rest name [] = some (none, name)
read_rest name (c ∷ []) = none
read_rest name (c ∷ d ∷ text) = elim (c == b'.' && d == b'"') [
  | false ↦ none
  | true ↦ elim (read_quoted b'"' text) [
    | none ↦ none
    | some (table, []) ↦ some (some name, table)
    | some (table, e ∷ rest) ↦ none
  ]
]

abbrev pub read_name : Text → Option (Option Text × Text)
read_name [] = none
read_name (c ∷ text) = elim (c == b'"') [
  | false ↦ none
  | true ↦ elim (read_quoted b'"' text) [ none ↦ none | some (name, rest) ↦ read_rest name rest ]
]

-- What `quote_identifier` returns, with what may follow it.
quoted_read :
    (name quoted rest : Text)
    → quote_identifier name ≡ ok quoted
    → starts_quoted b'"' rest ≡ false
    → (text : Text) × (quoted ++ rest ≡ b'"' ∷ text) × (read_quoted b'"' text ≡ some (name, rest))
unfolding quote_identifier
quoted_read name quoted rest h f = elim (Bool-cases (has_nul name)) [
  | inl e ↦ absurd (let h' = rw (quote_identifier, e) at h in cc)
  | inr e ↦
      let h' = rw (quote_identifier, e) at h in
      let same : b'"' ∷ double_quotes name ++ b'"' ∷ [] ≡ quoted = ground (arith, h') in
      (
        double_quotes name ++ b'"' ∷ rest,
        rw (sym same) (append_assoc (b'"' ∷ double_quotes name) (b'"' ∷ []) rest),
        read_quoted-double b'"' name rest f,
      )
]

read_name-read_rest :
    (text name rest : Text)
    → read_quoted b'"' text ≡ some (name, rest)
    → read_name (b'"' ∷ text) ≡ read_rest name rest
read_name-read_rest text name rest e = rw (read_name, e) refl

read_rest-table :
    (text schema table : Text)
    → read_quoted b'"' text ≡ some (table, [])
    → read_rest schema (b'.' ∷ b'"' ∷ text) ≡ some (some schema, table)
read_rest-table text schema table e = rw (read_rest, e) refl

-- The name that `qualified_name` returns is read back by the rules of quoted SQL identifiers as the
-- schema, if there is one, and the table: no character of either can end its quotes.
pub qualified_name-read :
    (schema : Option Text) (table name : Text)
    → qualified_name schema table ≡ ok name
    → read_name name ≡ some (schema, table)
unfolding qualified_name
qualified_name-read none table name h =
    let (text, at, read) = quoted_read table name [] h refl in
    let whole : name ≡ b'"' ∷ text = sym (append-nil name) ∙ at in
    rw whole (read_name-read_rest text table [] read)
qualified_name-read (some schema) table name h =
    let (s, hs, h') = >>=-eq-ok (quote_identifier schema) _ h in
    let (t, ht, same) = >>=-eq-ok (quote_identifier table) _ h' in
    let (u, at_u, read_u) = quoted_read table t [] ht refl in
    let is_t : t ≡ b'"' ∷ u = sym (append-nil t) ∙ at_u in
    let (v, at_v, read_v) = quoted_read schema s (b'.' ∷ t) hs refl in
    let whole : s ++ b'.' ∷ t ≡ name = ground (arith, same) in
    rw (sym whole, at_v)
      (read_name-read_rest v schema (b'.' ∷ t) read_v
        ∙ ap (λ r. read_rest schema (b'.' ∷ r)) is_t
        ∙ read_rest-table u schema table read_u)
