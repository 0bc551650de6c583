-- ===== src/Driver/Ingest/Targets.antt =====
-- `align_append_schema` gives every column of a stream a destination column of its own.
use adbc_driver_monetdb.Prelude.{
  ℕ, ◌≡◌, refl, sym, ap, ◌∙◌, ◌≢◌, ◌⊎◌, inl, inr, Bool, true, false, not, ◌&&◌, Option, none, some,
  List, [], ◌∷◌, arith, Bool-cases, length, get_elem?, set, replicate, Outcome, guard, ok_or,
  expect, >>=-eq-ok, ok,
}
use adbc_driver_monetdb.Wire.{
  MonetType, bool, tiny_int, small_int, int, big_int, huge_int, oid, real, double, month_interval,
  day_interval, sec_interval, date, time, time_tz, timestamp, timestamp_tz, uuid, blob, url, inet,
  inet4, inet6, json, geometry, xml, decimal, varchar,
}
use mathlib.Core.Path.{subst}
use adbc_driver_monetdb.Driver.Text.{Text}
use adbc_driver_monetdb.Driver.Ingest.Append.{
  AppendColumn, Field, AppendColumnMatch, eq_ignore_ascii_case, folded_match, matched_index,
  position_from, folded_from, append_column_index, append_monet_types_match, string_wire,
  align_field, exact, case_insensitive, ambiguous, no_column, column_named_twice,
  column_type_differs, type_not_implemented, AppendError, align_fields, align_append_schema,
}
use adbc_driver_monetdb.Driver.Ingest.Aligned.{
  IsNamed, position_from-IsNamed, folded_from-IsNamed, AreFree, Distinct, free-ne,
}

module _ {A : Type 0} where
  expect-ok : (o : Option A) (a : A) → expect {E = AppendError} o ≡ ok a → o ≡ some a
  expect-ok none a h = absurd (cc)
  expect-ok (some b) a h = cc

  ok_or-ok : (o : Option A) (e : AppendError) (a : A) → ok_or o e ≡ ok a → o ≡ some a
  ok_or-ok none e a h = absurd (cc)
  ok_or-ok (some b) e a h = cc

  ok-inj : (a b : A) → ◌≡◌ {A = Outcome AppendError A} (ok a) (ok b) → a ≡ b
  ok-inj a b h = cc

guard-ok : (b : Bool) (e : AppendError) (u : Unit {0}) → guard b e ≡ ok u → b ≡ true
guard-ok true e u h = refl
guard-ok false e u h = absurd (cc)

ok-list : (a b : List Text) → ◌≡◌ {A = Outcome AppendError (List Text)} (ok a) (ok b) → a ≡ b
ok-list a b h = cc

not-true : (b : Bool) → not b ≡ true → b ≡ false
not-true false h = refl
not-true true h = absurd (cc)

-- The types that the wire carries as texts.
pub data IsText : MonetType → Type 0 where
  varchar_text : (n : ℕ) → IsText (varchar n)
  url_text : IsText url
  json_text : IsText json

string_wire-IsText : (t : MonetType) → string_wire t ≡ true → IsText t
unfolding string_wire
string_wire-IsText (varchar n) h = varchar_text n
string_wire-IsText url h = url_text
string_wire-IsText json h = json_text
string_wire-IsText bool h = absurd (cc)
string_wire-IsText tiny_int h = absurd (cc)
string_wire-IsText small_int h = absurd (cc)
string_wire-IsText int h = absurd (cc)
string_wire-IsText big_int h = absurd (cc)
string_wire-IsText huge_int h = absurd (cc)
string_wire-IsText oid h = absurd (cc)
string_wire-IsText real h = absurd (cc)
string_wire-IsText double h = absurd (cc)
string_wire-IsText month_interval h = absurd (cc)
string_wire-IsText day_interval h = absurd (cc)
string_wire-IsText sec_interval h = absurd (cc)
string_wire-IsText date h = absurd (cc)
string_wire-IsText time h = absurd (cc)
string_wire-IsText time_tz h = absurd (cc)
string_wire-IsText timestamp h = absurd (cc)
string_wire-IsText timestamp_tz h = absurd (cc)
string_wire-IsText uuid h = absurd (cc)
string_wire-IsText blob h = absurd (cc)
string_wire-IsText inet h = absurd (cc)
string_wire-IsText inet4 h = absurd (cc)
string_wire-IsText inet6 h = absurd (cc)
string_wire-IsText geometry h = absurd (cc)
string_wire-IsText xml h = absurd (cc)
string_wire-IsText (decimal p s) h = absurd (cc)

-- A column of one type can be appended to one of the other: they are the same, or both are texts.
abbrev pub AgreeOnWire : MonetType → MonetType → Type 0
AgreeOnWire source destination = (source ≡ destination) ⊎ (IsText source × IsText destination)

module _ (type_eq : MonetType → MonetType → Bool)
    (type_eq_sound : (a b : MonetType) → type_eq a b ≡ true → a ≡ b) where
  types_match-AgreeOnWire :
      (a b : MonetType) → append_monet_types_match type_eq a b ≡ true → AgreeOnWire a b
  unfolding append_monet_types_match
  types_match-AgreeOnWire a b h = elim (Bool-cases (type_eq a b)) [
    | inl same ↦ inl (type_eq_sound a b same)
    | inr differ ↦
        let h' : (string_wire a && string_wire b) ≡ true =
          rw (append_monet_types_match, differ) at h in
        inr (
          string_wire-IsText a (both (string_wire a) (string_wire b) h').0,
          string_wire-IsText b (both (string_wire a) (string_wire b) h').1,
        )
  ]
    where
      both : (x y : Bool) → (x && y) ≡ true → (x ≡ true) × (y ≡ true)
      both true y e = (refl, e)
      both false y e = absurd (cc)

  -- The field goes to the column of an index, whose name is the target.
  abbrev pub GoesTo : List AppendColumn → Field → ℕ → Text → Type 0
  GoesTo columns field index target =
      (column : AppendColumn) × (get_elem? columns index ≡ some column)
      × (column.name ≡ target)
      × (eq_ignore_ascii_case field.field_name column.name ≡ true)
      × ((source : MonetType) × (field.monet_type ≡ some source)
          × AgreeOnWire source column.data_type)

  abbrev pub AllGoTo : List AppendColumn → List Field → List ℕ → List Text → Type 0
  AllGoTo columns [] [] [] = Unit
  AllGoTo columns (field ∷ fields) (index ∷ indices) (target ∷ targets) =
      GoesTo columns field index target × AllGoTo columns fields indices targets
  AllGoTo columns _ _ _ = ⊥

  matched_index-get :
      (name : Text) (columns : List AppendColumn) (index : ℕ)
      → matched_index name (append_column_index name columns) ≡ ok index
      → (column : AppendColumn) × (get_elem? columns index ≡ some column)
        × (eq_ignore_ascii_case name column.name ≡ true)
  unfolding append_column_index
  matched_index-get name columns index h = found (named (position_from 0 name columns) refl)
    where
      found :
          IsNamed 0 name columns index
          → (column : AppendColumn) × (get_elem? columns index ≡ some column)
            × (eq_ignore_ascii_case name column.name ≡ true)
      found (j, e, column, g, m) =
          let same : j ≡ index = omega (arith, e) in
          (column, subst (λ x. get_elem? columns x ≡ some column) same g, m)

      by_fold :
          (o : AppendColumnMatch)
          → folded_match (folded_from 0 name columns) ≡ o
          → matched_index name o ≡ ok index
          → IsNamed 0 name columns index
      by_fold (exact i) e k = absurd (no_exact (folded_from 0 name columns) i e)
        where
          no_exact : (l : List (ℕ × Text)) (i : ℕ) → folded_match l ≢ exact i
          no_exact [] i e = cc
          no_exact (a ∷ []) i e = cc
          no_exact (a ∷ b ∷ l) i e = cc
      by_fold (case_insensitive i) e k =
          let same : i ≡ index = cc in
          folded_from-IsNamed 0 name columns index (e ∙ ap case_insensitive same)
      by_fold (ambiguous names) e k = absurd (cc)
      by_fold no_column e k = absurd (cc)

      named : (o : Option ℕ) → position_from 0 name columns ≡ o → IsNamed 0 name columns index
      named (some i) e =
          let h' = rw (append_column_index, e) at h in
          let same : i ≡ index = cc in position_from-IsNamed 0 name columns index (e ∙ ap some same)
      named none e =
          by_fold (folded_match (folded_from 0 name columns)) refl
            (rw (append_column_index, e) at h)

  align_field-GoesTo :
      (field : Field) (columns : List AppendColumn) (matched : List Bool) (target : ℕ × Text)
      → align_field type_eq field columns matched ≡ ok target
      → GoesTo columns field target.0 target.1 × (get_elem? matched target.0 ≡ some false)
  unfolding align_field
  align_field-GoesTo field columns matched target h =
      let (index, m, h1) =
        >>=-eq-ok (matched_index field.field_name (append_column_index field.field_name columns)) _
          h in
      let (column, c, h2) = >>=-eq-ok (expect (get_elem? columns index)) _ h1 in
      let (before, b, h3) = >>=-eq-ok (expect (get_elem? matched index)) _ h2 in
      let (u, n, h4) = >>=-eq-ok (guard (not before) (column_named_twice column.name)) _ h3 in
      let (source, t, h5) = >>=-eq-ok (ok_or field.monet_type type_not_implemented) _ h4 in
      let (v, w, h6) =
        >>=-eq-ok
          (guard (append_monet_types_match type_eq source column.data_type)
            (column_type_differs field.field_name))
          _ h5 in
      let (column', g', m') = matched_index-get field.field_name columns index m in
      let same : column' ≡ column =
        ok-inj column' column (ap (λ o. expect {E = AppendError} o) (sym g') ∙ c) in
      let named = subst (λ x. eq_ignore_ascii_case field.field_name x.name ≡ true) same m' in
      let free =
        expect-ok (get_elem? matched index) before b
        ∙ ap some (not-true before (guard-ok (not before) _ u n)) in
      subst (λ x. GoesTo columns field x.0 x.1 × (get_elem? matched x.0 ≡ some false))
        (ok-inj (index, column.name) target h6)
        (
          (
            column,
            expect-ok (get_elem? columns index) column c,
            refl,
            named,
            (
              source,
              ok_or-ok field.monet_type _ source t,
              types_match-AgreeOnWire source column.data_type (guard-ok _ _ v w),
            ),
          ),
          free,
        )

  align_fields-GoTo :
      (fields : List Field) (columns : List AppendColumn) (matched : List Bool)
      (targets : List Text)
      → align_fields type_eq fields columns matched ≡ ok targets
      → (indices : List ℕ) × AllGoTo columns fields indices targets
        × Distinct indices
        × AreFree matched indices
  unfolding align_fields
  align_fields-GoTo [] columns matched targets h =
      let e : [] ≡ targets = cc in ([], subst (λ x. AllGoTo columns [] [] x) e tt, tt, tt)
  align_fields-GoTo (field ∷ fields) columns matched targets h =
      let (target, a, h1) = >>=-eq-ok (align_field type_eq field columns matched) _ h in
      let (rest, r, h2) =
        >>=-eq-ok (align_fields type_eq fields columns (set matched target.0 true)) _ h1 in
      let (goes, free) = align_field-GoesTo field columns matched target a in
      let (indices, all_go, distinct, are_free) =
        align_fields-GoTo fields columns (set matched target.0 true) rest r in
      let (differ, still_free) = free-ne matched target.0 indices free are_free in
      (
        target.0 ∷ indices,
        subst (λ x. AllGoTo columns (field ∷ fields) (target.0 ∷ indices) x)
            (ok-list (target.1 ∷ rest) targets h2) (goes, all_go),
        (differ, distinct),
        (free, still_free),
      )

  -- Where `align_append_schema` accepts a stream, every column of the stream goes to a destination
  -- column that has its name but for ASCII case, and its type, or both are texts (VARCHAR, URL or
  -- JSON); no two go to the same one, and the names that it returns are those columns', in the
  -- stream's order. Types that compare equal are equal.
  pub align_append_schema-GoTo :
      (fields : List Field) (columns : List AppendColumn) (targets : List Text)
      → align_append_schema type_eq fields columns ≡ ok targets
      → (indices : List ℕ) × AllGoTo columns fields indices targets × Distinct indices
  unfolding align_append_schema
  align_append_schema-GoTo fields columns targets h =
      let (indices, go, distinct, free) =
        align_fields-GoTo fields columns (replicate (length columns) false) targets h in
      (indices, go, distinct)
