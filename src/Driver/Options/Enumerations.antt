-- ===== src/Driver/Options/Enumerations.antt =====
-- The enumerations among the options take their own texts, and no others.
use adbc_driver_monetdb.Prelude.{
  ◌≡◌, refl, ap, ◌∙◌, ◌↔◌, inl, inr, some, if◌then◌else◌, Bool-cases, Bytes, Outcome, ok, err,
}
use adbc_driver_monetdb.Driver.Text.{text_eq, text_eq→eq}
use adbc_driver_monetdb.Driver.Options.Keys.{tuning_option_from_uri_key, tuning_uri_key}
use adbc_driver_monetdb.Driver.Options.Laws.{tuning_uri_key-option}
use adbc_driver_monetdb.Driver.Options.Values.{
  OptionValue, OptionError, IngestPartial, ingest_partial_text, parse_ingest_partial,
  IngestAtomicity, ingest_atomicity_text, parse_ingest_atomicity, ConstrainedAppend,
  constrained_append_text, parse_constrained_append, WireCompression, wire_compression_text,
  parse_wire_compression, string_value, bytes_value, int_value, double_value, block, allow,
  transaction, savepoint, append_auto, append_direct, no_compression, auto_compression, lz4,
  unknown_value,
}

-- A test for the text of one value, before the tests for the others.
taken :
    {A : Type 0} (text_of : A → Bytes) (text : Bytes) (x a : A) (rest : Outcome OptionError A)
    → (rest ≡ ok a → text ≡ text_of a)
    → (if text_eq text (text_of x) then ok x else rest) ≡ ok a
    → text ≡ text_of a
taken text_of text x a rest later h = elim (Bool-cases (text_eq text (text_of x))) [
  | inl same ↦
      let h' = rw same at h in
      let x_is_a : x ≡ a = cc in text_eq→eq text (text_of x) same ∙ ap text_of x_is_a
  | inr differs ↦ later (rw differs at h)
]

ingest_partial_taken :
    (value : OptionValue) (a : IngestPartial)
    → parse_ingest_partial value ≡ ok a
    → value ≡ string_value (ingest_partial_text a)
unfolding parse_ingest_partial ingest_partial_text
ingest_partial_taken (int_value i) a h = absurd (cc)
ingest_partial_taken (double_value i) a h = absurd (cc)
ingest_partial_taken (bytes_value b) a h = absurd (cc)
ingest_partial_taken (string_value text) a h = ap string_value (
    taken ingest_partial_text text block a _
      (taken ingest_partial_text text allow a (err unknown_value) (λ none_left. absurd (cc))) h)

ingest_atomicity_taken :
    (value : OptionValue) (a : IngestAtomicity)
    → parse_ingest_atomicity value ≡ ok a
    → value ≡ string_value (ingest_atomicity_text a)
unfolding parse_ingest_atomicity ingest_atomicity_text
ingest_atomicity_taken (int_value i) a h = absurd (cc)
ingest_atomicity_taken (double_value i) a h = absurd (cc)
ingest_atomicity_taken (bytes_value b) a h = absurd (cc)
ingest_atomicity_taken (string_value text) a h = ap string_value (
    taken ingest_atomicity_text text transaction a _
      (taken ingest_atomicity_text text savepoint a (err unknown_value) (λ none_left. absurd (cc)))
      h)

constrained_append_taken :
    (value : OptionValue) (a : ConstrainedAppend)
    → parse_constrained_append value ≡ ok a
    → value ≡ string_value (constrained_append_text a)
unfolding parse_constrained_append constrained_append_text
constrained_append_taken (int_value i) a h = absurd (cc)
constrained_append_taken (double_value i) a h = absurd (cc)
constrained_append_taken (bytes_value b) a h = absurd (cc)
constrained_append_taken (string_value text) a h = ap string_value (
    taken constrained_append_text text append_auto a _
      (taken constrained_append_text text append_direct a (err unknown_value)
        (λ none_left. absurd (cc)))
      h)

wire_compression_taken :
    (value : OptionValue) (a : WireCompression)
    → parse_wire_compression value ≡ ok a
    → value ≡ string_value (wire_compression_text a)
unfolding parse_wire_compression wire_compression_text
wire_compression_taken (int_value i) a h = absurd (cc)
wire_compression_taken (double_value i) a h = absurd (cc)
wire_compression_taken (bytes_value b) a h = absurd (cc)
wire_compression_taken (string_value text) a h = ap string_value (
    taken wire_compression_text text no_compression a _
      (taken wire_compression_text text auto_compression a _
        (taken wire_compression_text text lz4 a (err unknown_value) (λ none_left. absurd (cc))))
      h)

ingest_partial_back :
    (a : IngestPartial) → parse_ingest_partial (string_value (ingest_partial_text a)) ≡ ok a
unfolding parse_ingest_partial ingest_partial_text text_eq
ingest_partial_back block = refl
ingest_partial_back allow = refl

ingest_atomicity_back :
    (a : IngestAtomicity) → parse_ingest_atomicity (string_value (ingest_atomicity_text a)) ≡ ok a
unfolding parse_ingest_atomicity ingest_atomicity_text text_eq
ingest_atomicity_back transaction = refl
ingest_atomicity_back savepoint = refl

constrained_append_back :
    (a : ConstrainedAppend)
    → parse_constrained_append (string_value (constrained_append_text a)) ≡ ok a
unfolding parse_constrained_append constrained_append_text text_eq
constrained_append_back append_auto = refl
constrained_append_back append_direct = refl

wire_compression_back :
    (a : WireCompression) → parse_wire_compression (string_value (wire_compression_text a)) ≡ ok a
unfolding parse_wire_compression wire_compression_text text_eq
wire_compression_back no_compression = refl
wire_compression_back auto_compression = refl
wire_compression_back lz4 = refl

exact :
    {A : Type 0} (parse : OptionValue → Outcome OptionError A) (text_of : A → Bytes)
    → ((value : OptionValue) (a : A) → parse value ≡ ok a → value ≡ string_value (text_of a))
    → ((a : A) → parse (string_value (text_of a)) ≡ ok a)
    → (value : OptionValue) (a : A) → (parse value ≡ ok a) ↔ (value ≡ string_value (text_of a))
exact parse text_of there back value a = (there value a, λ e. ap parse e ∙ back a)

-- What the options are called and set to is read exactly: a key in a URI names an option if and only
-- if the option names that key, and each of the four enumerations is read from its own text as a
-- string, which is what the option is printed as, and from no other value.
pub option_texts-exact :
    (key option : Bytes) (value : OptionValue) (p : IngestPartial) (a : IngestAtomicity)
    (c : ConstrainedAppend) (w : WireCompression)
    → ((tuning_option_from_uri_key key ≡ some option) ↔ (tuning_uri_key option ≡ some key))
      × ((parse_ingest_partial value ≡ ok p) ↔ (value ≡ string_value (ingest_partial_text p)))
      × ((parse_ingest_atomicity value ≡ ok a) ↔ (value ≡ string_value (ingest_atomicity_text a)))
      × ((parse_constrained_append value ≡ ok c)
          ↔ (value ≡ string_value (constrained_append_text c)))
      × ((parse_wire_compression value ≡ ok w) ↔ (value ≡ string_value (wire_compression_text w)))
option_texts-exact key option value p a c w = (
  tuning_uri_key-option key option,
  exact parse_ingest_partial ingest_partial_text ingest_partial_taken ingest_partial_back value p,
  exact parse_ingest_atomicity ingest_atomicity_text ingest_atomicity_taken ingest_atomicity_back
      value a,
  exact parse_constrained_append constrained_append_text constrained_append_taken
      constrained_append_back value c,
  exact parse_wire_compression wire_compression_text wire_compression_taken wire_compression_back
      value w,
)
