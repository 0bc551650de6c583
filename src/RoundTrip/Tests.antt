-- ===== src/RoundTrip/Tests.antt =====
-- The round trip of strings at concrete columns, and the columns of the codec's own tests.
use adbc_driver_monetdb.Prelude.{
  ℕ, zero, suc, ◌≡◌, refl, sym, ap, ◌∙◌, true, false, Option, none, some, List, [], ◌∷◌, ◌++◌,
  arith, ◌==◌, Bytes, codes, All, le_bytes, length, replicate, ℤ, ◌+ℤ◌, pos, negsuc, is_utf8, ok,
}
use adbc_driver_monetdb.Decode.Strings.{
  decode_strings, find_nul, long_backref_loop, long_backref, literal, plain_row, plain_rows,
  decode_strings_without_backrefs, backref_value, backref_row, expand, backref_rows,
  decode_strings_with_backrefs,
}
use adbc_driver_monetdb.Decode.Dates.{decode_date, is_leap, last_day, valid_ymd, decode_timestamp}
use adbc_driver_monetdb.Encode.Dates.{
  encode_date32, or_ones, date_bytes, append_date, append_timestamp, timestamp_row,
  encode_timestamp,
}
use adbc_driver_monetdb.Decode.Decimals.{decode_decimal, backing_width}
use adbc_driver_monetdb.Encode.Decimals.{encode_decimal, narrow, decimal_row}
use adbc_driver_monetdb.Decode.Plains.{decode_primitive, is_min_bits, decode_uuid}
use adbc_driver_monetdb.Encode.Plains.{
  collision, native_values, null_count, write_nulls, copy_native_with_nulls, encode_primitive,
  oid_row, encode_oid, uuid_row, encode_uuid,
}
use adbc_driver_monetdb.Encode.Fixed.{each_row}
use adbc_driver_monetdb.RoundTrip.Days.{IsCalendar, Civil, following, some-inj}
use adbc_driver_monetdb.RoundTrip.Dates.{decode_date-encode_date32}
use adbc_driver_monetdb.RoundTrip.Timestamps.{decode_timestamp-encode_timestamp}
use adbc_driver_monetdb.RoundTrip.Decimals.{decode_decimal-encode_decimal}
use adbc_driver_monetdb.RoundTrip.Plains.{
  decode_primitive-encode_primitive, decode_uuid-encode_uuid,
}
use adbc_driver_monetdb.Encode.Strings.{
  encode_strings, bytes_eq, contains_nul, seen_at, backref_groups, append_backref, append_null,
  append_string, encode_rows,
}
use adbc_driver_monetdb.Encode.Times.{append_time}
use adbc_driver_monetdb.Encode.Blobs.{encode_blobs}
use adbc_driver_monetdb.Decode.Times.{time_value}
use adbc_driver_monetdb.Decode.Blobs.{decode_blob}
use adbc_driver_monetdb.RoundTrip.Times.{time_value-append_time}
use adbc_driver_monetdb.RoundTrip.Blobs.{decode_blob-encode_blobs}
use adbc_driver_monetdb.RoundTrip.Backrefs.{long_backref-groups}
use adbc_driver_monetdb.RoundTrip.Seen.{IsValue}
use adbc_driver_monetdb.RoundTrip.Strings.{decode_strings-encode_strings}

abbrev foo_null_foo : List (Option Bytes)
foo_null_foo = some (codes "foo") ∷ none ∷ some (codes "foo") ∷ none ∷ []

abbrev foo_wire : Bytes
foo_wire = codes "foo" ++ 0 ∷ 0x80 ∷ 0 ∷ 0x82 ∷ 0x82 ∷ []

encodes_strings_with_backrefs : encode_strings foo_null_foo [] ≡ ok foo_wire
unfolding encode_strings encode_rows contains_nul seen_at bytes_eq append_null append_string
    append_backref
encodes_strings_with_backrefs = refl

decodes_strings_nulls_and_backrefs : decode_strings foo_wire 4 ≡ ok foo_null_foo
unfolding decode_strings decode_strings_without_backrefs decode_strings_with_backrefs plain_rows
    plain_row backref_rows backref_row backref_value expand literal find_nul long_backref
    long_backref_loop is_utf8
decodes_strings_nulls_and_backrefs = refl

-- The long form of 300 is two groups of seven bits.
long_backref_300 : backref_groups 10 300 ≡ 0xac ∷ 0x02 ∷ []
unfolding backref_groups
long_backref_300 = refl

long_backref-groups_example :
    long_backref (backref_groups 10 300 ++ 9 ∷ []) 400 ≡ ok (300, length (backref_groups 10 300))
long_backref-groups_example = long_backref-groups 300 400 (9 ∷ []) (omega arith)

foo_valid : All IsValue foo_null_foo
unfolding is_utf8 contains_nul
foo_valid = ((refl, refl), (tt, ((refl, refl), (tt, tt))))

decode_strings-encode_strings_example :
    decode_strings foo_wire (length foo_null_foo) ≡ ok foo_null_foo
decode_strings-encode_strings_example =
    decode_strings-encode_strings foo_null_foo foo_wire foo_valid encodes_strings_with_backrefs
      (omega arith) (omega arith) (omega arith)

time_value-append_time_example :
    (bytes : Bytes) × (append_time (pos 45_296_000_001) 0 [] ≡ ok bytes)
    × (time_value bytes 0 ≡ ok (some 45_296_000_001))
time_value-append_time_example = time_value-append_time 45_296_000_001 0 0 (omega arith)

decode_blob-encode_blobs_example :
    decode_blob (encode_blobs foo_null_foo []) (length foo_null_foo) ≡ ok foo_null_foo
decode_blob-encode_blobs_example = decode_blob-encode_blobs foo_null_foo (omega arith) (omega arith)

-- A calendar of three days.
abbrev three_days : ℤ → Option Civil
three_days (pos zero) = some (pos 1_970, 1, 1)
three_days (pos (suc zero)) = some (pos 1_970, 1, 2)
three_days (pos (suc (suc n))) = none
three_days (negsuc zero) = some (pos 1_969, 12, 31)
three_days (negsuc (suc n)) = none

three_days-valid :
    (days : ℤ) (date : Civil) → three_days days ≡ some date → valid_ymd date.0 date.1 date.2 ≡ true
unfolding valid_ymd last_day is_leap
three_days-valid (pos zero) date e = rw (sym (some-inj _ date e))
three_days-valid (pos (suc zero)) date e = rw (sym (some-inj _ date e))
three_days-valid (pos (suc (suc n))) date e = absurd (cc)
three_days-valid (negsuc zero) date e = rw (sym (some-inj _ date e))
three_days-valid (negsuc (suc n)) date e = absurd (cc)

three_days-next :
    (days : ℤ) (date later : Civil)
    → three_days days ≡ some date
    → three_days (days +ℤ pos 1) ≡ some later
    → later ≡ following date
unfolding ◌+ℤ◌ last_day is_leap
three_days-next (pos zero) date later e f =
    sym (some-inj _ later f) ∙ ap following (some-inj _ date e)
three_days-next (pos (suc zero)) date later e f = absurd (cc)
three_days-next (pos (suc (suc n))) date later e f = absurd (cc)
three_days-next (negsuc zero) date later e f =
    sym (some-inj _ later f) ∙ ap following (some-inj _ date e)
three_days-next (negsuc (suc n)) date later e f = absurd (cc)

three_days-contiguous_up :
    (n : ℕ) (later : Civil)
    → three_days (pos (suc n)) ≡ some later
    → (date : Civil) × (three_days (pos n) ≡ some date)
three_days-contiguous_up zero later e = ((pos 1_970, 1, 1), refl)
three_days-contiguous_up (suc n) later e = absurd (cc)

three_days-contiguous_down :
    (n : ℕ) (date : Civil)
    → three_days (negsuc n) ≡ some date
    → (later : Civil) × (three_days (negsuc n +ℤ pos 1) ≡ some later)
unfolding ◌+ℤ◌
three_days-contiguous_down zero date e = ((pos 1_970, 1, 1), refl)
three_days-contiguous_down (suc n) date e = absurd (cc)

three_days-IsCalendar : IsCalendar three_days
three_days-IsCalendar = record {
  epoch = refl;
  valid = three_days-valid;
  next = three_days-next;
  contiguous_up = three_days-contiguous_up;
  contiguous_down = three_days-contiguous_down;
}

abbrev dates : List (Option ℤ)
dates = some (negsuc 0) ∷ none ∷ some (pos 1) ∷ []

abbrev date_wire : Bytes
date_wire = 31 ∷ 12 ∷ 0xb1 ∷ 7 ∷ 0xff ∷ 0xff ∷ 0xff ∷ 0xff ∷ 2 ∷ 1 ∷ 0xb2 ∷ 7 ∷ []

decode_date-encode_date32_example : decode_date date_wire 3 ≡ ok dates
unfolding encode_date32 each_row or_ones append_date date_bytes le_bytes
decode_date-encode_date32_example =
    decode_date-encode_date32 three_days three_days-IsCalendar dates date_wire
      (refl, (tt, (refl, tt))) (omega arith) refl

-- One microsecond before 1970.
abbrev timestamps : List (Option ℤ)
timestamps = some (negsuc 0) ∷ none ∷ []

abbrev timestamp_wire : Bytes
timestamp_wire = 0x3f ∷ 0x42 ∷ 0x0f ∷ 0 ∷ 59 ∷ 59 ∷ 23 ∷ 0 ∷ 31 ∷ 12 ∷ 0xb1 ∷ 7 ∷ replicate 12 0xff

decode_timestamp-encode_timestamp_example : decode_timestamp timestamp_wire 2 ≡ ok timestamps
unfolding encode_timestamp each_row or_ones timestamp_row append_timestamp append_time append_date
    date_bytes le_bytes
decode_timestamp-encode_timestamp_example =
    decode_timestamp-encode_timestamp three_days three_days-IsCalendar timestamps timestamp_wire
      ((omega arith, omega arith), (tt, tt)) (omega arith) refl

abbrev amounts : List (Option ℤ)
amounts = some (negsuc 99) ∷ none ∷ some (pos 9_999) ∷ []

decode_decimal-encode_decimal_example :
    decode_decimal (0x9c ∷ 0xff ∷ 0 ∷ 0x80 ∷ 0x0f ∷ 0x27 ∷ []) 3 4 (pos 2) false ≡ ok amounts
unfolding encode_decimal each_row decimal_row narrow backing_width le_bytes
decode_decimal-encode_decimal_example =
    decode_decimal-encode_decimal amounts 4 2 (0x9c ∷ 0xff ∷ 0 ∷ 0x80 ∷ 0x0f ∷ 0x27 ∷ [])
      (omega arith) (omega arith) refl

-- Bits of 16-bit integers: -2, NULL and 5.
abbrev words : List (Option ℕ)
words = some 0xfffe ∷ none ∷ some 5 ∷ []

decode_primitive-encode_primitive_example :
    decode_primitive 2 (λ v. v == 0x8000) (0xfe ∷ 0xff ∷ 0 ∷ 0x80 ∷ 5 ∷ 0 ∷ []) 3 ≡ ok words
unfolding encode_primitive collision copy_native_with_nulls native_values null_count write_nulls
    le_bytes
decode_primitive-encode_primitive_example =
    decode_primitive-encode_primitive 2 0x8000 (omega arith) words
      (0xfe ∷ 0xff ∷ 0 ∷ 0x80 ∷ 5 ∷ 0 ∷ []) (omega arith, (tt, (omega arith, tt))) (omega arith)
      refl

abbrev one_uuid : Bytes
one_uuid = 7 ∷ replicate 15 0

decode_uuid-encode_uuid_example :
    (decode_uuid (one_uuid ++ replicate 16 0) 2 ≡ ok (some one_uuid ∷ none ∷ []))
    × (decode_primitive 8 (is_min_bits 8) (9 ∷ replicate 7 0) 1 ≡ ok (some 9 ∷ []))
unfolding encode_uuid encode_oid each_row uuid_row oid_row le_bytes
decode_uuid-encode_uuid_example =
    decode_uuid-encode_uuid (some one_uuid ∷ none ∷ []) (some 9 ∷ []) (one_uuid ++ replicate 16 0)
      (9 ∷ replicate 7 0) (refl, (tt, tt)) (omega arith) (omega arith) refl refl
