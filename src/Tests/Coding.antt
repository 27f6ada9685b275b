-- ===== src/Tests/Coding.antt =====
-- Runs of the codecs, and their theorems at concrete inputs.
use moq_rs.Coding.Errors.{err, EncodeError, DecodeError, ok}
use moq_rs.Prelude.{
  length, arith, bytes_eq, true, List, ◌^◌, refl, ◌⊎◌, [], some, ◌-◌, ltb, ◌≡◌, ◌<◌, ◌↔◌, ◌∷◌,
  if◌then◌else◌, inl,
}
use moq_rs.Coding.RoundTrip.{RoundTrips}
use moq_rs.Coding.VarInt.{encode_varint, decode_varint, encode_u64, decode_u64}
use moq_rs.Coding.VarInt.RoundTrip.{wire, decode_varint-encode_varint, encode_varint_lem}
use moq_rs.Coding.VarInt.Decode.{decode_range}
use moq_rs.Coding.Location.{Location, encode_location}
use moq_rs.Coding.Tuple.{TupleField, Tuple}
use moq_rs.Coding.TrackNamespace.{
  TrackNamespace, TrackNamespacePrefix, encode_namespace, decode_namespace, try_from, is_prefix_of,
  strip_prefix, join_suffix, overlaps, namespace_fields_byte_len,
}
use moq_rs.Coding.TrackNamespace.Wire.{
  IsNamespace, decode_namespace-encode_namespace, decode_namespace-IsNamespace,
}
use moq_rs.Coding.TrackNamespace.Prefix.{
  is_prefix_of_iff, overlaps_iff, try_from_iff, join_suffix-strip_prefix,
}

-- The vectors of the source's own tests.
encode_123 : encode_varint 123 100 ≡ ok (tt, 0x40 ∷ 0x7b ∷ [], 98)
unfolding encode_varint
encode_123 = refl

decode_16384 : decode_varint (0x80 ∷ 0x00 ∷ 0x40 ∷ 0x00 ∷ 9 ∷ []) ≡ ok (16384, 9 ∷ [])
unfolding decode_varint
decode_16384 = refl

decode_short : decode_varint (0xc0 ∷ 1 ∷ []) ≡ err (DecodeError.more 6)
unfolding decode_varint
decode_short = refl

encode_location_vector :
    encode_location (record { group_id = 12345; object_id = 67890 }) 9
    ≡ ok (tt, 0x70 ∷ 0x39 ∷ 0x80 ∷ 0x01 ∷ 0x09 ∷ 0x32 ∷ [], 3)
unfolding encode_location encode_u64 encode_varint
encode_location_vector = refl

decode_varint-encode_varint_example : RoundTrips (encode_varint 16384) decode_varint 16384
decode_varint-encode_varint_example = decode_varint-encode_varint 16384 (omega arith)

encode_varint_lem_example : encode_varint 16384 3 ≡ (
    if ltb 16384 (2 ^ 62)
    then (if ltb 3 (length (wire 16384))
        then err (EncodeError.more (length (wire 16384) - 3))
        else ok (tt, wire 16384, 3 - length (wire 16384)))
    else err EncodeError.bounds_exceeded)
encode_varint_lem_example = encode_varint_lem 16384 3

decode_range_example : 16384 < 2 ^ 62
decode_range_example =
    decode_range (0x80 ∷ 0x00 ∷ 0x40 ∷ 0x00 ∷ 9 ∷ []) (9 ∷ []) 16384 (omega arith) decode_16384

abbrev here : Location
here = record { group_id = 12345; object_id = 67890 }

abbrev pub foo : TupleField
foo = record { value = b'f' ∷ b'o' ∷ b'o' ∷ [] }

abbrev bar : TupleField
bar = record { value = b'b' ∷ b'a' ∷ b'r' ∷ [] }

abbrev pair : Tuple
pair = record { fields = foo ∷ bar ∷ [] }

abbrev pub foo_bar : TrackNamespace
foo_bar = record { fields = foo ∷ bar ∷ [] }

abbrev only_foo : TrackNamespacePrefix
only_foo = record { fields = foo ∷ [] }

abbrev only_bar : TrackNamespacePrefix
only_bar = record { fields = bar ∷ [] }

pub foo_bar-IsNamespace : IsNamespace foo_bar
foo_bar-IsNamespace = record {
  some_fields = omega arith;
  few_fields = omega arith;
  each_field = ((refl, omega arith), ((refl, omega arith), tt));
  short = unfold namespace_fields_byte_len in omega arith;
}

decode_namespace-encode_namespace_example :
    RoundTrips (encode_namespace foo_bar) decode_namespace foo_bar
decode_namespace-encode_namespace_example =
    decode_namespace-encode_namespace foo_bar foo_bar-IsNamespace

decode_foo :
    decode_namespace (1 ∷ 3 ∷ b'f' ∷ b'o' ∷ b'o' ∷ 7 ∷ [])
    ≡ ok (record { fields = foo ∷ [] }, 7 ∷ [])
unfolding decode_namespace decode_u64
decode_foo = refl

decode_namespace-IsNamespace_example : IsNamespace (record { fields = foo ∷ [] })
decode_namespace-IsNamespace_example =
    decode_namespace-IsNamespace (1 ∷ 3 ∷ b'f' ∷ b'o' ∷ b'o' ∷ 7 ∷ []) _ (7 ∷ []) decode_foo

try_from_iff_example : (try_from (foo ∷ bar ∷ []) ≡ inl foo_bar) ↔ IsNamespace foo_bar
try_from_iff_example = try_from_iff foo_bar

overlaps_iff_example : (overlaps only_foo only_bar ≡ true) ↔ (
    ((rest : List TupleField) × (foo ∷ rest ≡ bar ∷ []))
    ⊎ ((rest : List TupleField) × (bar ∷ rest ≡ foo ∷ [])))
overlaps_iff_example = overlaps_iff only_foo only_bar

is_prefix_of_iff_example :
    (is_prefix_of only_foo foo_bar ≡ true)
    ↔ ((rest : List TupleField) × (foo ∷ rest ≡ foo ∷ bar ∷ []))
is_prefix_of_iff_example = is_prefix_of_iff only_foo foo_bar

strip_foo : strip_prefix foo_bar only_foo ≡ some only_bar
unfolding strip_prefix bytes_eq
strip_foo = refl

join_suffix-strip_prefix_example : join_suffix only_foo only_bar ≡ inl foo_bar
join_suffix-strip_prefix_example =
    join_suffix-strip_prefix foo_bar only_foo only_bar foo_bar-IsNamespace strip_foo
