-- ===== src/Coding/TrackNamespace.antt =====
-- moq-transport/src/coding/track_namespace.rs: namespaces, their prefixes and track names. The
-- text that `format!` puts into `FieldBoundsExceeded` is cut to the kind of the value.
pub mod Wire
pub mod Prefix
use moq_rs.Coding.Reader.{Decoder, decode_remaining, ◌>>◌, copy_to_slice, ◌>>=◌, reject_if, pure}
use moq_rs.Coding.Errors.{DecodeError, EncodeError}
use moq_rs.Prelude.{
  some, ◌&&◌, [], List, ℕ, inl, not, ◌⊎◌, none, ◌++◌, ◌∷◌, false, bytes_eq, Option, true, Bool, inr,
  String, ◌||◌, length, ◌+◌, drop, if◌then◌else◌, leb, ltb,
}
use moq_rs.Coding.Writer.{◌⨟◌, Encoder, refuse_if, put_slice, encode_remaining}
use moq_rs.Coding.VarInt.{encode_u64, decode_u64}
use moq_rs.Coding.Repeat.{encode_each, decode_times}
use moq_rs.Coding.Tuple.{TupleField, encode_field, decode_field, max_value_size}

-- `MAX_FULL_TRACK_NAME_LEN`
abbrev pub max_full_track_name_len : ℕ
max_full_track_name_len = 4096

-- `MAX_FIELDS` of both types.
abbrev pub max_fields : ℕ
max_fields = 32

-- `TrackNamespace` and `TrackNamespacePrefix` are both their list of fields.
pub record TrackNamespace : Type 0 where
  pub fields : List TupleField

pub record TrackNamespacePrefix : Type 0 where
  pub fields : List TupleField

pub record TrackName : Type 0 where
  pub value : List ℕ

abbrev pub is_empty : List ℕ → Bool
is_empty [] = true
is_empty (b ∷ bs) = false

unfoldable pub namespace_fields_byte_len : List TupleField → ℕ
namespace_fields_byte_len [] = 0
namespace_fields_byte_len (f ∷ fs) = length f.value + namespace_fields_byte_len fs

-- The body of the loop in `decode_namespace_fields`.
unfoldable pub decode_nonempty_field : Decoder TupleField
unfolding decode_field
decode_nonempty_field = do
  field ← decode_field
  reject_if (is_empty field.value) DecodeError.empty_namespace_field
  pure field

unfoldable pub decode_namespace_fields : ℕ → ℕ → String → Decoder (List TupleField)
unfolding decode_nonempty_field decode_times
decode_namespace_fields min_fields most kind = do
  count ← decode_u64
  reject_if (ltb count min_fields || ltb most count) (DecodeError.field_bounds_exceeded kind)
  decode_times decode_nonempty_field count

-- The body of the loop in `encode_namespace_fields`.
unfoldable pub encode_nonempty_field : TupleField → Encoder (Unit {0})
unfolding encode_field
encode_nonempty_field field =
    refuse_if (is_empty field.value) EncodeError.empty_namespace_field ⨟ encode_field field

unfoldable pub encode_namespace_fields : List TupleField → ℕ → ℕ → String → Encoder (Unit {0})
unfolding encode_nonempty_field encode_each
encode_namespace_fields fields min_fields most kind =
    refuse_if (ltb (length fields) min_fields || ltb most (length fields))
      (EncodeError.field_bounds_exceeded kind)
    ⨟ encode_u64 (length fields)
    ⨟ encode_each encode_nonempty_field fields

-- `<TrackNamespace as Decode>::decode`, with `validate_namespace_byte_len`.
unfoldable pub decode_namespace : Decoder TrackNamespace
unfolding decode_namespace_fields namespace_fields_byte_len
decode_namespace = do
  fields ← decode_namespace_fields 1 max_fields "TrackNamespace"
  reject_if (ltb max_full_track_name_len (namespace_fields_byte_len fields))
      DecodeError.track_name_too_long
  pure (record { fields = fields })

unfoldable pub encode_namespace : TrackNamespace → Encoder (Unit {0})
unfolding encode_namespace_fields namespace_fields_byte_len
encode_namespace n =
    refuse_if (ltb max_full_track_name_len (namespace_fields_byte_len n.fields))
      (EncodeError.field_bounds_exceeded "TrackNamespace")
    ⨟ encode_namespace_fields n.fields 1 max_fields "TrackNamespace"

unfoldable pub decode_prefix : Decoder TrackNamespacePrefix
unfolding decode_namespace_fields
decode_prefix = do
  fields ← decode_namespace_fields 0 max_fields "TrackNamespacePrefix"
  pure (record { fields = fields })

unfoldable pub encode_prefix : TrackNamespacePrefix → Encoder (Unit {0})
unfolding encode_namespace_fields
encode_prefix p = encode_namespace_fields p.fields 0 max_fields "TrackNamespacePrefix"

unfoldable pub decode_name : Decoder TrackName
decode_name = do
  size ← decode_u64
  reject_if (ltb max_full_track_name_len size) DecodeError.track_name_too_long
  decode_remaining size
  value ← copy_to_slice size
  pure (record { value = value })

unfoldable pub encode_name : TrackName → Encoder (Unit {0})
encode_name n =
    refuse_if (ltb max_full_track_name_len (length n.value))
      (EncodeError.field_bounds_exceeded "TrackName")
    ⨟ encode_u64 (length n.value)
    ⨟ encode_remaining (length n.value)
    ⨟ put_slice n.value

-- `full_track_name_len` and `validate_full_track_name`
unfoldable pub full_track_name_len : TrackNamespace → List ℕ → ℕ
unfolding namespace_fields_byte_len
full_track_name_len n name = namespace_fields_byte_len n.fields + length name

unfoldable pub validate_full_track_name : TrackNamespace → List ℕ → Decoder (Unit {0})
unfolding full_track_name_len
validate_full_track_name n name =
    reject_if (ltb max_full_track_name_len (full_track_name_len n name))
      DecodeError.track_name_too_long

pub data TrackNamespaceError : Type 0 where
  too_many_fields : ℕ → ℕ → TrackNamespaceError
  too_few_fields : TrackNamespaceError
  namespace_too_large : ℕ → ℕ → TrackNamespaceError
  field_too_large : ℕ → ℕ → TrackNamespaceError
  empty_field : TrackNamespaceError

-- The loop of `validate_track_namespace_fields`; `none` is `Ok(())`.
unfoldable pub validate_each : List TupleField → Option TrackNamespaceError
validate_each [] = none
validate_each (f ∷ fs) =
    if is_empty f.value
    then some empty_field
    else if ltb max_value_size (length f.value)
    then some (field_too_large (length f.value) max_value_size)
    else validate_each fs

unfoldable pub validate_track_namespace_fields :
    List TupleField → ℕ → ℕ → Option TrackNamespaceError
unfolding validate_each
validate_track_namespace_fields fields min_fields most =
    if ltb (length fields) min_fields
    then some too_few_fields
    else if ltb most (length fields)
    then some (too_many_fields (length fields) most)
    else validate_each fields

-- `TrackNamespace::try_from(fields)`
unfoldable pub try_from : List TupleField → TrackNamespace ⊎ TrackNamespaceError
unfolding validate_track_namespace_fields namespace_fields_byte_len
try_from fields = elim (validate_track_namespace_fields fields 1 max_fields) [
  | some e ↦ inr e
  | none ↦
      if ltb max_full_track_name_len (namespace_fields_byte_len fields)
      then inr (namespace_too_large (namespace_fields_byte_len fields) max_full_track_name_len)
      else inl (record { fields = fields })
]

-- `zip` and `all(==)` over the fields: equal as far as both go.
unfoldable pub zip_equal : List TupleField → List TupleField → Bool
zip_equal [] ys = true
zip_equal (x ∷ xs) [] = true
zip_equal (x ∷ xs) (y ∷ ys) = bytes_eq x.value y.value && zip_equal xs ys

unfoldable pub is_prefix_of : TrackNamespacePrefix → TrackNamespace → Bool
unfolding zip_equal
is_prefix_of p n = leb (length p.fields) (length n.fields) && zip_equal p.fields n.fields

unfoldable pub overlaps : TrackNamespacePrefix → TrackNamespacePrefix → Bool
unfolding zip_equal
overlaps p q = zip_equal p.fields q.fields

-- `self.fields[prefix.fields.len()..]`, once the prefix is known to match.
unfoldable pub strip_prefix : TrackNamespace → TrackNamespacePrefix → Option TrackNamespacePrefix
unfolding is_prefix_of
strip_prefix n p =
    if not (is_prefix_of p n)
    then none
    else some (record { fields = drop (length p.fields) n.fields })

unfoldable pub join_suffix :
    TrackNamespacePrefix → TrackNamespacePrefix → TrackNamespace ⊎ TrackNamespaceError
unfolding try_from
join_suffix p suffix = try_from (p.fields ++ suffix.fields)
