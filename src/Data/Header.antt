-- ===== src/Data/Header.antt =====
-- moq-transport/src/data/header.rs, with `SubgroupHeader` of subgroup.rs and `FetchHeader` of
-- fetch.rs there: what opens a stream of objects. Its type says which fields follow.
pub mod RoundTrip
use moq_rs.Prelude.{ℕ, Bool, true, false, ◌&&◌, ◌==◌, leb, Option, some, none, if◌then◌else◌}
use moq_rs.Coding.Errors.{DecodeError, EncodeError}
use moq_rs.Coding.Reader.{Decoder, pure, throw, ◌>>=◌, ◌>>◌}
use moq_rs.Coding.Writer.{Encoder, ◌⨟◌, done, fail}
use moq_rs.Coding.VarInt.{decode_u64, encode_u64}
use moq_rs.Coding.Integer.{decode_u8, encode_u8}

pub data StreamHeaderType : Type 0 where
  subgroup_zero_id : StreamHeaderType
  subgroup_zero_id_ext : StreamHeaderType
  subgroup_first_object_id : StreamHeaderType
  subgroup_first_object_id_ext : StreamHeaderType
  subgroup_id : StreamHeaderType
  subgroup_id_ext : StreamHeaderType
  subgroup_zero_id_end_of_group : StreamHeaderType
  subgroup_zero_id_ext_end_of_group : StreamHeaderType
  subgroup_first_object_id_end_of_group : StreamHeaderType
  subgroup_first_object_id_ext_end_of_group : StreamHeaderType
  subgroup_id_end_of_group : StreamHeaderType
  subgroup_id_ext_end_of_group : StreamHeaderType
  fetch : StreamHeaderType

-- `*self as u64`
unfoldable pub type_number : StreamHeaderType → ℕ
type_number StreamHeaderType.subgroup_zero_id = 0x10
type_number StreamHeaderType.subgroup_zero_id_ext = 0x11
type_number StreamHeaderType.subgroup_first_object_id = 0x12
type_number StreamHeaderType.subgroup_first_object_id_ext = 0x13
type_number StreamHeaderType.subgroup_id = 0x14
type_number StreamHeaderType.subgroup_id_ext = 0x15
type_number StreamHeaderType.subgroup_zero_id_end_of_group = 0x18
type_number StreamHeaderType.subgroup_zero_id_ext_end_of_group = 0x19
type_number StreamHeaderType.subgroup_first_object_id_end_of_group = 0x1a
type_number StreamHeaderType.subgroup_first_object_id_ext_end_of_group = 0x1b
type_number StreamHeaderType.subgroup_id_end_of_group = 0x1c
type_number StreamHeaderType.subgroup_id_ext_end_of_group = 0x1d
type_number StreamHeaderType.fetch = 0x5

unfoldable pub is_subgroup : StreamHeaderType → Bool
unfolding type_number
is_subgroup t = leb 0x10 (type_number t) && leb (type_number t) 0x1d

unfoldable pub is_fetch : StreamHeaderType → Bool
is_fetch StreamHeaderType.subgroup_zero_id = false
is_fetch StreamHeaderType.subgroup_zero_id_ext = false
is_fetch StreamHeaderType.subgroup_first_object_id = false
is_fetch StreamHeaderType.subgroup_first_object_id_ext = false
is_fetch StreamHeaderType.subgroup_id = false
is_fetch StreamHeaderType.subgroup_id_ext = false
is_fetch StreamHeaderType.subgroup_zero_id_end_of_group = false
is_fetch StreamHeaderType.subgroup_zero_id_ext_end_of_group = false
is_fetch StreamHeaderType.subgroup_first_object_id_end_of_group = false
is_fetch StreamHeaderType.subgroup_first_object_id_ext_end_of_group = false
is_fetch StreamHeaderType.subgroup_id_end_of_group = false
is_fetch StreamHeaderType.subgroup_id_ext_end_of_group = false
is_fetch StreamHeaderType.fetch = true

unfoldable pub has_extension_headers : StreamHeaderType → Bool
has_extension_headers StreamHeaderType.subgroup_zero_id = false
has_extension_headers StreamHeaderType.subgroup_zero_id_ext = true
has_extension_headers StreamHeaderType.subgroup_first_object_id = false
has_extension_headers StreamHeaderType.subgroup_first_object_id_ext = true
has_extension_headers StreamHeaderType.subgroup_id = false
has_extension_headers StreamHeaderType.subgroup_id_ext = true
has_extension_headers StreamHeaderType.subgroup_zero_id_end_of_group = false
has_extension_headers StreamHeaderType.subgroup_zero_id_ext_end_of_group = true
has_extension_headers StreamHeaderType.subgroup_first_object_id_end_of_group = false
has_extension_headers StreamHeaderType.subgroup_first_object_id_ext_end_of_group = true
has_extension_headers StreamHeaderType.subgroup_id_end_of_group = false
has_extension_headers StreamHeaderType.subgroup_id_ext_end_of_group = true
has_extension_headers StreamHeaderType.fetch = true

unfoldable pub has_subgroup_id : StreamHeaderType → Bool
has_subgroup_id StreamHeaderType.subgroup_zero_id = false
has_subgroup_id StreamHeaderType.subgroup_zero_id_ext = false
has_subgroup_id StreamHeaderType.subgroup_first_object_id = false
has_subgroup_id StreamHeaderType.subgroup_first_object_id_ext = false
has_subgroup_id StreamHeaderType.subgroup_id = true
has_subgroup_id StreamHeaderType.subgroup_id_ext = true
has_subgroup_id StreamHeaderType.subgroup_zero_id_end_of_group = false
has_subgroup_id StreamHeaderType.subgroup_zero_id_ext_end_of_group = false
has_subgroup_id StreamHeaderType.subgroup_first_object_id_end_of_group = false
has_subgroup_id StreamHeaderType.subgroup_first_object_id_ext_end_of_group = false
has_subgroup_id StreamHeaderType.subgroup_id_end_of_group = true
has_subgroup_id StreamHeaderType.subgroup_id_ext_end_of_group = true
has_subgroup_id StreamHeaderType.fetch = false

unfoldable pub uses_first_object_id_as_subgroup_id : StreamHeaderType → Bool
uses_first_object_id_as_subgroup_id StreamHeaderType.subgroup_zero_id = false
uses_first_object_id_as_subgroup_id StreamHeaderType.subgroup_zero_id_ext = false
uses_first_object_id_as_subgroup_id StreamHeaderType.subgroup_first_object_id = true
uses_first_object_id_as_subgroup_id StreamHeaderType.subgroup_first_object_id_ext = true
uses_first_object_id_as_subgroup_id StreamHeaderType.subgroup_id = false
uses_first_object_id_as_subgroup_id StreamHeaderType.subgroup_id_ext = false
uses_first_object_id_as_subgroup_id StreamHeaderType.subgroup_zero_id_end_of_group = false
uses_first_object_id_as_subgroup_id StreamHeaderType.subgroup_zero_id_ext_end_of_group = false
uses_first_object_id_as_subgroup_id StreamHeaderType.subgroup_first_object_id_end_of_group = true
uses_first_object_id_as_subgroup_id StreamHeaderType.subgroup_first_object_id_ext_end_of_group =
    true
uses_first_object_id_as_subgroup_id StreamHeaderType.subgroup_id_end_of_group = false
uses_first_object_id_as_subgroup_id StreamHeaderType.subgroup_id_ext_end_of_group = false
uses_first_object_id_as_subgroup_id StreamHeaderType.fetch = false

unfoldable pub encode_header_type : StreamHeaderType → Encoder (Unit {0})
unfolding type_number
encode_header_type t = encode_u64 (type_number t)

unfoldable pub header_type_of : ℕ → Decoder StreamHeaderType
header_type_of n =
    if n == 0x10
    then pure StreamHeaderType.subgroup_zero_id
    else if n == 0x11
    then pure StreamHeaderType.subgroup_zero_id_ext
    else if n == 0x12
    then pure StreamHeaderType.subgroup_first_object_id
    else if n == 0x13
    then pure StreamHeaderType.subgroup_first_object_id_ext
    else if n == 0x14
    then pure StreamHeaderType.subgroup_id
    else if n == 0x15
    then pure StreamHeaderType.subgroup_id_ext
    else if n == 0x18
    then pure StreamHeaderType.subgroup_zero_id_end_of_group
    else if n == 0x19
    then pure StreamHeaderType.subgroup_zero_id_ext_end_of_group
    else if n == 0x1a
    then pure StreamHeaderType.subgroup_first_object_id_end_of_group
    else if n == 0x1b
    then pure StreamHeaderType.subgroup_first_object_id_ext_end_of_group
    else if n == 0x1c
    then pure StreamHeaderType.subgroup_id_end_of_group
    else if n == 0x1d
    then pure StreamHeaderType.subgroup_id_ext_end_of_group
    else if n == 0x5
    then pure StreamHeaderType.fetch
    else throw DecodeError.invalid_header_type

unfoldable pub decode_header_type : Decoder StreamHeaderType
unfolding header_type_of
decode_header_type = decode_u64 >>= header_type_of

pub record SubgroupHeader : Type 0 where
  pub header_type : StreamHeaderType
  pub track_alias : ℕ
  pub group_id : ℕ
  pub subgroup_id : Option ℕ
  pub publisher_priority : ℕ

unfoldable pub decode_subgroup_header : StreamHeaderType → Decoder SubgroupHeader
unfolding has_subgroup_id
decode_subgroup_header header_type = do
  track_alias ← decode_u64
  group_id ← decode_u64
  subgroup ←
      if has_subgroup_id header_type then (decode_u64 >>= λ id. pure (some id)) else pure none
  publisher_priority ← decode_u8
  pure (record {
    header_type = header_type;
    track_alias = track_alias;
    group_id = group_id;
    subgroup_id = subgroup;
    publisher_priority = publisher_priority;
  })

unfoldable pub encode_subgroup_id : Option ℕ → Encoder (Unit {0})
encode_subgroup_id none = fail (EncodeError.missing_field "SubgroupId")
encode_subgroup_id (some id) = encode_u64 id

unfoldable pub encode_subgroup_header : SubgroupHeader → Encoder (Unit {0})
unfolding encode_header_type has_subgroup_id encode_subgroup_id
encode_subgroup_header h =
    encode_header_type h.header_type
    ⨟ encode_u64 h.track_alias
    ⨟ encode_u64 h.group_id
    ⨟ (if has_subgroup_id h.header_type then encode_subgroup_id h.subgroup_id else done tt)
    ⨟ encode_u8 h.publisher_priority

pub record FetchHeader : Type 0 where
  pub header_type : StreamHeaderType
  pub request_id : ℕ

unfoldable pub decode_fetch_header : StreamHeaderType → Decoder FetchHeader
decode_fetch_header header_type =
    decode_u64 >>= λ id. pure (record { header_type = header_type; request_id = id })

unfoldable pub encode_fetch_header : FetchHeader → Encoder (Unit {0})
unfolding encode_header_type
encode_fetch_header h = encode_header_type h.header_type ⨟ encode_u64 h.request_id

pub record StreamHeader : Type 0 where
  pub header_type : StreamHeaderType
  pub subgroup_header : Option SubgroupHeader
  pub fetch_header : Option FetchHeader

-- What follows the type.
unfoldable pub decode_parts : StreamHeaderType → Decoder StreamHeader
unfolding is_subgroup is_fetch decode_subgroup_header decode_fetch_header
decode_parts header_type = do
  subgroup_header ←
      if is_subgroup header_type
      then (decode_subgroup_header header_type >>= λ h. pure (some h))
      else pure none
  fetch_header ←
      if is_fetch header_type
      then (decode_fetch_header header_type >>= λ h. pure (some h))
      else pure none
  pure (record {
    header_type = header_type;
    subgroup_header = subgroup_header;
    fetch_header = fetch_header;
  })

unfoldable pub decode_stream_header : Decoder StreamHeader
unfolding decode_header_type decode_parts
decode_stream_header = decode_header_type >>= decode_parts

unfoldable pub encode_stream_header : StreamHeader → Encoder (Unit {0})
unfolding is_subgroup encode_subgroup_header encode_fetch_header
encode_stream_header h =
    if is_subgroup h.header_type
    then (elim h.subgroup_header [
      | none ↦ fail (EncodeError.missing_field "SubgroupHeader")
      | some s ↦ encode_subgroup_header s
    ])
    else (elim h.fetch_header [
      | none ↦ fail (EncodeError.missing_field "FetchHeader")
      | some f ↦ encode_fetch_header f
    ])
