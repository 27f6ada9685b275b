-- ===== src/Data/Datagram.antt =====
-- moq-transport/src/data/datagram.rs: an object in a datagram, whose end is that of the payload.
pub mod RoundTrip
use moq_rs.Prelude.{
  ℕ, Bool, true, false, not, ◌&&◌, ◌==◌, List, [], ◌∷◌, length, Option, some, none, is_some,
  if◌then◌else◌,
}
use moq_rs.Coding.Errors.{DecodeError, EncodeError, ok}
use moq_rs.Coding.Reader.{Decoder, pure, throw, ◌>>=◌, ◌>>◌, reject_if}
use moq_rs.Coding.Writer.{Encoder, ◌⨟◌, done, fail, refuse_if, encode_remaining, put_slice}
use moq_rs.Coding.VarInt.{decode_u64, encode_u64}
use moq_rs.Coding.Integer.{decode_u8, encode_u8}
use moq_rs.Data.ExtensionHeaders.{ExtensionHeaders, decode_headers, encode_headers}
use moq_rs.Data.Fetch.{is_empty}
use moq_rs.Data.Subgroup.{ObjectStatus, decode_status, encode_status, is_special, special}

pub data DatagramType : Type 0 where
  object_id_payload : DatagramType
  object_id_payload_ext : DatagramType
  object_id_payload_end_of_group : DatagramType
  object_id_payload_ext_end_of_group : DatagramType
  payload : DatagramType
  payload_ext : DatagramType
  payload_end_of_group : DatagramType
  payload_ext_end_of_group : DatagramType
  object_id_status : DatagramType
  object_id_status_ext : DatagramType

-- `*self as u64`
unfoldable pub datagram_number : DatagramType → ℕ
datagram_number DatagramType.object_id_payload = 0x0
datagram_number DatagramType.object_id_payload_ext = 0x1
datagram_number DatagramType.object_id_payload_end_of_group = 0x2
datagram_number DatagramType.object_id_payload_ext_end_of_group = 0x3
datagram_number DatagramType.payload = 0x4
datagram_number DatagramType.payload_ext = 0x5
datagram_number DatagramType.payload_end_of_group = 0x6
datagram_number DatagramType.payload_ext_end_of_group = 0x7
datagram_number DatagramType.object_id_status = 0x20
datagram_number DatagramType.object_id_status_ext = 0x21

unfoldable pub has_extension_headers : DatagramType → Bool
has_extension_headers DatagramType.object_id_payload = false
has_extension_headers DatagramType.object_id_payload_ext = true
has_extension_headers DatagramType.object_id_payload_end_of_group = false
has_extension_headers DatagramType.object_id_payload_ext_end_of_group = true
has_extension_headers DatagramType.payload = false
has_extension_headers DatagramType.payload_ext = true
has_extension_headers DatagramType.payload_end_of_group = false
has_extension_headers DatagramType.payload_ext_end_of_group = true
has_extension_headers DatagramType.object_id_status = false
has_extension_headers DatagramType.object_id_status_ext = true

unfoldable pub has_status : DatagramType → Bool
has_status DatagramType.object_id_payload = false
has_status DatagramType.object_id_payload_ext = false
has_status DatagramType.object_id_payload_end_of_group = false
has_status DatagramType.object_id_payload_ext_end_of_group = false
has_status DatagramType.payload = false
has_status DatagramType.payload_ext = false
has_status DatagramType.payload_end_of_group = false
has_status DatagramType.payload_ext_end_of_group = false
has_status DatagramType.object_id_status = true
has_status DatagramType.object_id_status_ext = true

-- The types that the matches on an object id and on a payload list.
unfoldable pub has_object_id : DatagramType → Bool
has_object_id DatagramType.object_id_payload = true
has_object_id DatagramType.object_id_payload_ext = true
has_object_id DatagramType.object_id_payload_end_of_group = true
has_object_id DatagramType.object_id_payload_ext_end_of_group = true
has_object_id DatagramType.payload = false
has_object_id DatagramType.payload_ext = false
has_object_id DatagramType.payload_end_of_group = false
has_object_id DatagramType.payload_ext_end_of_group = false
has_object_id DatagramType.object_id_status = true
has_object_id DatagramType.object_id_status_ext = true

unfoldable pub has_payload : DatagramType → Bool
has_payload DatagramType.object_id_payload = true
has_payload DatagramType.object_id_payload_ext = true
has_payload DatagramType.object_id_payload_end_of_group = true
has_payload DatagramType.object_id_payload_ext_end_of_group = true
has_payload DatagramType.payload = true
has_payload DatagramType.payload_ext = true
has_payload DatagramType.payload_end_of_group = true
has_payload DatagramType.payload_ext_end_of_group = true
has_payload DatagramType.object_id_status = false
has_payload DatagramType.object_id_status_ext = false

unfoldable pub encode_datagram_type : DatagramType → Encoder (Unit {0})
unfolding datagram_number
encode_datagram_type t = encode_u64 (datagram_number t)

unfoldable pub datagram_type_of : ℕ → Decoder DatagramType
datagram_type_of n =
    if n == 0x0
    then pure DatagramType.object_id_payload
    else if n == 0x1
    then pure DatagramType.object_id_payload_ext
    else if n == 0x2
    then pure DatagramType.object_id_payload_end_of_group
    else if n == 0x3
    then pure DatagramType.object_id_payload_ext_end_of_group
    else if n == 0x4
    then pure DatagramType.payload
    else if n == 0x5
    then pure DatagramType.payload_ext
    else if n == 0x6
    then pure DatagramType.payload_end_of_group
    else if n == 0x7
    then pure DatagramType.payload_ext_end_of_group
    else if n == 0x20
    then pure DatagramType.object_id_status
    else if n == 0x21
    then pure DatagramType.object_id_status_ext
    else throw DecodeError.invalid_datagram_type

unfoldable pub decode_datagram_type : Decoder DatagramType
unfolding datagram_type_of
decode_datagram_type = decode_u64 >>= datagram_type_of

pub record Datagram : Type 0 where
  pub datagram_type : DatagramType
  pub track_alias : ℕ
  pub group_id : ℕ
  pub object_id : Option ℕ
  pub publisher_priority : ℕ
  pub extension_headers : Option ExtensionHeaders
  pub status : Option ObjectStatus
  pub payload : Option (List ℕ)

unfoldable pub decode_some_headers : Decoder (Option ExtensionHeaders)
decode_some_headers = do
  headers ← decode_headers
  reject_if (is_empty headers) DecodeError.invalid_value
  pure (some headers)

-- `copy_to_bytes(r.remaining())`
abbrev pub rest_of : Decoder (Option (List ℕ))
rest_of r = ok (some r, [])

unfoldable pub decode_datagram : Decoder Datagram
unfolding decode_datagram_type has_object_id has_extension_headers has_status has_payload
    decode_some_headers
decode_datagram = do
  kind ← decode_datagram_type
  track_alias ← decode_u64
  group_id ← decode_u64
  object_id ← if has_object_id kind then (decode_u64 >>= λ id. pure (some id)) else pure none
  publisher_priority ← decode_u8
  extension_headers ← if has_extension_headers kind then decode_some_headers else pure none
  status ← if has_status kind then (decode_status >>= λ s. pure (some s)) else pure none
  reject_if (special status && is_some extension_headers) DecodeError.invalid_value
  bytes ← if has_payload kind then rest_of else pure none
  pure (record {
    datagram_type = kind;
    track_alias = track_alias;
    group_id = group_id;
    object_id = object_id;
    publisher_priority = publisher_priority;
    extension_headers = extension_headers;
    status = status;
    payload = bytes;
  })

unfoldable pub encode_object_id : Option ℕ → Encoder (Unit {0})
encode_object_id none = fail (EncodeError.missing_field "ObjectId")
encode_object_id (some id) = encode_u64 id

unfoldable pub encode_some_headers : Option ExtensionHeaders → Encoder (Unit {0})
encode_some_headers none = fail (EncodeError.missing_field "ExtensionHeaders")
encode_some_headers (some x) = refuse_if (is_empty x) EncodeError.invalid_value ⨟ encode_headers x

unfoldable pub encode_datagram_status :
    Option ExtensionHeaders → Option ObjectStatus → Encoder (Unit {0})
encode_datagram_status headers none = fail (EncodeError.missing_field "Status")
encode_datagram_status headers (some s) =
    refuse_if (is_some headers && is_special s) EncodeError.invalid_value ⨟ encode_status s

unfoldable pub encode_some_payload : Option (List ℕ) → Encoder (Unit {0})
encode_some_payload none = fail (EncodeError.missing_field "Payload")
encode_some_payload (some p) = encode_remaining (length p) ⨟ put_slice p

unfoldable pub encode_datagram : Datagram → Encoder (Unit {0})
unfolding encode_datagram_type has_object_id has_extension_headers has_status has_payload
    encode_object_id encode_some_headers encode_datagram_status encode_some_payload
encode_datagram d =
    let kind = d.datagram_type in
    encode_datagram_type kind
    ⨟ encode_u64 d.track_alias
    ⨟ encode_u64 d.group_id
    ⨟ (if has_object_id kind then encode_object_id d.object_id else done tt)
    ⨟ encode_u8 d.publisher_priority
    ⨟ (if has_extension_headers kind then encode_some_headers d.extension_headers else done tt)
    ⨟ (if has_status kind then encode_datagram_status d.extension_headers d.status else done tt)
    ⨟ (if has_payload kind then encode_some_payload d.payload else done tt)
