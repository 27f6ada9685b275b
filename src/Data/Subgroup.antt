-- ===== src/Data/Subgroup.antt =====
-- moq-transport/src/data/object_status.rs, and the objects of a subgroup stream in subgroup.rs
-- there. The payload follows outside of them.
pub mod RoundTrip
use moq_rs.Prelude.{
  ℕ, ◌==◌, Bool, true, false, not, ◌&&◌, Option, some, none, if◌then◌else◌, refl, arith,
}
use moq_rs.Coding.Errors.{DecodeError, EncodeError}
use moq_rs.Coding.Reader.{Decoder, pure, throw, ◌>>=◌, ◌>>◌, reject_if}
use moq_rs.Coding.Writer.{Encoder, ◌⨟◌, done, fail, refuse_if}
use moq_rs.Coding.RoundTrip.{RoundTrips, RoundTrips-then}
use moq_rs.Coding.VarInt.{decode_u64, encode_u64}
use moq_rs.Coding.VarInt.RoundTrip.{decode_u64-encode_u64}
use moq_rs.Data.ExtensionHeaders.{ExtensionHeaders, decode_headers, encode_headers}
use moq_rs.Data.Fetch.{is_empty}

pub data ObjectStatus : Type 0 where
  normal_object end_of_group end_of_track : ObjectStatus

-- `*self as u64`
unfoldable pub status_number : ObjectStatus → ℕ
status_number normal_object = 0x0
status_number end_of_group = 0x3
status_number end_of_track = 0x4

unfoldable pub status_of : ℕ → Decoder ObjectStatus
status_of n =
    if n == 0x0
    then pure normal_object
    else if n == 0x3
    then pure end_of_group
    else if n == 0x4
    then pure end_of_track
    else throw DecodeError.invalid_object_status

unfoldable pub decode_status : Decoder ObjectStatus
unfolding status_of
decode_status = decode_u64 >>= status_of

unfoldable pub encode_status : ObjectStatus → Encoder (Unit {0})
unfolding status_number
encode_status s = encode_u64 (status_number s)

pub status-RoundTrips : (s : ObjectStatus) → RoundTrips (encode_status s) decode_status s
unfolding encode_status decode_status status_of status_number
status-RoundTrips normal_object =
    RoundTrips-then _ decode_u64 _ 0 _ (decode_u64-encode_u64 0 (omega arith)) (λ rest. refl)
status-RoundTrips end_of_group =
    RoundTrips-then _ decode_u64 _ 3 _ (decode_u64-encode_u64 3 (omega arith)) (λ rest. refl)
status-RoundTrips end_of_track =
    RoundTrips-then _ decode_u64 _ 4 _ (decode_u64-encode_u64 4 (omega arith)) (λ rest. refl)

pub record SubgroupObject : Type 0 where
  pub object_id_delta : ℕ
  pub payload_length : ℕ
  pub status : Option ObjectStatus

-- The status is there when the payload is empty.
unfoldable pub status_if_empty : ℕ → Decoder (Option ObjectStatus)
unfolding decode_status
status_if_empty payload_length =
    if payload_length == 0 then (decode_status >>= λ s. pure (some s)) else pure none

unfoldable pub decode_subgroup_object : Decoder SubgroupObject
unfolding status_if_empty
decode_subgroup_object = do
  object_id_delta ← decode_u64
  payload_length ← decode_u64
  status ← status_if_empty payload_length
  pure (record {
    object_id_delta = object_id_delta;
    payload_length = payload_length;
    status = status;
  })

unfoldable pub encode_some_status : Option ObjectStatus → Encoder (Unit {0})
unfolding encode_status
encode_some_status none = fail (EncodeError.missing_field "Status")
encode_some_status (some s) = encode_status s

unfoldable pub encode_subgroup_object : SubgroupObject → Encoder (Unit {0})
unfolding encode_some_status
encode_subgroup_object o =
    encode_u64 o.object_id_delta
    ⨟ encode_u64 o.payload_length
    ⨟ (if o.payload_length == 0 then encode_some_status o.status else done tt)

pub record SubgroupObjectExt : Type 0 where
  pub object_id_delta : ℕ
  pub extension_headers : ExtensionHeaders
  pub payload_length : ℕ
  pub status : Option ObjectStatus

-- `status != ObjectStatus::NormalObject`
abbrev pub is_special : ObjectStatus → Bool
is_special normal_object = false
is_special end_of_group = true
is_special end_of_track = true

-- `status.is_some_and(special)`
abbrev pub special : Option ObjectStatus → Bool
special none = false
special (some s) = is_special s

unfoldable pub decode_subgroup_object_ext : Decoder SubgroupObjectExt
unfolding status_if_empty
decode_subgroup_object_ext = do
  object_id_delta ← decode_u64
  extension_headers ← decode_headers
  payload_length ← decode_u64
  status ← status_if_empty payload_length
  reject_if (special status && not (is_empty extension_headers)) DecodeError.invalid_value
  pure (record {
    object_id_delta = object_id_delta;
    extension_headers = extension_headers;
    payload_length = payload_length;
    status = status;
  })

unfoldable pub encode_ext_status : ExtensionHeaders → Option ObjectStatus → Encoder (Unit {0})
unfolding encode_status
encode_ext_status headers none = fail (EncodeError.missing_field "Status")
encode_ext_status headers (some s) =
    refuse_if (is_special s && not (is_empty headers)) EncodeError.invalid_value ⨟ encode_status s

unfoldable pub encode_subgroup_object_ext : SubgroupObjectExt → Encoder (Unit {0})
unfolding encode_ext_status
encode_subgroup_object_ext o =
    encode_u64 o.object_id_delta
    ⨟ encode_headers o.extension_headers
    ⨟ encode_u64 o.payload_length
    ⨟ (if o.payload_length == 0 then encode_ext_status o.extension_headers o.status else done tt)
