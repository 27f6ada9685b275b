-- ===== src/Message/Frame.antt =====
-- `Message` of moq-transport/src/message/mod.rs, which the macro `message_types!` writes: a control
-- message behind its type and the length of its payload. `Vec` has room for `isize::MAX` bytes.
pub mod Wire
pub mod RoundTrip
pub mod Arms
pub mod Cut
use moq_rs.Prelude.{
  ℕ, ◌-◌, ◌^◌, ◌%◌, Bool, List, [], ◌∷◌, length, ltb, ◌==◌, if◌then◌else◌, Option, some, none,
}
use moq_rs.Coding.Errors.{Outcome, ok, err, panicked, DecodeError, EncodeError}
use moq_rs.Coding.Reader.{Decoder, pure, ◌>>=◌, ◌>>◌, decode_remaining, copy_to_slice}
use moq_rs.Coding.Writer.{Encoder, ◌⨟◌, refuse_if, encode_remaining, put_slice}
use moq_rs.Coding.VarInt.{decode_u64, encode_u64}
use moq_rs.Coding.Integer.{decode_u16, encode_u16}
use moq_rs.Message.Params.{
  RequestUpdate, decode_request_update, encode_request_update, RequestOk, decode_request_ok,
  encode_request_ok, PublishNamespace, decode_publish_namespace, encode_publish_namespace,
  PublishOk, decode_publish_ok, encode_publish_ok, MaxRequestId, decode_max_request_id,
  encode_max_request_id, RequestsBlocked, decode_requests_blocked, encode_requests_blocked,
}
use moq_rs.Message.Reasons.{
  RequestError, decode_request_error, encode_request_error, PublishNamespaceCancel, decode_cancel,
  encode_cancel, PublishDone, decode_publish_done, encode_publish_done, GoAway, decode_go_away,
  encode_go_away,
}
use moq_rs.Message.Subscribe.{
  Subscribe, decode_subscribe, encode_subscribe, TrackStatus, decode_track_status,
  encode_track_status, SubscribeNamespace, decode_subscribe_namespace, encode_subscribe_namespace,
}
use moq_rs.Message.Extensions.{
  SubscribeOk, decode_subscribe_ok, encode_subscribe_ok, Publish, decode_publish, encode_publish,
  FetchOk, decode_fetch_ok, encode_fetch_ok,
}
use moq_rs.Message.Singles.{
  Unsubscribe, decode_unsubscribe, encode_unsubscribe, Namespace, decode_namespace_message,
  encode_namespace_message, PublishNamespaceDone, decode_publish_namespace_done,
  encode_publish_namespace_done, NamespaceDone, decode_namespace_done, encode_namespace_done,
  FetchCancel, decode_fetch_cancel, encode_fetch_cancel,
}
use moq_rs.Message.Fetch.{Fetch, decode_fetch, encode_fetch}

pub data Message : Type 0 where
  request_update : RequestUpdate → Message
  request_error : RequestError → Message
  request_ok : RequestOk → Message
  subscribe : Subscribe → Message
  subscribe_ok : SubscribeOk → Message
  unsubscribe : Unsubscribe → Message
  publish_namespace : PublishNamespace → Message
  namespace : Namespace → Message
  publish_namespace_done : PublishNamespaceDone → Message
  namespace_done : NamespaceDone → Message
  publish_namespace_cancel : PublishNamespaceCancel → Message
  track_status : TrackStatus → Message
  publish : Publish → Message
  publish_done : PublishDone → Message
  publish_ok : PublishOk → Message
  fetch : Fetch → Message
  fetch_cancel : FetchCancel → Message
  fetch_ok : FetchOk → Message
  subscribe_namespace : SubscribeNamespace → Message
  go_away : GoAway → Message
  max_request_id : MaxRequestId → Message
  requests_blocked : RequestsBlocked → Message
  unknown : ℕ → List ℕ → Message

-- `Message::id`
unfoldable pub message_id : Message → ℕ
message_id (Message.request_update m) = 0x2
message_id (Message.request_error m) = 0x5
message_id (Message.request_ok m) = 0x7
message_id (Message.subscribe m) = 0x3
message_id (Message.subscribe_ok m) = 0x4
message_id (Message.unsubscribe m) = 0xa
message_id (Message.publish_namespace m) = 0x6
message_id (Message.namespace m) = 0x8
message_id (Message.publish_namespace_done m) = 0x9
message_id (Message.namespace_done m) = 0xe
message_id (Message.publish_namespace_cancel m) = 0xc
message_id (Message.track_status m) = 0xd
message_id (Message.publish m) = 0x1d
message_id (Message.publish_done m) = 0xb
message_id (Message.publish_ok m) = 0x1e
message_id (Message.fetch m) = 0x16
message_id (Message.fetch_cancel m) = 0x17
message_id (Message.fetch_ok m) = 0x18
message_id (Message.subscribe_namespace m) = 0x11
message_id (Message.go_away m) = 0x10
message_id (Message.max_request_id m) = 0x15
message_id (Message.requests_blocked m) = 0x1a
message_id (Message.unknown t payload) = t

-- The arm of a type, `Self::$name($name::decode(&mut payload)?)`.
abbrev pub arm : {A : Type 0} → Decoder A → (A → Message) → Option (Decoder Message)
arm dec wrap = some (dec >>= λ m. pure (wrap m))

-- `match t` of `decode`
unfoldable pub payload_decoder : (List ℕ → Bool) → ℕ → Option (Decoder Message)
payload_decoder is_utf8 t =
    if t == 0x2
    then arm decode_request_update Message.request_update
    else if t == 0x5
    then arm (decode_request_error is_utf8) Message.request_error
    else if t == 0x7
    then arm decode_request_ok Message.request_ok
    else if t == 0x3
    then arm decode_subscribe Message.subscribe
    else if t == 0x4
    then arm decode_subscribe_ok Message.subscribe_ok
    else if t == 0xa
    then arm decode_unsubscribe Message.unsubscribe
    else if t == 0x6
    then arm decode_publish_namespace Message.publish_namespace
    else if t == 0x8
    then arm decode_namespace_message Message.namespace
    else if t == 0x9
    then arm decode_publish_namespace_done Message.publish_namespace_done
    else if t == 0xe
    then arm decode_namespace_done Message.namespace_done
    else if t == 0xc
    then arm (decode_cancel is_utf8) Message.publish_namespace_cancel
    else if t == 0xd
    then arm decode_track_status Message.track_status
    else if t == 0x1d
    then arm decode_publish Message.publish
    else if t == 0xb
    then arm (decode_publish_done is_utf8) Message.publish_done
    else if t == 0x1e
    then arm decode_publish_ok Message.publish_ok
    else if t == 0x16
    then arm decode_fetch Message.fetch
    else if t == 0x17
    then arm decode_fetch_cancel Message.fetch_cancel
    else if t == 0x18
    then arm decode_fetch_ok Message.fetch_ok
    else if t == 0x11
    then arm decode_subscribe_namespace Message.subscribe_namespace
    else if t == 0x10
    then arm (decode_go_away is_utf8) Message.go_away
    else if t == 0x15
    then arm decode_max_request_id Message.max_request_id
    else if t == 0x1a
    then arm decode_requests_blocked Message.requests_blocked
    else none

-- The payload, cut out of the buffer, and the check that nothing of it is left.
unfoldable pub decode_payload : (List ℕ → Bool) → ℕ → List ℕ → Decoder Message
unfolding payload_decoder
decode_payload is_utf8 t payload rest = elim (payload_decoder is_utf8 t) [
  | none ↦ ok (Message.unknown t payload, rest)
  | some dec ↦ elim (dec payload) [
    | ok (msg, left) ↦
        if ltb 0 (length left) then err (DecodeError.invalid_message t) else ok (msg, rest)
    | err e ↦ err e
    | panicked ↦ panicked
  ]
]

unfoldable pub decode_message : (List ℕ → Bool) → Decoder Message
unfolding decode_payload
decode_message is_utf8 = do
  t ← decode_u64
  len ← decode_u16
  decode_remaining len
  payload ← copy_to_slice len
  decode_payload is_utf8 t payload

-- `m.encode` of the arm of each type; that of `Unknown` has the payload at hand.
unfoldable pub encode_payload : Message → Encoder (Unit {0})
encode_payload (Message.request_update m) = encode_request_update m
encode_payload (Message.request_error m) = encode_request_error m
encode_payload (Message.request_ok m) = encode_request_ok m
encode_payload (Message.subscribe m) = encode_subscribe m
encode_payload (Message.subscribe_ok m) = encode_subscribe_ok m
encode_payload (Message.unsubscribe m) = encode_unsubscribe m
encode_payload (Message.publish_namespace m) = encode_publish_namespace m
encode_payload (Message.namespace m) = encode_namespace_message m
encode_payload (Message.publish_namespace_done m) = encode_publish_namespace_done m
encode_payload (Message.namespace_done m) = encode_namespace_done m
encode_payload (Message.publish_namespace_cancel m) = encode_cancel m
encode_payload (Message.track_status m) = encode_track_status m
encode_payload (Message.publish m) = encode_publish m
encode_payload (Message.publish_done m) = encode_publish_done m
encode_payload (Message.publish_ok m) = encode_publish_ok m
encode_payload (Message.fetch m) = encode_fetch m
encode_payload (Message.fetch_cancel m) = encode_fetch_cancel m
encode_payload (Message.fetch_ok m) = encode_fetch_ok m
encode_payload (Message.subscribe_namespace m) = encode_subscribe_namespace m
encode_payload (Message.go_away m) = encode_go_away m
encode_payload (Message.max_request_id m) = encode_max_request_id m
encode_payload (Message.requests_blocked m) = encode_requests_blocked m
encode_payload (Message.unknown t payload) = put_slice payload

-- `remaining_mut` of an empty `Vec`
abbrev pub vec_room : ℕ
vec_room = 2 ^ 63 - 1

-- `let mut buf = Vec::new(); m.encode(&mut buf)?`
abbrev pub into_vec : Encoder (Unit {0}) → (List ℕ → Encoder (Unit {0})) → Encoder (Unit {0})
into_vec m k room = elim (m vec_room) [
  | ok (u, buf, left) ↦ k buf room
  | err e ↦ err e
  | panicked ↦ panicked
]

unfoldable pub encode_framed : List ℕ → Encoder (Unit {0})
encode_framed buf =
    refuse_if (ltb (2 ^ 16 - 1) (length buf)) EncodeError.msg_bounds_exceeded
    ⨟ encode_u16 (length buf % 2 ^ 16)
    ⨟ encode_remaining (length buf)
    ⨟ put_slice buf

unfoldable pub encode_message : Message → Encoder (Unit {0})
unfolding encode_payload message_id encode_framed
encode_message m = encode_u64 (message_id m) ⨟ into_vec (encode_payload m) encode_framed

-- `Message::sequenced_request_id`
unfoldable pub sequenced_request_id : Message → Option ℕ
sequenced_request_id (Message.request_update m) = some m.id
sequenced_request_id (Message.request_error m) = none
sequenced_request_id (Message.request_ok m) = none
sequenced_request_id (Message.subscribe m) = some m.id
sequenced_request_id (Message.subscribe_ok m) = none
sequenced_request_id (Message.unsubscribe m) = none
sequenced_request_id (Message.publish_namespace m) = some m.id
sequenced_request_id (Message.namespace m) = none
sequenced_request_id (Message.publish_namespace_done m) = none
sequenced_request_id (Message.namespace_done m) = none
sequenced_request_id (Message.publish_namespace_cancel m) = none
sequenced_request_id (Message.track_status m) = some m.id
sequenced_request_id (Message.publish m) = some m.id
sequenced_request_id (Message.publish_done m) = none
sequenced_request_id (Message.publish_ok m) = none
sequenced_request_id (Message.fetch m) = some m.id
sequenced_request_id (Message.fetch_cancel m) = none
sequenced_request_id (Message.fetch_ok m) = none
sequenced_request_id (Message.subscribe_namespace m) = some m.id
sequenced_request_id (Message.go_away m) = none
sequenced_request_id (Message.max_request_id m) = none
sequenced_request_id (Message.requests_blocked m) = none
sequenced_request_id (Message.unknown t payload) = none
