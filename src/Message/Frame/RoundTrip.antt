-- ===== src/Message/Frame/RoundTrip.antt =====
-- Every control message, framed, on the wire.
use moq_rs.Prelude.{
  ℕ, ◌<◌, ◌≤◌, ◌^◌, ◌-◌, List, length, ◌≡◌, refl, arith, Bool, true, some, none, ◌∙◌, sym, ap, All,
}
use moq_rs.Message.Params.{
  IsParams, by_key, decode_max_request_id, decode_publish_namespace,
  decode_publish_namespace-encode_publish_namespace, decode_publish_ok, decode_request_ok,
  decode_request_update, decode_request_update-encode_request_update, decode_requests_blocked,
  encode_max_request_id, encode_publish_namespace, encode_publish_ok, encode_request_ok,
  encode_request_update, encode_requests_blocked, max_request_id-RoundTrips, publish_ok-RoundTrips,
  request_ok-RoundTrips, requests_blocked-RoundTrips,
}
use moq_rs.Message.Subscribe.{
  IsSubscribe, IsTrackStatus, decode_subscribe, decode_subscribe-encode_subscribe,
  decode_subscribe_namespace, decode_subscribe_namespace-encode_subscribe_namespace,
  decode_track_status, encode_subscribe, encode_subscribe_namespace, encode_track_status,
  track_status-RoundTrips,
}
use moq_rs.Message.Fetch.{decode_fetch, encode_fetch}
use moq_rs.Message.Extensions.{
  decode_fetch_ok, decode_publish, decode_subscribe_ok, encode_fetch_ok, encode_publish,
  encode_subscribe_ok,
}
use moq_rs.Message.Singles.{
  IsPrefix, decode_fetch_cancel, decode_namespace_done, decode_namespace_message,
  decode_publish_namespace_done, decode_unsubscribe, encode_fetch_cancel, encode_namespace_done,
  encode_namespace_message, encode_publish_namespace_done, encode_unsubscribe,
  fetch_cancel-RoundTrips, namespace-RoundTrips, namespace_done-RoundTrips,
  publish_namespace_done-RoundTrips, unsubscribe-RoundTrips,
}
use moq_rs.Message.Reasons.{
  decode_cancel, decode_cancel-encode_cancel, decode_go_away, decode_publish_done,
  decode_publish_done-encode_publish_done, decode_request_error,
  decode_request_error-encode_request_error, encode_cancel, encode_go_away, encode_publish_done,
  encode_request_error, go_away-RoundTrips,
}
use moq_rs.Message.Fetch.Wire.{TargetFits, decode_fetch-encode_fetch, sent_target}
use moq_rs.Message.Extensions.Wire.{
  IsFetchOk, IsPublish, fetch_ok-AtEnd, publish-AtEnd, sorted, subscribe_ok-AtEnd,
}
use moq_rs.Coding.KeyValuePairs.Wire.{IsPair}
use moq_rs.Coding.TrackNamespace.Wire.{IsNamespace}
use moq_rs.Coding.RoundTrip.{RoundTrips, Writes, Writes-unique}
use moq_rs.Coding.AtEnd.{AtEnd, AtEnd-map, RoundTrips-AtEnd}
use moq_rs.Coding.Writer.{put_slice, put_slice-enough}
use moq_rs.Coding.Reader.{Decoder}
use moq_rs.Coding.Errors.{ok}
use moq_rs.Message.Frame.{
  Message, decode_message, decode_payload, encode_message, encode_payload, message_id,
  payload_decoder,
}
use moq_rs.Message.Frame.Wire.{payload_ends, message-RoundTrips}

-- What of a message can be encoded. The type of an unknown one is none of the known types.
abbrev pub IsMessage : (List ℕ → Bool) → Message → Type 0
IsMessage is_utf8 (Message.request_update m) =
    (m.id < 2 ^ 62) × (m.existing_request_id < 2 ^ 62) × IsParams m.params
IsMessage is_utf8 (Message.request_error m) =
    (m.id < 2 ^ 62)
    × (m.error_code < 2 ^ 62)
    × (m.retry_interval < 2 ^ 62)
    × (is_utf8 m.reason ≡ true)
    × (length m.reason ≤ 1024)
IsMessage is_utf8 (Message.request_ok m) = (m.id < 2 ^ 62) × IsParams m.params
IsMessage is_utf8 (Message.subscribe m) = IsSubscribe m
IsMessage is_utf8 (Message.subscribe_ok m) =
    (m.id < 2 ^ 62)
    × (m.track_alias < 2 ^ 62)
    × IsParams m.params
    × All IsPair m.track_extensions.pairs
IsMessage is_utf8 (Message.unsubscribe m) = m.id < 2 ^ 62
IsMessage is_utf8 (Message.publish_namespace m) =
    (m.id < 2 ^ 62) × IsNamespace m.track_namespace × IsParams m.params
IsMessage is_utf8 (Message.namespace m) = IsPrefix m.track_namespace_suffix
IsMessage is_utf8 (Message.publish_namespace_done m) = m.id < 2 ^ 62
IsMessage is_utf8 (Message.namespace_done m) = IsPrefix m.track_namespace_suffix
IsMessage is_utf8 (Message.publish_namespace_cancel m) =
    (m.id < 2 ^ 62)
    × (m.error_code < 2 ^ 62)
    × (is_utf8 m.reason_phrase ≡ true)
    × (length m.reason_phrase ≤ 1024)
IsMessage is_utf8 (Message.track_status m) = IsTrackStatus m
IsMessage is_utf8 (Message.publish m) = IsPublish m
IsMessage is_utf8 (Message.publish_done m) =
    (m.id < 2 ^ 62)
    × (m.status_code < 2 ^ 62)
    × (m.stream_count < 2 ^ 62)
    × (is_utf8 m.reason ≡ true)
    × (length m.reason ≤ 1024)
IsMessage is_utf8 (Message.publish_ok m) = (m.id < 2 ^ 62) × IsParams m.params
IsMessage is_utf8 (Message.fetch m) =
    (m.id < 2 ^ 62)
    × TargetFits m.fetch_type (m.standalone_fetch, m.joining_fetch)
    × IsParams m.params
IsMessage is_utf8 (Message.fetch_cancel m) = m.id < 2 ^ 62
IsMessage is_utf8 (Message.fetch_ok m) = IsFetchOk m
IsMessage is_utf8 (Message.subscribe_namespace m) =
    (m.id < 2 ^ 62) × IsPrefix m.track_namespace_prefix × IsParams m.params
IsMessage is_utf8 (Message.go_away m) = (is_utf8 m.uri ≡ true) × (length m.uri ≤ 8192)
IsMessage is_utf8 (Message.max_request_id m) = m.request_id < 2 ^ 62
IsMessage is_utf8 (Message.requests_blocked m) = m.max_request_id < 2 ^ 62
IsMessage is_utf8 (Message.unknown t payload) = (t < 2 ^ 62) × (payload_decoder is_utf8 t ≡ none)

-- What comes back of it: parameters and extensions are sorted by key, and of a FETCH the part that
-- its type calls for.
abbrev pub received : Message → Message
received (Message.request_update m) = Message.request_update (record m { params = by_key m.params })
received (Message.request_error m) = Message.request_error m
received (Message.request_ok m) = Message.request_ok (record m { params = by_key m.params })
received (Message.subscribe m) = Message.subscribe (record m { params = by_key m.params })
received (Message.subscribe_ok m) =
    Message.subscribe_ok
      (record m { params = by_key m.params; track_extensions = sorted m.track_extensions })
received (Message.unsubscribe m) = Message.unsubscribe m
received (Message.publish_namespace m) =
    Message.publish_namespace (record m { params = by_key m.params })
received (Message.namespace m) = Message.namespace m
received (Message.publish_namespace_done m) = Message.publish_namespace_done m
received (Message.namespace_done m) = Message.namespace_done m
received (Message.publish_namespace_cancel m) = Message.publish_namespace_cancel m
received (Message.track_status m) = Message.track_status (record m { params = by_key m.params })
received (Message.publish m) =
    Message.publish
      (record m { params = by_key m.params; track_extensions = sorted m.track_extensions })
received (Message.publish_done m) = Message.publish_done m
received (Message.publish_ok m) = Message.publish_ok (record m { params = by_key m.params })
received (Message.fetch m) = Message.fetch (
    let target = sent_target m.fetch_type (m.standalone_fetch, m.joining_fetch) in
    record m { standalone_fetch = target.0; joining_fetch = target.1; params = by_key m.params })
received (Message.fetch_cancel m) = Message.fetch_cancel m
received (Message.fetch_ok m) =
    Message.fetch_ok
      (record m { params = by_key m.params; track_extensions = sorted m.track_extensions })
received (Message.subscribe_namespace m) =
    Message.subscribe_namespace (record m { params = by_key m.params })
received (Message.go_away m) = Message.go_away m
received (Message.max_request_id m) = Message.max_request_id m
received (Message.requests_blocked m) = Message.requests_blocked m
received (Message.unknown t payload) = Message.unknown t payload

unknown_payload :
    (is_utf8 : List ℕ → Bool) (t : ℕ) (payload bytes rest : List ℕ)
    → payload_decoder is_utf8 t ≡ none
    → payload ≡ bytes
    → decode_payload is_utf8 t bytes rest ≡ ok (Message.unknown t payload, rest)
unfolding decode_payload
unknown_payload is_utf8 t payload bytes rest e same =
    rw (e, decode_payload) (ap (λ p. ok (Message.unknown t p, rest)) (sym same))

module _ (is_utf8 : List ℕ → Bool) where
  -- A type that has a wire form, and a payload that its decoder takes for `m'`.
  abbrev pub Arrives : Message → Message → List ℕ → Type 0
  Arrives m m' payload =
      (message_id m < 2 ^ 62)
      × ((rest : List ℕ) → decode_payload is_utf8 (message_id m) payload rest ≡ ok (m', rest))

  known :
      (m m' : Message) (payload : List ℕ) (dec : Decoder Message)
      → AtEnd (encode_payload m) dec m'
      → message_id m < 2 ^ 62
      → payload_decoder is_utf8 (message_id m) ≡ some dec
      → Writes (encode_payload m) tt payload
      → Arrives m m' payload
  known m m' payload dec h small e w =
      let same : h.bytes ≡ payload = Writes-unique (encode_payload m) h.bytes payload h.writes w in
      (
        small,
        λ rest.
            payload_ends is_utf8 (message_id m) dec payload rest m' e
              (ap dec (sym same) ∙ h.reads_all),
      )

  -- The payload of a message, in a frame of its type, is the message.
  pub payload-Arrives :
      (m : Message) (payload : List ℕ)
      → IsMessage is_utf8 m
      → Writes (encode_payload m) tt payload
      → Arrives m (received m) payload
  unfolding message_id encode_payload payload_decoder
  payload-Arrives (Message.request_update m) payload (hi, he, hp) w =
      known (Message.request_update m) _ payload _
        (AtEnd-map (encode_request_update m) decode_request_update Message.request_update _ (
          RoundTrips-AtEnd (encode_request_update m) decode_request_update _
            (decode_request_update-encode_request_update m hi he hp)))
        (omega arith) refl w
  payload-Arrives (Message.request_error m) payload (hi, hc, hr, good, short) w =
      known (Message.request_error m) _ payload _
        (AtEnd-map (encode_request_error m) (decode_request_error is_utf8) Message.request_error _ (
          RoundTrips-AtEnd (encode_request_error m) (decode_request_error is_utf8) _
            (decode_request_error-encode_request_error is_utf8 m hi hc hr good short)))
        (omega arith) refl w
  payload-Arrives (Message.request_ok m) payload (hi, hp) w =
      known (Message.request_ok m) _ payload _
        (AtEnd-map (encode_request_ok m) decode_request_ok Message.request_ok _ (
          RoundTrips-AtEnd (encode_request_ok m) decode_request_ok _
            (request_ok-RoundTrips m hi hp)))
        (omega arith) refl w
  payload-Arrives (Message.subscribe m) payload h w =
      known (Message.subscribe m) _ payload _
        (AtEnd-map (encode_subscribe m) decode_subscribe Message.subscribe _ (
          RoundTrips-AtEnd (encode_subscribe m) decode_subscribe _
            (decode_subscribe-encode_subscribe m h)))
        (omega arith) refl w
  payload-Arrives (Message.subscribe_ok m) payload (hi, ha, hp, hx) w =
      known (Message.subscribe_ok m) _ payload _
        (AtEnd-map (encode_subscribe_ok m) decode_subscribe_ok Message.subscribe_ok _
          (subscribe_ok-AtEnd m hi ha hp hx))
        (omega arith) refl w
  payload-Arrives (Message.unsubscribe m) payload h w =
      known (Message.unsubscribe m) _ payload _
        (AtEnd-map (encode_unsubscribe m) decode_unsubscribe Message.unsubscribe _ (
          RoundTrips-AtEnd (encode_unsubscribe m) decode_unsubscribe _
            (unsubscribe-RoundTrips m h)))
        (omega arith) refl w
  payload-Arrives (Message.publish_namespace m) payload (hi, hn, hp) w =
      known (Message.publish_namespace m) _ payload _
        (AtEnd-map (encode_publish_namespace m) decode_publish_namespace Message.publish_namespace _
          (RoundTrips-AtEnd (encode_publish_namespace m) decode_publish_namespace _
            (decode_publish_namespace-encode_publish_namespace m hi hn hp)))
        (omega arith) refl w
  payload-Arrives (Message.namespace m) payload h w =
      known (Message.namespace m) _ payload _
        (AtEnd-map (encode_namespace_message m) decode_namespace_message Message.namespace _ (
          RoundTrips-AtEnd (encode_namespace_message m) decode_namespace_message _
            (namespace-RoundTrips m h)))
        (omega arith) refl w
  payload-Arrives (Message.publish_namespace_done m) payload h w =
      known (Message.publish_namespace_done m) _ payload _
        (AtEnd-map (encode_publish_namespace_done m) decode_publish_namespace_done
          Message.publish_namespace_done _
          (RoundTrips-AtEnd (encode_publish_namespace_done m) decode_publish_namespace_done _
            (publish_namespace_done-RoundTrips m h)))
        (omega arith) refl w
  payload-Arrives (Message.namespace_done m) payload h w =
      known (Message.namespace_done m) _ payload _
        (AtEnd-map (encode_namespace_done m) decode_namespace_done Message.namespace_done _ (
          RoundTrips-AtEnd (encode_namespace_done m) decode_namespace_done _
            (namespace_done-RoundTrips m h)))
        (omega arith) refl w
  payload-Arrives (Message.publish_namespace_cancel m) payload (hi, hc, good, short) w =
      known (Message.publish_namespace_cancel m) _ payload _
        (AtEnd-map (encode_cancel m) (decode_cancel is_utf8) Message.publish_namespace_cancel _ (
          RoundTrips-AtEnd (encode_cancel m) (decode_cancel is_utf8) _
            (decode_cancel-encode_cancel is_utf8 m hi hc good short)))
        (omega arith) refl w
  payload-Arrives (Message.track_status m) payload h w =
      known (Message.track_status m) _ payload _
        (AtEnd-map (encode_track_status m) decode_track_status Message.track_status _ (
          RoundTrips-AtEnd (encode_track_status m) decode_track_status _
            (track_status-RoundTrips m h)))
        (omega arith) refl w
  payload-Arrives (Message.publish m) payload h w =
      known (Message.publish m) _ payload _
        (AtEnd-map (encode_publish m) decode_publish Message.publish _ (publish-AtEnd m h))
        (omega arith) refl w
  payload-Arrives (Message.publish_done m) payload (hi, hs, hc, good, short) w =
      known (Message.publish_done m) _ payload _
        (AtEnd-map (encode_publish_done m) (decode_publish_done is_utf8) Message.publish_done _ (
          RoundTrips-AtEnd (encode_publish_done m) (decode_publish_done is_utf8) _
            (decode_publish_done-encode_publish_done is_utf8 m hi hs hc good short)))
        (omega arith) refl w
  payload-Arrives (Message.publish_ok m) payload (hi, hp) w =
      known (Message.publish_ok m) _ payload _
        (AtEnd-map (encode_publish_ok m) decode_publish_ok Message.publish_ok _ (
          RoundTrips-AtEnd (encode_publish_ok m) decode_publish_ok _
            (publish_ok-RoundTrips m hi hp)))
        (omega arith) refl w
  payload-Arrives (Message.fetch m) payload (hi, ht, hp) w =
      known (Message.fetch m) _ payload _
        (AtEnd-map (encode_fetch m) decode_fetch Message.fetch _
          (RoundTrips-AtEnd (encode_fetch m) decode_fetch _ (decode_fetch-encode_fetch m hi ht hp)))
        (omega arith) refl w
  payload-Arrives (Message.fetch_cancel m) payload h w =
      known (Message.fetch_cancel m) _ payload _
        (AtEnd-map (encode_fetch_cancel m) decode_fetch_cancel Message.fetch_cancel _ (
          RoundTrips-AtEnd (encode_fetch_cancel m) decode_fetch_cancel _
            (fetch_cancel-RoundTrips m h)))
        (omega arith) refl w
  payload-Arrives (Message.fetch_ok m) payload h w =
      known (Message.fetch_ok m) _ payload _
        (AtEnd-map (encode_fetch_ok m) decode_fetch_ok Message.fetch_ok _ (fetch_ok-AtEnd m h))
        (omega arith) refl w
  payload-Arrives (Message.subscribe_namespace m) payload (hi, hx, hp) w =
      known (Message.subscribe_namespace m) _ payload _
        (AtEnd-map (encode_subscribe_namespace m) decode_subscribe_namespace
          Message.subscribe_namespace _
          (RoundTrips-AtEnd (encode_subscribe_namespace m) decode_subscribe_namespace _ (
            decode_subscribe_namespace-encode_subscribe_namespace m hi hx.few_fields hx.each_field
              hp)))
        (omega arith) refl w
  payload-Arrives (Message.go_away m) payload (good, short) w =
      known (Message.go_away m) _ payload _
        (AtEnd-map (encode_go_away m) (decode_go_away is_utf8) Message.go_away _ (
          RoundTrips-AtEnd (encode_go_away m) (decode_go_away is_utf8) _
            (go_away-RoundTrips is_utf8 m good short)))
        (omega arith) refl w
  payload-Arrives (Message.max_request_id m) payload h w =
      known (Message.max_request_id m) _ payload _
        (AtEnd-map (encode_max_request_id m) decode_max_request_id Message.max_request_id _ (
          RoundTrips-AtEnd (encode_max_request_id m) decode_max_request_id _
            (max_request_id-RoundTrips m h)))
        (omega arith) refl w
  payload-Arrives (Message.requests_blocked m) payload h w =
      known (Message.requests_blocked m) _ payload _
        (AtEnd-map (encode_requests_blocked m) decode_requests_blocked Message.requests_blocked _ (
          RoundTrips-AtEnd (encode_requests_blocked m) decode_requests_blocked _
            (requests_blocked-RoundTrips m h)))
        (omega arith) refl w
  payload-Arrives (Message.unknown t payload) bytes (ht, e) w =
      let same : payload ≡ bytes =
        Writes-unique (put_slice payload) payload bytes (λ room. put_slice-enough payload room) w in
      (ht, λ rest. unknown_payload is_utf8 t payload bytes rest e same)

  -- A control message of any type whose parts can be encoded, and whose payload is at most 2^16 - 1
  -- bytes, is encoded behind its type and length, given room enough, and comes back with parameters
  -- and track extensions sorted by key, with what follows left over; for a FETCH without the part
  -- that its type does not call for.
  pub decode_message-encode_message :
      (m : Message) (payload : List ℕ)
      → IsMessage is_utf8 m
      → Writes (encode_payload m) tt payload
      → length payload ≤ 2 ^ 16 - 1
      → RoundTrips (encode_message m) (decode_message is_utf8) (received m)
  decode_message-encode_message m payload h w short =
      let (small, reads) = payload-Arrives m payload h w in
      message-RoundTrips is_utf8 m (received m) payload small w reads short
