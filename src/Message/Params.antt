-- ===== src/Message/Params.antt =====
-- The messages of moq-transport/src/message that are ids and parameters: request_ok.rs,
-- publish_ok.rs, request_update.rs, publish_namespace.rs, max_request_id.rs, requests_blocked.rs.
use moq_rs.Prelude.{◌<◌, ◌^◌, ℕ, length, All}
use moq_rs.Coding.Reader.{Decoder, pure, ◌>>=◌}
use moq_rs.Coding.Writer.{Encoder, ◌⨟◌}
use moq_rs.Coding.VarInt.{decode_u64, encode_u64}
use moq_rs.Coding.VarInt.RoundTrip.{decode_u64-encode_u64}
use moq_rs.Coding.RoundTrip.{RoundTrips, RoundTrips-seq, RoundTrips-map}
use moq_rs.Coding.KeyValuePairs.{KeyValuePairs, decode_kvps, encode_kvps, sort_by_key}
use moq_rs.Coding.KeyValuePairs.Wire.{IsPair, decode_kvps-encode_kvps}
use moq_rs.Coding.TrackNamespace.{TrackNamespace, encode_namespace, decode_namespace}
use moq_rs.Coding.TrackNamespace.Wire.{IsNamespace, decode_namespace-encode_namespace}

-- Parameters that can be encoded, and what comes back of them.
pub record IsParams (k : KeyValuePairs) : Type 0 where
  pub each_pair : All IsPair k.pairs
  pub countable : length k.pairs < 2 ^ 62

abbrev pub by_key : KeyValuePairs → KeyValuePairs
by_key k = record { pairs = sort_by_key k.pairs }

pub params-RoundTrips :
    (k : KeyValuePairs) → IsParams k → RoundTrips (encode_kvps k) decode_kvps (by_key k)
params-RoundTrips k h = decode_kvps-encode_kvps k h.each_pair h.countable

pub record RequestOk : Type 0 where
  pub id : ℕ
  pub params : KeyValuePairs

unfoldable pub decode_request_ok : Decoder RequestOk
decode_request_ok = do
  id ← decode_u64
  params ← decode_kvps
  pure (record { id = id; params = params })

unfoldable pub encode_request_ok : RequestOk → Encoder (Unit {0})
encode_request_ok m = encode_u64 m.id ⨟ encode_kvps m.params

pub record PublishOk : Type 0 where
  pub id : ℕ
  pub params : KeyValuePairs

unfoldable pub decode_publish_ok : Decoder PublishOk
decode_publish_ok = do
  id ← decode_u64
  params ← decode_kvps
  pure (record { id = id; params = params })

unfoldable pub encode_publish_ok : PublishOk → Encoder (Unit {0})
encode_publish_ok m = encode_u64 m.id ⨟ encode_kvps m.params

pub record RequestUpdate : Type 0 where
  pub id : ℕ
  pub existing_request_id : ℕ
  pub params : KeyValuePairs

unfoldable pub decode_request_update : Decoder RequestUpdate
decode_request_update = do
  id ← decode_u64
  existing ← decode_u64
  params ← decode_kvps
  pure (record { id = id; existing_request_id = existing; params = params })

unfoldable pub encode_request_update : RequestUpdate → Encoder (Unit {0})
encode_request_update m = encode_u64 m.id ⨟ encode_u64 m.existing_request_id ⨟ encode_kvps m.params

pub record PublishNamespace : Type 0 where
  pub id : ℕ
  pub track_namespace : TrackNamespace
  pub params : KeyValuePairs

unfoldable pub decode_publish_namespace : Decoder PublishNamespace
decode_publish_namespace = do
  id ← decode_u64
  track_namespace ← decode_namespace
  params ← decode_kvps
  pure (record { id = id; track_namespace = track_namespace; params = params })

unfoldable pub encode_publish_namespace : PublishNamespace → Encoder (Unit {0})
encode_publish_namespace m =
    encode_u64 m.id ⨟ encode_namespace m.track_namespace ⨟ encode_kvps m.params

pub record MaxRequestId : Type 0 where
  pub request_id : ℕ

unfoldable pub decode_max_request_id : Decoder MaxRequestId
decode_max_request_id = do request_id ← decode_u64; pure (record { request_id = request_id })

unfoldable pub encode_max_request_id : MaxRequestId → Encoder (Unit {0})
encode_max_request_id m = encode_u64 m.request_id

pub record RequestsBlocked : Type 0 where
  pub max_request_id : ℕ

unfoldable pub decode_requests_blocked : Decoder RequestsBlocked
decode_requests_blocked = do m ← decode_u64; pure (record { max_request_id = m })

unfoldable pub encode_requests_blocked : RequestsBlocked → Encoder (Unit {0})
encode_requests_blocked m = encode_u64 m.max_request_id

pub request_ok-RoundTrips :
    (m : RequestOk)
    → m.id < 2 ^ 62
    → IsParams m.params
    → RoundTrips (encode_request_ok m) decode_request_ok (record m { params = by_key m.params })
unfolding encode_request_ok decode_request_ok
request_ok-RoundTrips m hi h =
    RoundTrips-seq _ _ decode_u64 _ m.id _ (decode_u64-encode_u64 m.id hi) (
      RoundTrips-map _ decode_kvps (λ (k : KeyValuePairs). record m { params = k }) _
        (params-RoundTrips m.params h))

pub decode_request_update-encode_request_update :
    (m : RequestUpdate)
    → m.id < 2 ^ 62
    → m.existing_request_id < 2 ^ 62
    → IsParams m.params
    → RoundTrips
        (encode_request_update m)
        decode_request_update
        (record m { params = by_key m.params })
unfolding encode_request_update decode_request_update
decode_request_update-encode_request_update m hi he h =
    RoundTrips-seq _ _ decode_u64 _ m.id _ (decode_u64-encode_u64 m.id hi) (
      RoundTrips-seq _ _ decode_u64 _ m.existing_request_id _ (decode_u64-encode_u64 _ he) (
        RoundTrips-map _ decode_kvps (λ (k : KeyValuePairs). record m { params = k }) _
          (params-RoundTrips m.params h)))

pub decode_publish_namespace-encode_publish_namespace :
    (m : PublishNamespace)
    → m.id < 2 ^ 62
    → IsNamespace m.track_namespace
    → IsParams m.params
    → RoundTrips
        (encode_publish_namespace m)
        decode_publish_namespace
        (record m { params = by_key m.params })
unfolding encode_publish_namespace decode_publish_namespace
decode_publish_namespace-encode_publish_namespace m hi hn h =
    RoundTrips-seq _ _ decode_u64 _ m.id _ (decode_u64-encode_u64 m.id hi) (
      RoundTrips-seq _ _ decode_namespace _ m.track_namespace _
        (decode_namespace-encode_namespace _ hn)
        (RoundTrips-map _ decode_kvps (λ (k : KeyValuePairs). record m { params = k }) _
          (params-RoundTrips m.params h)))

pub publish_ok-RoundTrips :
    (m : PublishOk)
    → m.id < 2 ^ 62
    → IsParams m.params
    → RoundTrips (encode_publish_ok m) decode_publish_ok (record m { params = by_key m.params })
unfolding encode_publish_ok decode_publish_ok
publish_ok-RoundTrips m hi h =
    RoundTrips-seq _ _ decode_u64 _ m.id _ (decode_u64-encode_u64 m.id hi) (
      RoundTrips-map _ decode_kvps (λ (k : KeyValuePairs). record m { params = k }) _
        (params-RoundTrips m.params h))

pub max_request_id-RoundTrips :
    (m : MaxRequestId)
    → m.request_id < 2 ^ 62
    → RoundTrips (encode_max_request_id m) decode_max_request_id m
unfolding encode_max_request_id decode_max_request_id
max_request_id-RoundTrips m h =
    RoundTrips-map _ decode_u64 (λ (n : ℕ). record { request_id = n }) m.request_id
      (decode_u64-encode_u64 m.request_id h)

pub requests_blocked-RoundTrips :
    (m : RequestsBlocked)
    → m.max_request_id < 2 ^ 62
    → RoundTrips (encode_requests_blocked m) decode_requests_blocked m
unfolding encode_requests_blocked decode_requests_blocked
requests_blocked-RoundTrips m h =
    RoundTrips-map _ decode_u64 (λ (n : ℕ). record { max_request_id = n }) m.max_request_id
      (decode_u64-encode_u64 m.max_request_id h)
