-- ===== src/Message/Singles.antt =====
-- The messages of moq-transport/src/message with one field: unsubscribe.rs, fetch_cancel.rs,
-- pubilsh_namespace_done.rs, and NAMESPACE and NAMESPACE_DONE of namespace.rs.
use moq_rs.Prelude.{length, ◌≤◌, ◌<◌, ◌^◌, All, ℕ}
use moq_rs.Coding.Reader.{Decoder, pure, ◌>>=◌}
use moq_rs.Coding.Writer.{Encoder}
use moq_rs.Coding.VarInt.{decode_u64, encode_u64}
use moq_rs.Coding.VarInt.RoundTrip.{decode_u64-encode_u64}
use moq_rs.Coding.RoundTrip.{RoundTrips, RoundTrips-map}
use moq_rs.Coding.TrackNamespace.Wire.{IsField, decode_prefix-encode_prefix}
use moq_rs.Coding.TrackNamespace.{max_fields, TrackNamespacePrefix, encode_prefix, decode_prefix}

pub record Unsubscribe : Type 0 where
  pub id : ℕ

unfoldable pub decode_unsubscribe : Decoder Unsubscribe
decode_unsubscribe = do id ← decode_u64; pure (record { id = id })

unfoldable pub encode_unsubscribe : Unsubscribe → Encoder (Unit {0})
encode_unsubscribe m = encode_u64 m.id

pub record FetchCancel : Type 0 where
  pub id : ℕ

unfoldable pub decode_fetch_cancel : Decoder FetchCancel
decode_fetch_cancel = do id ← decode_u64; pure (record { id = id })

unfoldable pub encode_fetch_cancel : FetchCancel → Encoder (Unit {0})
encode_fetch_cancel m = encode_u64 m.id

pub record PublishNamespaceDone : Type 0 where
  pub id : ℕ

unfoldable pub decode_publish_namespace_done : Decoder PublishNamespaceDone
decode_publish_namespace_done = do id ← decode_u64; pure (record { id = id })

unfoldable pub encode_publish_namespace_done : PublishNamespaceDone → Encoder (Unit {0})
encode_publish_namespace_done m = encode_u64 m.id

pub record Namespace : Type 0 where
  pub track_namespace_suffix : TrackNamespacePrefix

unfoldable pub decode_namespace_message : Decoder Namespace
decode_namespace_message = do
  suffix ← decode_prefix
  pure (record { track_namespace_suffix = suffix })

unfoldable pub encode_namespace_message : Namespace → Encoder (Unit {0})
encode_namespace_message m = encode_prefix m.track_namespace_suffix

pub record NamespaceDone : Type 0 where
  pub track_namespace_suffix : TrackNamespacePrefix

unfoldable pub decode_namespace_done : Decoder NamespaceDone
decode_namespace_done = do suffix ← decode_prefix; pure (record { track_namespace_suffix = suffix })

unfoldable pub encode_namespace_done : NamespaceDone → Encoder (Unit {0})
encode_namespace_done m = encode_prefix m.track_namespace_suffix

pub unsubscribe-RoundTrips :
    (m : Unsubscribe) → m.id < 2 ^ 62 → RoundTrips (encode_unsubscribe m) decode_unsubscribe m
unfolding encode_unsubscribe decode_unsubscribe
unsubscribe-RoundTrips m h =
    RoundTrips-map _ decode_u64 (λ (n : ℕ). record { id = n }) m.id (decode_u64-encode_u64 m.id h)

pub fetch_cancel-RoundTrips :
    (m : FetchCancel) → m.id < 2 ^ 62 → RoundTrips (encode_fetch_cancel m) decode_fetch_cancel m
unfolding encode_fetch_cancel decode_fetch_cancel
fetch_cancel-RoundTrips m h =
    RoundTrips-map _ decode_u64 (λ (n : ℕ). record { id = n }) m.id (decode_u64-encode_u64 m.id h)

pub publish_namespace_done-RoundTrips :
    (m : PublishNamespaceDone)
    → m.id < 2 ^ 62
    → RoundTrips (encode_publish_namespace_done m) decode_publish_namespace_done m
unfolding encode_publish_namespace_done decode_publish_namespace_done
publish_namespace_done-RoundTrips m h =
    RoundTrips-map _ decode_u64 (λ (n : ℕ). record { id = n }) m.id (decode_u64-encode_u64 m.id h)

-- A prefix that can be encoded.
pub record IsPrefix (p : TrackNamespacePrefix) : Type 0 where
  pub few_fields : length p.fields ≤ max_fields
  pub each_field : All IsField p.fields

pub namespace-RoundTrips :
    (m : Namespace)
    → IsPrefix m.track_namespace_suffix
    → RoundTrips (encode_namespace_message m) decode_namespace_message m
unfolding encode_namespace_message decode_namespace_message
namespace-RoundTrips m h =
    RoundTrips-map _ decode_prefix
      (λ (p : TrackNamespacePrefix). record { track_namespace_suffix = p }) m.track_namespace_suffix
      (decode_prefix-encode_prefix m.track_namespace_suffix h.few_fields h.each_field)

pub namespace_done-RoundTrips :
    (m : NamespaceDone)
    → IsPrefix m.track_namespace_suffix
    → RoundTrips (encode_namespace_done m) decode_namespace_done m
unfolding encode_namespace_done decode_namespace_done
namespace_done-RoundTrips m h =
    RoundTrips-map _ decode_prefix
      (λ (p : TrackNamespacePrefix). record { track_namespace_suffix = p }) m.track_namespace_suffix
      (decode_prefix-encode_prefix m.track_namespace_suffix h.few_fields h.each_field)
