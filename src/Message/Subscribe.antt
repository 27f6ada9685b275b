-- ===== src/Message/Subscribe.antt =====
-- SUBSCRIBE and TRACK_STATUS (subscribe.rs, track_status.rs), which name a track, and
-- SUBSCRIBE_NAMESPACE (subscribe_namespace.rs), in moq-transport/src/message.
use moq_rs.Prelude.{
  All, length, ◌<◌, ◌≤◌, ◌^◌, ℕ, List, ◌≡◌, ltb, ◌==◌, if◌then◌else◌, false, arith, refl,
}
use moq_rs.Coding.Errors.{ok, DecodeError}
use moq_rs.Coding.Reader.{Decoder, pure, throw, ◌>>=◌, ◌>>◌, bind-eq-ok, check-eq-ok}
use moq_rs.Coding.Writer.{Encoder, ◌⨟◌}
use moq_rs.Coding.VarInt.{decode_u64, encode_u64}
use moq_rs.Coding.VarInt.RoundTrip.{decode_u64-encode_u64}
use moq_rs.Coding.VarInt.Decode.{u64-IsStreaming}
use moq_rs.Coding.RoundTrip.{
  RoundTrips-then, RoundTrips, RoundTrips-seq, RoundTrips-map, RoundTrips-dec_check,
}
use moq_rs.Coding.Streaming.{IsStreaming, IsStreaming-bind, IsStreaming-check, IsStreaming-pure}
use moq_rs.Coding.KeyValuePairs.{KeyValuePairs, decode_kvps, encode_kvps}
use moq_rs.Coding.KeyValuePairs.Wire.{kvps-IsStreaming}
use moq_rs.Coding.TrackNamespace.{
  max_fields, TrackNamespace, TrackNamespacePrefix, TrackName, encode_namespace, decode_namespace,
  encode_prefix, decode_prefix, encode_name, decode_name, validate_full_track_name,
  full_track_name_len, max_full_track_name_len,
}
use moq_rs.Coding.TrackNamespace.Wire.{
  IsField, decode_prefix-encode_prefix, IsNamespace, decode_namespace-encode_namespace,
  decode_name-encode_name, namespace-IsStreaming, name-IsStreaming, decode_namespace-IsNamespace,
}
use moq_rs.Message.Params.{IsParams, by_key, params-RoundTrips}

pub record Subscribe : Type 0 where
  pub id : ℕ
  pub track_namespace : TrackNamespace
  pub track_name : TrackName
  pub params : KeyValuePairs

unfoldable pub decode_subscribe : Decoder Subscribe
decode_subscribe = do
  id ← decode_u64
  track_namespace ← decode_namespace
  track_name ← decode_name
  validate_full_track_name track_namespace track_name.value
  params ← decode_kvps
  pure (record {
    id = id;
    track_namespace = track_namespace;
    track_name = track_name;
    params = params;
  })

unfoldable pub encode_subscribe : Subscribe → Encoder (Unit {0})
encode_subscribe m =
    encode_u64 m.id
    ⨟ encode_namespace m.track_namespace
    ⨟ encode_name m.track_name
    ⨟ encode_kvps m.params

pub record TrackStatus : Type 0 where
  pub id : ℕ
  pub track_namespace : TrackNamespace
  pub track_name : TrackName
  pub params : KeyValuePairs

unfoldable pub decode_track_status : Decoder TrackStatus
decode_track_status = do
  id ← decode_u64
  track_namespace ← decode_namespace
  track_name ← decode_name
  validate_full_track_name track_namespace track_name.value
  params ← decode_kvps
  pure (record {
    id = id;
    track_namespace = track_namespace;
    track_name = track_name;
    params = params;
  })

unfoldable pub encode_track_status : TrackStatus → Encoder (Unit {0})
encode_track_status m =
    encode_u64 m.id
    ⨟ encode_namespace m.track_namespace
    ⨟ encode_name m.track_name
    ⨟ encode_kvps m.params

pub data SubscribeOptions : Type 0 where
  publish namespace both : SubscribeOptions

unfoldable pub subscribe_options : ℕ → Decoder SubscribeOptions
subscribe_options options =
    if options == 0
    then pure publish
    else if options == 1
    then pure namespace
    else if options == 2
    then pure both
    else throw (DecodeError.invalid_subscribe_options options)

unfoldable pub decode_subscribe_options : Decoder SubscribeOptions
unfolding subscribe_options
decode_subscribe_options = decode_u64 >>= subscribe_options

unfoldable pub encode_subscribe_options : SubscribeOptions → Encoder (Unit {0})
encode_subscribe_options publish = encode_u64 0
encode_subscribe_options namespace = encode_u64 1
encode_subscribe_options both = encode_u64 2

pub record SubscribeNamespace : Type 0 where
  pub id : ℕ
  pub track_namespace_prefix : TrackNamespacePrefix
  pub subscribe_options : SubscribeOptions
  pub params : KeyValuePairs

unfoldable pub decode_subscribe_namespace : Decoder SubscribeNamespace
unfolding decode_subscribe_options
decode_subscribe_namespace = do
  id ← decode_u64
  track_namespace_prefix ← decode_prefix
  options ← decode_subscribe_options
  params ← decode_kvps
  pure (record {
    id = id;
    track_namespace_prefix = track_namespace_prefix;
    subscribe_options = options;
    params = params;
  })

unfoldable pub encode_subscribe_namespace : SubscribeNamespace → Encoder (Unit {0})
unfolding encode_subscribe_options
encode_subscribe_namespace m =
    encode_u64 m.id
    ⨟ encode_prefix m.track_namespace_prefix
    ⨟ encode_subscribe_options m.subscribe_options
    ⨟ encode_kvps m.params

pub record IsSubscribe (m : Subscribe) : Type 0 where
  pub id_fits : m.id < 2 ^ 62
  pub good_namespace : IsNamespace m.track_namespace
  pub good_params : IsParams m.params
  pub name_fits : full_track_name_len m.track_namespace m.track_name.value ≤ max_full_track_name_len

-- A SUBSCRIBE with an id below 2^62, a namespace that the draft allows, a full track name of at
-- most 4096 bytes and encodable parameters is encoded, given room enough, and comes back with its
-- parameters sorted by key.
pub decode_subscribe-encode_subscribe :
    (m : Subscribe)
    → IsSubscribe m
    → RoundTrips (encode_subscribe m) decode_subscribe (record m { params = by_key m.params })
unfolding encode_subscribe decode_subscribe validate_full_track_name
decode_subscribe-encode_subscribe m h =
    let size = h.name_fits in
    let fits : ltb max_full_track_name_len
          (full_track_name_len m.track_namespace m.track_name.value)
        ≡ false =
      ground arith in
    let short : length m.track_name.value ≤ max_full_track_name_len =
      unfold full_track_name_len in omega arith in
    RoundTrips-seq _ _ decode_u64 _ m.id _ (decode_u64-encode_u64 m.id h.id_fits) (
      RoundTrips-seq _ _ decode_namespace _ m.track_namespace _
        (decode_namespace-encode_namespace _ h.good_namespace)
        (RoundTrips-seq _ _ decode_name _ m.track_name _
          (decode_name-encode_name m.track_name short)
          (RoundTrips-dec_check _ _ _ _ _ fits (
            RoundTrips-map _ decode_kvps (λ (k : KeyValuePairs). record m { params = k }) _
              (params-RoundTrips m.params h.good_params)))))

pub subscribe-IsStreaming : IsStreaming decode_subscribe
unfolding decode_subscribe validate_full_track_name
subscribe-IsStreaming = IsStreaming-bind decode_u64 _ u64-IsStreaming (λ i.
    IsStreaming-bind decode_namespace _ namespace-IsStreaming (λ n.
      IsStreaming-bind decode_name _ name-IsStreaming (λ t.
        IsStreaming-check (ltb max_full_track_name_len (full_track_name_len n t.value)) _ _ refl
          (IsStreaming-bind decode_kvps _ kvps-IsStreaming (λ k. IsStreaming-pure _)))))

-- Whatever bytes it is given, decode_subscribe returns only messages whose namespace the draft
-- allows and whose full track name has at most 4096 bytes.
pub decode_subscribe_bounds :
    (r : List ℕ) (m : Subscribe) (s : List ℕ)
    → decode_subscribe r ≡ ok (m, s)
    → IsNamespace m.track_namespace
      × (full_track_name_len m.track_namespace m.track_name.value ≤ max_full_track_name_len)
unfolding decode_subscribe validate_full_track_name
decode_subscribe_bounds r m s e =
    let (i, r1, p1, q1) = bind-eq-ok decode_u64 _ r m s e in
    let (n, r2, p2, q2) = bind-eq-ok decode_namespace _ r1 m s q1 in
    let (t, r3, p3, q3) = bind-eq-ok decode_name _ r2 m s q2 in
    let (fits, q4) =
      check-eq-ok (ltb max_full_track_name_len (full_track_name_len n t.value)) _ _ r3 m s q3 in
    let (k, r5, p5, q5) = bind-eq-ok decode_kvps _ r3 m s q4 in
    let eq : m ≡ record { id = i; track_namespace = n; track_name = t; params = k } = cc in
    rw eq (decode_namespace-IsNamespace r1 n r2 p2, ground arith)

options-RoundTrips :
    (o : SubscribeOptions) → RoundTrips (encode_subscribe_options o) decode_subscribe_options o
unfolding encode_subscribe_options decode_subscribe_options
options-RoundTrips publish =
    RoundTrips-then _ decode_u64 _ 0 _ (decode_u64-encode_u64 0 (omega arith)) (λ rest. refl)
options-RoundTrips namespace =
    RoundTrips-then _ decode_u64 _ 1 _ (decode_u64-encode_u64 1 (omega arith)) (λ rest. refl)
options-RoundTrips both =
    RoundTrips-then _ decode_u64 _ 2 _ (decode_u64-encode_u64 2 (omega arith)) (λ rest. refl)

-- A SUBSCRIBE_NAMESPACE with an id below 2^62, a prefix of at most 32 fields, each neither empty
-- nor too long, any options and encodable parameters is encoded, given room enough, and comes back
-- with its parameters sorted by key.
pub decode_subscribe_namespace-encode_subscribe_namespace :
    (m : SubscribeNamespace)
    → m.id < 2 ^ 62
    → length m.track_namespace_prefix.fields ≤ max_fields
    → All IsField m.track_namespace_prefix.fields
    → IsParams m.params
    → RoundTrips
        (encode_subscribe_namespace m)
        decode_subscribe_namespace
        (record m { params = by_key m.params })
unfolding encode_subscribe_namespace decode_subscribe_namespace
decode_subscribe_namespace-encode_subscribe_namespace m hi few each h =
    RoundTrips-seq _ _ decode_u64 _ m.id _ (decode_u64-encode_u64 m.id hi) (
      RoundTrips-seq _ _ decode_prefix _ m.track_namespace_prefix _
        (decode_prefix-encode_prefix _ few each)
        (RoundTrips-seq _ _ decode_subscribe_options _ m.subscribe_options _
          (options-RoundTrips m.subscribe_options)
          (RoundTrips-map _ decode_kvps (λ (k : KeyValuePairs). record m { params = k }) _
            (params-RoundTrips m.params h))))

pub record IsTrackStatus (m : TrackStatus) : Type 0 where
  pub id_fits : m.id < 2 ^ 62
  pub good_namespace : IsNamespace m.track_namespace
  pub good_params : IsParams m.params
  pub name_fits : full_track_name_len m.track_namespace m.track_name.value ≤ max_full_track_name_len

-- The same body as that of SUBSCRIBE.
pub track_status-RoundTrips :
    (m : TrackStatus)
    → IsTrackStatus m
    → RoundTrips (encode_track_status m) decode_track_status (record m { params = by_key m.params })
unfolding encode_track_status decode_track_status validate_full_track_name
track_status-RoundTrips m h =
    let size = h.name_fits in
    let fits : ltb max_full_track_name_len
          (full_track_name_len m.track_namespace m.track_name.value)
        ≡ false =
      ground arith in
    let short : length m.track_name.value ≤ max_full_track_name_len =
      unfold full_track_name_len in omega arith in
    RoundTrips-seq _ _ decode_u64 _ m.id _ (decode_u64-encode_u64 m.id h.id_fits) (
      RoundTrips-seq _ _ decode_namespace _ m.track_namespace _
        (decode_namespace-encode_namespace _ h.good_namespace)
        (RoundTrips-seq _ _ decode_name _ m.track_name _
          (decode_name-encode_name m.track_name short)
          (RoundTrips-dec_check _ _ _ _ _ fits (
            RoundTrips-map _ decode_kvps (λ (k : KeyValuePairs). record m { params = k }) _
              (params-RoundTrips m.params h.good_params)))))
