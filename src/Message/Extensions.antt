-- ===== src/Message/Extensions.antt =====
-- `TrackExtensions` of moq-transport/src/message/params.rs, and the messages that end in them:
-- subscribe_ok.rs, publish.rs, fetch_ok.rs.
pub mod Wire
use moq_rs.Prelude.{ℕ, Bool, List, suc, length}
use moq_rs.Coding.Reader.{Decoder, pure, ◌>>=◌, ◌>>◌}
use moq_rs.Coding.Writer.{Encoder, ◌⨟◌}
use moq_rs.Coding.VarInt.{decode_u64, encode_u64}
use moq_rs.Coding.Integer.{decode_bool, encode_bool}
use moq_rs.Coding.Location.{Location, decode_location, encode_location}
use moq_rs.Coding.KeyValuePairs.{
  KeyValuePair, KeyValuePairs, decode_kvps, encode_kvps, sort_by_key, encode_pairs,
}
use moq_rs.Coding.KeyValuePairs.ToEnd.{decode_to_end}
use moq_rs.Coding.TrackNamespace.{
  TrackNamespace, TrackName, encode_namespace, decode_namespace, encode_name, decode_name,
  validate_full_track_name,
}

pub record TrackExtensions : Type 0 where
  pub pairs : List KeyValuePair

unfoldable pub decode_extensions : Decoder TrackExtensions
unfolding decode_to_end
decode_extensions r =
    (decode_to_end (suc (length r)) 0 >>= λ extensions. pure (record { pairs = extensions })) r

unfoldable pub encode_extensions : TrackExtensions → Encoder (Unit {0})
unfolding encode_pairs sort_by_key
encode_extensions x = encode_pairs (sort_by_key x.pairs) 0

pub record SubscribeOk : Type 0 where
  pub id : ℕ
  pub track_alias : ℕ
  pub params : KeyValuePairs
  pub track_extensions : TrackExtensions

unfoldable pub decode_subscribe_ok : Decoder SubscribeOk
decode_subscribe_ok = do
  id ← decode_u64
  alias ← decode_u64
  params ← decode_kvps
  extensions ← decode_extensions
  pure (record { id = id; track_alias = alias; params = params; track_extensions = extensions })

unfoldable pub encode_subscribe_ok : SubscribeOk → Encoder (Unit {0})
encode_subscribe_ok m =
    encode_u64 m.id
    ⨟ encode_u64 m.track_alias
    ⨟ encode_kvps m.params
    ⨟ encode_extensions m.track_extensions

pub record Publish : Type 0 where
  pub id : ℕ
  pub track_namespace : TrackNamespace
  pub track_name : TrackName
  pub track_alias : ℕ
  pub params : KeyValuePairs
  pub track_extensions : TrackExtensions

unfoldable pub decode_publish : Decoder Publish
decode_publish = do
  id ← decode_u64
  track_namespace ← decode_namespace
  track_name ← decode_name
  validate_full_track_name track_namespace track_name.value
  alias ← decode_u64
  params ← decode_kvps
  extensions ← decode_extensions
  pure (record {
    id = id;
    track_namespace = track_namespace;
    track_name = track_name;
    track_alias = alias;
    params = params;
    track_extensions = extensions;
  })

unfoldable pub encode_publish : Publish → Encoder (Unit {0})
encode_publish m =
    encode_u64 m.id
    ⨟ encode_namespace m.track_namespace
    ⨟ encode_name m.track_name
    ⨟ encode_u64 m.track_alias
    ⨟ encode_kvps m.params
    ⨟ encode_extensions m.track_extensions

pub record FetchOk : Type 0 where
  pub id : ℕ
  pub end_of_track : Bool
  pub end_location : Location
  pub params : KeyValuePairs
  pub track_extensions : TrackExtensions

unfoldable pub decode_fetch_ok : Decoder FetchOk
decode_fetch_ok = do
  id ← decode_u64
  end_of_track ← decode_bool
  end_location ← decode_location
  params ← decode_kvps
  extensions ← decode_extensions
  pure (record {
    id = id;
    end_of_track = end_of_track;
    end_location = end_location;
    params = params;
    track_extensions = extensions;
  })

unfoldable pub encode_fetch_ok : FetchOk → Encoder (Unit {0})
encode_fetch_ok m =
    encode_u64 m.id
    ⨟ encode_bool m.end_of_track
    ⨟ encode_location m.end_location
    ⨟ encode_kvps m.params
    ⨟ encode_extensions m.track_extensions
