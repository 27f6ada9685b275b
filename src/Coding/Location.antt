-- ===== src/Coding/Location.antt =====
-- moq-transport/src/coding/location.rs: a group and an object in it.
use moq_rs.Coding.Reader.{Decoder, pure, ◌>>=◌}
use moq_rs.Coding.Writer.{◌⨟◌, Encoder}
use moq_rs.Coding.RoundTrip.{RoundTrips-seq, RoundTrips-map, RoundTrips}
use moq_rs.Prelude.{◌==◌, ◌<◌, Bool, ltb, ◌^◌, ◌&&◌, ℕ, ◌||◌}
use moq_rs.Coding.Streaming.{IsStreaming-pure, IsStreaming-bind, IsStreaming}
use moq_rs.Coding.VarInt.{encode_u64, decode_u64}
use moq_rs.Coding.VarInt.RoundTrip.{decode_u64-encode_u64}
use moq_rs.Coding.VarInt.Decode.{u64-IsStreaming}

pub record Location : Type 0 where
  pub group_id : ℕ
  pub object_id : ℕ

unfoldable pub decode_location : Decoder Location
decode_location = do
  group_id ← decode_u64
  object_id ← decode_u64
  pure (record { group_id = group_id; object_id = object_id })

unfoldable pub encode_location : Location → Encoder (Unit {0})
encode_location l = encode_u64 l.group_id ⨟ encode_u64 l.object_id

-- The derived order: `PartialOrd` compares the fields from the first to the last.
unfoldable pub lt_location : Location → Location → Bool
lt_location a b =
    ltb a.group_id b.group_id || (a.group_id == b.group_id && ltb a.object_id b.object_id)

pub decode_location-IsStreaming : IsStreaming decode_location
unfolding decode_location
decode_location-IsStreaming =
    IsStreaming-bind decode_u64 _ u64-IsStreaming
      (λ g. IsStreaming-bind decode_u64 _ u64-IsStreaming (λ o. IsStreaming-pure _))

-- A location of numbers below 2^62 is encoded, given room enough, and decoded back with what
-- follows left over.
pub decode_location-encode_location :
    (l : Location)
    → l.group_id < 2 ^ 62
    → l.object_id < 2 ^ 62
    → RoundTrips (encode_location l) decode_location l
unfolding decode_location encode_location
decode_location-encode_location l hg ho =
    RoundTrips-seq _ _ decode_u64 _ l.group_id l (decode_u64-encode_u64 l.group_id hg) (
      RoundTrips-map (encode_u64 l.object_id) decode_u64
        (λ (o : ℕ). record { group_id = l.group_id; object_id = o }) l.object_id
        (decode_u64-encode_u64 l.object_id ho))
