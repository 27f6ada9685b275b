-- ===== src/Message/Fetch.antt =====
-- FETCH: moq-transport/src/message/fetch_type.rs and fetch.rs.
pub mod Wire
use moq_rs.Prelude.{
  ◌<◌, ◌≤◌, ◌^◌, ℕ, ◌==◌, ltb, length, if◌then◌else◌, Option, some, none, arith, ◌≡◌, false,
}
use moq_rs.Coding.Errors.{DecodeError, EncodeError}
use moq_rs.Coding.Reader.{Decoder, pure, throw, ◌>>=◌, ◌>>◌}
use moq_rs.Coding.Writer.{Encoder, ◌⨟◌, fail}
use moq_rs.Coding.VarInt.{decode_u64, encode_u64}
use moq_rs.Coding.VarInt.RoundTrip.{decode_u64-encode_u64}
use moq_rs.Coding.RoundTrip.{
  RoundTrips, RoundTrips-seq, RoundTrips-map, RoundTrips-then, RoundTrips-dec_check,
}
use moq_rs.Coding.Location.{
  Location, decode_location, encode_location, decode_location-encode_location,
}
use moq_rs.Coding.KeyValuePairs.{KeyValuePairs, decode_kvps, encode_kvps}
use moq_rs.Coding.TrackNamespace.{
  TrackNamespace, TrackName, encode_namespace, decode_namespace, encode_name, decode_name,
  validate_full_track_name, full_track_name_len, max_full_track_name_len,
}
use moq_rs.Coding.TrackNamespace.Wire.{
  IsNamespace, decode_namespace-encode_namespace, decode_name-encode_name,
}
use moq_rs.Message.Params.{IsParams, by_key, params-RoundTrips}

pub data FetchType : Type 0 where
  standalone relative_joining absolute_joining : FetchType

-- `*self as u64`
unfoldable pub encode_fetch_type : FetchType → Encoder (Unit {0})
encode_fetch_type standalone = encode_u64 1
encode_fetch_type relative_joining = encode_u64 2
encode_fetch_type absolute_joining = encode_u64 3

unfoldable pub fetch_type : ℕ → Decoder FetchType
fetch_type n =
    if n == 1
    then pure standalone
    else if n == 2
    then pure relative_joining
    else if n == 3
    then pure absolute_joining
    else throw DecodeError.invalid_fetch_type

unfoldable pub decode_fetch_type : Decoder FetchType
unfolding fetch_type
decode_fetch_type = decode_u64 >>= fetch_type

pub record StandaloneFetch : Type 0 where
  pub track_namespace : TrackNamespace
  pub track_name : TrackName
  pub start_location : Location
  pub end_location : Location

unfoldable pub decode_standalone : Decoder StandaloneFetch
decode_standalone = do
  track_namespace ← decode_namespace
  track_name ← decode_name
  validate_full_track_name track_namespace track_name.value
  start ← decode_location
  end ← decode_location
  pure (record {
    track_namespace = track_namespace;
    track_name = track_name;
    start_location = start;
    end_location = end;
  })

unfoldable pub encode_standalone : StandaloneFetch → Encoder (Unit {0})
encode_standalone f =
    encode_namespace f.track_namespace
    ⨟ encode_name f.track_name
    ⨟ encode_location f.start_location
    ⨟ encode_location f.end_location

pub record JoiningFetch : Type 0 where
  pub joining_request_id : ℕ
  pub joining_start : ℕ

unfoldable pub decode_joining : Decoder JoiningFetch
decode_joining = do
  request ← decode_u64
  start ← decode_u64
  pure (record { joining_request_id = request; joining_start = start })

unfoldable pub encode_joining : JoiningFetch → Encoder (Unit {0})
encode_joining f = encode_u64 f.joining_request_id ⨟ encode_u64 f.joining_start

pub record Fetch : Type 0 where
  pub id : ℕ
  pub fetch_type : FetchType
  pub standalone_fetch : Option StandaloneFetch
  pub joining_fetch : Option JoiningFetch
  pub params : KeyValuePairs

abbrev pub Target : Type 0
Target = Option StandaloneFetch × Option JoiningFetch

abbrev pub decode_as_standalone : Decoder Target
decode_as_standalone = decode_standalone >>= λ f. pure (some f, none)

abbrev pub decode_as_joining : Decoder Target
decode_as_joining = decode_joining >>= λ f. pure (none, some f)

-- `match fetch_type` of the decoder
unfoldable pub decode_target : FetchType → Decoder Target
unfolding decode_standalone decode_joining
decode_target standalone = decode_as_standalone
decode_target relative_joining = decode_as_joining
decode_target absolute_joining = decode_as_joining

unfoldable pub decode_fetch : Decoder Fetch
unfolding decode_target decode_fetch_type
decode_fetch = do
  id ← decode_u64
  kind ← decode_fetch_type
  target ← decode_target kind
  params ← decode_kvps
  pure (record {
    id = id;
    fetch_type = kind;
    standalone_fetch = target.0;
    joining_fetch = target.1;
    params = params;
  })

unfoldable pub encode_standalone_of : Option StandaloneFetch → Encoder (Unit {0})
unfolding encode_standalone
encode_standalone_of none = fail (EncodeError.missing_field "StandaloneFetch info")
encode_standalone_of (some f) = encode_standalone f

unfoldable pub encode_joining_of : Option JoiningFetch → Encoder (Unit {0})
unfolding encode_joining
encode_joining_of none = fail (EncodeError.missing_field "JoiningFetch info")
encode_joining_of (some f) = encode_joining f

-- `match self.fetch_type` of the encoder
unfoldable pub encode_target : FetchType → Target → Encoder (Unit {0})
unfolding encode_standalone_of encode_joining_of
encode_target standalone (s, j) = encode_standalone_of s
encode_target relative_joining (s, j) = encode_joining_of j
encode_target absolute_joining (s, j) = encode_joining_of j

unfoldable pub encode_fetch : Fetch → Encoder (Unit {0})
unfolding encode_target encode_fetch_type
encode_fetch m =
    encode_u64 m.id
    ⨟ encode_fetch_type m.fetch_type
    ⨟ encode_target m.fetch_type (m.standalone_fetch, m.joining_fetch)
    ⨟ encode_kvps m.params
