-- ===== src/Message/Fetch/Wire.antt =====
-- FETCH on the wire.
use moq_rs.Prelude.{◌<◌, ◌≤◌, ◌^◌, ℕ, ltb, length, some, none, arith, ◌≡◌, false, refl}
use moq_rs.Coding.RoundTrip.{
  RoundTrips, RoundTrips-seq, RoundTrips-map, RoundTrips-then, RoundTrips-dec_check,
}
use moq_rs.Coding.VarInt.{decode_u64}
use moq_rs.Coding.VarInt.RoundTrip.{decode_u64-encode_u64}
use moq_rs.Coding.Location.{Location, decode_location, decode_location-encode_location}
use moq_rs.Coding.KeyValuePairs.{KeyValuePairs, decode_kvps}
use moq_rs.Coding.TrackNamespace.{
  decode_namespace, decode_name, validate_full_track_name, full_track_name_len,
  max_full_track_name_len,
}
use moq_rs.Coding.TrackNamespace.Wire.{
  IsNamespace, decode_namespace-encode_namespace, decode_name-encode_name,
}
use moq_rs.Message.Params.{IsParams, by_key, params-RoundTrips}
use moq_rs.Message.Fetch.{
  FetchType, standalone, relative_joining, absolute_joining, encode_fetch_type, decode_fetch_type,
  StandaloneFetch, JoiningFetch, Fetch, Target, decode_standalone, encode_standalone,
  decode_joining, encode_joining, decode_target, encode_target, decode_fetch, encode_fetch,
  decode_as_joining,
}

abbrev pub LocationFits : Location → Type 0
LocationFits l = (l.group_id < 2 ^ 62) × (l.object_id < 2 ^ 62)

pub record IsStandalone (f : StandaloneFetch) : Type 0 where
  pub good_namespace : IsNamespace f.track_namespace
  pub name_fits : full_track_name_len f.track_namespace f.track_name.value ≤ max_full_track_name_len
  pub start_fits : LocationFits f.start_location
  pub end_fits : LocationFits f.end_location

-- The part that the type of the request calls for is there and can be encoded.
abbrev pub TargetFits : FetchType → Target → Type 0
TargetFits standalone (some f, j) = IsStandalone f
TargetFits standalone (none, j) = ⊥
TargetFits relative_joining (s, some f) =
    (f.joining_request_id < 2 ^ 62) × (f.joining_start < 2 ^ 62)
TargetFits relative_joining (s, none) = ⊥
TargetFits absolute_joining (s, some f) =
    (f.joining_request_id < 2 ^ 62) × (f.joining_start < 2 ^ 62)
TargetFits absolute_joining (s, none) = ⊥

-- What goes over the wire: that part.
abbrev pub sent_target : FetchType → Target → Target
sent_target standalone (s, j) = (s, none)
sent_target relative_joining (s, j) = (none, j)
sent_target absolute_joining (s, j) = (none, j)

standalone-RoundTrips :
    (f : StandaloneFetch) → IsStandalone f → RoundTrips (encode_standalone f) decode_standalone f
unfolding encode_standalone decode_standalone validate_full_track_name
standalone-RoundTrips f h =
    let size = h.name_fits in
    let fits : ltb max_full_track_name_len
          (full_track_name_len f.track_namespace f.track_name.value)
        ≡ false =
      ground arith in
    let short : length f.track_name.value ≤ max_full_track_name_len =
      unfold full_track_name_len in omega arith in
    let (sg, so) = h.start_fits in
    let (eg, eo) = h.end_fits in
    RoundTrips-seq _ _ decode_namespace _ f.track_namespace _
      (decode_namespace-encode_namespace _ h.good_namespace)
      (RoundTrips-seq _ _ decode_name _ f.track_name _ (decode_name-encode_name f.track_name short)
        (RoundTrips-dec_check _ _ _ _ _ fits (
          RoundTrips-seq _ _ decode_location _ f.start_location _
            (decode_location-encode_location _ sg so)
            (RoundTrips-map _ decode_location (λ (l : Location). record f { end_location = l }) _
              (decode_location-encode_location f.end_location eg eo)))))

joining-RoundTrips :
    (f : JoiningFetch)
    → f.joining_request_id < 2 ^ 62
    → f.joining_start < 2 ^ 62
    → RoundTrips (encode_joining f) decode_joining f
unfolding encode_joining decode_joining
joining-RoundTrips f hr hs =
    RoundTrips-seq _ _ decode_u64 _ f.joining_request_id _ (decode_u64-encode_u64 _ hr) (
      RoundTrips-map _ decode_u64 (λ (n : ℕ). record f { joining_start = n }) _
        (decode_u64-encode_u64 f.joining_start hs))

fetch_type-RoundTrips : (t : FetchType) → RoundTrips (encode_fetch_type t) decode_fetch_type t
unfolding encode_fetch_type decode_fetch_type
fetch_type-RoundTrips standalone =
    RoundTrips-then _ decode_u64 _ 1 _ (decode_u64-encode_u64 1 (omega arith)) (λ rest. refl)
fetch_type-RoundTrips relative_joining =
    RoundTrips-then _ decode_u64 _ 2 _ (decode_u64-encode_u64 2 (omega arith)) (λ rest. refl)
fetch_type-RoundTrips absolute_joining =
    RoundTrips-then _ decode_u64 _ 3 _ (decode_u64-encode_u64 3 (omega arith)) (λ rest. refl)

abbrev only_standalone : StandaloneFetch → Target
only_standalone f = (some f, none)

abbrev only_joining : JoiningFetch → Target
only_joining f = (none, some f)

as_joining :
    (f : JoiningFetch)
    → f.joining_request_id < 2 ^ 62
    → f.joining_start < 2 ^ 62
    → RoundTrips {A = Target} (encode_joining f) decode_as_joining (none, some f)
as_joining f hr hs =
    RoundTrips-map (encode_joining f) decode_joining only_joining f (joining-RoundTrips f hr hs)

target-RoundTrips :
    (t : FetchType) (x : Target)
    → TargetFits t x
    → RoundTrips (encode_target t x) (decode_target t) (sent_target t x)
unfolding encode_target decode_target
target-RoundTrips standalone (some f, j) h =
    RoundTrips-map (encode_standalone f) decode_standalone only_standalone f
      (standalone-RoundTrips f h)
target-RoundTrips standalone (none, j) h = elim h [ ]
target-RoundTrips relative_joining (s, some f) (hr, hs) = as_joining f hr hs
target-RoundTrips relative_joining (s, none) h = elim h [ ]
target-RoundTrips absolute_joining (s, some f) (hr, hs) = as_joining f hr hs
target-RoundTrips absolute_joining (s, none) h = elim h [ ]

-- A FETCH with an id below 2^62, the part that its type calls for, itself encodable, and encodable
-- parameters is encoded, given room enough, and comes back with that part, without the other one,
-- and with its parameters sorted by key.
pub decode_fetch-encode_fetch :
    (m : Fetch)
    → m.id < 2 ^ 62
    → TargetFits m.fetch_type (m.standalone_fetch, m.joining_fetch)
    → IsParams m.params
    → RoundTrips (encode_fetch m) decode_fetch (
        let target = sent_target m.fetch_type (m.standalone_fetch, m.joining_fetch) in
        record m {
          standalone_fetch = target.0;
          joining_fetch = target.1;
          params = by_key m.params;
        })
unfolding encode_fetch decode_fetch
decode_fetch-encode_fetch m hi ht h =
    let target = sent_target m.fetch_type (m.standalone_fetch, m.joining_fetch) in
    RoundTrips-seq _ _ decode_u64 _ m.id _ (decode_u64-encode_u64 m.id hi) (
      RoundTrips-seq _ _ decode_fetch_type _ m.fetch_type _ (fetch_type-RoundTrips m.fetch_type) (
        RoundTrips-seq _ _ (decode_target m.fetch_type) _ target _
          (target-RoundTrips m.fetch_type (m.standalone_fetch, m.joining_fetch) ht)
          (RoundTrips-map _ decode_kvps
            (λ (k : KeyValuePairs). record m {
              standalone_fetch = target.0;
              joining_fetch = target.1;
              params = k;
            })
            _ (params-RoundTrips m.params h))))
