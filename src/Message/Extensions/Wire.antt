-- ===== src/Message/Extensions/Wire.antt =====
-- Track extensions, and the messages that end in them, as the whole of a payload.
use moq_rs.Prelude.{
  ◌<◌, ◌≤◌, ◌^◌, ltb, length, false, ◌≡◌, arith, ap, ◌∙◌, sym, append-nil, All, List, [], suc,
}
use moq_rs.Coding.Reader.{bind-ok, pure}
use moq_rs.Coding.AtEnd.{AtEnd, AtEnd-seq, AtEnd-map, AtEnd-dec_check}
use moq_rs.Coding.VarInt.{decode_u64}
use moq_rs.Coding.VarInt.RoundTrip.{decode_u64-encode_u64}
use moq_rs.Coding.Integer.{decode_bool, decode_bool-encode_bool}
use moq_rs.Coding.Location.{decode_location, decode_location-encode_location}
use moq_rs.Coding.KeyValuePairs.{KeyValuePair, decode_kvps, decode_pairs, sort_by_key}
use moq_rs.Coding.KeyValuePairs.Wire.{
  IsPair, pairs-RoundTrips, sort_by_key-All, sort_by_key-Ascending,
}
use moq_rs.Coding.KeyValuePairs.ToEnd.{decode_to_end, to_end-pairs}
use moq_rs.Coding.TrackNamespace.{
  decode_namespace, decode_name, validate_full_track_name, full_track_name_len,
  max_full_track_name_len,
}
use moq_rs.Coding.TrackNamespace.Wire.{
  IsNamespace, decode_namespace-encode_namespace, decode_name-encode_name,
}
use moq_rs.Message.Params.{IsParams, by_key, params-RoundTrips}
use moq_rs.Message.Extensions.{
  TrackExtensions, decode_extensions, encode_extensions, SubscribeOk, decode_subscribe_ok,
  encode_subscribe_ok, Publish, decode_publish, encode_publish, FetchOk, decode_fetch_ok,
  encode_fetch_ok,
}

abbrev pub sorted : TrackExtensions → TrackExtensions
sorted x = record { pairs = sort_by_key x.pairs }

pub extensions-AtEnd :
    (x : TrackExtensions)
    → All IsPair x.pairs
    → AtEnd (encode_extensions x) decode_extensions (sorted x)
unfolding encode_extensions decode_extensions
extensions-AtEnd x h =
    let ps = sort_by_key x.pairs in
    let t = pairs-RoundTrips ps 0 (sort_by_key-All x.pairs h).0 (sort_by_key-Ascending x.pairs) in
    let whole = ap (decode_pairs (length ps) 0) (sym (append-nil t.bytes)) ∙ t.reads [] in
    record {
      bytes = t.bytes;
      writes = t.writes;
      reads_all =
          bind-ok (decode_to_end (suc (length t.bytes)) 0)
            (λ (e : List KeyValuePair). pure (record { pairs = e })) {r = t.bytes}
            (to_end-pairs (length ps) (suc (length t.bytes)) 0 t.bytes ps (omega arith) whole);
    }

pub subscribe_ok-AtEnd :
    (m : SubscribeOk)
    → m.id < 2 ^ 62
    → m.track_alias < 2 ^ 62
    → IsParams m.params
    → All IsPair m.track_extensions.pairs
    → AtEnd
        (encode_subscribe_ok m)
        decode_subscribe_ok
        (record m { params = by_key m.params; track_extensions = sorted m.track_extensions })
unfolding encode_subscribe_ok decode_subscribe_ok
subscribe_ok-AtEnd m hi ha hp hx =
    AtEnd-seq _ _ decode_u64 _ m.id _ (decode_u64-encode_u64 m.id hi) (
      AtEnd-seq _ _ decode_u64 _ m.track_alias _ (decode_u64-encode_u64 m.track_alias ha) (
        AtEnd-seq _ _ decode_kvps _ (by_key m.params) _ (params-RoundTrips m.params hp) (
          AtEnd-map _ decode_extensions
            (λ (x : TrackExtensions). record m { params = by_key m.params; track_extensions = x }) _
            (extensions-AtEnd m.track_extensions hx))))

pub record IsPublish (m : Publish) : Type 0 where
  pub id_fits : m.id < 2 ^ 62
  pub good_namespace : IsNamespace m.track_namespace
  pub name_fits : full_track_name_len m.track_namespace m.track_name.value ≤ max_full_track_name_len
  pub alias_fits : m.track_alias < 2 ^ 62
  pub good_params : IsParams m.params
  pub good_extensions : All IsPair m.track_extensions.pairs

pub publish-AtEnd :
    (m : Publish)
    → IsPublish m
    → AtEnd
        (encode_publish m)
        decode_publish
        (record m { params = by_key m.params; track_extensions = sorted m.track_extensions })
unfolding encode_publish decode_publish validate_full_track_name
publish-AtEnd m h =
    let size = h.name_fits in
    let fits : ltb max_full_track_name_len
          (full_track_name_len m.track_namespace m.track_name.value)
        ≡ false =
      ground arith in
    let short : length m.track_name.value ≤ max_full_track_name_len =
      unfold full_track_name_len in omega arith in
    AtEnd-seq _ _ decode_u64 _ m.id _ (decode_u64-encode_u64 m.id h.id_fits) (
      AtEnd-seq _ _ decode_namespace _ m.track_namespace _
        (decode_namespace-encode_namespace _ h.good_namespace)
        (AtEnd-seq _ _ decode_name _ m.track_name _ (decode_name-encode_name m.track_name short) (
          AtEnd-dec_check _ _ _ _ _ fits (
            AtEnd-seq _ _ decode_u64 _ m.track_alias _
              (decode_u64-encode_u64 m.track_alias h.alias_fits)
              (AtEnd-seq _ _ decode_kvps _ (by_key m.params) _
                (params-RoundTrips m.params h.good_params)
                (AtEnd-map _ decode_extensions
                  (λ (x : TrackExtensions). record m {
                    params = by_key m.params;
                    track_extensions = x;
                  })
                  _ (extensions-AtEnd m.track_extensions h.good_extensions)))))))

pub record IsFetchOk (m : FetchOk) : Type 0 where
  pub id_fits : m.id < 2 ^ 62
  pub group_fits : m.end_location.group_id < 2 ^ 62
  pub object_fits : m.end_location.object_id < 2 ^ 62
  pub good_params : IsParams m.params
  pub good_extensions : All IsPair m.track_extensions.pairs

pub fetch_ok-AtEnd :
    (m : FetchOk)
    → IsFetchOk m
    → AtEnd
        (encode_fetch_ok m)
        decode_fetch_ok
        (record m { params = by_key m.params; track_extensions = sorted m.track_extensions })
unfolding encode_fetch_ok decode_fetch_ok
fetch_ok-AtEnd m h = AtEnd-seq _ _ decode_u64 _ m.id _ (decode_u64-encode_u64 m.id h.id_fits) (
    AtEnd-seq _ _ decode_bool _ m.end_of_track _ (decode_bool-encode_bool m.end_of_track) (
      AtEnd-seq _ _ decode_location _ m.end_location _
        (decode_location-encode_location _ h.group_fits h.object_fits)
        (AtEnd-seq _ _ decode_kvps _ (by_key m.params) _ (params-RoundTrips m.params h.good_params)
          (AtEnd-map _ decode_extensions
            (λ (x : TrackExtensions). record m { params = by_key m.params; track_extensions = x }) _
            (extensions-AtEnd m.track_extensions h.good_extensions)))))
