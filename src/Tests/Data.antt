-- ===== src/Tests/Data.antt =====
-- Runs of the data streams, and their theorems at concrete inputs.
use moq_rs.Prelude.{
  ℕ, ◌≡◌, refl, arith, some, none, [], ◌∷◌, List, ◌<◌, ◌^◌, map, inl, ◌&&◌, not, false, is_some,
  ◌==◌,
}
use moq_rs.Coding.RoundTrip.{RoundTrips}
use moq_rs.Coding.Errors.{ok}
use moq_rs.Data.ExtensionHeaders.{ExtensionHeaders, IsHeaders, encode_tmp, decode_headers}
use moq_rs.Data.Fetch.{FetchObject, FetchEntry, object, end_of_range, non_existent, is_empty}
use moq_rs.Data.Header.{
  StreamHeader, StreamHeaderType, is_subgroup, type_number, has_subgroup_id, encode_stream_header,
  decode_stream_header,
}
use moq_rs.Data.Header.RoundTrip.{
  IsStreamHeader, sent_header, decode_stream_header-encode_stream_header,
}
use moq_rs.Data.Subgroup.{
  SubgroupObjectExt, end_of_group, encode_subgroup_object_ext, decode_subgroup_object_ext,
  status_if_empty, special,
}
use moq_rs.Data.Datagram.{
  Datagram, DatagramType, encode_datagram, decode_datagram, has_object_id, has_payload, has_status,
  has_extension_headers,
}
use moq_rs.Data.Datagram.RoundTrip.{IsDatagram, sent_datagram, datagram-AtEnd}
use moq_rs.Coding.AtEnd.{AtEnd}
use moq_rs.Data.Subgroup.RoundTrip.{
  IsObjectExt, sent_ext, decode_ext-encode_ext, decode_ext_checked,
}
use moq_rs.Coding.KeyValuePairs.{encode_pairs, sort_by_key}
use moq_rs.Coding.VarInt.{decode_u64}
use moq_rs.Data.Fetch.Fields.{IsObject}
use moq_rs.Data.Fetch.Stream.{encode_all, decode_all, received_entry, decode_all-encode_all}

abbrev no_headers : ExtensionHeaders
no_headers = record { pairs = [] }

no_headers-IsHeaders : IsHeaders no_headers
unfolding encode_tmp encode_pairs sort_by_key
no_headers-IsHeaders = record {
  each_pair = tt;
  bytes = [];
  writes = λ room h. ground arith;
  countable = omega arith;
}

abbrev plain_object : ℕ → ℕ → FetchObject
plain_object group_id object_id = record {
  group_id = group_id;
  subgroup_id = some 7;
  object_id = object_id;
  publisher_priority = 128;
  extension_headers = no_headers;
  payload_length = 1;
}

plain_object-IsObject : (g k : ℕ) → g < 2 ^ 62 → k < 2 ^ 62 → IsObject (plain_object g k)
plain_object-IsObject g k hg hk = record {
  group_fits = hg;
  subgroup_fits = omega arith;
  object_fits = hk;
  priority_fits = omega arith;
  good_headers = no_headers-IsHeaders;
  length_fits = omega arith;
}

-- Two objects in a row, a gap, and an object behind it.
abbrev entries : List (FetchEntry × List ℕ)
entries =
    (object (plain_object 1 0), 9 ∷ [])
    ∷ (object (plain_object 1 1), 8 ∷ [])
    ∷ (end_of_range non_existent (record { group_id = 1; object_id = 5 }), [])
    ∷ (object (plain_object 1 6), 7 ∷ [])
    ∷ []

decode_all-encode_all_example :
    RoundTrips (encode_all none entries) (decode_all 4 none) (map received_entry entries)
decode_all-encode_all_example =
    decode_all-encode_all entries none none
      (
        (plain_object-IsObject 1 0 (omega arith) (omega arith), refl),
        (
          (plain_object-IsObject 1 1 (omega arith) (omega arith), refl),
          (
            (omega arith, omega arith, refl),
            ((plain_object-IsObject 1 6 (omega arith) (omega arith), refl), tt),
          ),
        ),
      )
      tt

abbrev opening : StreamHeader
opening = record {
  header_type = StreamHeaderType.subgroup_id_ext;
  subgroup_header = some (record {
    header_type = StreamHeaderType.subgroup_id_ext;
    track_alias = 10;
    group_id = 0;
    subgroup_id = some 1;
    publisher_priority = 100;
  });
  fetch_header = none;
}

opening-IsStreamHeader : IsStreamHeader opening
unfolding is_subgroup type_number has_subgroup_id
opening-IsStreamHeader = inl (
  refl,
  (
    record {
      header_type = StreamHeaderType.subgroup_id_ext;
      track_alias = 10;
      group_id = 0;
      subgroup_id = some 1;
      publisher_priority = 100;
    },
    refl,
    refl,
    record {
      alias_fits = omega arith;
      group_fits = omega arith;
      id_fits = omega arith;
      priority_fits = omega arith;
    },
  ),
)

decode_stream_header-encode_stream_header_example :
    RoundTrips (encode_stream_header opening) decode_stream_header (sent_header opening)
decode_stream_header-encode_stream_header_example =
    decode_stream_header-encode_stream_header opening opening-IsStreamHeader

abbrev last_object : SubgroupObjectExt
last_object = record {
  object_id_delta = 3;
  extension_headers = no_headers;
  payload_length = 0;
  status = some end_of_group;
}

last_object-IsObjectExt : IsObjectExt last_object
last_object-IsObjectExt = record {
  delta_fits = omega arith;
  good_headers = no_headers-IsHeaders;
  length_fits = omega arith;
  good_status = refl;
}

decode_ext-encode_ext_example :
    RoundTrips
      (encode_subgroup_object_ext last_object)
      decode_subgroup_object_ext
      (sent_ext last_object)
decode_ext-encode_ext_example = decode_ext-encode_ext last_object last_object-IsObjectExt

decode_last : decode_subgroup_object_ext (3 ∷ 0 ∷ 0 ∷ 3 ∷ 6 ∷ []) ≡ ok (last_object, 6 ∷ [])
unfolding decode_subgroup_object_ext decode_u64 decode_headers status_if_empty
decode_last = refl

decode_ext_checked_example :
    ((special last_object.status && not (is_empty last_object.extension_headers)) ≡ false)
    × (is_some last_object.status ≡ (last_object.payload_length == 0))
decode_ext_checked_example =
    decode_ext_checked (3 ∷ 0 ∷ 0 ∷ 3 ∷ 6 ∷ []) last_object (6 ∷ []) decode_last

abbrev small_datagram : Datagram
small_datagram = record {
  datagram_type = DatagramType.object_id_payload;
  track_alias = 12;
  group_id = 10;
  object_id = some 1234;
  publisher_priority = 127;
  extension_headers = none;
  status = none;
  payload = some (1 ∷ 2 ∷ []);
}

small_datagram-IsDatagram : IsDatagram small_datagram
unfolding has_object_id has_payload has_status has_extension_headers
small_datagram-IsDatagram = record {
  alias_fits = omega arith;
  group_fits = omega arith;
  id_fits = omega arith;
  priority_fits = omega arith;
  headers_fit = tt;
  status_fits = tt;
  payload_fits = tt;
}

datagram-AtEnd_example :
    AtEnd (encode_datagram small_datagram) decode_datagram (sent_datagram small_datagram)
datagram-AtEnd_example = datagram-AtEnd small_datagram small_datagram-IsDatagram
