-- ===== src/Tests/Message.antt =====
-- Runs of the messages, and their theorems at concrete inputs.
use moq_rs.Coding.VarInt.{encode_u64, decode_u64}
use moq_rs.Prelude.{
  ◌^◌, ◌∷◌, [], List, ℕ, refl, ◌≡◌, ◌≤◌, arith, none, some, ◌==◌, if◌then◌else◌, Bool, true, ltb,
  ◌&&◌,
}
use moq_rs.Coding.Errors.{ok}
use moq_rs.Coding.RoundTrip.{RoundTrips}
use moq_rs.Coding.KeyValuePairs.{
  KeyValuePair, KeyValuePairs, int_value, bytes_value, encode_kvps, decode_kvps, sort_by_key,
  set_pair, find_pair,
}
use moq_rs.Coding.KeyValuePairs.Wire.{decode_kvps-encode_kvps}
use moq_rs.Coding.KeyValuePairs.Table.{find_pair-set_pair}
use moq_rs.Coding.TrackNamespace.{
  decode_namespace, decode_name, validate_full_track_name, full_track_name_len,
  max_full_track_name_len,
}
use moq_rs.Coding.TrackNamespace.Wire.{IsNamespace}
use moq_rs.Message.Params.{IsParams, by_key}
use moq_rs.Message.Subscribe.{Subscribe, decode_subscribe, decode_subscribe_bounds}
use moq_rs.Message.Fetch.{Fetch, relative_joining, encode_fetch, decode_fetch}
use moq_rs.Message.Fetch.Wire.{decode_fetch-encode_fetch}
use moq_rs.Tests.Coding.{foo}

abbrev odd_pair : KeyValuePair
odd_pair = record { key = 3; value = bytes_value (0xab ∷ 0xcd ∷ []) }

abbrev even_pair : KeyValuePair
even_pair = record { key = 2; value = int_value 42 }

abbrev two_pairs : KeyValuePairs
two_pairs = record { pairs = odd_pair ∷ even_pair ∷ [] }

encode_two_pairs : encode_kvps two_pairs 20 ≡ ok (tt, 2 ∷ 2 ∷ 42 ∷ 1 ∷ 2 ∷ 0xab ∷ 0xcd ∷ [], 13)
unfolding encode_kvps encode_u64
encode_two_pairs = refl

two_pairs-IsParams : IsParams two_pairs
two_pairs-IsParams = record {
  each_pair = (
    record { parity = refl; key_fits = omega arith; value_fits = omega arith },
    (record { parity = refl; key_fits = omega arith; value_fits = omega arith }, tt),
  );
  countable = omega arith;
}

decode_kvps-encode_kvps_example :
    RoundTrips (encode_kvps two_pairs) decode_kvps (record { pairs = sort_by_key two_pairs.pairs })
decode_kvps-encode_kvps_example =
    decode_kvps-encode_kvps two_pairs two_pairs-IsParams.each_pair (omega arith)

find_pair-set_pair_example :
    find_pair 2 (set_pair even_pair (odd_pair ∷ []))
    ≡ (if even_pair.key == 2 then some even_pair else find_pair 2 (odd_pair ∷ []))
find_pair-set_pair_example = find_pair-set_pair even_pair (odd_pair ∷ []) 2

abbrev decoded : Subscribe
decoded = record {
  id = 4;
  track_namespace = record { fields = foo ∷ [] };
  track_name = record { value = b'v' ∷ [] };
  params = record { pairs = [] };
}

decode_foo :
    decode_subscribe (4 ∷ 1 ∷ 3 ∷ b'f' ∷ b'o' ∷ b'o' ∷ 1 ∷ b'v' ∷ 0 ∷ 9 ∷ []) ≡ ok (decoded, 9 ∷ [])
unfolding decode_subscribe decode_u64 decode_namespace decode_name validate_full_track_name
    decode_kvps
decode_foo = refl

decode_subscribe_bounds_example :
    IsNamespace decoded.track_namespace
    × (full_track_name_len decoded.track_namespace decoded.track_name.value
        ≤ max_full_track_name_len)
decode_subscribe_bounds_example =
    decode_subscribe_bounds (4 ∷ 1 ∷ 3 ∷ b'f' ∷ b'o' ∷ b'o' ∷ 1 ∷ b'v' ∷ 0 ∷ 9 ∷ []) decoded
      (9 ∷ []) decode_foo

abbrev joining : Fetch
joining = record {
  id = 6;
  fetch_type = relative_joining;
  standalone_fetch = none;
  joining_fetch = some (record { joining_request_id = 4; joining_start = 2 });
  params = two_pairs;
}

decode_fetch-encode_fetch_example :
    RoundTrips (encode_fetch joining) decode_fetch (record joining { params = by_key two_pairs })
decode_fetch-encode_fetch_example =
    decode_fetch-encode_fetch joining (omega arith) (omega arith, omega arith) two_pairs-IsParams

-- Bytes below 2^7 only, which are UTF-8.
abbrev pub is_ascii : List ℕ → Bool
is_ascii [] = true
is_ascii (b ∷ bs) = ltb b (2 ^ 7) && is_ascii bs
