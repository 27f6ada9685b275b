-- ===== src/Tests/Frame.antt =====
-- Runs of the frame around messages, and its theorems at concrete inputs.
use moq_rs.Coding.Writer.{to_be_bytes, refuse_if, put_u16, encode_remaining, put_slice, ◌⨟◌, done}
use moq_rs.Coding.VarInt.{encode_u64}
use moq_rs.Prelude.{
  ◌∷◌, [], refl, ◌≡◌, arith, ltb, ◌++◌, ◌≢◌, false, ◌∙◌, ◌%◌, ap, ◌<◌, true, leb, ◌-◌, ℕ, ◌^◌, ◌≤◌,
}
use moq_rs.Coding.Errors.{ok, panicked, DecodeError, err, EncodeError}
use moq_rs.Coding.RoundTrip.{RoundTrips, Writes, Writes-and_then, Writes-slice, Writes-done}
use moq_rs.Message.Params.{encode_request_ok, encode_max_request_id, IsParams, by_key}
use moq_rs.Coding.VarInt.RoundTrip.{wire, encode_varint_lem}
use moq_rs.Coding.KeyValuePairs.ToEnd.{decode_to_end, to_end-ne-panicked}
use moq_rs.Message.Frame.{
  Message, encode_payload, encode_message, decode_message, message_id, encode_framed, into_vec,
}
use moq_rs.Message.Frame.RoundTrip.{received, decode_message-encode_message}
use moq_rs.Message.Frame.Cut.{decode_message_cut}
use moq_rs.Coding.Integer.{encode_u16}
use moq_rs.Message.Frame.Wire.{into_vec-Writes}
use moq_rs.Session.Reader.{decode, joined}
use moq_rs.Session.Delivery.{decode-encode_message}
use moq_rs.Coding.KeyValuePairs.{
  KeyValuePair, KeyValuePairs, int_value, encode_kvps, sort_by_key, encode_pairs, encode_with_prev,
  encode_value,
}
use moq_rs.Setup.{encode_client, decode_client, encode_server, decode_server, setup-RoundTrips}
use moq_rs.Tests.Message.{is_ascii}

abbrev grant : Message
grant = Message.max_request_id (record { request_id = 7 })

grant_payload : Writes (encode_payload grant) tt (7 ∷ [])
unfolding encode_payload encode_max_request_id encode_u64 wire
grant_payload room enough =
    encode_varint_lem 7 room ∙ (let short : ltb room 1 ≡ false = ground arith in rw short refl)

decode_message-encode_message_example :
    RoundTrips (encode_message grant) (decode_message is_ascii) (received grant)
decode_message-encode_message_example =
    decode_message-encode_message is_ascii grant (7 ∷ []) (omega arith) grant_payload (omega arith)

to_end-ne-panicked_example : decode_to_end 4 0 (2 ∷ 42 ∷ 1 ∷ []) ≢ panicked
to_end-ne-panicked_example = to_end-ne-panicked 4 0 (2 ∷ 42 ∷ 1 ∷ []) (omega arith)

grant_type : Writes (encode_u64 0x15) tt (0x15 ∷ [])
unfolding encode_u64 wire
grant_type room enough =
    let short : ltb room 1 ≡ false = ground arith in encode_varint_lem 0x15 room ∙ rw short refl

grant_bytes : Writes (encode_message grant) tt (0x15 ∷ 0 ∷ 1 ∷ 7 ∷ [])
unfolding encode_message message_id encode_framed encode_u16 put_u16 to_be_bytes
grant_bytes =
    Writes-and_then (encode_u64 0x15) (λ _. into_vec (encode_payload grant) encode_framed) tt tt
      (0x15 ∷ []) (0 ∷ 1 ∷ 7 ∷ []) grant_type
      (rw
        (into_vec-Writes (encode_payload grant) encode_framed (7 ∷ []) grant_payload (omega arith))
        (Writes-and_then (refuse_if false EncodeError.msg_bounds_exceeded)
          (λ _. encode_u16 1 ⨟ encode_remaining 1 ⨟ put_slice (7 ∷ [])) tt tt [] (0 ∷ 1 ∷ 7 ∷ [])
          (λ room h. ground arith)
          (Writes-and_then (encode_u16 1) (λ _. encode_remaining 1 ⨟ put_slice (7 ∷ [])) tt tt
            (0 ∷ 1 ∷ []) (7 ∷ []) (Writes-slice (0 ∷ 1 ∷ []) 2 refl)
            (Writes-slice (7 ∷ []) 1 refl))))

-- The message arrives in three chunks, the last with a byte that follows.
decode-encode_message_example :
    joined (decode (decode_message is_ascii) [] ((0x15 ∷ []) ∷ (0 ∷ 1 ∷ []) ∷ (7 ∷ 9 ∷ []) ∷ []))
    ≡ ok (received grant, 9 ∷ [])
decode-encode_message_example =
    decode-encode_message is_ascii grant (7 ∷ []) (0x15 ∷ 0 ∷ 1 ∷ 7 ∷ []) (9 ∷ []) []
      ((0x15 ∷ []) ∷ (0 ∷ 1 ∷ []) ∷ (7 ∷ 9 ∷ []) ∷ []) (omega arith) grant_payload (omega arith)
      grant_bytes refl

small_number : (x : ℕ) → x < 64 → Writes (encode_u64 x) tt (x ∷ [])
unfolding encode_u64 wire
small_number x h room enough =
    let in_range : ltb x (2 ^ 62) ≡ true = ground arith in
    let fits : leb x (2 ^ 62 - 1) ≡ true = ground arith in
    let one_byte : ltb x (2 ^ 6) ≡ true = ground arith in
    let short : ltb room 1 ≡ false = ground arith in
    let same : x % 256 ≡ x = omega arith in
    rw fits (
      encode_varint_lem x room
      ∙ rw (in_range, one_byte, short) (ap (λ b. ok (tt, b ∷ [], room - 1)) same))

abbrev limit_pair : KeyValuePair
limit_pair = record { key = 2; value = int_value 42 }

abbrev limit_params : KeyValuePairs
limit_params = record { pairs = limit_pair ∷ [] }

limit_params-IsParams : IsParams limit_params
limit_params-IsParams = record {
  each_pair = (record { parity = refl; key_fits = omega arith; value_fits = omega arith }, tt);
  countable = omega arith;
}

nothing_written : {A : Type 0} → (a : A) → Writes (done a) a []
nothing_written a room h = ground arith

limit_bytes : Writes (encode_kvps limit_params) tt (1 ∷ 2 ∷ 42 ∷ [])
unfolding encode_kvps sort_by_key encode_pairs encode_with_prev encode_value
limit_bytes =
    Writes-and_then (encode_u64 1) (λ _. encode_pairs (limit_pair ∷ []) 0) tt tt (1 ∷ [])
      (2 ∷ 42 ∷ []) (small_number 1 (omega arith))
      (Writes-and_then (encode_with_prev limit_pair 0) (λ next. encode_pairs [] next) 2 tt
        (2 ∷ 42 ∷ []) []
        (Writes-done (done tt ⨟ done tt ⨟ encode_u64 2 ⨟ encode_u64 42) 2 (2 ∷ 42 ∷ []) (
          Writes-and_then (done tt) (λ _. done tt ⨟ encode_u64 2 ⨟ encode_u64 42) tt tt []
            (2 ∷ 42 ∷ []) (nothing_written tt)
            (Writes-and_then (done tt) (λ _. encode_u64 2 ⨟ encode_u64 42) tt tt [] (2 ∷ 42 ∷ [])
              (nothing_written tt)
              (Writes-and_then (encode_u64 2) (λ _. encode_u64 42) tt tt (2 ∷ []) (42 ∷ [])
                (small_number 2 (omega arith)) (small_number 42 (omega arith))))))
        (nothing_written tt))

setup-RoundTrips_example :
    RoundTrips
      (encode_client (record { params = limit_params }))
      decode_client
      (record { params = by_key limit_params })
    × RoundTrips
        (encode_server (record { params = limit_params }))
        decode_server
        (record { params = by_key limit_params })
setup-RoundTrips_example =
    setup-RoundTrips limit_params (1 ∷ 2 ∷ 42 ∷ []) limit_params-IsParams limit_bytes (omega arith)

abbrev granted : Message
granted = Message.request_ok (record { id = 5; params = limit_params })

granted_payload : Writes (encode_payload granted) tt (5 ∷ 1 ∷ 2 ∷ 42 ∷ [])
unfolding encode_payload encode_request_ok
granted_payload =
    Writes-and_then (encode_u64 5) (λ _. encode_kvps limit_params) tt tt (5 ∷ []) (1 ∷ 2 ∷ 42 ∷ [])
      (small_number 5 (omega arith)) limit_bytes

-- The payload ends behind the number of parameters; the next message starts with two bytes 9.
decode_message_cut_example :
    (n : ℕ) × (decode_message is_ascii
        (wire 0x7 ++ (to_be_bytes 2 2 ++ (5 ∷ 1 ∷ [] ++ (9 ∷ 9 ∷ []))))
      ≡ err (DecodeError.more n))
    × (n ≤ 2)
unfolding message_id
decode_message_cut_example =
    decode_message_cut is_ascii granted (5 ∷ 1 ∷ []) (2 ∷ 42 ∷ []) (9 ∷ 9 ∷ [])
      (omega arith, limit_params-IsParams) refl granted_payload (omega arith) (omega arith)
