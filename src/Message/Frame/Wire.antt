-- ===== src/Message/Frame/Wire.antt =====
-- Messages in their frames, on the wire.
use mathlib.Core.Path.{fun_ext}
use moq_rs.Prelude.{
  ℕ, ◌<◌, ◌≤◌, ◌^◌, ◌%◌, List, [], length, ◌≡◌, refl, arith, ltb, false, Bool, some, ◌-◌,
}
use moq_rs.Coding.Errors.{ok}
use moq_rs.Coding.Reader.{Decoder, decode_remaining, copy_to_slice, ◌>>=◌, ◌>>◌}
use moq_rs.Coding.Writer.{Encoder}
use moq_rs.Coding.RoundTrip.{
  RoundTrips, RoundTrips-seq, RoundTrips-slice, RoundTrips-enc_check, Writes,
}
use moq_rs.Coding.VarInt.{decode_u64}
use moq_rs.Coding.VarInt.RoundTrip.{decode_u64-encode_u64}
use moq_rs.Coding.Integer.{decode_u16, decode_u16-encode_u16}
use moq_rs.Message.Frame.{
  Message, message_id, payload_decoder, decode_payload, decode_message, encode_payload, into_vec,
  vec_room, encode_framed, encode_message,
}

module _ (is_utf8 : List ℕ → Bool) (t : ℕ) where
  pub payload_ends :
      (dec : Decoder Message) (payload rest : List ℕ) (m : Message)
      → payload_decoder is_utf8 t ≡ some dec
      → dec payload ≡ ok (m, [])
      → decode_payload is_utf8 t payload rest ≡ ok (m, rest)
  unfolding decode_payload
  payload_ends dec payload rest m e p = rw (e, decode_payload) (rw p refl)

-- What comes behind the type: the length and the payload.
pub framed-RoundTrips :
    {A : Type 0} (parse : List ℕ → Decoder A) (m : A) (payload : List ℕ)
    → ((rest : List ℕ) → parse payload rest ≡ ok (m, rest))
    → length payload ≤ 2 ^ 16 - 1
    → RoundTrips
        (encode_framed payload)
        (decode_u16 >>= λ len. decode_remaining len >> (copy_to_slice len >>= parse))
        m
unfolding encode_framed
framed-RoundTrips parse m payload reads short =
    let fits : ltb (2 ^ 16 - 1) (length payload) ≡ false = ground arith in
    let same : length payload % 2 ^ 16 ≡ length payload = omega arith in
    RoundTrips-enc_check _ _ _ _ m fits (
      rw same (
        RoundTrips-seq _ _ decode_u16 _ (length payload) m
          (decode_u16-encode_u16 (length payload) (omega arith))
          (RoundTrips-slice payload parse m reads)))

pub into_vec-Writes :
    (m : Encoder (Unit {0})) (k : List ℕ → Encoder (Unit {0})) (payload : List ℕ)
    → Writes m tt payload
    → length payload ≤ 2 ^ 16 - 1
    → into_vec m k ≡ k payload
into_vec-Writes m k payload w short = fun_ext λ room. rw (w vec_room (omega arith), into_vec)

-- Whatever a payload is, in a frame of its type it comes back if its decoder reads all of it.
pub message-RoundTrips :
    (is_utf8 : List ℕ → Bool) (m m' : Message) (payload : List ℕ)
    → message_id m < 2 ^ 62
    → Writes (encode_payload m) tt payload
    → ((rest : List ℕ) → decode_payload is_utf8 (message_id m) payload rest ≡ ok (m', rest))
    → length payload ≤ 2 ^ 16 - 1
    → RoundTrips (encode_message m) (decode_message is_utf8) m'
unfolding encode_message decode_message
message-RoundTrips is_utf8 m m' payload ht w reads short =
    rw (into_vec-Writes (encode_payload m) encode_framed payload w short) (
      RoundTrips-seq _ _ decode_u64 _ (message_id m) m' (decode_u64-encode_u64 (message_id m) ht)
        (framed-RoundTrips (decode_payload is_utf8 (message_id m)) m' payload reads short))
