-- ===== src/Message/Frame/Cut.antt =====
-- Payloads that stop too early, in a frame that is all there (`decode` of
-- moq-transport/src/message/mod.rs).
use moq_rs.Prelude.{
  drop-length_append, length, length-append, take-length_append, ℕ, List, ◌∷◌, ◌≡◌, refl, arith,
  inr, ◌++◌, true, Bool, inl, ◌∙◌, false, some, ◌<◌, [], ◌≤◌, ◌^◌, ltb,
}
use moq_rs.Coding.Errors.{DecodeError, Outcome-cases, err, ok, panicked}
use moq_rs.Coding.Integer.{decode_u16, decode_u16-to_be_bytes}
use moq_rs.Coding.Reader.{Decoder, bind-ok, read_slice-enough}
use moq_rs.Coding.RoundTrip.{Writes}
use moq_rs.Coding.Streaming.Cut.{cut_awaits}
use moq_rs.Coding.VarInt.{decode_u64}
use moq_rs.Coding.VarInt.RoundTrip.{decode_u64-wire, wire}
use moq_rs.Coding.Writer.{to_be_bytes}
use moq_rs.Message.Frame.{
  Message, decode_message, decode_payload, encode_payload, message_id, payload_decoder,
}
use moq_rs.Message.Frame.RoundTrip.{IsMessage, payload-Arrives, received}
use moq_rs.Message.Frame.Arms.{runs_to_end, streaming_arm}

module _ (is_utf8 : List ℕ → Bool) where
  -- What reads a payload to its end is its decoder.
  taken :
      (t : ℕ) (dec : Decoder Message) (payload : List ℕ) (m : Message)
      → payload_decoder is_utf8 t ≡ some dec
      → decode_payload is_utf8 t payload [] ≡ ok (m, [])
      → dec payload ≡ ok (m, [])
  unfolding decode_payload
  taken t dec payload m e p = elim (Outcome-cases (dec payload)) [
    | inl (inl ((m', []), q)) ↦
        let r : decode_payload is_utf8 t payload [] ≡ ok (m', []) =
          rw (e, decode_payload) (rw q refl) in
        cc
    | inl (inl ((m', x ∷ left), q)) ↦
        let r : decode_payload is_utf8 t payload [] ≡ err (DecodeError.invalid_message t) =
          let over : ltb 0 (length (x ∷ left)) ≡ true = ground arith in
          rw (e, decode_payload) (rw q (rw over refl)) in
        cc
    | inl (inr (x, q)) ↦
        let r : decode_payload is_utf8 t payload [] ≡ err x = rw (e, decode_payload) (rw q refl) in
        cc
    | inr q ↦
        let r : decode_payload is_utf8 t payload [] ≡ panicked =
          rw (e, decode_payload) (rw q refl) in
        cc
  ]

  -- The answer to a payload that its decoder does not take is its answer, whatever comes behind.
  payload_fails :
      (t : ℕ) (dec : Decoder Message) (payload rest : List ℕ) (x : DecodeError)
      → payload_decoder is_utf8 t ≡ some dec
      → dec payload ≡ err x
      → decode_payload is_utf8 t payload rest ≡ err x
  unfolding decode_payload
  payload_fails t dec payload rest x e p = rw (e, decode_payload) (rw p refl)

  -- A payload is cut out of its frame.
  framed :
      (t : ℕ) (payload rest : List ℕ)
      → t < 2 ^ 62
      → length payload < 2 ^ 16
      → decode_message is_utf8 (wire t ++ (to_be_bytes 2 (length payload) ++ (payload ++ rest)))
        ≡ decode_payload is_utf8 t payload rest
  unfolding decode_message
  framed t payload rest ht hl =
      let l = length payload in
      let tail = payload ++ rest in
      bind-ok decode_u64 _ (decode_u64-wire t ht (to_be_bytes 2 l ++ tail))
      ∙ bind-ok decode_u16 _ (decode_u16-to_be_bytes l hl tail)
      ∙ read_slice-enough l (λ q. decode_payload is_utf8 t q) tail
          (omega (arith, length-append payload rest))
      ∙ rw (take-length_append payload rest, drop-length_append payload rest) refl

  -- A payload that the encoder writes for a message whose parts can be encoded, of a known type
  -- without track extensions, is cut short, to less than 2^16 bytes, and framed with the length that
  -- is left: decode asks for more, and not for more than was cut off, whatever follows the frame,
  -- though the frame is complete.
  pub decode_message_cut :
      (m : Message) (front back rest : List ℕ)
      → IsMessage is_utf8 m
      → runs_to_end m ≡ false
      → Writes (encode_payload m) tt (front ++ back)
      → 0 < length back
      → length front < 2 ^ 16
      → (n : ℕ) × (decode_message is_utf8
            (wire (message_id m) ++ (to_be_bytes 2 (length front) ++ (front ++ rest)))
          ≡ err (DecodeError.more n))
        × (n ≤ length back)
  decode_message_cut m front back rest h no_end w missing short =
      let (dec, e, streaming) = streaming_arm is_utf8 m no_end in
      let (small, reads) = payload-Arrives is_utf8 m (front ++ back) h w in
      let whole = taken (message_id m) dec (front ++ back) (received m) e (reads []) in
      let (n, q, le) = cut_awaits dec front back (received m) streaming whole missing in
      (
        n,
        framed (message_id m) front rest small short
            ∙ payload_fails (message_id m) dec front rest (DecodeError.more n) e q,
        le,
      )
