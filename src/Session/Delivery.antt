-- ===== src/Session/Delivery.antt =====
-- A control message on its way: `Message::encode` at one end (moq-transport/src/message/mod.rs),
-- `Reader::decode` at the other (moq-transport/src/session/reader.rs).
use mathlib.Core.Path.{fun_ext, subst}
use moq_rs.Prelude.{
  ℕ, List, [], ◌∷◌, ◌++◌, ◌≡◌, refl, sym, ◌∙◌, inl, inr, append_assoc, some, Option, Bool, ltb,
  none, Option-cases, if◌then◌else◌, length, ◌-◌, append-nil, ◌≤◌, ◌^◌, Bool-cases, ap,
}
use moq_rs.Coding.Errors.{ok, Outcome-cases, err, DecodeError, panicked, Outcome}
use moq_rs.Message.Frame.{
  Message, payload_decoder, decode_payload, decode_message, encode_message, encode_payload,
}
use moq_rs.Coding.Reader.{
  Decoder, throw, pure, decode_remaining, copy_to_slice, ◌>>=◌, bind-err, bind-panicked, bind-ok,
  ◌>>◌, bind_assoc,
}
use moq_rs.Coding.Streaming.{
  IsStreaming, read_slice-IsStreaming, IsStreaming-bind, IsStreaming-throw, IsStreaming-pure,
  IsStreaming-if,
}
use moq_rs.Coding.VarInt.{decode_u64}
use moq_rs.Coding.VarInt.Decode.{u64-IsStreaming}
use moq_rs.Coding.Integer.{decode_u16, u16-IsStreaming}
use moq_rs.Message.Frame.RoundTrip.{IsMessage, received, decode_message-encode_message}
use moq_rs.Coding.RoundTrip.{Writes, Writes-unique}
use moq_rs.Session.Reader.{decode, arriving, read_more, retry, Answer, joined, decode-joined}

-- Two decoders that answer alike on every part of the bytes of a message.
abbrev pub Agree : {A : Type 0} → Decoder A → Decoder A → A → Type 0
Agree {A} f g a = (s back rest : List ℕ) → f (s ++ back) ≡ ok (a, rest) → f s ≡ g s

module _ {A B : Type 0} (d : Decoder A) (f g : A → Decoder B) (b : B) where
  Agree-bind : IsStreaming d → ((a : A) → Agree (f a) (g a) b) → Agree (d >>= f) (d >>= g) b
  Agree-bind h each s back rest e = elim (Outcome-cases (d s)) [
    | inl (inl ((a, t), p)) ↦
        let whole = bind-ok d f (h.ok_extends s back a t p) in
        bind-ok d f p ∙ each a t back rest (sym whole ∙ e) ∙ sym (bind-ok d g p)
    | inl (inr (x, p)) ↦ bind-err d f p ∙ sym (bind-err d g p)
    | inr p ↦ bind-panicked d f p ∙ sym (bind-panicked d g p)
  ]

module _ {A : Type 0} (d g : Decoder A) where
  retry-agree :
      (buffer : List ℕ) (stream : List (List ℕ)) (inner : ℕ → Answer A)
      → d buffer ≡ g buffer
      → retry d buffer stream inner ≡ retry g buffer stream inner
  unfolding retry
  retry-agree buffer stream inner e = rw (e, retry) refl

  read_more-agree :
      (required : ℕ) (buffer : List ℕ) (stream : List (List ℕ))
      → ((s back : List ℕ) → s ++ back ≡ buffer ++ arriving stream → d s ≡ g s)
      → read_more d required buffer stream ≡ read_more g required buffer stream
  unfolding read_more retry
  read_more-agree required buffer [] same = refl
  read_more-agree required buffer (c ∷ stream) same =
      let moved : buffer ++ (c ++ arriving stream) ≡ (buffer ++ c) ++ arriving stream =
        sym (append_assoc buffer c (arriving stream)) in
      let same' : (s back : List ℕ) → s ++ back ≡ (buffer ++ c) ++ arriving stream → d s ≡ g s =
        λ s back e. same s back (e ∙ sym moved) in
      let later : (n : ℕ)
          → read_more d n (buffer ++ c) stream ≡ read_more g n (buffer ++ c) stream =
        λ n. read_more-agree n (buffer ++ c) stream same' in
      rw
        (
          fun_ext later,
          retry-agree (buffer ++ c) stream (λ n. read_more g n (buffer ++ c) stream)
              (same' (buffer ++ c) (arriving stream) refl),
          read_more-agree required (buffer ++ c) stream same',
        )
        refl

  decode-agree :
      (buffer : List ℕ) (stream : List (List ℕ))
      → ((s back : List ℕ) → s ++ back ≡ buffer ++ arriving stream → d s ≡ g s)
      → decode d buffer stream ≡ decode g buffer stream
  unfolding decode retry
  decode-agree buffer stream same =
      let later : (n : ℕ) → read_more d n buffer stream ≡ read_more g n buffer stream =
        λ n. read_more-agree n buffer stream same in
      rw
        (
          fun_ext later,
          retry-agree buffer stream (λ n. read_more g n buffer stream)
              (same buffer (arriving stream) refl),
        )
        refl

-- `Message::decode` but for the answers that a good message does not get.
abbrev settle : ℕ → Outcome DecodeError (Message × List ℕ) → Decoder Message
settle t (ok (msg, left)) =
    if ltb 0 (length left) then throw (DecodeError.invalid_message t) else pure msg
settle t (err e) = throw DecodeError.invalid_value
settle t panicked = throw DecodeError.invalid_value

settle-IsStreaming : (t : ℕ) (o : Outcome DecodeError (Message × List ℕ)) → IsStreaming (settle t o)
settle-IsStreaming t (ok (msg, left)) =
    IsStreaming-if (ltb 0 (length left)) _ _
      (IsStreaming-throw (DecodeError.invalid_message t) refl) (IsStreaming-pure msg)
settle-IsStreaming t (err e) = IsStreaming-throw DecodeError.invalid_value refl
settle-IsStreaming t panicked = IsStreaming-throw DecodeError.invalid_value refl

abbrev choose : ℕ → List ℕ → Option (Decoder Message) → Decoder Message
choose t payload none = pure (Message.unknown t payload)
choose t payload (some dec) = settle t (dec payload)

choose-IsStreaming :
    (t : ℕ) (payload : List ℕ) (dec : Option (Decoder Message)) → IsStreaming (choose t payload dec)
choose-IsStreaming t payload none = IsStreaming-pure (Message.unknown t payload)
choose-IsStreaming t payload (some dec) = settle-IsStreaming t (dec payload)

module _ (is_utf8 : List ℕ → Bool) where
  settled : Decoder Message
  settled = decode_u64 >>= λ t. decode_u16 >>= λ len.
      (decode_remaining len >> copy_to_slice len) >>= λ payload.
      choose t payload (payload_decoder is_utf8 t)

  settled-IsStreaming : IsStreaming settled
  unfolding settled
  settled-IsStreaming = IsStreaming-bind decode_u64 _ u64-IsStreaming λ t.
      IsStreaming-bind decode_u16 _ u16-IsStreaming λ len.
        IsStreaming-bind (decode_remaining len >> copy_to_slice len) _ (read_slice-IsStreaming len)
          λ payload. choose-IsStreaming t payload (payload_decoder is_utf8 t)

  payload-Agree :
      (t : ℕ) (payload : List ℕ) (m : Message)
      → Agree (decode_payload is_utf8 t payload) (choose t payload (payload_decoder is_utf8 t)) m
  unfolding decode_payload
  payload-Agree t payload m s back rest e = elim (Option-cases (payload_decoder is_utf8 t)) [
    | inl no' ↦ rw (no', decode_payload) refl
    | inr (dec, p) ↦ elim (Outcome-cases (dec payload)) [
      | inl (inl ((msg, left), q)) ↦ elim (Bool-cases (ltb 0 (length left))) [
        | inl b ↦ rw (p, decode_payload) (rw q (rw b refl))
        | inr b ↦ rw (p, decode_payload) (rw q (rw b refl))
      ]
      | inl (inr (x, q)) ↦
          let bad : decode_payload is_utf8 t payload (s ++ back) ≡ err x =
            rw (p, decode_payload) (rw q refl) in
          cc
      | inr q ↦
          let bad : decode_payload is_utf8 t payload (s ++ back) ≡ panicked =
            rw (p, decode_payload) (rw q refl) in
          cc
    ]
  ]

  message-Agree : (m : Message) → Agree (decode_message is_utf8) settled m
  unfolding decode_message settled
  message-Agree m = Agree-bind decode_u64 _ _ m u64-IsStreaming λ t.
      Agree-bind decode_u16 _ _ m u16-IsStreaming λ len.
        subst
          (λ (d : Decoder Message).
            Agree d
              ((decode_remaining len >> copy_to_slice len) >>= λ payload.
                choose t payload (payload_decoder is_utf8 t))
              m)
          (bind_assoc (decode_remaining len) (λ _. copy_to_slice len) (decode_payload is_utf8 t))
          (Agree-bind (decode_remaining len >> copy_to_slice len) _ _ m (read_slice-IsStreaming len)
            λ payload. payload-Agree t payload m)

  -- A control message whose parts can be encoded, with a payload of at most 2^16 - 1 bytes, and the
  -- bytes that follow it reach Reader::decode in any chunks: it returns the message, parameters and
  -- track extensions sorted by key, and leaves exactly the bytes that follow.
  pub decode-encode_message :
      (m : Message) (payload bytes rest buffer : List ℕ) (stream : List (List ℕ))
      → IsMessage is_utf8 m
      → Writes (encode_payload m) tt payload
      → length payload ≤ 2 ^ 16 - 1
      → Writes (encode_message m) tt bytes
      → buffer ++ arriving stream ≡ bytes ++ rest
      → joined (decode (decode_message is_utf8) buffer stream) ≡ ok (received m, rest)
  decode-encode_message m payload bytes rest buffer stream h w small out cut =
      let r = decode_message-encode_message is_utf8 m payload h w small in
      let same : r.bytes ≡ bytes = Writes-unique (encode_message m) r.bytes bytes r.writes out in
      let good : decode_message is_utf8 (buffer ++ arriving stream) ≡ ok (received m, rest) =
        ap (decode_message is_utf8) (cut ∙ ap (λ b. b ++ rest) (sym same)) ∙ r.reads rest in
      let agree : (s back : List ℕ)
          → s ++ back ≡ buffer ++ arriving stream
          → decode_message is_utf8 s ≡ settled s =
        λ s back e. message-Agree (received m) s back rest (ap (decode_message is_utf8) e ∙ good) in
      let all' : decode_message is_utf8 (buffer ++ arriving stream)
          ≡ settled (buffer ++ arriving stream) =
        agree (buffer ++ arriving stream) [] (append-nil (buffer ++ arriving stream)) in
      ap joined (decode-agree (decode_message is_utf8) settled buffer stream agree)
      ∙ decode-joined settled settled-IsStreaming buffer stream
      ∙ sym all'
      ∙ good
