-- ===== src/Setup.antt =====
-- moq-transport/src/setup: CLIENT_SETUP of client.rs and SERVER_SETUP of server.rs, each a frame of
-- its type around parameters. The version is settled before, when the connection is made.
use moq_rs.Prelude.{
  ℕ, ◌-◌, ◌≤◌, ◌^◌, ◌==◌, not, ltb, List, [], length, if◌then◌else◌, ◌≡◌, refl, arith, ◌∙◌, ap, sym,
  append-nil,
}
use moq_rs.Coding.Errors.{DecodeError, ok, err, panicked}
use moq_rs.Coding.Reader.{Decoder, pure, ◌>>=◌, ◌>>◌, reject_if, decode_remaining, copy_to_slice}
use moq_rs.Coding.Writer.{Encoder, ◌⨟◌}
use moq_rs.Coding.RoundTrip.{RoundTrips, RoundTrips-seq, Writes, Writes-unique}
use moq_rs.Coding.VarInt.{decode_u64, encode_u64}
use moq_rs.Coding.VarInt.RoundTrip.{decode_u64-encode_u64}
use moq_rs.Coding.Integer.{decode_u16}
use moq_rs.Coding.KeyValuePairs.{KeyValuePairs, decode_kvps, encode_kvps}
use moq_rs.Message.Params.{IsParams, by_key, params-RoundTrips}
use moq_rs.Message.Frame.{into_vec, encode_framed}
use moq_rs.Message.Frame.Wire.{framed-RoundTrips, into_vec-Writes}

pub record Client : Type 0 where
  pub params : KeyValuePairs

pub record Server : Type 0 where
  pub params : KeyValuePairs

-- The parameters are all of the payload.
unfoldable pub decode_params : ℕ → List ℕ → Decoder KeyValuePairs
unfolding decode_kvps
decode_params typ payload rest = elim (decode_kvps payload) [
  | ok (params, left) ↦
      if ltb 0 (length left) then err (DecodeError.invalid_message typ) else ok (params, rest)
  | err e ↦ err e
  | panicked ↦ panicked
]

unfoldable pub decode_client : Decoder Client
unfolding decode_params
decode_client = do
  typ ← decode_u64
  reject_if (not (typ == 0x20)) (DecodeError.invalid_message typ)
  len ← decode_u16
  decode_remaining len
  payload ← copy_to_slice len
  params ← decode_params typ payload
  pure (record { params = params })

unfoldable pub encode_client : Client → Encoder (Unit {0})
unfolding encode_kvps encode_framed
encode_client c = encode_u64 0x20 ⨟ into_vec (encode_kvps c.params) encode_framed

unfoldable pub decode_server : Decoder Server
unfolding decode_params
decode_server = do
  typ ← decode_u64
  reject_if (not (typ == 0x21)) (DecodeError.invalid_message typ)
  len ← decode_u16
  decode_remaining len
  payload ← copy_to_slice len
  params ← decode_params typ payload
  pure (record { params = params })

unfoldable pub encode_server : Server → Encoder (Unit {0})
unfolding encode_kvps encode_framed
encode_server s = encode_u64 0x21 ⨟ into_vec (encode_kvps s.params) encode_framed

module _ (params : KeyValuePairs) (payload : List ℕ) (h : IsParams params)
    (w : Writes (encode_kvps params) tt payload) (short : length payload ≤ 2 ^ 16 - 1) where
  params_read :
      {A : Type 0} (typ : ℕ) (f : KeyValuePairs → A) (rest : List ℕ)
      → (decode_params typ payload >>= λ p. pure (f p)) rest ≡ ok (f (by_key params), rest)
  unfolding decode_params
  params_read typ f rest =
      let t = params-RoundTrips params h in
      let same : t.bytes ≡ payload =
        Writes-unique (encode_kvps params) t.bytes payload t.writes w in
      let all' : decode_kvps payload ≡ ok (by_key params, []) =
        ap decode_kvps (sym same ∙ sym (append-nil t.bytes)) ∙ t.reads [] in
      let whole : decode_params typ payload rest ≡ ok (by_key params, rest) =
        rw (all', decode_params) refl in
      rw (whole, ◌>>=◌) refl

  -- With encodable parameters that take at most 2^16 - 1 bytes, CLIENT_SETUP and SERVER_SETUP are
  -- encoded, given room enough, and come back with the parameters sorted by key, and with what
  -- follows left over.
  pub setup-RoundTrips :
      RoundTrips
        (encode_client (record { params = params }))
        decode_client
        (record { params = by_key params })
      × RoundTrips
          (encode_server (record { params = params }))
          decode_server
          (record { params = by_key params })
  unfolding encode_client encode_server decode_client decode_server
  setup-RoundTrips = rw (into_vec-Writes (encode_kvps params) encode_framed payload w short) (
    RoundTrips-seq _ _ decode_u64 _ 0x20 _ (decode_u64-encode_u64 0x20 (omega arith))
        (framed-RoundTrips _ _ payload (params_read 0x20 (λ p. record { params = p })) short),
    RoundTrips-seq _ _ decode_u64 _ 0x21 _ (decode_u64-encode_u64 0x21 (omega arith))
        (framed-RoundTrips _ _ payload (params_read 0x21 (λ p. record { params = p })) short),
  )
