-- ===== src/Coding/Integer.antt =====
-- moq-transport/src/coding/integer.rs: bytes, 16-bit numbers and Booleans. The encoder of a byte
-- does not ask for room first, as the source has it.
use moq_rs.Prelude.{
  ◌++◌, ℕ, ◌<◌, ◌^◌, ◌%◌, Bool, true, false, ◌==◌, if◌then◌else◌, arith, ◌/◌, [], ◌∷◌, refl, List,
  ◌≡◌, ◌∙◌,
}
use moq_rs.Coding.Errors.{DecodeError, ok}
use moq_rs.Coding.Reader.{
  Decoder, pure, throw, ◌>>=◌, ◌>>◌, decode_remaining, get_u8, copy_to_slice, from_be_bytes,
  bind-ok, decode_remaining-enough,
}
use moq_rs.Coding.Writer.{
  Encoder, ◌⨟◌, encode_remaining, put_u8, put_u16, to_be_bytes, put_slice-enough,
}
use moq_rs.Coding.RoundTrip.{RoundTrips, RoundTrips-slice, Writes-slice, Reads-slice}
use moq_rs.Coding.Streaming.{IsStreaming, IsStreaming-slice, IsStreaming-pure, IsStreaming-byte}

unfoldable pub encode_u8 : ℕ → Encoder (Unit {0})
unfolding put_u8
encode_u8 x = put_u8 x

unfoldable pub decode_u8 : Decoder ℕ
unfolding decode_remaining get_u8
decode_u8 = do decode_remaining 1; b ← get_u8; pure b

unfoldable pub encode_u16 : ℕ → Encoder (Unit {0})
unfolding encode_remaining put_u16
encode_u16 x = encode_remaining 2 ⨟ put_u16 x

unfoldable pub decode_u16 : Decoder ℕ
unfolding decode_remaining copy_to_slice from_be_bytes
decode_u16 = do decode_remaining 2; bs ← copy_to_slice 2; pure (from_be_bytes 0 bs)

unfoldable pub encode_bool : Bool → Encoder (Unit {0})
unfolding encode_remaining put_u8
encode_bool true = encode_remaining 1 ⨟ put_u8 1
encode_bool false = encode_remaining 1 ⨟ put_u8 0

-- `match forward_byte`
unfoldable pub bool_of : ℕ → Decoder Bool
bool_of b =
    if b == 0 then pure false else if b == 1 then pure true else throw DecodeError.invalid_value

unfoldable pub decode_bool : Decoder Bool
unfolding decode_u8 bool_of decode_remaining
decode_bool = do decode_remaining 1; b ← decode_u8; bool_of b

pub decode_u16-encode_u16 : (x : ℕ) → x < 2 ^ 16 → RoundTrips (encode_u16 x) decode_u16 x
unfolding encode_u16 decode_u16 put_u16 to_be_bytes from_be_bytes
decode_u16-encode_u16 x h =
    RoundTrips-slice (x / 256 % 256 ∷ x % 256 ∷ []) (λ bs. pure (from_be_bytes 0 bs)) x
      (λ rest. ground arith)

pub u16-IsStreaming : IsStreaming decode_u16
unfolding decode_u16
u16-IsStreaming = IsStreaming-slice 2 _ (λ bs. IsStreaming-pure _)

-- A byte at the front of the buffer.
pub decode_u8-cons : (b : ℕ) (rest : List ℕ) → decode_u8 (b ∷ rest) ≡ ok (b, rest)
unfolding decode_u8 get_u8
decode_u8-cons b rest =
    bind-ok (decode_remaining 1) (λ _. get_u8 >>= λ x. pure x) {r = b ∷ rest}
      (decode_remaining-enough 1 (b ∷ rest) (omega arith))

pub decode_u8-encode_u8 : (x : ℕ) → x < 2 ^ 8 → RoundTrips (encode_u8 x) decode_u8 x
unfolding encode_u8 put_u8 to_be_bytes
decode_u8-encode_u8 x h =
    let fits : x % 256 ≡ x = omega arith in
    record {
      bytes = x % 256 ∷ [];
      writes = λ room r. put_slice-enough (x % 256 ∷ []) room r;
      reads = λ rest. rw fits (decode_u8-cons x rest);
    }

pub u8-IsStreaming : IsStreaming decode_u8
unfolding decode_u8
u8-IsStreaming = IsStreaming-byte (λ b. pure b) (λ b. IsStreaming-pure b)

decode_bool-cons : (b : ℕ) (rest : List ℕ) → decode_bool (b ∷ rest) ≡ bool_of b rest
unfolding decode_bool
decode_bool-cons b rest =
    bind-ok (decode_remaining 1) (λ _. decode_u8 >>= bool_of) {r = b ∷ rest}
      (decode_remaining-enough 1 (b ∷ rest) (omega arith))
    ∙ bind-ok decode_u8 bool_of {r = b ∷ rest} (decode_u8-cons b rest)

pub decode_bool-encode_bool : (b : Bool) → RoundTrips (encode_bool b) decode_bool b
unfolding encode_bool put_u8 to_be_bytes bool_of
decode_bool-encode_bool true = record {
  bytes = 1 ∷ [];
  writes = Writes-slice (1 ∷ []) 1 refl;
  reads = λ rest. decode_bool-cons 1 rest;
}
decode_bool-encode_bool false = record {
  bytes = 0 ∷ [];
  writes = Writes-slice (0 ∷ []) 1 refl;
  reads = λ rest. decode_bool-cons 0 rest;
}

pub decode_u16-to_be_bytes :
    (x : ℕ) → x < 2 ^ 16 → (rest : List ℕ) → decode_u16 (to_be_bytes 2 x ++ rest) ≡ ok (x, rest)
unfolding decode_u16 to_be_bytes from_be_bytes
decode_u16-to_be_bytes x h rest =
    Reads-slice (x / 256 % 256 ∷ x % 256 ∷ []) (λ bs. pure (from_be_bytes 0 bs)) x
      (λ r. ground arith) rest
