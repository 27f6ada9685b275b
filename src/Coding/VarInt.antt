-- ===== src/Coding/VarInt.antt =====
-- moq-transport/src/coding/varint.rs: the QUIC variable-length integer, and `u64` and `usize`
-- encoded by it. A `VarInt` is its number, `usize` has 64 bits.
pub mod RoundTrip
pub mod Decode
use moq_rs.Prelude.{
  ℕ, ◌+◌, ◌*◌, ◌-◌, ◌/◌, ◌%◌, ◌^◌, bit_and, bit_or, List, [], ◌∷◌, ltb, leb, ◌==◌, if◌then◌else◌,
}
use moq_rs.Coding.Errors.{Outcome, ok, err, EncodeError}
use moq_rs.Coding.Reader.{
  Decoder, pure, unreachable, ◌>>=◌, ◌>>◌, decode_remaining, get_u8, copy_to_slice, from_be_bytes,
}
use moq_rs.Coding.Writer.{
  Encoder, fail, ◌⨟◌, encode_remaining, put_u8, put_u16, put_u32, put_u64, to_be_bytes, put_slice,
}

-- `VarInt::MAX`
abbrev pub max_varint : ℕ
max_varint = 2 ^ 62 - 1

-- The arm of the `match` for one tag: `n` more bytes behind the six bits of the first.
unfoldable pub decode_tail : ℕ → ℕ → Decoder ℕ
unfolding from_be_bytes
decode_tail n first = do
  decode_remaining n
  tail ← copy_to_slice n
  pure (from_be_bytes 0 (first ∷ tail))

-- `match tag`.
unfoldable pub decode_arm : ℕ → ℕ → Decoder ℕ
unfolding decode_tail
decode_arm tag first =
    if tag == 0b00
    then pure first
    else if tag == 0b01
    then decode_tail 1 first
    else if tag == 0b10
    then decode_tail 3 first
    else if tag == 0b11
    then decode_tail 7 first
    else unreachable

-- `b >> 6` and `b & 0b0011_1111` of the first byte, a `u8`.
unfoldable pub decode_body : ℕ → Decoder ℕ
unfolding decode_arm
decode_body b = decode_arm (b % 2 ^ 8 / 2 ^ 6) (bit_and b 0b0011_1111)

-- `<VarInt as Decode>::decode`
unfoldable pub decode_varint : Decoder ℕ
unfolding decode_body decode_remaining get_u8 copy_to_slice
decode_varint = do decode_remaining 1; b ← get_u8; decode_body b

-- `<VarInt as Encode>::encode`
unfoldable pub encode_varint : ℕ → Encoder (Unit {0})
unfolding encode_remaining put_u8 put_u16 put_u32 put_u64
encode_varint x =
    if ltb x (2 ^ 6)
    then encode_remaining 1 ⨟ put_u8 (x % 2 ^ 8)
    else if ltb x (2 ^ 14)
    then encode_remaining 2 ⨟ put_u16 (bit_or (0b01 * 2 ^ 14) (x % 2 ^ 16))
    else if ltb x (2 ^ 30)
    then encode_remaining 4 ⨟ put_u32 (bit_or (0b10 * 2 ^ 30) (x % 2 ^ 32))
    else if ltb x (2 ^ 62)
    then encode_remaining 8 ⨟ put_u64 (bit_or (0b11 * 2 ^ 62) x)
    else fail EncodeError.bounds_exceeded

-- `<u64 as Encode>::encode`: `VarInt::try_from(x)?.encode(w)`; `usize` has the same body.
unfoldable pub encode_u64 : ℕ → Encoder (Unit {0})
unfolding encode_varint
encode_u64 x = if leb x max_varint then encode_varint x else fail EncodeError.bounds_exceeded

-- `<u64 as Decode>::decode` and, with `usize::try_from` always good on 64 bits, that of `usize`.
unfoldable pub decode_u64 : Decoder ℕ
unfolding decode_varint
decode_u64 = decode_varint
