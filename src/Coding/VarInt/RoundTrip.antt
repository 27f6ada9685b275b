-- ===== src/Coding/VarInt/RoundTrip.antt =====
-- What the encoder writes, and that the decoder reads it back.
use moq_rs.Coding.Errors.{err, EncodeError, ok}
use native.Mathlib.Nat.{mod-eq_of_lt, add_comm}
use moq_rs.Prelude.{
  ap, ◌-◌, if◌then◌else◌, ◌∙◌, true, false, Bool-cases, inl, inr, ℕ, ◌+◌, ◌*◌, ◌/◌, ◌%◌, ◌^◌, ◌<◌,
  ◌≡◌, refl, bit_or, List, [], ◌∷◌, ltb, ◌==◌, arith, bit_and_low, bit_or_disjoint, length, ◌≤◌,
  leb, ◌++◌,
}
use moq_rs.Coding.Writer.{
  Encoder, fail, length-to_be_bytes, encode_remaining, put_slice, ◌⨟◌, to_be_bytes,
}
use moq_rs.Coding.Reader.{pure, from_be_bytes}
use moq_rs.Coding.RoundTrip.{checked_put, RoundTrips, Reads, Reads-byte, Reads-slice, Writes-slice}
use moq_rs.Coding.VarInt.{
  encode_varint, decode_varint, decode_body, decode_tail, encode_u64, max_varint, decode_u64,
}

-- The bytes of `x`: its big-endian bytes, the tag in the top two bits.
unfoldable pub wire : ℕ → List ℕ
unfolding to_be_bytes
wire x =
    if ltb x (2 ^ 6)
    then to_be_bytes 1 x
    else if ltb x (2 ^ 14)
    then to_be_bytes 2 (x + 2 ^ 14)
    else if ltb x (2 ^ 30)
    then to_be_bytes 4 (x + 2 * 2 ^ 30)
    else to_be_bytes 8 (x + 3 * 2 ^ 62)

-- A number put with room checked for it, written as another that it equals.
put_as :
    (n y z : ℕ)
    → y ≡ z
    → (encode_remaining n ⨟ put_slice (to_be_bytes n y))
      ≡ (encode_remaining (length (to_be_bytes n z)) ⨟ put_slice (to_be_bytes n z))
put_as n y z e = rw (e, length-to_be_bytes n z)

-- The tag `c` above the bits of `x`.
tagged : (k w c x : ℕ) → x < 2 ^ k → x < 2 ^ w → bit_or (c * 2 ^ k) (x % 2 ^ w) ≡ x + c * 2 ^ k
tagged k w c x h g = rw (mod-eq_of_lt g, bit_or_disjoint k c x h) (add_comm (c * 2 ^ k) x)

-- The four sizes.
data Size (x : ℕ) : Type 0 where
  one : ltb x (2 ^ 6) ≡ true → Size x
  two : ltb x (2 ^ 6) ≡ false → ltb x (2 ^ 14) ≡ true → Size x
  four : ltb x (2 ^ 6) ≡ false → ltb x (2 ^ 14) ≡ false → ltb x (2 ^ 30) ≡ true → Size x
  eight :
      ltb x (2 ^ 6) ≡ false
      → ltb x (2 ^ 14) ≡ false
      → ltb x (2 ^ 30) ≡ false
      → ltb x (2 ^ 62) ≡ true
      → Size x

size : (x : ℕ) → x < 2 ^ 62 → Size x
size x h = elim (Bool-cases (ltb x (2 ^ 6))) [
  | inl a ↦ one a
  | inr a ↦ elim (Bool-cases (ltb x (2 ^ 14))) [
    | inl b ↦ two a b
    | inr b ↦ elim (Bool-cases (ltb x (2 ^ 30))) [
      | inl c ↦ four a b c
      | inr c ↦ eight a b c (ground arith)
    ]
  ]
]

-- One checked `put` of the bytes, whatever the size.
encode_varint-wire :
    (x : ℕ)
    → x < 2 ^ 62
    → Size x
    → encode_varint x ≡ (encode_remaining (length (wire x)) ⨟ put_slice (wire x))
unfolding encode_varint wire
encode_varint-wire x h (one a) = let e : x % 2 ^ 8 ≡ x = ground arith in rw a (put_as 1 _ x e)
encode_varint-wire x h (two a b) =
    rw (a, b) (put_as 2 _ (x + 2 ^ 14) (tagged 14 16 1 x (ground arith) (ground arith)))
encode_varint-wire x h (four a b c) =
    rw (a, b, c) (put_as 4 _ (x + 2 * 2 ^ 30) (tagged 30 32 2 x (ground arith) (ground arith)))
encode_varint-wire x h (eight a b c d) =
    rw (a, b, c, d)
      (put_as 8 _ (x + 3 * 2 ^ 62) (bit_or_disjoint 62 3 x h ∙ add_comm (3 * 2 ^ 62) x))

-- One arm for each tag.
body_plain : (b : ℕ) → b < 64 → decode_body b ≡ pure b
unfolding decode_body
body_plain b h =
    let t : (b % 2 ^ 8 / 2 ^ 6 == 0) ≡ true = ground arith in
    rw (t, bit_and_low 6 b, mod-eq_of_lt h)

body_tail_1 : (b : ℕ) → b % 256 / 64 ≡ 1 → decode_body b ≡ decode_tail 1 (b % 64)
unfolding decode_body
body_tail_1 b h = let e : b % 2 ^ 8 / 2 ^ 6 ≡ 1 = h in rw (e, bit_and_low 6 b)

body_tail_2 : (b : ℕ) → b % 256 / 64 ≡ 2 → decode_body b ≡ decode_tail 3 (b % 64)
unfolding decode_body
body_tail_2 b h = let e : b % 2 ^ 8 / 2 ^ 6 ≡ 2 = h in rw (e, bit_and_low 6 b)

body_tail_3 : (b : ℕ) → b % 256 / 64 ≡ 3 → decode_body b ≡ decode_tail 7 (b % 64)
unfolding decode_body
body_tail_3 b h = let e : b % 2 ^ 8 / 2 ^ 6 ≡ 3 = h in rw (e, bit_and_low 6 b)

-- The first byte `b` of a number, and `n` bytes behind it.
Reads-arm :
    (n b x : ℕ) (tail : List ℕ)
    → decode_body b ≡ decode_tail n (b % 64)
    → length tail ≡ n
    → from_be_bytes 0 (b % 64 ∷ tail) ≡ x
    → Reads decode_varint (b ∷ tail) x
unfolding decode_varint decode_tail
Reads-arm n b x tail arm e v = Reads-byte b tail decode_body x (
    rw (arm, ← e, ← v)
      (Reads-slice tail (λ t. pure (from_be_bytes 0 (b % 64 ∷ t))) _ (λ rest. refl)))

decode_varint-wire : (x : ℕ) → Size x → Reads decode_varint (wire x) x
unfolding decode_varint wire from_be_bytes
decode_varint-wire x (one a) =
    let e : x % 256 ≡ x = ground arith in
    rw (a, e) (Reads-byte x [] decode_body x (rw (body_plain x (ground arith)) (λ rest. refl)))
decode_varint-wire x (two a b) =
    let y = x + 2 ^ 14 in
    let top = y / 256 % 256 in
    rw (a, b)
      (Reads-arm 1 top x (y % 256 ∷ []) (body_tail_1 top (ground arith)) refl (ground arith))
decode_varint-wire x (four a b c) =
    let y = x + 2 * 2 ^ 30 in
    let top = y / 256 / 256 / 256 % 256 in
    rw (a, b, c)
      (Reads-arm 3 top x (y / 256 / 256 % 256 ∷ y / 256 % 256 ∷ y % 256 ∷ [])
        (body_tail_2 top (ground arith)) refl (ground arith))
decode_varint-wire x (eight a b c d) =
    let y = x + 3 * 2 ^ 62 in
    let y3 = y / 256 / 256 / 256 in
    let y6 = y3 / 256 / 256 / 256 in
    let top = y6 / 256 % 256 in
    rw (a, b, c)
      (Reads-arm 7 top x
        (y6 % 256
          ∷ y3 / 256 / 256 % 256
          ∷ y3 / 256 % 256
          ∷ y3 % 256
          ∷ y / 256 / 256 % 256
          ∷ y / 256 % 256
          ∷ y % 256
          ∷ [])
        (body_tail_3 top (ground arith)) refl (ground arith))

-- Every number below 2^62 is encoded, given room enough, and decoded back from its bytes with what
-- follows left over.
pub decode_varint-encode_varint :
    (x : ℕ) → x < 2 ^ 62 → RoundTrips (encode_varint x) decode_varint x
decode_varint-encode_varint x h = record {
  bytes = wire x;
  writes = rw (encode_varint-wire x h (size x h)) (Writes-slice (wire x) (length (wire x)) refl);
  reads = decode_varint-wire x (size x h);
}

encode_big : (x : ℕ) → 2 ^ 62 ≤ x → encode_varint x ≡ fail EncodeError.bounds_exceeded
unfolding encode_varint
encode_big x h =
    let a : ltb x (2 ^ 6) ≡ false = ground arith in
    let b : ltb x (2 ^ 14) ≡ false = ground arith in
    let c : ltb x (2 ^ 30) ≡ false = ground arith in
    let d : ltb x (2 ^ 62) ≡ false = ground arith in rw (a, b, c, d)

-- encode_varint on every number and every room: what it writes, More of the room that is missing,
-- or the refusal of a number past 62 bits.
pub encode_varint_lem :
    (x room : ℕ)
    → encode_varint x room ≡ (
        if ltb x (2 ^ 62)
        then (if ltb room (length (wire x))
            then err (EncodeError.more (length (wire x) - room))
            else ok (tt, wire x, room - length (wire x)))
        else err EncodeError.bounds_exceeded)
encode_varint_lem x room = elim (Bool-cases (ltb x (2 ^ 62))) [
  | inl small ↦
      rw (small, encode_varint-wire x (ground arith) (size x (ground arith)))
        (checked_put (wire x) (length (wire x)) room refl)
  | inr big ↦ rw big (ap (λ (m : Encoder (Unit {0})). m room) (encode_big x (ground arith)))
]

-- So is every `u64` below 2^62, and every `usize`.
pub decode_u64-encode_u64 : (x : ℕ) → x < 2 ^ 62 → RoundTrips (encode_u64 x) decode_u64 x
unfolding encode_u64 decode_u64
decode_u64-encode_u64 x h =
    let fits : leb x max_varint ≡ true = ground arith in rw fits (decode_varint-encode_varint x h)

-- A `u64` past 62 bits is refused, whatever the room.
pub encode_u64_refuses :
    (x room : ℕ) → 2 ^ 62 ≤ x → encode_u64 x room ≡ err EncodeError.bounds_exceeded
unfolding encode_u64
encode_u64_refuses x room h = let past : leb x max_varint ≡ false = ground arith in rw past

pub decode_u64-wire :
    (x : ℕ) → x < 2 ^ 62 → (rest : List ℕ) → decode_u64 (wire x ++ rest) ≡ ok (x, rest)
unfolding decode_u64
decode_u64-wire x h rest = decode_varint-wire x (size x h) rest
