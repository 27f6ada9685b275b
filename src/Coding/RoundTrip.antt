-- ===== src/Coding/RoundTrip.antt =====
-- Encoders and decoders that agree: with room enough the encoder succeeds, and the decoder
-- returns the value and leaves what follows its bytes.
use moq_rs.Prelude.{
  ap, ltb, if◌then◌else◌, Bool-cases, inl, inr, take-length_append, drop-length_append, ℕ, ◌+◌, ◌-◌,
  ◌≤◌, ◌≡◌, refl, ◌∙◌, List, [], ◌∷◌, ◌++◌, arith, length, append_assoc, length-append, Bool, true,
  false, append-nil,
}
use moq_rs.Coding.Errors.{err, ok, DecodeError, EncodeError}
use moq_rs.Coding.Reader.{
  decode_remaining, get_u8, copy_to_slice, decode_remaining-enough, copy_to_slice-enough, Decoder,
  ◌>>=◌, ◌>>◌, pure, bind-ok, reject_if,
}
use moq_rs.Coding.Writer.{
  encode_remaining-short, encode_remaining-enough, put_slice-enough, encode_remaining, put_slice,
  Encoder, and_then, ◌⨟◌, done, refuse_if,
}

abbrev pub Writes {ℓ} : {A : Type ℓ} → Encoder A → A → List ℕ → Type ℓ
Writes enc a bs = (room : ℕ) → length bs ≤ room → enc room ≡ ok (a, bs, room - length bs)

abbrev pub Reads {ℓ} : {A : Type ℓ} → Decoder A → List ℕ → A → Type ℓ
Reads dec bs a = (rest : List ℕ) → dec (bs ++ rest) ≡ ok (a, rest)

pub record RoundTrips {ℓ} {A : Type ℓ} (enc : Encoder (Unit {0})) (dec : Decoder A) (x : A)
    : Type ℓ where
  pub bytes : List ℕ
  pub writes : Writes enc tt bytes
  pub reads : Reads dec bytes x

module _ {ℓ κ} {A : Type ℓ} {B : Type κ} where
  pub Writes-and_then :
      (m : Encoder A) (f : A → Encoder B) (a : A) (b : B) (bs cs : List ℕ)
      → Writes m a bs
      → Writes (f a) b cs
      → Writes (and_then m f) b (bs ++ cs)
  Writes-and_then m f a b bs cs hm hf room h =
      let total : length (bs ++ cs) ≡ length bs + length cs = length-append bs cs in
      let second : f a (room - length bs) ≡ ok (b, cs, room - length bs - length cs) =
        hf (room - length bs) (omega arith) in
      let left : room - length bs - length cs ≡ room - length (bs ++ cs) = omega arith in
      rw (hm room (omega arith), and_then) (rw second (rw left))

  pub Reads-bind :
      (d : Decoder A) (f : A → Decoder B) (a : A) (b : B) (bs cs : List ℕ)
      → Reads d bs a
      → Reads (f a) cs b
      → Reads (d >>= f) (bs ++ cs) b
  Reads-bind d f a b bs cs hd hf rest =
      rw (append_assoc bs cs rest) (bind-ok d f (hd (cs ++ rest)) ∙ hf rest)

module _ {ℓ κ} {A : Type ℓ} {B : Type κ} where
  pub RoundTrips-seq :
      (m k : Encoder (Unit {0})) (d : Decoder A) (f : A → Decoder B) (a : A) (b : B)
      → RoundTrips m d a
      → RoundTrips k (f a) b
      → RoundTrips (m ⨟ k) (d >>= f) b
  RoundTrips-seq m k d f a b hm hk = record {
    bytes = hm.bytes ++ hk.bytes;
    writes = Writes-and_then m (λ _. k) tt tt hm.bytes hk.bytes hm.writes hk.writes;
    reads = Reads-bind d f a b hm.bytes hk.bytes hm.reads hk.reads;
  }

-- With room enough an encoder writes one list of bytes.
pub Writes-unique :
    (m : Encoder (Unit {0})) (xs ys : List ℕ) → Writes m tt xs → Writes m tt ys → xs ≡ ys
Writes-unique m xs ys hx hy =
    let room = length xs + length ys in
    let a = hx room (omega arith) in let b = hy room (omega arith) in cc

pub Writes-done {ℓ} :
    {A : Type ℓ} (m : Encoder (Unit {0})) (a : A) (bs : List ℕ)
    → Writes m tt bs
    → Writes (m ⨟ done a) a bs
Writes-done m a bs h room e = rw (h room e, and_then) (rw (append-nil bs) refl)

-- Reading bytes that stand at the front of the buffer.
pub Reads-slice {ℓ} :
    {A : Type ℓ} (v : List ℕ) (f : List ℕ → Decoder A) (a : A)
    → Reads (f v) [] a
    → Reads (decode_remaining (length v) >> (copy_to_slice (length v) >>= f)) v a
Reads-slice v f a hf rest =
    let long : length v ≤ length (v ++ rest) = omega (arith, length-append v rest) in
    let cut : copy_to_slice (length v) (v ++ rest) ≡ ok (v, rest) =
      copy_to_slice-enough (length v) (v ++ rest) long
      ∙ rw (take-length_append v rest, drop-length_append v rest) in
    bind-ok (decode_remaining (length v)) (λ _. copy_to_slice (length v) >>= f) {r = v ++ rest}
      (decode_remaining-enough (length v) (v ++ rest) long)
    ∙ bind-ok (copy_to_slice (length v)) f cut
    ∙ hf rest

pub Reads-byte {ℓ} :
    {A : Type ℓ} (b : ℕ) (bs : List ℕ) (f : ℕ → Decoder A) (a : A)
    → Reads (f b) bs a
    → Reads (decode_remaining 1 >> (get_u8 >>= f)) (b ∷ bs) a
unfolding get_u8
Reads-byte b bs f a hf rest =
    bind-ok (decode_remaining 1) (λ _. get_u8 >>= f) {r = b ∷ bs ++ rest}
      (decode_remaining-enough 1 (b ∷ bs ++ rest) (omega arith))
    ∙ hf rest

-- `encode_remaining(n)?` before n bytes are put.
pub Writes-slice :
    (v : List ℕ) (n : ℕ) → n ≡ length v → Writes (encode_remaining n ⨟ put_slice v) tt v
Writes-slice v n e room h =
    rw (encode_remaining-enough n room (omega arith), and_then) (rw (put_slice-enough v room h))

-- The same on every room.
pub checked_put :
    (v : List ℕ) (n room : ℕ)
    → n ≡ length v
    → (encode_remaining n ⨟ put_slice v) room ≡ (
        if ltb room (length v)
        then err (EncodeError.more (length v - room))
        else ok (tt, v, room - length v))
checked_put v n room e = elim (Bool-cases (ltb room (length v))) [
  | inl short ↦
      rw (short, encode_remaining-short n room (ground arith), and_then)
        (ap (λ k. err (EncodeError.more (k - room))) e)
  | inr long ↦ rw long (Writes-slice v n e room (ground arith))
]

module _ {ℓ} {A : Type ℓ} where
  pub RoundTrips-pure : (a : A) → RoundTrips (done tt) (pure a) a
  RoundTrips-pure a = record { bytes = []; writes = λ room h. ground arith; reads = λ rest. refl }

  pub RoundTrips-slice :
      (v : List ℕ) (f : List ℕ → Decoder A) (a : A)
      → Reads (f v) [] a
      → RoundTrips
          (encode_remaining (length v) ⨟ put_slice v)
          (decode_remaining (length v) >> (copy_to_slice (length v) >>= f))
          a
  RoundTrips-slice v f a hf = record {
    bytes = v;
    writes = Writes-slice v (length v) refl;
    reads = Reads-slice v f a hf;
  }

  -- A check that passes, in the encoder and in the decoder.
  pub RoundTrips-enc_check :
      (b : Bool) (e : EncodeError) (k : Encoder (Unit {0})) (d : Decoder A) (a : A)
      → b ≡ false
      → RoundTrips k d a
      → RoundTrips (refuse_if b e ⨟ k) d a
  RoundTrips-enc_check true e k d a p h = cc
  RoundTrips-enc_check false e k d a p h = record {
    bytes = h.bytes;
    writes =
        Writes-and_then (refuse_if false e) (λ _. k) tt tt [] h.bytes (λ room g. ground arith)
          h.writes;
    reads = h.reads;
  }

  pub RoundTrips-dec_check :
      (b : Bool) (e : DecodeError) (k : Encoder (Unit {0})) (d : Decoder A) (a : A)
      → b ≡ false
      → RoundTrips k d a
      → RoundTrips k (reject_if b e >> d) a
  RoundTrips-dec_check true e k d a p h = cc
  RoundTrips-dec_check false e k d a p h = h

-- A decoder that goes on to wrap its result.
pub RoundTrips-map {ℓ κ} :
    {A : Type ℓ} {B : Type κ} (m : Encoder (Unit {0})) (d : Decoder A) (f : A → B) (a : A)
    → RoundTrips m d a
    → RoundTrips m (d >>= λ x. pure (f x)) (f a)
RoundTrips-map m d f a h = record {
  bytes = h.bytes;
  writes = h.writes;
  reads = λ rest. bind-ok d (λ x. pure (f x)) {r = h.bytes ++ rest} (h.reads rest);
}

-- A decoder that goes on without reading.
pub RoundTrips-then {ℓ κ} :
    {A : Type ℓ} {B : Type κ} (m : Encoder (Unit {0})) (d : Decoder A) (f : A → Decoder B) (a : A)
    (b : B)
    → RoundTrips m d a
    → ((rest : List ℕ) → f a rest ≡ ok (b, rest))
    → RoundTrips m (d >>= f) b
RoundTrips-then m d f a b h hf = record {
  bytes = h.bytes;
  writes = h.writes;
  reads = λ rest. bind-ok d f {r = h.bytes ++ rest} (h.reads rest) ∙ hf rest;
}
