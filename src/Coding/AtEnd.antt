-- ===== src/Coding/AtEnd.antt =====
-- A codec whose decoder reads to the end of the buffer, as that of the last part of a message may:
-- with room enough the encoder succeeds, and the decoder takes all of its bytes.
use moq_rs.Prelude.{
  ℕ, List, [], ◌++◌, append-nil, ◌<◌, length, ◌≡◌, sym, ap, ◌∙◌, Bool, true, false,
}
use moq_rs.Coding.Errors.{ok, DecodeError}
use moq_rs.Coding.Reader.{Decoder, pure, ◌>>=◌, ◌>>◌, bind-ok, reject_if}
use moq_rs.Coding.Writer.{Encoder, ◌⨟◌}
use moq_rs.Coding.RoundTrip.{RoundTrips, Writes, Writes-and_then}

pub record AtEnd {A : Type 0} (enc : Encoder (Unit {0})) (dec : Decoder A) (x : A) : Type 0 where
  pub bytes : List ℕ
  pub writes : Writes enc tt bytes
  pub reads_all : dec bytes ≡ ok (x, [])

-- A decoder that takes a byte at least whenever it succeeds.
abbrev pub Consumes {ℓ} : {A : Type ℓ} → Decoder A → Type ℓ
Consumes {A} dec = (r : List ℕ) (a : A) (s : List ℕ) → dec r ≡ ok (a, s) → length s < length r

module _ {A B : Type 0} where
  pub AtEnd-seq :
      (m k : Encoder (Unit {0})) (d : Decoder A) (f : A → Decoder B) (a : A) (b : B)
      → RoundTrips m d a
      → AtEnd k (f a) b
      → AtEnd (m ⨟ k) (d >>= f) b
  AtEnd-seq m k d f a b hm hk = record {
    bytes = hm.bytes ++ hk.bytes;
    writes = Writes-and_then m (λ _. k) tt tt hm.bytes hk.bytes hm.writes hk.writes;
    reads_all = bind-ok d f (hm.reads hk.bytes) ∙ hk.reads_all;
  }

  pub AtEnd-map :
      (m : Encoder (Unit {0})) (d : Decoder A) (f : A → B) (a : A)
      → AtEnd m d a
      → AtEnd m (d >>= λ x. pure (f x)) (f a)
  AtEnd-map m d f a h = record {
    bytes = h.bytes;
    writes = h.writes;
    reads_all = bind-ok d (λ x. pure (f x)) {r = h.bytes} h.reads_all;
  }

module _ {A : Type 0} where
  pub RoundTrips-AtEnd :
      (m : Encoder (Unit {0})) (d : Decoder A) (a : A) → RoundTrips m d a → AtEnd m d a
  RoundTrips-AtEnd m d a h = record {
    bytes = h.bytes;
    writes = h.writes;
    reads_all = ap d (sym (append-nil h.bytes)) ∙ h.reads [];
  }

  pub AtEnd-dec_check :
      (b : Bool) (e : DecodeError) (k : Encoder (Unit {0})) (d : Decoder A) (a : A)
      → b ≡ false
      → AtEnd k d a
      → AtEnd k (reject_if b e >> d) a
  AtEnd-dec_check true e k d a p h = cc
  AtEnd-dec_check false e k d a p h = h
