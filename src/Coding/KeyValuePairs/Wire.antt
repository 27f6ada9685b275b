-- ===== src/Coding/KeyValuePairs/Wire.antt =====
-- Key-value pairs on the wire.
use moq_rs.Coding.Errors.{EncodeError, DecodeError}
use moq_rs.Coding.Writer.{◌⨟◌}
use moq_rs.Coding.RoundTrip.{
  RoundTrips-enc_check, RoundTrips-seq, RoundTrips-map, RoundTrips-dec_check, RoundTrips,
  RoundTrips-slice, Writes-and_then, RoundTrips-pure, Reads-bind, Writes-done,
}
use moq_rs.Coding.Reader.{pure, ◌>>◌, reject_if}
use moq_rs.Prelude.{
  arith, ℕ, List, ◌-◌, ◌<◌, refl, ◌≡◌, ◌==◌, ◌+◌, length, zero, suc, [], ◌∷◌, ltb, ◌^◌, leb, ◌≤◌,
  false, ◌%◌, true, All, ◌++◌, inl, Bool-cases, inr,
}
use moq_rs.Coding.KeyValuePairs.{
  decode_int_pair, decode_bytes_pair, Value, int_value, bytes_value, KeyValuePair, wrong_parity,
  decode_pair, decode_with_prev, encode_value, decode_pairs, decode_kvps, max_bytes_value_len,
  insert_by_key, encode_kvps, sort_by_key, encode_pairs, encode_with_prev, KeyValuePairs,
}
use moq_rs.Coding.VarInt.{decode_u64, encode_u64}
use moq_rs.Coding.VarInt.RoundTrip.{decode_u64-encode_u64}
use moq_rs.Coding.VarInt.Decode.{u64-IsStreaming}
use moq_rs.Coding.Streaming.{
  IsStreaming, IsStreaming-slice, IsStreaming-check, IsStreaming-pure, IsStreaming-bind,
  IsStreaming-if,
}

pair-IsStreaming : (k : ℕ) → IsStreaming (decode_pair k)
unfolding decode_pair decode_int_pair decode_bytes_pair
pair-IsStreaming k =
    IsStreaming-if (k % 2 == 0) _ _
      (IsStreaming-bind decode_u64 _ u64-IsStreaming (λ v. IsStreaming-pure _))
      (IsStreaming-bind decode_u64 _ u64-IsStreaming (λ n.
        IsStreaming-check (ltb max_bytes_value_len n) _ _ refl
          (IsStreaming-slice n _ (λ v. IsStreaming-pure _))))

pub after_delta-IsStreaming :
    (prev d : ℕ)
    → IsStreaming (
        reject_if (leb (2 ^ 64) (prev + d)) DecodeError.kvp_type_overflow >> decode_pair (prev + d))
after_delta-IsStreaming prev d =
    IsStreaming-check (leb (2 ^ 64) (prev + d)) _ _ refl (pair-IsStreaming (prev + d))

pub with_prev-IsStreaming : (prev : ℕ) → IsStreaming (decode_with_prev prev)
unfolding decode_with_prev
with_prev-IsStreaming prev =
    IsStreaming-bind decode_u64 _ u64-IsStreaming (after_delta-IsStreaming prev)

pairs-IsStreaming : (n prev : ℕ) → IsStreaming (decode_pairs n prev)
unfolding decode_pairs
pairs-IsStreaming zero prev = IsStreaming-pure []
pairs-IsStreaming (suc n) prev =
    IsStreaming-bind (decode_with_prev prev) _ (with_prev-IsStreaming prev) (λ q.
      IsStreaming-bind (decode_pairs n q.1) _ (pairs-IsStreaming n q.1)
        (λ rest. IsStreaming-pure _))

-- On any buffer decode_kvps does not panic, gives no answer that later bytes change, and answers
-- More(n) only if n bytes are missing.
pub kvps-IsStreaming : IsStreaming decode_kvps
unfolding decode_kvps
kvps-IsStreaming =
    IsStreaming-bind decode_u64 _ u64-IsStreaming (λ n.
      IsStreaming-bind (decode_pairs n 0) _ (pairs-IsStreaming n 0) (λ ps. IsStreaming-pure _))

-- What a value must be to be encoded.
abbrev pub ValueFits : Value → Type 0
ValueFits (int_value v) = v < 2 ^ 62
ValueFits (bytes_value v) = length v ≤ max_bytes_value_len

pub record IsPair (p : KeyValuePair) : Type 0 where
  pub parity : wrong_parity p.value p.key ≡ false
  pub key_fits : p.key < 2 ^ 62
  pub value_fits : ValueFits p.value

abbrev pub Ascending : ℕ → List KeyValuePair → Type 0
Ascending prev [] = Unit {0}
Ascending prev (p ∷ ps) = (prev ≤ p.key) × Ascending p.key ps

value-RoundTrips :
    (k : ℕ) (v : Value)
    → wrong_parity v k ≡ false
    → ValueFits v
    → RoundTrips (encode_value v) (decode_pair k) (record { key = k; value = v }, k)
unfolding encode_value decode_pair decode_int_pair decode_bytes_pair
value-RoundTrips k (int_value v) e h =
    let even : (k % 2 == 0) ≡ true = ground arith in
    rw even (
      RoundTrips-map (encode_u64 v) decode_u64
        (λ (x : ℕ). (record { key = k; value = int_value x }, k)) v (decode_u64-encode_u64 v h))
value-RoundTrips k (bytes_value v) e h =
    let odd : (k % 2 == 0) ≡ false = ground arith in
    let fits : ltb max_bytes_value_len (length v) ≡ false = ground arith in
    rw odd (
      RoundTrips-enc_check _ _ _ _ _ fits (
        RoundTrips-seq _ _ decode_u64 _ (length v) _
          (decode_u64-encode_u64 (length v) (omega arith))
          (RoundTrips-dec_check _ _ _ _ _ fits (
            RoundTrips-slice v (λ x. pure (record { key = k; value = bytes_value x }, k)) _
              (λ rest. refl)))))

-- A pair behind the key `prev`, without the value that the encoder returns.
pair-RoundTrips :
    (p : KeyValuePair) (prev : ℕ)
    → IsPair p
    → prev ≤ p.key
    → RoundTrips
        (encode_u64 (p.key - prev) ⨟ encode_value p.value)
        (decode_with_prev prev)
        (p, p.key)
unfolding decode_with_prev
pair-RoundTrips p prev h le =
    let back : prev + (p.key - prev) ≡ p.key = omega arith in
    let k = h.key_fits in
    let fits : leb (2 ^ 64) (prev + (p.key - prev)) ≡ false = ground arith in
    RoundTrips-seq _ _ decode_u64 _ (p.key - prev) (p, p.key)
      (decode_u64-encode_u64 (p.key - prev) (omega arith))
      (RoundTrips-dec_check _ _ _ _ _ fits
        (rw back (value-RoundTrips p.key p.value h.parity h.value_fits)))

pub pairs-RoundTrips :
    (ps : List KeyValuePair) (prev : ℕ)
    → All IsPair ps
    → Ascending prev ps
    → RoundTrips (encode_pairs ps prev) (decode_pairs (length ps) prev) ps
unfolding encode_pairs decode_pairs encode_with_prev
pairs-RoundTrips [] prev h a = RoundTrips-pure []
pairs-RoundTrips (p ∷ ps) prev (hp, h) (le, a) =
    let in_order : ltb p.key prev ≡ false = ground arith in
    let one =
      RoundTrips-enc_check _ EncodeError.invalid_value _ (decode_with_prev prev) (p, p.key)
        hp.parity
        (RoundTrips-enc_check _ EncodeError.kvp_key_order _ (decode_with_prev prev) (p, p.key)
          in_order (pair-RoundTrips p prev hp le)) in
    let rest =
      RoundTrips-map _ (decode_pairs (length ps) p.key) (λ (qs : List KeyValuePair). p ∷ qs) ps
        (pairs-RoundTrips ps p.key h a) in
    record {
      bytes = one.bytes ++ rest.bytes;
      writes =
          Writes-and_then (encode_with_prev p prev) (λ next. encode_pairs ps next) p.key tt
            one.bytes rest.bytes (Writes-done _ p.key one.bytes one.writes) rest.writes;
      reads =
          Reads-bind (decode_with_prev prev) _ (p, p.key) (p ∷ ps) one.bytes rest.bytes one.reads
            rest.reads;
    }

insert_by_key-Ascending :
    (prev : ℕ) (p : KeyValuePair) (ps : List KeyValuePair)
    → prev ≤ p.key
    → Ascending prev ps
    → Ascending prev (insert_by_key p ps)
unfolding insert_by_key
insert_by_key-Ascending prev p [] le a = (le, tt)
insert_by_key-Ascending prev p (q ∷ qs) le (lq, a) = elim (Bool-cases (leb p.key q.key)) [
  | inl yes' ↦ rw yes' (le, (ground arith, a))
  | inr no' ↦ rw no' (lq, insert_by_key-Ascending q.key p qs (ground arith) a)
]

pub sort_by_key-Ascending : (ps : List KeyValuePair) → Ascending 0 (sort_by_key ps)
unfolding sort_by_key
sort_by_key-Ascending [] = tt
sort_by_key-Ascending (p ∷ ps) =
    insert_by_key-Ascending 0 p (sort_by_key ps) (omega arith) (sort_by_key-Ascending ps)

insert_by_key-All :
    (p : KeyValuePair) (ps : List KeyValuePair)
    → IsPair p
    → All IsPair ps
    → All IsPair (insert_by_key p ps) × (length (insert_by_key p ps) ≡ length ps + 1)
unfolding insert_by_key
insert_by_key-All p [] hp h = ((hp, tt), refl)
insert_by_key-All p (q ∷ qs) hp (hq, h) = elim (Bool-cases (leb p.key q.key)) [
  | inl yes' ↦ rw yes' ((hp, (hq, h)), omega arith)
  | inr no' ↦ let (each, n) = insert_by_key-All p qs hp h in rw no' ((hq, each), omega (arith, n))
]

pub sort_by_key-All :
    (ps : List KeyValuePair)
    → All IsPair ps
    → All IsPair (sort_by_key ps) × (length (sort_by_key ps) ≡ length ps)
unfolding sort_by_key
sort_by_key-All [] h = (tt, refl)
sort_by_key-All (p ∷ ps) (hp, h) =
    let (each, n) = sort_by_key-All ps h in
    let (each', n') = insert_by_key-All p (sort_by_key ps) hp each in (each', omega (arith, n, n'))

-- Fewer than 2^62 pairs, each with a key below 2^62 of the parity of its value and a value within
-- its bound, are encoded, given room enough, and come back sorted by key, equal keys in their
-- order, with what follows left over.
pub decode_kvps-encode_kvps :
    (k : KeyValuePairs)
    → All IsPair k.pairs
    → length k.pairs < 2 ^ 62
    → RoundTrips (encode_kvps k) decode_kvps (record { pairs = sort_by_key k.pairs })
unfolding encode_kvps decode_kvps
decode_kvps-encode_kvps k h short =
    let sorted = sort_by_key k.pairs in
    let (each, n) = sort_by_key-All k.pairs h in
    RoundTrips-seq _ _ decode_u64 _ (length sorted) _ (decode_u64-encode_u64 _ (omega (arith, n))) (
      RoundTrips-map _ (decode_pairs (length sorted) 0)
        (λ (ps : List KeyValuePair). record { pairs = ps }) sorted
        (pairs-RoundTrips sorted 0 each (sort_by_key-Ascending k.pairs)))
