-- ===== src/Coding/Tuple.antt =====
-- moq-transport/src/coding/tuple.rs: a field of bytes with its length before it, and a tuple of
-- fields with their count before them.
use moq_rs.Coding.Errors.{DecodeError, EncodeError, err, ok}
use moq_rs.Coding.Writer.{refuse_if, encode_remaining, put_slice, Encoder, ◌⨟◌}
use moq_rs.Coding.Streaming.{
  IsStreaming, IsStreaming-slice, IsStreaming-check, IsStreaming-pure, IsStreaming-bind,
}
use moq_rs.Coding.Reader.{
  pure, decode_remaining, Decoder, ◌>>=◌, copy_to_slice, reject_if, ◌>>◌, slice-eq-ok, bind-eq-ok,
  check-eq-ok,
}
use moq_rs.Prelude.{
  length, ◌<◌, ◌≡◌, ℕ, List, arith, ◌≤◌, ltb, refl, ◌^◌, true, All, false, take, length-take,
}
use moq_rs.Coding.RoundTrip.{
  RoundTrips-map, RoundTrips, RoundTrips-slice, RoundTrips-enc_check, RoundTrips-seq,
  RoundTrips-dec_check,
}
use moq_rs.Coding.VarInt.{encode_u64, decode_u64}
use moq_rs.Coding.VarInt.RoundTrip.{decode_u64-encode_u64}
use moq_rs.Coding.VarInt.Decode.{u64-IsStreaming}
use moq_rs.Coding.Repeat.{encode_each, decode_times, times-IsStreaming, RoundTrips-each}

pub record TupleField : Type 0 where
  pub value : List ℕ

-- `TupleField::MAX_VALUE_SIZE`
abbrev pub max_value_size : ℕ
max_value_size = 4096

unfoldable pub decode_field : Decoder TupleField
decode_field = do
  size ← decode_u64
  reject_if (ltb max_value_size size) (DecodeError.field_bounds_exceeded "TupleField")
  decode_remaining size
  buf ← copy_to_slice size
  pure (record { value = buf })

unfoldable pub encode_field : TupleField → Encoder (Unit {0})
encode_field f =
    refuse_if (ltb max_value_size (length f.value)) (EncodeError.field_bounds_exceeded "TupleField")
    ⨟ encode_u64 (length f.value)
    ⨟ encode_remaining (length f.value)
    ⨟ put_slice f.value

pub record Tuple : Type 0 where
  pub fields : List TupleField

unfoldable pub decode_tuple : Decoder Tuple
unfolding decode_field decode_times
decode_tuple = do
  count ← decode_u64
  fields ← decode_times decode_field count
  pure (record { fields = fields })

unfoldable pub encode_tuple : Tuple → Encoder (Unit {0})
unfolding encode_field encode_each
encode_tuple t = encode_u64 (length t.fields) ⨟ encode_each encode_field t.fields

abbrev pub FieldFits : TupleField → Type 0
FieldFits f = length f.value ≤ max_value_size

pub field-IsStreaming : IsStreaming decode_field
unfolding decode_field
field-IsStreaming = IsStreaming-bind decode_u64 _ u64-IsStreaming (λ n.
    IsStreaming-check (ltb max_value_size n) _ _ refl
      (IsStreaming-slice n _ (λ v. IsStreaming-pure _)))

pub decode_field-encode_field :
    (f : TupleField) → FieldFits f → RoundTrips (encode_field f) decode_field f
unfolding decode_field encode_field
decode_field-encode_field f h =
    let n = length f.value in
    let fits : ltb max_value_size n ≡ false = ground arith in
    RoundTrips-enc_check _ _ _ _ f fits (
      RoundTrips-seq _ _ decode_u64 _ n f (decode_u64-encode_u64 n (omega arith)) (
        RoundTrips-dec_check _ _ _ _ f fits
          (RoundTrips-slice f.value (λ v. pure (record { value = v })) f (λ rest. refl))))

-- A field past the limit is refused.
pub encode_field_refuses :
    (f : TupleField) (room : ℕ)
    → max_value_size < length f.value
    → encode_field f room ≡ err (EncodeError.field_bounds_exceeded "TupleField")
unfolding encode_field
encode_field_refuses f room h =
    let long : ltb max_value_size (length f.value) ≡ true = ground arith in rw long

pub decode_tuple-IsStreaming : IsStreaming decode_tuple
unfolding decode_tuple
decode_tuple-IsStreaming = IsStreaming-bind decode_u64 _ u64-IsStreaming (λ n.
    IsStreaming-bind (decode_times decode_field n) _
      (times-IsStreaming decode_field n field-IsStreaming) (λ fs. IsStreaming-pure _))

-- A tuple of fewer than 2^62 fields, none above the size limit, is encoded, given room enough, and
-- decoded back with what follows left over.
pub decode_tuple-encode_tuple :
    (t : Tuple)
    → All FieldFits t.fields
    → length t.fields < 2 ^ 62
    → RoundTrips (encode_tuple t) decode_tuple t
unfolding decode_tuple encode_tuple
decode_tuple-encode_tuple t h short =
    RoundTrips-seq _ _ decode_u64 _ (length t.fields) t (decode_u64-encode_u64 _ short) (
      RoundTrips-map _ (decode_times decode_field (length t.fields))
        (λ (fs : List TupleField). record { fields = fs }) t.fields
        (RoundTrips-each FieldFits encode_field decode_field decode_field-encode_field t.fields h))

-- A field that was read fits the limit.
pub decode_field-FieldFits :
    (r : List ℕ) (f : TupleField) (s : List ℕ) → decode_field r ≡ ok (f, s) → FieldFits f
unfolding decode_field
decode_field-FieldFits r f s e =
    let (n, r', p, q) = bind-eq-ok decode_u64 _ r f s e in
    let (fits, q') = check-eq-ok (ltb max_value_size n) _ _ r' f s q in
    let (long, q'') = slice-eq-ok n (λ v. pure (record { value = v })) r' f s q' in
    let k : length (take n r') ≡ n = length-take n r' long in
    let eq : f ≡ record { value = take n r' } = cc in rw eq (ground arith)
