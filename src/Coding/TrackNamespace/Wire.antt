-- ===== src/Coding/TrackNamespace/Wire.antt =====
-- Namespaces, prefixes and names on the wire.
use moq_rs.Coding.Errors.{ok}
use moq_rs.Coding.Reader.{pure, check-eq-ok, bind-eq-ok}
use moq_rs.Coding.RoundTrip.{
  RoundTrips-dec_check, RoundTrips-enc_check, RoundTrips-seq, RoundTrips-map, RoundTrips-slice,
  RoundTrips-then, RoundTrips,
}
use moq_rs.Prelude.{
  refl, ◌||◌, ◌<◌, arith, ℕ, ◌≤◌, All, false, String, ltb, ◌≡◌, length, List, ◌^◌, not_ltb→le,
}
use moq_rs.Coding.Streaming.{
  IsStreaming-check, IsStreaming, IsStreaming-slice, IsStreaming-pure, IsStreaming-bind,
}
use moq_rs.Coding.VarInt.{decode_u64}
use moq_rs.Coding.VarInt.RoundTrip.{decode_u64-encode_u64}
use moq_rs.Coding.VarInt.Decode.{u64-IsStreaming}
use moq_rs.Coding.Repeat.{times-IsStreaming, RoundTrips-each, times-All}
use moq_rs.Coding.Tuple.{
  TupleField, FieldFits, field-IsStreaming, decode_field-encode_field, decode_field, encode_field,
  decode_field-FieldFits,
}
use moq_rs.Coding.TrackNamespace.{
  TrackNamespace, TrackNamespacePrefix, TrackName, is_empty, decode_prefix, max_fields,
  encode_namespace_fields, decode_nonempty_field, namespace_fields_byte_len, encode_name,
  decode_name, encode_nonempty_field, decode_namespace_fields, max_full_track_name_len,
  decode_namespace, encode_namespace, encode_prefix,
}

-- What the draft asks of a field in a namespace: 1 to 4096 bytes.
abbrev pub IsField : TupleField → Type 0
IsField f = (is_empty f.value ≡ false) × FieldFits f

nonempty_field-IsStreaming : IsStreaming decode_nonempty_field
unfolding decode_nonempty_field
nonempty_field-IsStreaming =
    IsStreaming-bind decode_field _ field-IsStreaming
      (λ f. IsStreaming-check (is_empty f.value) _ _ refl (IsStreaming-pure f))

namespace_fields-IsStreaming :
    (least most : ℕ) (kind : String) → IsStreaming (decode_namespace_fields least most kind)
unfolding decode_namespace_fields
namespace_fields-IsStreaming least most kind = IsStreaming-bind decode_u64 _ u64-IsStreaming (λ n.
    IsStreaming-check (ltb n least || ltb most n) _ _ refl
      (times-IsStreaming decode_nonempty_field n nonempty_field-IsStreaming))

-- On any buffer decode_namespace does not panic, gives no answer that later bytes change, and
-- answers More(n) only if n bytes are missing.
pub namespace-IsStreaming : IsStreaming decode_namespace
unfolding decode_namespace
namespace-IsStreaming =
    IsStreaming-bind (decode_namespace_fields 1 max_fields "TrackNamespace") _
      (namespace_fields-IsStreaming 1 max_fields "TrackNamespace")
      (λ fs.
        IsStreaming-check (ltb max_full_track_name_len (namespace_fields_byte_len fs)) _ _ refl
          (IsStreaming-pure _))

pub prefix-IsStreaming : IsStreaming decode_prefix
unfolding decode_prefix
prefix-IsStreaming =
    IsStreaming-bind (decode_namespace_fields 0 max_fields "TrackNamespacePrefix") _
      (namespace_fields-IsStreaming 0 max_fields "TrackNamespacePrefix") (λ fs. IsStreaming-pure _)

pub name-IsStreaming : IsStreaming decode_name
unfolding decode_name
name-IsStreaming = IsStreaming-bind decode_u64 _ u64-IsStreaming (λ n.
    IsStreaming-check (ltb max_full_track_name_len n) _ _ refl
      (IsStreaming-slice n _ (λ v. IsStreaming-pure _)))

nonempty_field-encode :
    (f : TupleField) → IsField f → RoundTrips (encode_nonempty_field f) decode_nonempty_field f
unfolding decode_nonempty_field encode_nonempty_field
nonempty_field-encode f (full, fits) = RoundTrips-enc_check _ _ _ _ f full (
    RoundTrips-then (encode_field f) decode_field _ f f (decode_field-encode_field f fits)
      (λ rest. rw full))

namespace_fields-encode :
    (fs : List TupleField) (least most : ℕ) (kind : String)
    → least ≤ length fs
    → length fs ≤ most
    → most < 2 ^ 62
    → All IsField fs
    → RoundTrips
        (encode_namespace_fields fs least most kind)
        (decode_namespace_fields least most kind)
        fs
unfolding decode_namespace_fields encode_namespace_fields
namespace_fields-encode fs least most kind lo hi top h =
    let n = length fs in
    let counted : (ltb n least || ltb most n) ≡ false = ground arith in
    RoundTrips-enc_check _ _ _ _ fs counted (
      RoundTrips-seq _ _ decode_u64 _ n fs (decode_u64-encode_u64 n (omega arith)) (
        RoundTrips-dec_check _ _ _ _ fs counted (
          RoundTrips-each IsField encode_nonempty_field decode_nonempty_field nonempty_field-encode
            fs h)))

-- What the draft asks of a full namespace: 1 to 32 fields, and 4096 bytes in all.
pub record IsNamespace (n : TrackNamespace) : Type 0 where
  pub some_fields : 1 ≤ length n.fields
  pub few_fields : length n.fields ≤ max_fields
  pub each_field : All IsField n.fields
  pub short : namespace_fields_byte_len n.fields ≤ max_full_track_name_len

-- A namespace that the draft allows is encoded, given room enough, and decoded back with what
-- follows left over.
pub decode_namespace-encode_namespace :
    (n : TrackNamespace) → IsNamespace n → RoundTrips (encode_namespace n) decode_namespace n
unfolding decode_namespace encode_namespace
decode_namespace-encode_namespace n h =
    let fits : ltb max_full_track_name_len (namespace_fields_byte_len n.fields) ≡ false =
      let s = h.short in ground arith in
    RoundTrips-enc_check _ _ _ _ n fits (
      RoundTrips-then _ (decode_namespace_fields 1 max_fields "TrackNamespace") _ n.fields n
        (namespace_fields-encode n.fields 1 max_fields "TrackNamespace" h.some_fields h.few_fields
          (omega arith) h.each_field)
        (λ rest. rw fits))

-- A prefix of at most 32 fields, each neither empty nor too long, is encoded, given room enough,
-- and decoded back.
pub decode_prefix-encode_prefix :
    (p : TrackNamespacePrefix)
    → length p.fields ≤ max_fields
    → All IsField p.fields
    → RoundTrips (encode_prefix p) decode_prefix p
unfolding decode_prefix encode_prefix
decode_prefix-encode_prefix p few h =
    RoundTrips-map _ (decode_namespace_fields 0 max_fields "TrackNamespacePrefix")
      (λ (fs : List TupleField). record { fields = fs }) p.fields
      (namespace_fields-encode p.fields 0 max_fields "TrackNamespacePrefix" (omega arith) few
        (omega arith) h)

pub decode_name-encode_name :
    (n : TrackName)
    → length n.value ≤ max_full_track_name_len
    → RoundTrips (encode_name n) decode_name n
unfolding decode_name encode_name
decode_name-encode_name n h =
    let k = length n.value in
    let fits : ltb max_full_track_name_len k ≡ false = ground arith in
    RoundTrips-enc_check _ _ _ _ n fits (
      RoundTrips-seq _ _ decode_u64 _ k n (decode_u64-encode_u64 k (omega arith)) (
        RoundTrips-dec_check _ _ _ _ n fits
          (RoundTrips-slice n.value (λ v. pure (record { value = v })) n (λ rest. refl))))

decode_nonempty-IsField :
    (r : List ℕ) (f : TupleField) (s : List ℕ) → decode_nonempty_field r ≡ ok (f, s) → IsField f
unfolding decode_nonempty_field
decode_nonempty-IsField r f s e =
    let (g, r', p, q) = bind-eq-ok decode_field _ r f s e in
    let (full, q') = check-eq-ok (is_empty g.value) _ (pure g) r' f s q in
    let eq : f ≡ g = cc in rw eq (full, decode_field-FieldFits r g r' p)

namespace_fields-bounds :
    (least most : ℕ) (kind : String) (r : List ℕ) (fs : List TupleField) (s : List ℕ)
    → decode_namespace_fields least most kind r ≡ ok (fs, s)
    → (least ≤ length fs) × (length fs ≤ most) × All IsField fs
unfolding decode_namespace_fields
namespace_fields-bounds least most kind r fs s e =
    let (n, r', p, q) = bind-eq-ok decode_u64 _ r fs s e in
    let (counted, q') = check-eq-ok (ltb n least || ltb most n) _ _ r' fs s q in
    let (each, k) = times-All IsField decode_nonempty_field decode_nonempty-IsField n r' fs s q' in
    rw k (ground arith, ground arith, each)

-- Whatever bytes it is given, decode_namespace returns only namespaces that the draft allows.
pub decode_namespace-IsNamespace :
    (r : List ℕ) (n : TrackNamespace) (s : List ℕ) → decode_namespace r ≡ ok (n, s) → IsNamespace n
unfolding decode_namespace
decode_namespace-IsNamespace r n s e =
    let (fs, r', p, q) =
      bind-eq-ok (decode_namespace_fields 1 max_fields "TrackNamespace") _ r n s e in
    let (short, q') =
      check-eq-ok (ltb max_full_track_name_len (namespace_fields_byte_len fs)) _ _ r' n s q in
    let (lo, hi, each) = namespace_fields-bounds 1 max_fields "TrackNamespace" r fs r' p in
    let eq : n ≡ record { fields = fs } = cc in
    rw eq (record {
      some_fields = lo;
      few_fields = hi;
      each_field = each;
      short = not_ltb→le _ _ short;
    })
