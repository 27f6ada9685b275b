-- ===== src/Data/ExtensionHeaders.antt =====
-- moq-transport/src/data/extension_headers.rs: pairs behind the count of their bytes. They are
-- written to a `BytesMut` first, which has room for `usize::MAX` bytes.
use mathlib.Core.Path.{subst, fun_ext}
use moq_rs.Prelude.{
  ℕ, suc, ◌-◌, ◌^◌, ◌<◌, ◌==◌, List, [], ◌∷◌, length, if◌then◌else◌, All, ◌≡◌, refl, sym, ap, ◌∙◌,
  arith, append-nil, true, inr, inl, Bool-cases,
}
use moq_rs.Coding.Errors.{ok, err, panicked}
use moq_rs.Coding.Reader.{
  Decoder, pure, ◌>>=◌, decode_remaining, copy_to_slice, ◌>>◌, decode_remaining-enough, bind-ok,
}
use moq_rs.Coding.Writer.{Encoder, ◌⨟◌, and_then, done, put_slice, put_slice-enough}
use moq_rs.Coding.RoundTrip.{
  RoundTrips, RoundTrips-seq, RoundTrips-then, Writes, Writes-unique, Reads-slice,
}
use moq_rs.Coding.VarInt.{decode_u64, encode_u64}
use moq_rs.Coding.VarInt.RoundTrip.{decode_u64-encode_u64}
use moq_rs.Coding.KeyValuePairs.{
  KeyValuePair, encode_with_prev, encode_pairs, decode_pairs, sort_by_key, insert_by_key,
}
use moq_rs.Coding.KeyValuePairs.Wire.{
  IsPair, pairs-RoundTrips, sort_by_key-All, sort_by_key-Ascending,
}
use moq_rs.Coding.KeyValuePairs.ToEnd.{decode_to_end, to_end-pairs}

pub record ExtensionHeaders : Type 0 where
  pub pairs : List KeyValuePair

-- The pairs of the slice, with what is behind it left.
unfoldable pub decode_slice : List ℕ → Decoder ExtensionHeaders
unfolding decode_to_end
decode_slice kvps_bytes rest = elim (decode_to_end (suc (length kvps_bytes)) 0 kvps_bytes) [
  | ok (kvps, left) ↦ ok (record { pairs = kvps }, rest)
  | err e ↦ err e
  | panicked ↦ panicked
]

unfoldable pub decode_headers : Decoder ExtensionHeaders
unfolding decode_slice
decode_headers = do
  length ← decode_u64
  decode_remaining length
  if length == 0 then pure (record { pairs = [] }) else copy_to_slice length >>= decode_slice

-- The pairs, as they go to the buffer.
unfoldable pub encode_tmp : List KeyValuePair → Encoder (Unit {0})
unfolding encode_with_prev encode_pairs sort_by_key
encode_tmp [] = encode_pairs (sort_by_key []) 0
encode_tmp (kvp ∷ []) = and_then (encode_with_prev kvp 0) (λ _. done tt)
encode_tmp (p ∷ q ∷ ps) = encode_pairs (sort_by_key (p ∷ q ∷ ps)) 0

-- `remaining_mut` of an empty `BytesMut`
abbrev pub bytes_mut_room : ℕ
bytes_mut_room = 2 ^ 64 - 1

abbrev pub into_bytes_mut : Encoder (Unit {0}) → (List ℕ → Encoder (Unit {0})) → Encoder (Unit {0})
into_bytes_mut m k room = elim (m bytes_mut_room) [
  | ok (u, tmp, left) ↦ k tmp room
  | err e ↦ err e
  | panicked ↦ panicked
]

unfoldable pub encode_headers : ExtensionHeaders → Encoder (Unit {0})
unfolding encode_tmp
encode_headers x = elim x.pairs [
  | [] ↦ encode_u64 0
  | p ∷ ps ↦ into_bytes_mut (encode_tmp (p ∷ ps)) (λ tmp. encode_u64 (length tmp) ⨟ put_slice tmp)
]

-- The pairs are good, and fit behind a count of their bytes.
pub record IsHeaders (x : ExtensionHeaders) : Type 0 where
  pub each_pair : All IsPair x.pairs
  pub bytes : List ℕ
  pub writes : Writes (encode_tmp x.pairs) tt bytes
  pub countable : length bytes < 2 ^ 62

abbrev pub by_key : ExtensionHeaders → ExtensionHeaders
by_key x = record { pairs = sort_by_key x.pairs }

tmp_lem : (ps : List KeyValuePair) → encode_tmp ps ≡ encode_pairs (sort_by_key ps) 0
unfolding encode_tmp encode_pairs sort_by_key insert_by_key
tmp_lem [] = refl
tmp_lem (p ∷ []) = refl
tmp_lem (p ∷ q ∷ ps) = refl

slice-reads :
    (x : ExtensionHeaders) (h : IsHeaders x) (rest : List ℕ)
    → decode_slice h.bytes rest ≡ ok (by_key x, rest)
unfolding decode_slice
slice-reads x h rest =
    let ps = sort_by_key x.pairs in
    let t =
      pairs-RoundTrips ps 0 (sort_by_key-All x.pairs h.each_pair).0
        (sort_by_key-Ascending x.pairs) in
    let w : Writes (encode_pairs ps 0) tt h.bytes =
      subst (λ m. Writes m tt h.bytes) (tmp_lem x.pairs) h.writes in
    let same : t.bytes ≡ h.bytes = Writes-unique (encode_pairs ps 0) t.bytes h.bytes t.writes w in
    let whole : decode_pairs (length ps) 0 h.bytes ≡ ok (ps, []) =
      ap (decode_pairs (length ps) 0) (sym same ∙ sym (append-nil t.bytes)) ∙ t.reads [] in
    rw
      (
        to_end-pairs (length ps) (suc (length h.bytes)) 0 h.bytes ps (omega arith) whole,
        decode_slice,
      )
      refl

nil_of : (bs : List ℕ) → (length bs == 0) ≡ true → bs ≡ []
nil_of [] e = refl
nil_of (b ∷ bs) e = absurd (ground arith)

empty_slice : (rest : List ℕ) → ok (record { pairs = [] }, rest) ≡ decode_slice [] rest
unfolding decode_slice decode_to_end
empty_slice rest = refl

slice-RoundTrips :
    (x : ExtensionHeaders) (h : IsHeaders x)
    → RoundTrips
        (put_slice h.bytes)
        (decode_remaining (length h.bytes)
          >> (if length h.bytes == 0
              then pure (record { pairs = [] })
              else copy_to_slice (length h.bytes) >>= decode_slice))
        (by_key x)
slice-RoundTrips x h =
    let n = length h.bytes in
    record {
      bytes = h.bytes;
      writes = λ room r. put_slice-enough h.bytes room r;
      reads = λ rest. elim (Bool-cases (length h.bytes == 0)) [
        | inl none_left ↦
            let nil : h.bytes ≡ [] = nil_of h.bytes none_left in
            let empty : decode_slice [] rest ≡ ok (by_key x, rest) =
              subst (λ b. decode_slice b rest ≡ ok (by_key x, rest)) nil (slice-reads x h rest) in
            rw (none_left, nil)
              (bind-ok (decode_remaining 0) _ {r = rest}
                  (decode_remaining-enough 0 rest (omega arith))
                ∙ empty_slice rest
                ∙ empty)
        | inr some_left ↦
            rw some_left (Reads-slice h.bytes decode_slice (by_key x) (slice-reads x h) rest)
      ];
    }

pairs_round_trip :
    (ps : List KeyValuePair)
    → let x : ExtensionHeaders = record { pairs = ps } in
      IsHeaders x → RoundTrips (encode_headers x) decode_headers (by_key x)
unfolding encode_headers decode_headers
pairs_round_trip [] h =
    RoundTrips-then _ decode_u64 _ 0 _ (decode_u64-encode_u64 0 (omega arith)) (λ rest.
      bind-ok (decode_remaining 0) _ {r = rest} (decode_remaining-enough 0 rest (omega arith)))
pairs_round_trip (p ∷ ps) h =
    let x : ExtensionHeaders = record { pairs = p ∷ ps } in
    let n = h.countable in
    let buffered : encode_headers x ≡ (encode_u64 (length h.bytes) ⨟ put_slice h.bytes) =
      fun_ext λ room. rw (h.writes bytes_mut_room (omega arith), into_bytes_mut) refl in
    rw buffered (
      RoundTrips-seq _ _ decode_u64 _ (length h.bytes) _ (decode_u64-encode_u64 (length h.bytes) n)
        (slice-RoundTrips x h))

pub decode_headers-encode_headers :
    (x : ExtensionHeaders) → IsHeaders x → RoundTrips (encode_headers x) decode_headers (by_key x)
decode_headers-encode_headers x h = pairs_round_trip x.pairs h
