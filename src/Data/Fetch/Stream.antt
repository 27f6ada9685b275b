-- ===== src/Data/Fetch/Stream.antt =====
-- A whole FETCH stream, the payload of each object behind its fields.
use moq_rs.Prelude.{
  map, take-length_append, drop-length_append, length-append, append_assoc, ℕ, zero, suc, ◌<◌, ◌^◌,
  ◌++◌, List, [], ◌∷◌, length, Option, some, none, All, ◌≡◌, refl, ap, ◌∙◌, arith,
}
use moq_rs.Coding.Reader.{
  bind-ok, read_slice-enough, Decoder, pure, ◌>>=◌, ◌>>◌, decode_remaining, copy_to_slice,
}
use moq_rs.Coding.Writer.{Encoder, ◌⨟◌, and_then, done, put_slice, put_slice-enough}
use moq_rs.Coding.RoundTrip.{
  RoundTrips, RoundTrips-seq, RoundTrips-map, RoundTrips-pure, Writes-and_then, Writes-done,
  Reads-bind,
}
use moq_rs.Coding.VarInt.{decode_u64, encode_u64}
use moq_rs.Coding.VarInt.RoundTrip.{decode_u64-encode_u64}
use moq_rs.Coding.Location.{Location}
use moq_rs.Data.Fetch.{
  FetchEntry, object, end_of_range, PriorObject, FetchEndOfRange, non_existent, unknown_range,
  range_number, range_kind, moved, prior_of, encode_object, encode_end_of_range, object_fields,
  decode_end_of_range, decode_entry,
}
use moq_rs.Data.Fetch.Fields.{Follows, IsObject}
use moq_rs.Data.Fetch.RoundTrip.{entry-RoundTrips}
use moq_rs.Data.ExtensionHeaders.{by_key}

unfoldable pub encode_entry : Option PriorObject → FetchEntry → Encoder (Option PriorObject)
unfolding encode_object encode_end_of_range
encode_entry prior (object o) = encode_object prior o
encode_entry prior (end_of_range kind location) = encode_end_of_range kind location

unfoldable pub encode_all : Option PriorObject → List (FetchEntry × List ℕ) → Encoder (Unit {0})
unfolding encode_entry
encode_all prior [] = done tt
encode_all prior ((entry, payload) ∷ es) =
    and_then (encode_entry prior entry) (λ next. put_slice payload ⨟ encode_all next es)

abbrev pub payload_len : FetchEntry → ℕ
payload_len (object o) = o.payload_length
payload_len (end_of_range kind location) = 0

unfoldable pub decode_all : ℕ → Option PriorObject → Decoder (List (FetchEntry × List ℕ))
unfolding decode_entry
decode_all zero prior = pure []
decode_all (suc n) prior = decode_entry prior >>= λ (q : FetchEntry × Option PriorObject).
    decode_remaining (payload_len q.0)
    >> (copy_to_slice (payload_len q.0) >>= λ payload.
        decode_all n q.1 >>= λ rest. pure ((q.0, payload) ∷ rest))

abbrev pub IsEntry : FetchEntry × List ℕ → Type 0
IsEntry (object o, payload) = IsObject o × (length payload ≡ o.payload_length)
IsEntry (end_of_range kind location, payload) =
    (location.group_id < 2 ^ 62) × (location.object_id < 2 ^ 62) × (payload ≡ [])

-- What comes back: headers are sorted by key.
abbrev pub received_entry : FetchEntry × List ℕ → FetchEntry × List ℕ
received_entry (object o, payload) =
    (object (record o { extension_headers = by_key o.extension_headers }), payload)
received_entry (end_of_range kind location, payload) = (end_of_range kind location, payload)

range-RoundTrips :
    (prior : Option PriorObject) (kind : FetchEndOfRange) (location : Location)
    → location.group_id < 2 ^ 62
    → location.object_id < 2 ^ 62
    → RoundTrips
        (encode_u64 (range_number kind)
          ⨟ encode_u64 location.group_id
          ⨟ encode_u64 location.object_id)
        (decode_entry prior)
        (end_of_range kind location, moved prior location.group_id location.object_id)
unfolding decode_entry decode_end_of_range range_number range_kind
range-RoundTrips prior non_existent location hg ho =
    RoundTrips-seq _ _ decode_u64 _ 0x8c _ (decode_u64-encode_u64 0x8c (omega arith)) (
      RoundTrips-seq _ _ decode_u64 _ location.group_id _
        (decode_u64-encode_u64 location.group_id hg)
        (RoundTrips-map _ decode_u64 _ location.object_id
          (decode_u64-encode_u64 location.object_id ho)))
range-RoundTrips prior unknown_range location hg ho =
    RoundTrips-seq _ _ decode_u64 _ 0x10c _ (decode_u64-encode_u64 0x10c (omega arith)) (
      RoundTrips-seq _ _ decode_u64 _ location.group_id _
        (decode_u64-encode_u64 location.group_id hg)
        (RoundTrips-map _ decode_u64 _ location.object_id
          (decode_u64-encode_u64 location.object_id ho)))

read_payload :
    {A : Type 0} (v : List ℕ) (f : List ℕ → Decoder A) (rest : List ℕ)
    → (decode_remaining (length v) >> (copy_to_slice (length v) >>= f)) (v ++ rest) ≡ f v rest
read_payload v f rest =
    read_slice-enough (length v) f (v ++ rest) (omega (arith, length-append v rest))
    ∙ rw (take-length_append v rest, drop-length_append v rest) refl

module _ (n : ℕ) (entry : FetchEntry) (payload : List ℕ) (es : List (FetchEntry × List ℕ)) where
  -- One entry and its payload in front of what follows them.
  cons-RoundTrips :
      (e next d d' : Option PriorObject) (fields : Encoder (Unit {0})) (got : FetchEntry)
      (later : List (FetchEntry × List ℕ))
      → encode_entry e entry ≡ (fields ⨟ done next)
      → RoundTrips fields (decode_entry d) (got, d')
      → length payload ≡ payload_len got
      → RoundTrips (encode_all next es) (decode_all n d') later
      → RoundTrips
          (encode_all e ((entry, payload) ∷ es))
          (decode_all (suc n) d)
          ((got, payload) ∷ later)
  unfolding encode_all decode_all
  cons-RoundTrips e next d d' fields got later split one size rest = record {
    bytes = one.bytes ++ (payload ++ rest.bytes);
    writes = rw split (
        Writes-and_then (fields ⨟ done next) (λ p. put_slice payload ⨟ encode_all p es) next tt
          one.bytes (payload ++ rest.bytes) (Writes-done fields next one.bytes one.writes)
          (Writes-and_then (put_slice payload) (λ _. encode_all next es) tt tt payload rest.bytes
            (λ room r. put_slice-enough payload room r) rest.writes));
    reads =
        Reads-bind (decode_entry d) _ (got, d') ((got, payload) ∷ later) one.bytes
          (payload ++ rest.bytes) one.reads
          (rw (← size) (λ r.
            let split_bytes = append_assoc payload rest.bytes r in
            rw split_bytes (
              read_payload payload _ (rest.bytes ++ r)
              ∙ bind-ok (decode_all n d') (λ rs. pure ((got, payload) ∷ rs)) {r = rest.bytes ++ r}
                  (rest.reads r))));
  }

-- A FETCH stream of encodable objects, each with a payload of its length, and end-of-range markers
-- is written, given room enough, and read back entry by entry, headers sorted by key, from where
-- the encoder has no prior object or the decoder has the same: what the encoder leaves out, the
-- decoder knows.
pub decode_all-encode_all :
    (es : List (FetchEntry × List ℕ)) (e d : Option PriorObject)
    → All IsEntry es
    → Follows e d
    → RoundTrips (encode_all e es) (decode_all (length es) d) (map received_entry es)
unfolding encode_all decode_all
decode_all-encode_all [] e d h f = RoundTrips-pure []
decode_all-encode_all ((object o, payload) ∷ es) e d ((good, size), h) f =
    cons-RoundTrips (length es) (object o) payload es e (some (prior_of o)) d (some (prior_of o))
      (object_fields e o) (received_entry (object o, payload)).0 (map received_entry es)
      (unfold encode_entry encode_object in refl) (unfold prior_of in entry-RoundTrips e d o f good)
      size (decode_all-encode_all es (some (prior_of o)) (some (prior_of o)) h refl)
decode_all-encode_all ((end_of_range kind location, payload) ∷ es) e d ((hg, ho, nil), h) f =
    cons-RoundTrips (length es) (end_of_range kind location) payload es e none d
      (moved d location.group_id location.object_id) _ (end_of_range kind location)
      (map received_entry es) (unfold encode_entry encode_end_of_range in refl)
      (range-RoundTrips d kind location hg ho) (ap length nil)
      (decode_all-encode_all es none (moved d location.group_id location.object_id) h tt)
