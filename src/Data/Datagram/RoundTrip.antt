-- ===== src/Data/Datagram/RoundTrip.antt =====
-- Datagrams, from the encoder to the decoder.
use moq_rs.Prelude.{
  ℕ, ◌<◌, ◌^◌, ◌&&◌, Bool, List, Option, some, none, is_some, true, false, ◌≡◌, refl, arith, ◌∙◌,
  if◌then◌else◌, length,
}
use moq_rs.Coding.Errors.{ok, EncodeError}
use moq_rs.Coding.Reader.{pure, ◌>>=◌}
use moq_rs.Coding.Writer.{done}
use moq_rs.Coding.RoundTrip.{
  RoundTrips, RoundTrips-map, RoundTrips-pure, RoundTrips-then, RoundTrips-enc_check, Writes-slice,
}
use moq_rs.Coding.AtEnd.{RoundTrips-AtEnd, AtEnd, AtEnd-seq, AtEnd-map, AtEnd-dec_check}
use moq_rs.Coding.VarInt.{decode_u64}
use moq_rs.Coding.VarInt.RoundTrip.{decode_u64-encode_u64}
use moq_rs.Coding.Integer.{decode_u8, decode_u8-encode_u8}
use moq_rs.Data.ExtensionHeaders.{
  ExtensionHeaders, IsHeaders, by_key, decode_headers, decode_headers-encode_headers,
}
use moq_rs.Data.Fetch.{is_empty}
use moq_rs.Data.Subgroup.{ObjectStatus, decode_status, status-RoundTrips, is_special, special}
use moq_rs.Data.Subgroup.RoundTrip.{by_key-is_empty}
use moq_rs.Data.Datagram.{
  DatagramType, datagram_number, datagram_type_of, encode_datagram_type, decode_datagram_type,
  has_object_id, has_extension_headers, has_status, has_payload, Datagram, decode_datagram,
  encode_datagram, decode_some_headers, rest_of, encode_object_id, encode_some_headers,
  encode_datagram_status, encode_some_payload,
}

-- The decoder knows each type by its number.
datagram_type_of-number :
    (t : DatagramType) (rest : List ℕ) → datagram_type_of (datagram_number t) rest ≡ ok (t, rest)
unfolding datagram_type_of datagram_number
datagram_type_of-number DatagramType.object_id_payload rest = refl
datagram_type_of-number DatagramType.object_id_payload_ext rest = refl
datagram_type_of-number DatagramType.object_id_payload_end_of_group rest = refl
datagram_type_of-number DatagramType.object_id_payload_ext_end_of_group rest = refl
datagram_type_of-number DatagramType.payload rest = refl
datagram_type_of-number DatagramType.payload_ext rest = refl
datagram_type_of-number DatagramType.payload_end_of_group rest = refl
datagram_type_of-number DatagramType.payload_ext_end_of_group rest = refl
datagram_type_of-number DatagramType.object_id_status rest = refl
datagram_type_of-number DatagramType.object_id_status_ext rest = refl

number_fits : (t : DatagramType) → datagram_number t < 2 ^ 62
unfolding datagram_number
number_fits DatagramType.object_id_payload = omega arith
number_fits DatagramType.object_id_payload_ext = omega arith
number_fits DatagramType.object_id_payload_end_of_group = omega arith
number_fits DatagramType.object_id_payload_ext_end_of_group = omega arith
number_fits DatagramType.payload = omega arith
number_fits DatagramType.payload_ext = omega arith
number_fits DatagramType.payload_end_of_group = omega arith
number_fits DatagramType.payload_ext_end_of_group = omega arith
number_fits DatagramType.object_id_status = omega arith
number_fits DatagramType.object_id_status_ext = omega arith

datagram_type-RoundTrips :
    (t : DatagramType) → RoundTrips (encode_datagram_type t) decode_datagram_type t
unfolding encode_datagram_type decode_datagram_type
datagram_type-RoundTrips t =
    RoundTrips-then _ decode_u64 datagram_type_of (datagram_number t) t
      (decode_u64-encode_u64 (datagram_number t) (number_fits t)) (datagram_type_of-number t)

-- What the type calls for is there and can be encoded.
abbrev pub IdFits : Bool → Option ℕ → Type 0
IdFits true none = ⊥
IdFits true (some n) = n < 2 ^ 62
IdFits false s = Unit {0}

abbrev pub HeadersFit : Bool → Option ExtensionHeaders → Type 0
HeadersFit true none = ⊥
HeadersFit true (some x) = IsHeaders x × (is_empty x ≡ false)
HeadersFit false s = Unit {0}

abbrev pub StatusFits : Bool → Option ExtensionHeaders → Option ObjectStatus → Type 0
StatusFits true x none = ⊥
StatusFits true x (some s) = (is_some x && is_special s) ≡ false
StatusFits false x s = Unit {0}

abbrev pub PayloadFits : Bool → Option (List ℕ) → Type 0
PayloadFits true none = ⊥
PayloadFits true (some p) = Unit {0}
PayloadFits false s = Unit {0}

pub record IsDatagram (d : Datagram) : Type 0 where
  pub alias_fits : d.track_alias < 2 ^ 62
  pub group_fits : d.group_id < 2 ^ 62
  pub id_fits : IdFits (has_object_id d.datagram_type) d.object_id
  pub priority_fits : d.publisher_priority < 2 ^ 8
  pub headers_fit : HeadersFit (has_extension_headers d.datagram_type) d.extension_headers
  pub status_fits : StatusFits (has_status d.datagram_type) d.extension_headers d.status
  pub payload_fits : PayloadFits (has_payload d.datagram_type) d.payload

-- A field, if the type calls for it.
abbrev pub kept : {A : Type 0} → Bool → Option A → Option A
kept true s = s
kept false s = none

abbrev pub sorted_headers : Option ExtensionHeaders → Option ExtensionHeaders
sorted_headers none = none
sorted_headers (some x) = some (by_key x)

abbrev pub sent_datagram : Datagram → Datagram
sent_datagram d =
    let kind = d.datagram_type in
    record d {
      object_id = kept (has_object_id kind) d.object_id;
      extension_headers = kept (has_extension_headers kind) (sorted_headers d.extension_headers);
      status = kept (has_status kind) d.status;
      payload = kept (has_payload kind) d.payload;
    }

id-RoundTrips :
    (b : Bool) (s : Option ℕ)
    → IdFits b s
    → RoundTrips
        (if b then encode_object_id s else done tt)
        (if b then (decode_u64 >>= λ id. pure (some id)) else pure none)
        (kept b s)
unfolding encode_object_id
id-RoundTrips true none h = elim h [ ]
id-RoundTrips true (some n) h =
    RoundTrips-map _ decode_u64 (λ (id : ℕ). some id) n (decode_u64-encode_u64 n h)
id-RoundTrips false s h = RoundTrips-pure none

headers-RoundTrips :
    (b : Bool) (s : Option ExtensionHeaders)
    → HeadersFit b s
    → RoundTrips
        (if b then encode_some_headers s else done tt)
        (if b then decode_some_headers else pure none)
        (kept b (sorted_headers s))
unfolding encode_some_headers decode_some_headers
headers-RoundTrips true none h = elim h [ ]
headers-RoundTrips true (some x) (h, there) =
    let sorted_there : is_empty (by_key x) ≡ false = by_key-is_empty x.pairs ∙ there in
    RoundTrips-enc_check _ EncodeError.invalid_value _ _ _ there (
      RoundTrips-then _ decode_headers _ (by_key x) _ (decode_headers-encode_headers x h)
        (λ rest. rw sorted_there refl))
headers-RoundTrips false s h = RoundTrips-pure none

sent_status-RoundTrips :
    (b : Bool) (x : Option ExtensionHeaders) (s : Option ObjectStatus)
    → StatusFits b x s
    → RoundTrips
        (if b then encode_datagram_status x s else done tt)
        (if b then (decode_status >>= λ t. pure (some t)) else pure none)
        (kept b s)
unfolding encode_datagram_status
sent_status-RoundTrips true x none h = elim h [ ]
sent_status-RoundTrips true x (some s) h =
    RoundTrips-enc_check _ EncodeError.invalid_value _ _ (some s) h
      (RoundTrips-map _ decode_status (λ (t : ObjectStatus). some t) s (status-RoundTrips s))
sent_status-RoundTrips false x s h = RoundTrips-pure none

plain_beside_headers :
    (b c : Bool) (x : Option ExtensionHeaders) (s : Option ObjectStatus)
    → StatusFits b x s
    → (special (kept b s) && is_some (kept c (sorted_headers x))) ≡ false
plain_beside_headers true c x none h = elim h [ ]
plain_beside_headers true c none (some s) h = ground arith
plain_beside_headers true true (some x) (some s) h = ground arith
plain_beside_headers true false (some x) (some s) h = ground arith
plain_beside_headers false c x s h = refl

payload-AtEnd :
    (b : Bool) (s : Option (List ℕ))
    → PayloadFits b s
    → AtEnd
        (if b then encode_some_payload s else done tt)
        (if b then rest_of else pure none)
        (kept b s)
unfolding encode_some_payload
payload-AtEnd true none h = elim h [ ]
payload-AtEnd true (some p) h = record {
  bytes = p;
  writes = Writes-slice p (length p) refl;
  reads_all = refl;
}
payload-AtEnd false s h = RoundTrips-AtEnd _ _ none (RoundTrips-pure none)

-- A datagram that has, encodable, the fields its type calls for, headers not empty and a normal
-- status beside headers, is encoded, given room enough, and its bytes are read to the end, as
-- these fields and no others, headers sorted by key.
pub datagram-AtEnd :
    (d : Datagram) → IsDatagram d → AtEnd (encode_datagram d) decode_datagram (sent_datagram d)
unfolding encode_datagram decode_datagram
datagram-AtEnd d h =
    let kind = d.datagram_type in
    let plain =
      plain_beside_headers (has_status kind) (has_extension_headers kind) d.extension_headers
        d.status h.status_fits in
    AtEnd-seq _ _ decode_datagram_type _ kind _ (datagram_type-RoundTrips kind) (
      AtEnd-seq _ _ decode_u64 _ d.track_alias _ (decode_u64-encode_u64 d.track_alias h.alias_fits)
        (AtEnd-seq _ _ decode_u64 _ d.group_id _ (decode_u64-encode_u64 d.group_id h.group_fits) (
          AtEnd-seq _ _ _ _ (sent_datagram d).object_id _
            (id-RoundTrips (has_object_id kind) d.object_id h.id_fits)
            (AtEnd-seq _ _ decode_u8 _ d.publisher_priority _
              (decode_u8-encode_u8 d.publisher_priority h.priority_fits)
              (AtEnd-seq _ _ _ _ (sent_datagram d).extension_headers _
                (headers-RoundTrips (has_extension_headers kind) d.extension_headers h.headers_fit)
                (AtEnd-seq _ _ _ _ (sent_datagram d).status _
                  (sent_status-RoundTrips (has_status kind) d.extension_headers d.status
                    h.status_fits)
                  (AtEnd-dec_check _ _ _ _ _ plain (
                    AtEnd-map _ _ (λ p. record (sent_datagram d) { payload = p }) _
                      (payload-AtEnd (has_payload kind) d.payload h.payload_fits)))))))))
