-- ===== src/Data/Subgroup/RoundTrip.antt =====
-- The objects of a subgroup stream, from the encoder to the decoder.
use mathlib.Core.Path.{subst}
use moq_rs.Prelude.{
  ℕ, ◌<◌, ◌^◌, ◌==◌, Bool, true, false, not, ◌&&◌, List, [], ◌∷◌, Option, some, none, if◌then◌else◌,
  ◌≡◌, refl, sym, ap, arith, is_some,
}
use moq_rs.Coding.Errors.{DecodeError, EncodeError, ok}
use moq_rs.Coding.Reader.{pure, ◌>>=◌, ◌>>◌, reject_if, bind-eq-ok, check-eq-ok}
use moq_rs.Coding.Writer.{done}
use moq_rs.Coding.RoundTrip.{
  RoundTrips, RoundTrips-seq, RoundTrips-map, RoundTrips-pure, RoundTrips-then,
  RoundTrips-enc_check,
}
use moq_rs.Coding.KeyValuePairs.{KeyValuePair, sort_by_key, insert_by_key}
use moq_rs.Coding.VarInt.{decode_u64}
use moq_rs.Coding.VarInt.RoundTrip.{decode_u64-encode_u64}
use moq_rs.Data.ExtensionHeaders.{
  ExtensionHeaders, decode_headers, IsHeaders, by_key, decode_headers-encode_headers,
}
use moq_rs.Data.Fetch.{is_empty}
use moq_rs.Data.Subgroup.{
  ObjectStatus, decode_status, status-RoundTrips, status_if_empty, SubgroupObjectExt, is_special,
  special, decode_subgroup_object_ext, encode_subgroup_object_ext, encode_ext_status,
}

-- A status is there when it goes over the wire, and it is a normal one beside headers.
abbrev pub StatusFits : Bool → ExtensionHeaders → Option ObjectStatus → Type 0
StatusFits true x none = ⊥
StatusFits true x (some s) = (is_special s && not (is_empty x)) ≡ false
StatusFits false x s = Unit {0}

abbrev pub sent_status : Bool → Option ObjectStatus → Option ObjectStatus
sent_status true s = s
sent_status false s = none

pub record IsObjectExt (o : SubgroupObjectExt) : Type 0 where
  pub delta_fits : o.object_id_delta < 2 ^ 62
  pub good_headers : IsHeaders o.extension_headers
  pub length_fits : o.payload_length < 2 ^ 62
  pub good_status : StatusFits (o.payload_length == 0) o.extension_headers o.status

abbrev pub sent_ext : SubgroupObjectExt → SubgroupObjectExt
sent_ext o = record o {
  extension_headers = by_key o.extension_headers;
  status = sent_status (o.payload_length == 0) o.status;
}

insert-not_empty :
    (p : KeyValuePair) (ps : List KeyValuePair)
    → is_empty (record { pairs = insert_by_key p ps }) ≡ false
unfolding insert_by_key
insert-not_empty p [] = refl
insert-not_empty p (q ∷ qs) = ground arith

pub by_key-is_empty :
    (ps : List KeyValuePair)
    → is_empty (by_key (record { pairs = ps })) ≡ is_empty (record { pairs = ps })
unfolding sort_by_key
by_key-is_empty [] = refl
by_key-is_empty (p ∷ ps) = insert-not_empty p (sort_by_key ps)

status_fields-RoundTrips :
    (b : Bool) (x : ExtensionHeaders) (s : Option ObjectStatus)
    → StatusFits b x s
    → RoundTrips
        (if b then encode_ext_status x s else done tt)
        (if b then (decode_status >>= λ t. pure (some t)) else pure none)
        (sent_status b s)
unfolding encode_ext_status
status_fields-RoundTrips true x none h = elim h [ ]
status_fields-RoundTrips true x (some s) h =
    RoundTrips-enc_check _ EncodeError.invalid_value _ _ (some s) h
      (RoundTrips-map _ decode_status (λ (t : ObjectStatus). some t) s (status-RoundTrips s))
status_fields-RoundTrips false x s h = RoundTrips-pure none

sent_status-plain :
    (b : Bool) (x : ExtensionHeaders) (s : Option ObjectStatus)
    → StatusFits b x s
    → (special (sent_status b s) && not (is_empty x)) ≡ false
sent_status-plain true x none h = elim h [ ]
sent_status-plain true x (some s) h = h
sent_status-plain false x s h = refl

-- A subgroup object with encodable extension headers and numbers, and a status that is there if
-- the payload is empty and is the normal one beside headers, is encoded, given room enough, and
-- comes back with its headers sorted by key, and its status if the payload is empty.
pub decode_ext-encode_ext :
    (o : SubgroupObjectExt)
    → IsObjectExt o
    → RoundTrips (encode_subgroup_object_ext o) decode_subgroup_object_ext (sent_ext o)
unfolding encode_subgroup_object_ext decode_subgroup_object_ext status_if_empty
decode_ext-encode_ext o h =
    let x = o.extension_headers in
    let b = o.payload_length == 0 in
    let plain : (special (sent_status b o.status) && not (is_empty (by_key x))) ≡ false =
      rw (by_key-is_empty x.pairs) (sent_status-plain b x o.status h.good_status) in
    RoundTrips-seq _ _ decode_u64 _ o.object_id_delta _
      (decode_u64-encode_u64 o.object_id_delta h.delta_fits)
      (RoundTrips-seq _ _ decode_headers _ (by_key x) _
        (decode_headers-encode_headers x h.good_headers)
        (RoundTrips-seq _ _ decode_u64 _ o.payload_length _
          (decode_u64-encode_u64 o.payload_length h.length_fits)
          (RoundTrips-then _ _ _ (sent_status b o.status) (sent_ext o)
            (status_fields-RoundTrips b x o.status h.good_status) (λ rest. rw plain refl))))

-- A status is there exactly without a payload.
status_there :
    (b : Bool) (r : List ℕ) (status : Option ObjectStatus) (s : List ℕ)
    → (if b then (decode_status >>= λ t. pure (some t)) else pure none) r ≡ ok (status, s)
    → is_some status ≡ b
status_there true r status s e =
    let (t, s', p, p') = bind-eq-ok decode_status (λ t. pure (some t)) r status s e in
    let is : some t ≡ status = cc in ap is_some (sym is)
status_there false r status s e = let is : none ≡ status = cc in ap is_some (sym is)

-- What a decoded object keeps to.
abbrev pub IsChecked : SubgroupObjectExt → Type 0
IsChecked o =
    ((special o.status && not (is_empty o.extension_headers)) ≡ false)
    × (is_some o.status ≡ (o.payload_length == 0))

IsChecked-end :
    (d n : ℕ) (x : ExtensionHeaders) (status : Option ObjectStatus) (r : List ℕ)
    (o : SubgroupObjectExt) (s : List ℕ)
    → is_some status ≡ (n == 0)
    → (reject_if (special status && not (is_empty x)) DecodeError.invalid_value
          >> pure (record {
            object_id_delta = d;
            extension_headers = x;
            payload_length = n;
            status = status;
          }))
        r
      ≡ ok (o, s)
    → IsChecked o
IsChecked-end d n x status r o s given e =
    let whole : SubgroupObjectExt = record {
      object_id_delta = d;
      extension_headers = x;
      payload_length = n;
      status = status;
    } in
    let (plain, e') =
      check-eq-ok (special status && not (is_empty x)) DecodeError.invalid_value (pure whole) r o s
        e in
    let is : whole ≡ o = cc in subst IsChecked is (plain, given)

-- Whatever bytes it is given, decode of an object with extension headers returns a status exactly
-- when the payload is empty, and no other than the normal one beside headers.
pub decode_ext_checked :
    (r : List ℕ) (o : SubgroupObjectExt) (s : List ℕ)
    → decode_subgroup_object_ext r ≡ ok (o, s)
    → ((special o.status && not (is_empty o.extension_headers)) ≡ false)
      × (is_some o.status ≡ (o.payload_length == 0))
unfolding decode_subgroup_object_ext status_if_empty
decode_ext_checked r o s e =
    let (d, r1, p1, e1) = bind-eq-ok decode_u64 _ r o s e in
    let (x, r2, p2, e2) = bind-eq-ok decode_headers _ r1 o s e1 in
    let (n, r3, p3, e3) = bind-eq-ok decode_u64 _ r2 o s e2 in
    let (status, r4, p4, e4) = bind-eq-ok (status_if_empty n) _ r3 o s e3 in
    IsChecked-end d n x status r4 o s (status_there (n == 0) r3 status r4 p4) e4
