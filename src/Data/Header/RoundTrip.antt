-- ===== src/Data/Header/RoundTrip.antt =====
-- Stream headers, from the encoder to the decoder.
use moq_rs.Prelude.{
  ◌∙◌, ℕ, ◌<◌, ◌^◌, ◌≡◌, refl, arith, List, Bool, true, none, ◌⊎◌, inr, inl, Option, false, some,
  if◌then◌else◌, ap,
}
use moq_rs.Coding.Errors.{ok}
use moq_rs.Coding.Reader.{pure, ◌>>=◌}
use moq_rs.Coding.Writer.{Encoder, ◌⨟◌, done}
use moq_rs.Coding.VarInt.{encode_u64, decode_u64}
use moq_rs.Coding.Integer.{encode_u8, decode_u8-encode_u8, decode_u8}
use moq_rs.Coding.RoundTrip.{
  RoundTrips, RoundTrips-then, RoundTrips-pure, RoundTrips-seq, RoundTrips-map,
}
use moq_rs.Coding.VarInt.RoundTrip.{decode_u64-encode_u64}
use moq_rs.Data.Header.{
  StreamHeaderType, type_number, header_type_of, encode_header_type, decode_header_type,
  encode_stream_header, encode_subgroup_id, decode_fetch_header, StreamHeader, decode_stream_header,
  decode_parts, SubgroupHeader, decode_subgroup_header, is_subgroup, is_fetch, encode_fetch_header,
  encode_subgroup_header, FetchHeader, has_subgroup_id,
}

-- The decoder knows each type by its number.
header_type_of-number :
    (t : StreamHeaderType) (rest : List ℕ) → header_type_of (type_number t) rest ≡ ok (t, rest)
unfolding header_type_of type_number
header_type_of-number StreamHeaderType.subgroup_zero_id rest = refl
header_type_of-number StreamHeaderType.subgroup_zero_id_ext rest = refl
header_type_of-number StreamHeaderType.subgroup_first_object_id rest = refl
header_type_of-number StreamHeaderType.subgroup_first_object_id_ext rest = refl
header_type_of-number StreamHeaderType.subgroup_id rest = refl
header_type_of-number StreamHeaderType.subgroup_id_ext rest = refl
header_type_of-number StreamHeaderType.subgroup_zero_id_end_of_group rest = refl
header_type_of-number StreamHeaderType.subgroup_zero_id_ext_end_of_group rest = refl
header_type_of-number StreamHeaderType.subgroup_first_object_id_end_of_group rest = refl
header_type_of-number StreamHeaderType.subgroup_first_object_id_ext_end_of_group rest = refl
header_type_of-number StreamHeaderType.subgroup_id_end_of_group rest = refl
header_type_of-number StreamHeaderType.subgroup_id_ext_end_of_group rest = refl
header_type_of-number StreamHeaderType.fetch rest = refl

number_fits : (t : StreamHeaderType) → type_number t < 2 ^ 62
unfolding type_number
number_fits StreamHeaderType.subgroup_zero_id = omega arith
number_fits StreamHeaderType.subgroup_zero_id_ext = omega arith
number_fits StreamHeaderType.subgroup_first_object_id = omega arith
number_fits StreamHeaderType.subgroup_first_object_id_ext = omega arith
number_fits StreamHeaderType.subgroup_id = omega arith
number_fits StreamHeaderType.subgroup_id_ext = omega arith
number_fits StreamHeaderType.subgroup_zero_id_end_of_group = omega arith
number_fits StreamHeaderType.subgroup_zero_id_ext_end_of_group = omega arith
number_fits StreamHeaderType.subgroup_first_object_id_end_of_group = omega arith
number_fits StreamHeaderType.subgroup_first_object_id_ext_end_of_group = omega arith
number_fits StreamHeaderType.subgroup_id_end_of_group = omega arith
number_fits StreamHeaderType.subgroup_id_ext_end_of_group = omega arith
number_fits StreamHeaderType.fetch = omega arith

header_type-RoundTrips :
    (t : StreamHeaderType) → RoundTrips (encode_header_type t) decode_header_type t
unfolding encode_header_type decode_header_type
header_type-RoundTrips t =
    RoundTrips-then _ decode_u64 header_type_of (type_number t) t
      (decode_u64-encode_u64 (type_number t) (number_fits t)) (header_type_of-number t)

-- A stream is a subgroup's or a FETCH's.
either_kind :
    (t : StreamHeaderType)
    → ((is_subgroup t ≡ true) × (is_fetch t ≡ false))
      ⊎ ((is_subgroup t ≡ false) × (is_fetch t ≡ true))
unfolding is_subgroup is_fetch type_number
either_kind StreamHeaderType.subgroup_zero_id = inl (refl, refl)
either_kind StreamHeaderType.subgroup_zero_id_ext = inl (refl, refl)
either_kind StreamHeaderType.subgroup_first_object_id = inl (refl, refl)
either_kind StreamHeaderType.subgroup_first_object_id_ext = inl (refl, refl)
either_kind StreamHeaderType.subgroup_id = inl (refl, refl)
either_kind StreamHeaderType.subgroup_id_ext = inl (refl, refl)
either_kind StreamHeaderType.subgroup_zero_id_end_of_group = inl (refl, refl)
either_kind StreamHeaderType.subgroup_zero_id_ext_end_of_group = inl (refl, refl)
either_kind StreamHeaderType.subgroup_first_object_id_end_of_group = inl (refl, refl)
either_kind StreamHeaderType.subgroup_first_object_id_ext_end_of_group = inl (refl, refl)
either_kind StreamHeaderType.subgroup_id_end_of_group = inl (refl, refl)
either_kind StreamHeaderType.subgroup_id_ext_end_of_group = inl (refl, refl)
either_kind StreamHeaderType.fetch = inr (refl, refl)

-- A subgroup id that is there when the type has one, and can be encoded.
abbrev pub IdFits : Bool → Option ℕ → Type 0
IdFits true none = ⊥
IdFits true (some n) = n < 2 ^ 62
IdFits false s = Unit {0}

abbrev pub sent_id : Bool → Option ℕ → Option ℕ
sent_id true s = s
sent_id false s = none

pub record IsSubgroupHeader (h : SubgroupHeader) : Type 0 where
  pub alias_fits : h.track_alias < 2 ^ 62
  pub group_fits : h.group_id < 2 ^ 62
  pub id_fits : IdFits (has_subgroup_id h.header_type) h.subgroup_id
  pub priority_fits : h.publisher_priority < 2 ^ 8

abbrev pub sent_subgroup : SubgroupHeader → SubgroupHeader
sent_subgroup h = record h { subgroup_id = sent_id (has_subgroup_id h.header_type) h.subgroup_id }

id-RoundTrips :
    (b : Bool) (s : Option ℕ)
    → IdFits b s
    → RoundTrips
        (if b then encode_subgroup_id s else done tt)
        (if b then (decode_u64 >>= λ id. pure (some id)) else pure none)
        (sent_id b s)
unfolding encode_subgroup_id
id-RoundTrips true none h = elim h [ ]
id-RoundTrips true (some n) h =
    RoundTrips-map _ decode_u64 (λ (id : ℕ). some id) n (decode_u64-encode_u64 n h)
id-RoundTrips false s h = RoundTrips-pure none

subgroup_fields-RoundTrips :
    (h : SubgroupHeader)
    → IsSubgroupHeader h
    → RoundTrips
        (encode_u64 h.track_alias
          ⨟ encode_u64 h.group_id
          ⨟ (if has_subgroup_id h.header_type then encode_subgroup_id h.subgroup_id else done tt)
          ⨟ encode_u8 h.publisher_priority)
        (decode_subgroup_header h.header_type)
        (sent_subgroup h)
unfolding decode_subgroup_header
subgroup_fields-RoundTrips h good =
    RoundTrips-seq _ _ decode_u64 _ h.track_alias _
      (decode_u64-encode_u64 h.track_alias good.alias_fits)
      (RoundTrips-seq _ _ decode_u64 _ h.group_id _
        (decode_u64-encode_u64 h.group_id good.group_fits)
        (RoundTrips-seq _ _ _ _ (sent_subgroup h).subgroup_id _
          (id-RoundTrips (has_subgroup_id h.header_type) h.subgroup_id good.id_fits)
          (RoundTrips-map _ decode_u8
            (λ (p : ℕ). record (sent_subgroup h) { publisher_priority = p }) h.publisher_priority
            (decode_u8-encode_u8 h.publisher_priority good.priority_fits))))

-- The header that the type calls for is there, is of that type and can be encoded.
abbrev pub IsStreamHeader : StreamHeader → Type 0
IsStreamHeader h =
    ((is_subgroup h.header_type ≡ true)
      × ((s : SubgroupHeader) × (h.subgroup_header ≡ some s)
          × (s.header_type ≡ h.header_type)
          × IsSubgroupHeader s))
    ⊎ ((is_subgroup h.header_type ≡ false)
        × ((f : FetchHeader) × (h.fetch_header ≡ some f)
            × (f.header_type ≡ h.header_type)
            × (f.request_id < 2 ^ 62)))

abbrev pub sent_subgroup_header : Option SubgroupHeader → Option SubgroupHeader
sent_subgroup_header none = none
sent_subgroup_header (some s) = some (sent_subgroup s)

-- The header that the type calls for, and in it the id that the type calls for.
abbrev pub sent_header : StreamHeader → StreamHeader
sent_header h =
    if is_subgroup h.header_type
    then record h { subgroup_header = sent_subgroup_header h.subgroup_header; fetch_header = none }
    else record h { subgroup_header = none }

module _ (t : StreamHeaderType) (m : Encoder (Unit {0})) where
  parts-subgroup :
      (x : SubgroupHeader)
      → is_subgroup t ≡ true
      → is_fetch t ≡ false
      → RoundTrips m (decode_subgroup_header t) x
      → RoundTrips m
          (decode_parts t)
          (record { header_type = t; subgroup_header = some x; fetch_header = none })
  unfolding decode_parts
  parts-subgroup x sub no_fetch h =
      rw (sub, no_fetch)
        (RoundTrips-then m (decode_subgroup_header t >>= λ y. pure (some y)) _ (some x) _
          (RoundTrips-map m (decode_subgroup_header t) (λ (y : SubgroupHeader). some y) x h)
          (λ rest. refl))

  parts-fetch :
      (x : FetchHeader)
      → is_subgroup t ≡ false
      → is_fetch t ≡ true
      → RoundTrips m (decode_fetch_header t) x
      → RoundTrips m
          (decode_parts t)
          (record { header_type = t; subgroup_header = none; fetch_header = some x })
  unfolding decode_parts
  parts-fetch x no_sub is_it h =
      rw (no_sub, is_it)
        (RoundTrips-then m (decode_fetch_header t >>= λ y. pure (some y)) _ (some x) _
          (RoundTrips-map m (decode_fetch_header t) (λ (y : FetchHeader). some y) x h)
          (λ rest. refl))

subgroup_header-RoundTrips :
    (s : SubgroupHeader)
    → IsSubgroupHeader s
    → is_subgroup s.header_type ≡ true
    → is_fetch s.header_type ≡ false
    → RoundTrips (encode_subgroup_header s) decode_stream_header (record {
      header_type = s.header_type;
      subgroup_header = some (sent_subgroup s);
      fetch_header = none;
    })
unfolding encode_subgroup_header decode_stream_header
subgroup_header-RoundTrips s good sub no_fetch =
    RoundTrips-seq _ _ decode_header_type decode_parts s.header_type _
      (header_type-RoundTrips s.header_type)
      (parts-subgroup s.header_type _ (sent_subgroup s) sub no_fetch
        (subgroup_fields-RoundTrips s good))

fetch_header-RoundTrips :
    (f : FetchHeader)
    → f.request_id < 2 ^ 62
    → is_subgroup f.header_type ≡ false
    → is_fetch f.header_type ≡ true
    → RoundTrips
        (encode_fetch_header f)
        decode_stream_header
        (record { header_type = f.header_type; subgroup_header = none; fetch_header = some f })
unfolding encode_fetch_header decode_stream_header decode_fetch_header
fetch_header-RoundTrips f fits no_sub is_it =
    RoundTrips-seq _ _ decode_header_type decode_parts f.header_type _
      (header_type-RoundTrips f.header_type)
      (parts-fetch f.header_type _ f no_sub is_it (
        RoundTrips-map _ decode_u64
          (λ (id : ℕ). record { header_type = f.header_type; request_id = id }) f.request_id
          (decode_u64-encode_u64 f.request_id fits)))

-- A stream header whose type calls for a part that is there, is of that type and can be encoded is
-- encoded, given room enough, and comes back with that part alone, and a subgroup's with the id if
-- its type calls for one.
pub decode_stream_header-encode_stream_header :
    (h : StreamHeader)
    → IsStreamHeader h
    → RoundTrips (encode_stream_header h) decode_stream_header (sent_header h)
unfolding encode_stream_header
decode_stream_header-encode_stream_header h (inl (sub, (s, there, same, good))) =
    elim (either_kind h.header_type) [
      | inr (no', f) ↦ cc
      | inl (yes', no') ↦
          rw (sub, there, ← same)
            (subgroup_header-RoundTrips s good (ap is_subgroup same ∙ yes')
              (ap is_fetch same ∙ no'))
    ]
decode_stream_header-encode_stream_header h (inr (sub, (f, there, same, fits))) =
    elim (either_kind h.header_type) [
      | inl (yes', no') ↦ cc
      | inr (no', yes') ↦
          rw (sub, there, ← same)
            (fetch_header-RoundTrips f fits (ap is_subgroup same ∙ no') (ap is_fetch same ∙ yes'))
    ]
