-- ===== src/Data/Fetch/Fields.antt =====
-- The fields of an entry on their own: what the encoder leaves out, the decoder knows.
use moq_rs.Prelude.{
  ℕ, ◌+◌, ◌<◌, ◌^◌, Bool, true, false, not, ◌&&◌, ◌==◌, Option, some, none, if◌then◌else◌, ◌≡◌,
  refl, ap, arith, Bool-cases, inl, inr, ltb, [], List, ◌∷◌,
}
use moq_rs.Coding.Reader.{Decoder, pure, ◌>>=◌}
use moq_rs.Coding.Writer.{Encoder}
use moq_rs.Coding.RoundTrip.{RoundTrips, RoundTrips-pure}
use moq_rs.Coding.KeyValuePairs.{KeyValuePair, sort_by_key}
use moq_rs.Data.ExtensionHeaders.{
  ExtensionHeaders, IsHeaders, by_key, decode_headers, encode_headers,
  decode_headers-encode_headers,
}
use moq_rs.Data.Fetch.{
  FetchObject, PriorObject, subgroup_of, subgroup_flags, has_flag, encode_if, from_prior,
  or_invalid, is_none_or, follows_id, is_empty, next_of,
}
use moq_rs.Data.Fetch.Flags.{SubgroupKind, datagram, zero_id, prior_id, next_id, own_id, kind_bits}

abbrev pub Means : SubgroupKind → Option ℕ → Option ℕ → Type 0
Means datagram s p = s ≡ none
Means zero_id s p = s ≡ some 0
Means prior_id s p = (n : ℕ) × (s ≡ some n) × (p ≡ some n)
Means next_id s p = (n : ℕ) × (s ≡ some (n + 1)) × (p ≡ some n) × (n + 1 < 2 ^ 64)
Means own_id s p = (n : ℕ) × (s ≡ some n)

pub subgroup_kind :
    (s p : Option ℕ) → (k : SubgroupKind) × (subgroup_flags s p ≡ kind_bits k) × Means k s p
unfolding subgroup_flags
subgroup_kind none p = (datagram, refl, refl)
subgroup_kind (some s) none = elim (Bool-cases (s == 0)) [
  | inl z ↦ (zero_id, rw z refl, ap some (ground arith))
  | inr z ↦ (own_id, rw z refl, (s, refl))
]
subgroup_kind (some s) (some p) = elim (Bool-cases (s == 0)) [
  | inl z ↦ (zero_id, rw z refl, ap some (ground arith))
  | inr z ↦ elim (Bool-cases (s == p)) [
    | inl same ↦ (prior_id, rw (z, same) refl, (s, refl, ap some (ground arith)))
    | inr other ↦ elim (Bool-cases (ltb (p + 1) (2 ^ 64) && (p + 1) == s)) [
      | inl next ↦
          (next_id, rw (z, other, next) refl, (p, ap some (ground arith), refl, ground arith))
      | inr far ↦ (own_id, rw (z, other, far) refl, (s, refl))
    ]
  ]
]

-- The decoder has the encoder's prior object, if the encoder has one.
abbrev pub Follows : Option PriorObject → Option PriorObject → Type 0
Follows none d = Unit {0}
Follows (some p) d = d ≡ some p

abbrev pub SubgroupFits : Option ℕ → Type 0
SubgroupFits none = Unit {0}
SubgroupFits (some s) = s < 2 ^ 62

pub record IsObject (o : FetchObject) : Type 0 where
  pub group_fits : o.group_id < 2 ^ 62
  pub subgroup_fits : SubgroupFits o.subgroup_id
  pub object_fits : o.object_id < 2 ^ 62
  pub priority_fits : o.publisher_priority < 2 ^ 8
  pub good_headers : IsHeaders o.extension_headers
  pub length_fits : o.payload_length < 2 ^ 62

pub field-RoundTrips {ℓ} :
    {A : Type ℓ} (b b' : Bool) (enc : Encoder (Unit {0})) (d d' : Decoder A) (a : A)
    → b' ≡ b
    → RoundTrips enc d a
    → (b ≡ false → d' ≡ pure a)
    → RoundTrips (encode_if b enc) (if b' then d else d') a
field-RoundTrips true true enc d d' a e h f = h
field-RoundTrips true false enc d d' a e h f = cc
field-RoundTrips false true enc d d' a e h f = cc
field-RoundTrips false false enc d d' a e h f = rw (f refl) (RoundTrips-pure a)

pub inherited :
    (e d : Option PriorObject) (n : ℕ)
    → Follows e d
    → subgroup_of e ≡ some n
    → from_prior d (λ p. or_invalid p.subgroup_id) ≡ pure n
inherited none d n h q = cc
inherited (some p) d n h q = rw (h, q) refl

pub next-pure :
    (n : ℕ)
    → n + 1 < 2 ^ 64
    → (or_invalid (next_of n) >>= λ next. pure (some next)) ≡ pure (some (n + 1))
next-pure n b = let fits : ltb (n + 1) (2 ^ 64) ≡ true = ground arith in rw fits refl

pub next_or_invalid : (n m : ℕ) → follows_id n m ≡ true → or_invalid (next_of n) ≡ pure m
next_or_invalid n m h =
    let fits : ltb (n + 1) (2 ^ 64) ≡ true = ground arith in
    let same : n + 1 ≡ m = ground arith in rw (fits, same) refl

-- A field that is left out is that of the object before, in the decoder as well.
pub from_prior-pure :
    (e d : Option PriorObject) (field : PriorObject → Decoder ℕ) (a : ℕ)
    → Follows e d
    → (agrees : PriorObject → Bool) → is_none_or e (λ p. not (agrees p)) ≡ false
    → ((p : PriorObject) → agrees p ≡ true → field p ≡ pure a)
    → from_prior d field ≡ pure a
from_prior-pure none d field a follows agrees absent h = cc
from_prior-pure (some p) d field a follows agrees absent h = rw follows (h p (ground arith))

no_headers :
    (ps : List KeyValuePair)
    → let x : ExtensionHeaders = record { pairs = ps } in
      not (is_empty x) ≡ false → pure (record { pairs = [] }) ≡ pure (by_key x)
unfolding sort_by_key
no_headers [] h = refl
no_headers (p ∷ ps) h = cc

pub headers-RoundTrips :
    (flags : ℕ) (x : ExtensionHeaders)
    → has_flag flags 0x20 ≡ not (is_empty x)
    → IsHeaders x
    → RoundTrips
        (encode_if (not (is_empty x)) (encode_headers x))
        (if has_flag flags 0x20 then decode_headers else pure (record { pairs = [] }))
        (by_key x)
headers-RoundTrips flags x r h =
    field-RoundTrips (not (is_empty x)) (has_flag flags 0x20) _ decode_headers _ (by_key x) r
      (decode_headers-encode_headers x h) (no_headers x.pairs)
