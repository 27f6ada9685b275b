-- ===== src/Data/Fetch.antt =====
-- moq-transport/src/data/fetch.rs: the entries of a FETCH stream. Fields that a receiver knows from
-- the object before are left out, so both ends keep that object, `PriorObject`.
pub mod Flags
pub mod Fields
pub mod RoundTrip
pub mod Stream
use moq_rs.Prelude.{
  ℕ, ◌+◌, ◌^◌, bit_and, bit_or, Bool, true, false, not, ◌&&◌, ◌||◌, ◌==◌, leb, ltb, List, [], ◌∷◌,
  if◌then◌else◌, Option, some, none,
}
use moq_rs.Coding.Errors.{DecodeError, EncodeError}
use moq_rs.Coding.Reader.{Decoder, pure, throw, ◌>>=◌, ◌>>◌}
use moq_rs.Coding.Writer.{Encoder, ◌⨟◌, done, fail}
use moq_rs.Coding.VarInt.{decode_u64, encode_u64}
use moq_rs.Coding.Integer.{decode_u8, encode_u8}
use moq_rs.Coding.Location.{Location}
use moq_rs.Data.ExtensionHeaders.{ExtensionHeaders, decode_headers, encode_headers}

pub record FetchObject : Type 0 where
  pub group_id : ℕ
  pub subgroup_id : Option ℕ
  pub object_id : ℕ
  pub publisher_priority : ℕ
  pub extension_headers : ExtensionHeaders
  pub payload_length : ℕ

pub data FetchEndOfRange : Type 0 where
  non_existent unknown_range : FetchEndOfRange

pub data FetchEntry : Type 0 where
  object : FetchObject → FetchEntry
  end_of_range : FetchEndOfRange → Location → FetchEntry

pub record PriorObject : Type 0 where
  pub group_id : ℕ
  pub subgroup_id : Option ℕ
  pub object_id : ℕ
  pub publisher_priority : ℕ

unfoldable pub prior_of : FetchObject → PriorObject
prior_of o = record {
  group_id = o.group_id;
  subgroup_id = o.subgroup_id;
  object_id = o.object_id;
  publisher_priority = o.publisher_priority;
}

-- `checked_add(1)` of a 64-bit integer.
abbrev pub next_of : ℕ → Option ℕ
next_of n = if ltb (n + 1) (2 ^ 64) then some (n + 1) else none

-- `n.checked_add(1) == Some(m)`
abbrev pub follows_id : ℕ → ℕ → Bool
follows_id n m = ltb (n + 1) (2 ^ 64) && (n + 1) == m

abbrev pub subgroup_of : Option PriorObject → Option ℕ
subgroup_of none = none
subgroup_of (some p) = p.subgroup_id

-- The flags of the subgroup id, from it and that of the object before.
unfoldable pub subgroup_flags : Option ℕ → Option ℕ → ℕ
subgroup_flags none prior = 0x40
subgroup_flags (some s) none = if s == 0 then 0x00 else 0x03
subgroup_flags (some s) (some p) =
    if s == 0 then 0x00 else if s == p then 0x01 else if follows_id p s then 0x02 else 0x03

-- `prior.is_none_or(differs)`
abbrev pub is_none_or : Option PriorObject → (PriorObject → Bool) → Bool
is_none_or none differs = true
is_none_or (some p) differs = differs p

unfoldable pub group_present : Option PriorObject → FetchObject → Bool
group_present prior o = is_none_or prior (λ p. not (p.group_id == o.group_id))

unfoldable pub object_present : Option PriorObject → FetchObject → Bool
unfolding group_present
object_present prior o =
    group_present prior o || is_none_or prior (λ p. not (follows_id p.object_id o.object_id))

unfoldable pub priority_present : Option PriorObject → FetchObject → Bool
priority_present prior o =
    is_none_or prior (λ p. not (p.publisher_priority == o.publisher_priority))

abbrev pub is_empty : ExtensionHeaders → Bool
is_empty x = elim x.pairs [ [] ↦ true | p ∷ ps ↦ false ]

-- `if set { flags |= bit }`
abbrev pub set_flag : Bool → ℕ → ℕ → ℕ
set_flag set bit flags = if set then bit_or flags bit else flags

abbrev pub all_flags : ℕ → Bool → Bool → Bool → Bool → ℕ
all_flags subgroup has_group has_object has_priority has_extensions =
    set_flag has_extensions 0x20
      (set_flag has_priority 0x10 (set_flag has_object 0x04 (set_flag has_group 0x08 subgroup)))

-- `flags & bit != 0`
abbrev pub has_flag : ℕ → ℕ → Bool
has_flag flags bit = not (bit_and flags bit == 0)

abbrev pub encode_if : Bool → Encoder (Unit {0}) → Encoder (Unit {0})
encode_if present enc = if present then enc else done tt

-- `ok_or_else(MissingField)?.encode(w)?`
unfoldable pub encode_subgroup : Option ℕ → Encoder (Unit {0})
encode_subgroup none = fail (EncodeError.missing_field "SubgroupId")
encode_subgroup (some s) = encode_u64 s

unfoldable pub object_flags : Option PriorObject → FetchObject → ℕ
unfolding subgroup_flags group_present object_present priority_present
object_flags prior o =
    all_flags (subgroup_flags o.subgroup_id (subgroup_of prior)) (group_present prior o)
      (object_present prior o) (priority_present prior o) (not (is_empty o.extension_headers))

unfoldable pub object_fields : Option PriorObject → FetchObject → Encoder (Unit {0})
unfolding object_flags encode_subgroup
object_fields prior o =
    let serialization_flags = object_flags prior o in
    encode_u64 serialization_flags
    ⨟ encode_if (group_present prior o) (encode_u64 o.group_id)
    ⨟ encode_if
        (not (has_flag serialization_flags 0x40) && bit_and serialization_flags 0x03 == 0x03)
        (encode_subgroup o.subgroup_id)
    ⨟ encode_if (object_present prior o) (encode_u64 o.object_id)
    ⨟ encode_if (priority_present prior o) (encode_u8 o.publisher_priority)
    ⨟ encode_if (not (is_empty o.extension_headers)) (encode_headers o.extension_headers)
    ⨟ encode_u64 o.payload_length

unfoldable pub encode_object : Option PriorObject → FetchObject → Encoder (Option PriorObject)
unfolding object_fields
encode_object prior o = object_fields prior o ⨟ done (some (prior_of o))

unfoldable pub range_number : FetchEndOfRange → ℕ
range_number non_existent = 0x8c
range_number unknown_range = 0x10c

unfoldable pub encode_end_of_range : FetchEndOfRange → Location → Encoder (Option PriorObject)
unfolding range_number
encode_end_of_range kind location =
    (encode_u64 (range_number kind) ⨟ encode_u64 location.group_id ⨟ encode_u64 location.object_id)
    ⨟ done none

unfoldable pub range_kind : ℕ → Decoder FetchEndOfRange
range_kind n =
    if n == 0x8c
    then pure non_existent
    else if n == 0x10c
    then pure unknown_range
    else throw DecodeError.invalid_value

abbrev pub moved : Option PriorObject → ℕ → ℕ → Option PriorObject
moved none group_id object_id = none
moved (some p) group_id object_id = some (record p { group_id = group_id; object_id = object_id })

unfoldable pub decode_end_of_range :
    Option PriorObject → ℕ → Decoder (FetchEntry × Option PriorObject)
unfolding range_kind
decode_end_of_range prior serialization_flags = do
  kind ← range_kind serialization_flags
  group_id ← decode_u64
  object_id ← decode_u64
  pure (
    end_of_range kind (record { group_id = group_id; object_id = object_id }),
    moved prior group_id object_id,
  )

-- `prior_or_violation()`, and what follows it.
abbrev pub from_prior {ℓ} :
    {A : Type ℓ} → Option PriorObject → (PriorObject → Decoder A) → Decoder A
from_prior none f = throw DecodeError.invalid_value
from_prior (some p) f = f p

-- `ok_or(InvalidValue)?`
abbrev pub or_invalid {ℓ} : {A : Type ℓ} → Option A → Decoder A
or_invalid none = throw DecodeError.invalid_value
or_invalid (some a) = pure a

unfoldable pub decode_subgroup : Option PriorObject → ℕ → Decoder (Option ℕ)
decode_subgroup prior flags =
    if has_flag flags 0x40
    then pure none
    else if bit_and flags 0x03 == 0x00
    then pure (some 0)
    else if bit_and flags 0x03 == 0x01
    then (from_prior prior (λ p. or_invalid p.subgroup_id) >>= λ s. pure (some s))
    else if bit_and flags 0x03 == 0x02
    then (do
      s ← from_prior prior (λ p. or_invalid p.subgroup_id)
      next ← or_invalid (next_of s)
      pure (some next))
    else decode_u64 >>= λ s. pure (some s)

unfoldable pub decode_object : Option PriorObject → ℕ → Decoder FetchObject
unfolding decode_subgroup
decode_object prior flags = do
  group_id ← if has_flag flags 0x08 then decode_u64 else from_prior prior (λ p. pure p.group_id)
  subgroup_id ← decode_subgroup prior flags
  object_id ←
      if has_flag flags 0x04
      then decode_u64
      else from_prior prior (λ p. or_invalid (next_of p.object_id))
  publisher_priority ←
      if has_flag flags 0x10 then decode_u8 else from_prior prior (λ p. pure p.publisher_priority)
  extension_headers ← if has_flag flags 0x20 then decode_headers else pure (record { pairs = [] })
  payload_length ← decode_u64
  pure (record {
    group_id = group_id;
    subgroup_id = subgroup_id;
    object_id = object_id;
    publisher_priority = publisher_priority;
    extension_headers = extension_headers;
    payload_length = payload_length;
  })

-- An entry, with what the decoder keeps. The count of the bytes taken is that of those no longer
-- left. A decoder that fails keeps what it had.
unfoldable pub decode_entry : Option PriorObject → Decoder (FetchEntry × Option PriorObject)
unfolding decode_end_of_range decode_object
decode_entry prior = do
  flags ← decode_u64
  if leb 0x80 flags
      then decode_end_of_range prior flags
      else decode_object prior flags >>= λ (o : FetchObject). pure (object o, some (prior_of o))
