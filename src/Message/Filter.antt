-- ===== src/Message/Filter.antt =====
-- The subscription filter: moq-transport/src/message/filter_type.rs, and `SubscriptionFilter` of
-- params.rs there.
use moq_rs.Prelude.{◌<◌, ◌^◌, ℕ, ◌==◌, if◌then◌else◌, Option, some, none, arith, refl}
use moq_rs.Coding.Errors.{DecodeError, EncodeError}
use moq_rs.Coding.Reader.{Decoder, pure, throw, ◌>>=◌}
use moq_rs.Coding.Writer.{Encoder, ◌⨟◌, done, fail}
use moq_rs.Coding.VarInt.{decode_u64, encode_u64}
use moq_rs.Coding.VarInt.RoundTrip.{decode_u64-encode_u64}
use moq_rs.Coding.RoundTrip.{
  RoundTrips, RoundTrips-seq, RoundTrips-map, RoundTrips-then, RoundTrips-pure,
}
use moq_rs.Coding.Location.{
  Location, decode_location, encode_location, decode_location-encode_location,
}

pub data FilterType : Type 0 where
  next_group_start largest_object absolute_start absolute_range : FilterType

-- `*self as u64`
unfoldable pub filter_number : FilterType → ℕ
filter_number next_group_start = 1
filter_number largest_object = 2
filter_number absolute_start = 3
filter_number absolute_range = 4

unfoldable pub encode_filter_type : FilterType → Encoder (Unit {0})
unfolding filter_number
encode_filter_type t = encode_u64 (filter_number t)

unfoldable pub filter_type : ℕ → Decoder FilterType
filter_type n =
    if n == 1
    then pure next_group_start
    else if n == 2
    then pure largest_object
    else if n == 3
    then pure absolute_start
    else if n == 4
    then pure absolute_range
    else throw DecodeError.invalid_filter_type

unfoldable pub decode_filter_type : Decoder FilterType
unfolding filter_type
decode_filter_type = decode_u64 >>= filter_type

pub record SubscriptionFilter : Type 0 where
  pub filter_type : FilterType
  pub start_location : Option Location
  pub end_group_id : Option ℕ

-- The fields behind the filter's type.
unfoldable pub decode_bounds : FilterType → Decoder SubscriptionFilter
decode_bounds next_group_start =
    pure (record { filter_type = next_group_start; start_location = none; end_group_id = none })
decode_bounds largest_object =
    pure (record { filter_type = largest_object; start_location = none; end_group_id = none })
decode_bounds absolute_start = do
  start ← decode_location
  pure (record { filter_type = absolute_start; start_location = some start; end_group_id = none })
decode_bounds absolute_range = do
  start ← decode_location
  end ← decode_u64
  pure (record {
    filter_type = absolute_range;
    start_location = some start;
    end_group_id = some end;
  })

unfoldable pub decode_filter : Decoder SubscriptionFilter
unfolding decode_filter_type decode_bounds
decode_filter = decode_filter_type >>= decode_bounds

-- `ok_or_else(MissingField)?.encode(w)?`
unfoldable pub encode_start : Option Location → Encoder (Unit {0})
encode_start none = fail (EncodeError.missing_field "StartLocation")
encode_start (some l) = encode_location l

unfoldable pub encode_end : Option ℕ → Encoder (Unit {0})
encode_end none = fail (EncodeError.missing_field "EndGroupId")
encode_end (some g) = encode_u64 g

unfoldable pub encode_bounds : FilterType → Option Location → Option ℕ → Encoder (Unit {0})
unfolding encode_start encode_end
encode_bounds next_group_start start end = done tt
encode_bounds largest_object start end = done tt
encode_bounds absolute_start start end = encode_start start
encode_bounds absolute_range start end = encode_start start ⨟ encode_end end

unfoldable pub encode_filter : SubscriptionFilter → Encoder (Unit {0})
unfolding encode_filter_type encode_bounds
encode_filter f =
    encode_filter_type f.filter_type ⨟ encode_bounds f.filter_type f.start_location f.end_group_id

abbrev pub StartFits : Option Location → Type 0
StartFits none = ⊥
StartFits (some l) = (l.group_id < 2 ^ 62) × (l.object_id < 2 ^ 62)

abbrev pub EndFits : Option ℕ → Type 0
EndFits none = ⊥
EndFits (some g) = g < 2 ^ 62

-- The fields that the type calls for are there and can be encoded.
abbrev pub BoundsFit : FilterType → Option Location → Option ℕ → Type 0
BoundsFit next_group_start start end = Unit {0}
BoundsFit largest_object start end = Unit {0}
BoundsFit absolute_start start end = StartFits start
BoundsFit absolute_range start end = StartFits start × EndFits end

-- What goes over the wire: the fields that the type calls for.
abbrev pub sent : FilterType → Option Location → Option ℕ → SubscriptionFilter
sent next_group_start start end = record {
  filter_type = next_group_start;
  start_location = none;
  end_group_id = none;
}
sent largest_object start end = record {
  filter_type = largest_object;
  start_location = none;
  end_group_id = none;
}
sent absolute_start start end = record {
  filter_type = absolute_start;
  start_location = start;
  end_group_id = none;
}
sent absolute_range start end = record {
  filter_type = absolute_range;
  start_location = start;
  end_group_id = end;
}

filter_type-RoundTrips : (t : FilterType) → RoundTrips (encode_filter_type t) decode_filter_type t
unfolding encode_filter_type decode_filter_type
filter_type-RoundTrips next_group_start =
    RoundTrips-then _ decode_u64 _ 1 _ (decode_u64-encode_u64 1 (omega arith)) (λ rest. refl)
filter_type-RoundTrips largest_object =
    RoundTrips-then _ decode_u64 _ 2 _ (decode_u64-encode_u64 2 (omega arith)) (λ rest. refl)
filter_type-RoundTrips absolute_start =
    RoundTrips-then _ decode_u64 _ 3 _ (decode_u64-encode_u64 3 (omega arith)) (λ rest. refl)
filter_type-RoundTrips absolute_range =
    RoundTrips-then _ decode_u64 _ 4 _ (decode_u64-encode_u64 4 (omega arith)) (λ rest. refl)

bounds-RoundTrips :
    (t : FilterType) (start : Option Location) (end : Option ℕ)
    → BoundsFit t start end
    → RoundTrips (encode_bounds t start end) (decode_bounds t) (sent t start end)
unfolding encode_bounds decode_bounds
bounds-RoundTrips next_group_start start end h = RoundTrips-pure _
bounds-RoundTrips largest_object start end h = RoundTrips-pure _
bounds-RoundTrips absolute_start none end h = elim h [ ]
bounds-RoundTrips absolute_range none end (h, he) = elim h [ ]
bounds-RoundTrips absolute_range (some l) none (hl, h) = elim h [ ]
bounds-RoundTrips absolute_start (some l) end (hg, ho) =
    RoundTrips-map _ decode_location
      (λ (s : Location). record {
        filter_type = absolute_start;
        start_location = some s;
        end_group_id = none;
      })
      l (decode_location-encode_location l hg ho)
bounds-RoundTrips absolute_range (some l) (some g) ((hg, ho), he) =
    RoundTrips-seq _ _ decode_location _ l _ (decode_location-encode_location l hg ho) (
      RoundTrips-map _ decode_u64
        (λ (n : ℕ). record {
          filter_type = absolute_range;
          start_location = some l;
          end_group_id = some n;
        })
        g (decode_u64-encode_u64 g he))

-- A subscription filter that has, below 2^62, the bounds its type calls for is encoded, given room
-- enough, and comes back with these bounds and no others.
pub decode_filter-encode_filter :
    (f : SubscriptionFilter)
    → BoundsFit f.filter_type f.start_location f.end_group_id
    → RoundTrips
        (encode_filter f)
        decode_filter
        (sent f.filter_type f.start_location f.end_group_id)
unfolding encode_filter decode_filter
decode_filter-encode_filter f h =
    RoundTrips-seq _ _ decode_filter_type _ f.filter_type _ (filter_type-RoundTrips f.filter_type)
      (bounds-RoundTrips f.filter_type f.start_location f.end_group_id h)
