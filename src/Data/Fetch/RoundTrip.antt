-- ===== src/Data/Fetch/RoundTrip.antt =====
-- The entries of a FETCH stream, from the encoder to the decoder.
use mathlib.Core.Path.{subst}
use moq_rs.Prelude.{
  ℕ, ◌+◌, ◌<◌, ◌^◌, bit_and, Bool, false, not, ◌&&◌, ◌==◌, Option, some, none, if◌then◌else◌, ◌≡◌,
  ap, arith, leb,
}
use moq_rs.Coding.Reader.{pure, ◌>>=◌}
use moq_rs.Coding.RoundTrip.{RoundTrips, RoundTrips-seq, RoundTrips-map, RoundTrips-pure}
use moq_rs.Coding.VarInt.{decode_u64, encode_u64}
use moq_rs.Coding.VarInt.RoundTrip.{decode_u64-encode_u64}
use moq_rs.Coding.Integer.{decode_u8, encode_u8, decode_u8-encode_u8}
use moq_rs.Data.ExtensionHeaders.{by_key}
use moq_rs.Data.Fetch.{
  FetchObject, PriorObject, subgroup_of, group_present, has_flag, encode_if, encode_subgroup,
  decode_subgroup, from_prior, or_invalid, priority_present, follows_id, object, prior_of, is_empty,
  object_flags, object_fields, decode_object, decode_entry, object_present, next_of,
}
use moq_rs.Data.Fetch.Flags.{
  SubgroupKind, datagram, zero_id, prior_id, next_id, own_id, FlagsRead, read_flags,
}
use moq_rs.Data.Fetch.Fields.{
  Means, subgroup_kind, Follows, SubgroupFits, IsObject, field-RoundTrips, inherited, next-pure,
  next_or_invalid, from_prior-pure, headers-RoundTrips,
}

module _ (e d : Option PriorObject) (o : FetchObject) (follows : Follows e d) where
  subgroup-RoundTrips :
      (flags : ℕ) (k : SubgroupKind) (g ob p x : Bool)
      → FlagsRead flags k g ob p x
      → Means k o.subgroup_id (subgroup_of e)
      → SubgroupFits o.subgroup_id
      → RoundTrips
          (encode_if
            (not (has_flag flags 0x40) && bit_and flags 0x03 == 0x03)
            (encode_subgroup o.subgroup_id))
          (decode_subgroup d flags)
          o.subgroup_id
  unfolding decode_subgroup encode_subgroup
  subgroup-RoundTrips flags datagram g ob p x r m fits =
      rw (r.reads_datagram, m) (RoundTrips-pure none)
  subgroup-RoundTrips flags zero_id g ob p x r m fits =
      rw (r.reads_datagram, r.reads_mask, m) (RoundTrips-pure (some 0))
  subgroup-RoundTrips flags prior_id g ob p x r (n, m, q) fits =
      rw (r.reads_datagram, r.reads_mask, m)
        (rw (inherited e d n follows q) (RoundTrips-pure (some n)))
  subgroup-RoundTrips flags next_id g ob p x r (n, m, q, b) fits =
      let whole : (from_prior d (λ p. or_invalid p.subgroup_id) >>= λ s.
      or_invalid (next_of s) >>= λ next. pure (some next))
          ≡ pure (some (n + 1)) =
        rw (inherited e d n follows q) (next-pure n b) in
      rw (r.reads_datagram, r.reads_mask, m) (rw whole (RoundTrips-pure (some (n + 1))))
  subgroup-RoundTrips flags own_id g ob p x r (n, m) fits =
      let small : n < 2 ^ 62 = subst SubgroupFits m fits in
      rw (r.reads_datagram, r.reads_mask, m)
        (RoundTrips-map _ decode_u64 (λ (s : ℕ). some s) n (decode_u64-encode_u64 n small))

  group-RoundTrips :
      (flags : ℕ)
      → has_flag flags 0x08 ≡ group_present e o
      → o.group_id < 2 ^ 62
      → RoundTrips
          (encode_if (group_present e o) (encode_u64 o.group_id))
          (if has_flag flags 0x08 then decode_u64 else from_prior d (λ p. pure p.group_id))
          o.group_id
  unfolding group_present
  group-RoundTrips flags r fits =
      field-RoundTrips (group_present e o) (has_flag flags 0x08) _ decode_u64 _ o.group_id r
        (decode_u64-encode_u64 o.group_id fits)
        (λ absent.
          from_prior-pure e d (λ p. pure p.group_id) o.group_id follows
            (λ p. p.group_id == o.group_id) absent (λ p h. ap pure (ground arith)))

  object-RoundTrips :
      (flags : ℕ)
      → has_flag flags 0x04 ≡ object_present e o
      → o.object_id < 2 ^ 62
      → RoundTrips
          (encode_if (object_present e o) (encode_u64 o.object_id))
          (if has_flag flags 0x04
            then decode_u64
            else from_prior d (λ p. or_invalid (next_of p.object_id)))
          o.object_id
  unfolding object_present
  object-RoundTrips flags r fits =
      field-RoundTrips (object_present e o) (has_flag flags 0x04) _ decode_u64 _ o.object_id r
        (decode_u64-encode_u64 o.object_id fits)
        (λ absent.
          from_prior-pure e d (λ p. or_invalid (next_of p.object_id)) o.object_id follows
            (λ p. follows_id p.object_id o.object_id) (ground arith)
            (λ p h. next_or_invalid p.object_id o.object_id h))

  priority-RoundTrips :
      (flags : ℕ)
      → has_flag flags 0x10 ≡ priority_present e o
      → o.publisher_priority < 2 ^ 8
      → RoundTrips
          (encode_if (priority_present e o) (encode_u8 o.publisher_priority))
          (if has_flag flags 0x10 then decode_u8 else from_prior d (λ p. pure p.publisher_priority))
          o.publisher_priority
  unfolding priority_present
  priority-RoundTrips flags r fits =
      field-RoundTrips (priority_present e o) (has_flag flags 0x10) _ decode_u8 _
        o.publisher_priority r (decode_u8-encode_u8 o.publisher_priority fits)
        (λ absent.
          from_prior-pure e d (λ p. pure p.publisher_priority) o.publisher_priority follows
            (λ p. p.publisher_priority == o.publisher_priority) absent
            (λ p h. ap pure (ground arith)))

  -- The object as it comes back: its headers are sorted by key.
  abbrev pub received : FetchObject
  received = record o { extension_headers = by_key o.extension_headers }

  pub entry-RoundTrips :
      IsObject o
      → RoundTrips (object_fields e o) (decode_entry d) (object received, some (prior_of received))
  unfolding object_fields object_flags decode_entry decode_object
  entry-RoundTrips h =
      let (k, bits, means) = subgroup_kind o.subgroup_id (subgroup_of e) in
      let flags = object_flags e o in
      let r : FlagsRead flags k (group_present e o) (object_present e o) (priority_present e o)
          (not (is_empty o.extension_headers)) =
        rw bits (read_flags k _ _ _ _) in
      let small : leb 0x80 flags ≡ false = let a = r.is_object in ground arith in
      RoundTrips-seq _ _ decode_u64 _ flags _
        (decode_u64-encode_u64 flags (let a = r.is_object in omega arith))
        (rw small (
          RoundTrips-map _ (decode_object d flags)
            (λ (x : FetchObject). (object x, some (prior_of x))) received
            (RoundTrips-seq _ _ _ _ o.group_id _ (group-RoundTrips flags r.reads_group h.group_fits)
              (RoundTrips-seq _ _ (decode_subgroup d flags) _ o.subgroup_id _
                (subgroup-RoundTrips flags k _ _ _ _ r means h.subgroup_fits)
                (RoundTrips-seq _ _ _ _ o.object_id _
                  (object-RoundTrips flags r.reads_object h.object_fits)
                  (RoundTrips-seq _ _ _ _ o.publisher_priority _
                    (priority-RoundTrips flags r.reads_priority h.priority_fits)
                    (RoundTrips-seq _ _ _ _ (by_key o.extension_headers) _
                      (headers-RoundTrips flags o.extension_headers r.reads_extensions
                        h.good_headers)
                      (RoundTrips-map _ decode_u64
                        (λ (n : ℕ). record received { payload_length = n }) o.payload_length
                        (decode_u64-encode_u64 o.payload_length h.length_fits)))))))))
