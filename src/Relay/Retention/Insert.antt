-- ===== src/Relay/Retention/Insert.antt =====
-- What `insert` keeps, whatever the other tracks do.
use moq_rs.Prelude.{
  ℕ, ◌+◌, ◌-◌, ◌≤◌, Bool, true, false, [], ◌∷◌, ◌++◌, if◌then◌else◌, ◌≡◌, refl, arith, contains,
  is_some, find, put, length, take, inl, inr, Bool-cases, Option-cases, ◌&&◌, sym, ◌∙◌, ap,
}
use moq_rs.Relay.Retention.{
  FetchResponseObject, RetainedGroup, RetainedGroups, Sizes, Shared, Limits, fits, retained,
  object_in, bytes_of, or_default, store, keep_object, insert_object, retained_bytes, position,
  sum_bytes,
}
use moq_rs.Relay.Retention.Groups.{
  Distinct-append, total-put, sum_cost, sum_cost-put, contains-keys, keys-put, put-All, find-All,
}
use moq_rs.Relay.Retention.Invariant.{IsRetained, GroupCounted}
use moq_rs.Relay.Retention.Room.{Room, make_room-Room, trim_lem}

pub record WithinLimits (limits : Limits) (s : RetainedGroups) : Type 0 where
  pub few_groups : length s.groups ≤ limits.groups
  pub few_bytes : s.bytes ≤ limits.track_bytes

module _ (z : Sizes) (o : FetchResponseObject) (s : RetainedGroups) (h : IsRetained z s) where
  abbrev g : ℕ
  g = o.object.group_id

  abbrev old : RetainedGroup
  old = or_default (find g s.groups)

  abbrev grown : RetainedGroup
  grown = record {
    objects = put o.object.object_id o old.objects;
    bytes = old.bytes + retained_bytes z o;
  }

  old_counted : old.bytes ≡ sum_cost z old.objects
  old_counted = elim (Option-cases (find g s.groups)) [
    | inl e ↦ rw e refl
    | inr (group, e) ↦ rw e (find-All (GroupCounted z) g s.groups group h.each_counted e)
  ]

  old_bytes : bytes_of (find g s.groups) ≡ old.bytes
  old_bytes = elim (Option-cases (find g s.groups)) [
    | inl e ↦ rw e refl
    | inr (group, e) ↦ rw e refl
  ]

  old_objects : (k : ℕ) → object_in (find g s.groups) k ≡ find k old.objects
  unfolding find
  old_objects k = elim (Option-cases (find g s.groups)) [
    | inl e ↦ rw e refl
    | inr (group, e) ↦ rw e refl
  ]

  known_group : is_some (find g s.groups) ≡ contains s.arrival g
  known_group = sym (contains-keys g s.groups) ∙ ap (λ ks. contains ks g) h.same_keys

  pub store-IsRetained :
      is_some (retained s g o.object.object_id) ≡ false
      → IsRetained z (store o (retained_bytes z o) s)
  unfolding store retained
  store-IsRetained absent =
      let fresh : is_some (find o.object.object_id old.objects) ≡ false =
        ap is_some (sym (old_objects o.object.object_id)) ∙ absent in
      record {
        same_keys =
            keys-put g grown s.groups
            ∙ ap (λ ks. if is_some (find g s.groups) then ks else ks ++ (g ∷ [])) h.same_keys;
        distinct = elim (Bool-cases (is_some (find g s.groups))) [
          | inl e ↦ rw e h.distinct
          | inr e ↦ rw e (Distinct-append s.arrival g h.distinct (sym known_group ∙ e))
        ];
        counted = omega (arith, total-put g grown s.groups, old_bytes, h.counted);
        each_counted =
            put-All (GroupCounted z) g grown s.groups h.each_counted
              (omega (arith, sum_cost-put z o.object.object_id o old.objects fresh, old_counted));
      }

module _ (z : Sizes) (limits : Limits) (o : FetchResponseObject) where
  keep_object-WithinLimits :
      (noise : ℕ → ℕ → ℕ) (s : RetainedGroups) (result : Shared × Bool)
      → WithinLimits limits s
      → is_some (retained s o.object.group_id o.object.object_id) ≡ false
      → Room z limits noise (retained_bytes z o) s result
      → let x = keep_object limits o (retained_bytes z o) result in
        IsRetained z x.0 × WithinLimits limits x.0
  unfolding keep_object
  keep_object-WithinLimits noise s (x, false) w absent r =
      let fewer = r.smaller.fewer in
      let below = r.smaller.below in
      (
        r.smaller.kept,
        record {
          few_groups = let a = w.few_groups in omega arith;
          few_bytes = let a = w.few_bytes in omega arith;
        },
      )
  keep_object-WithinLimits noise s ((t, used), true) w absent r =
      let gone = r.smaller.absent o.object.group_id o.object.object_id absent in
      let stored = store-IsRetained z o t r.smaller.kept gone in
      let room = r.fits_track refl in
      let (small, few) =
        trim_lem z limits (length (store o (retained_bytes z o) t).groups)
          (store o (retained_bytes z o) t) used stored (omega arith) in
      let less = small.below in
      let sum : (store o (retained_bytes z o) t).bytes ≡ t.bytes + retained_bytes z o =
        unfold store in refl in
      (small.kept, record { few_groups = few; few_bytes = omega arith })

  -- Whatever the other tracks do to the shared bytes meanwhile, insert keeps the groups of a track
  -- and its bytes within their limits, and keeps its records true: the arrivals are the groups, each
  -- once, and the bytes are what the objects cost.
  pub insert_object-WithinLimits :
      (noise : ℕ → ℕ → ℕ) (s : RetainedGroups) (used : ℕ)
      → IsRetained z s
      → WithinLimits limits s
      → let x = insert_object z limits noise o (s, used) in
        IsRetained z x.0 × WithinLimits limits x.0
  unfolding insert_object
  insert_object-WithinLimits noise s used h w =
      let cost = retained_bytes z o in
      let older = position o.object.group_id s.arrival in
      let older_bytes = sum_bytes (take older s.arrival) s.groups in
      elim (Bool-cases (is_some (retained s o.object.group_id o.object.object_id))) [
        | inl held ↦ rw held (h, w)
        | inr absent ↦
            elim (Bool-cases (
              fits (s.bytes - older_bytes) cost limits.track_bytes
              && fits (used - older_bytes) cost limits.total_bytes)) [
                | inr no' ↦ rw (absent, no') (h, w)
                | inl yes' ↦
                    rw (absent, yes')
                      (keep_object-WithinLimits noise s _ w absent
                        (make_room-Room z limits noise cost older s used h))
              ]
      ]
