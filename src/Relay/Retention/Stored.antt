-- ===== src/Relay/Retention/Stored.antt =====
-- What `insert` does when no other track takes bytes meanwhile.
use mathlib.Core.Path.{subst}
use moq_rs.Prelude.{
  ℕ, ◌+◌, ◌-◌, ◌≤◌, ◌<◌, ◌^◌, ◌==◌, true, false, List, [], ◌∷◌, ◌≡◌, refl, arith, contains, is_some,
  find, keys, some, take, drop, inl, inr, Bool-cases, ◌&&◌, sym, ◌∙◌, ap, length, length-append,
  ◌++◌, find-put, if◌then◌else◌, put, none, leb, Bool, Option,
}
use moq_rs.Relay.Retention.{
  RetainedGroup, RetainedGroups, Sizes, Limits, fits, make_room, position, sum_bytes, or_default,
  FetchResponseObject, retained, store, object_in, insert_object, keep_object, retained_bytes,
  Shared,
}
use moq_rs.Relay.Retention.Groups.{Distinct, total, length-keys, keys-put, contains-keys}
use moq_rs.Relay.Retention.Insert.{WithinLimits, store-IsRetained}
use moq_rs.Relay.Retention.Room.{make_room-Room}
use moq_rs.Relay.Retention.Invariant.{IsRetained}
use moq_rs.Relay.Retention.Quiet.{quiet, sum_bytes-total, make_room-quiet, trim-find}

length-store :
    (o : FetchResponseObject) (cost : ℕ) (s : RetainedGroups)
    → length (store o cost s).groups
      ≡ (if is_some (find o.object.group_id s.groups) then length s.groups else length s.groups + 1)
unfolding store
length-store o cost s =
    let g = o.object.group_id in
    let group : RetainedGroup = record {
      objects = put o.object.object_id o (or_default (find g s.groups)).objects;
      bytes = (or_default (find g s.groups)).bytes + cost;
    } in
    elim (Bool-cases (is_some (find g s.groups))) [
      | inl e ↦
          let a = keys-put g group s.groups in
          let b : keys (put g group s.groups) ≡ keys s.groups = rw (a, e) refl in
          rw e
            (omega (arith, ap length b, length-keys (put g group s.groups), length-keys s.groups))
      | inr e ↦
          let a = keys-put g group s.groups in
          let b : keys (put g group s.groups) ≡ keys s.groups ++ (g ∷ []) = rw (a, e) refl in
          rw e (
            omega (
              arith,
              ap length b,
              length-append (keys s.groups) (g ∷ []),
              length-keys (put g group s.groups),
              length-keys s.groups,
            ))
    ]

position-append :
    (k : ℕ) (xs ys : List ℕ) → contains xs k ≡ false → length xs ≤ position k (xs ++ ys)
unfolding position contains
position-append k [] ys h = omega arith
position-append k (x ∷ xs) ys h = ground (arith, position-append k xs ys)

none_of : {A : Type 0} → (x : Option A) → is_some x ≡ false → x ≡ none
none_of none h = refl
none_of (some a) h = cc

-- The object stored is there.
store-retained :
    (o : FetchResponseObject) (cost : ℕ) (s : RetainedGroups)
    → retained (store o cost s) o.object.group_id o.object.object_id ≡ some o
unfolding store retained
store-retained o cost s =
    let g = o.object.group_id in
    let k = o.object.object_id in
    let group = or_default (find g s.groups) in
    let grown : RetainedGroup = record {
      objects = put k o group.objects;
      bytes = group.bytes + cost;
    } in
    let same : (n : ℕ) → (n == n) ≡ true = λ n. ground arith in
    rw (find-put g g grown s.groups, same g, find-put k k o group.objects, same k) refl

-- After room was made, the object is stored and the last loop leaves it.
keep_object-retained :
    (z : Sizes) (limits : Limits) (o : FetchResponseObject) (r : Shared × Bool)
    → r.1 ≡ true
    → IsRetained z r.0.0
    → length r.0.0.groups ≤ limits.groups
    → 1 ≤ limits.groups
    → is_some (retained r.0.0 o.object.group_id o.object.object_id) ≡ false
    → retained (keep_object limits o (retained_bytes z o) r).0 o.object.group_id o.object.object_id
      ≡ some o
unfolding keep_object
keep_object-retained z limits o (x, false) won h few some_room absent = cc
keep_object-retained z limits o ((t, used), true) won h few some_room absent =
    let g = o.object.group_id in
    let cost = retained_bytes z o in
    let u = store o cost t in
    let size = length-store o cost t in
    let few' : length u.groups ≤ limits.groups + 1 = ground arith in
    let far : limits.groups < length u.groups → 1 ≤ position g (keys u.groups) = λ over.
      elim (Bool-cases (is_some (find g t.groups))) [
        | inl e ↦ absurd (ground arith)
        | inr e ↦
            let ks : keys u.groups ≡ keys t.groups ++ (g ∷ []) =
              unfold store in rw (keys-put g _ t.groups, e) refl in
            let last = position-append g (keys t.groups) (g ∷ []) (contains-keys g t.groups ∙ e) in
            let n = length-keys t.groups in rw ks (ground arith)
      ] in
    let same =
      trim-find z limits g (length u.groups) u used (store-IsRetained z o t h absent) few' far in
    unfold retained in
    ap (λ found. object_in found o.object.object_id) same ∙ store-retained o cost t

module _ (z : Sizes) (limits : Limits) (o : FetchResponseObject) where
  -- What the track would hold with the object when every older group is dropped.
  abbrev pub needed : RetainedGroups → ℕ
  needed s = total (drop (position o.object.group_id s.arrival) s.groups) + retained_bytes z o

  abbrev pub has_room : RetainedGroups → ℕ → Bool
  has_room s used =
      leb (needed s) limits.track_bytes && leb (used - s.bytes + needed s) limits.total_bytes

  -- On a track whose records are true and within limits below 2^64, of a group at least, and while
  -- no other track takes bytes, an object that is not yet retained is so after insert exactly if it
  -- fits beside its own group and the later ones, both in the track's bytes and in those of all
  -- tracks.
  pub insert_object-retained :
      (s : RetainedGroups) (used : ℕ)
      → IsRetained z s
      → WithinLimits limits s
      → s.bytes ≤ used
      → 1 ≤ limits.groups
      → limits.track_bytes < 2 ^ 64
      → limits.total_bytes < 2 ^ 64
      → is_some (retained s o.object.group_id o.object.object_id) ≡ false
      → retained (insert_object z limits quiet o (s, used)).0 o.object.group_id o.object.object_id
        ≡ (if has_room s used then some o else none)
  unfolding insert_object
  insert_object-retained s used h w own some_room b64 t64 absent =
      let g = o.object.group_id in
      let cost = retained_bytes z o in
      let older = position g s.arrival in
      let older_bytes = sum_bytes (take older s.arrival) s.groups in
      let later = total (drop older s.groups) in
      let parts : sum_bytes (take older s.arrival) s.groups + later ≡ total s.groups =
        subst (λ ks. sum_bytes (take older ks) s.groups + later ≡ total s.groups) h.same_keys
          (sum_bytes-total older s.groups (subst Distinct (sym h.same_keys) h.distinct)) in
      let whole = h.counted in
      let tests : (fits (s.bytes - older_bytes) cost limits.track_bytes
            && fits (used - older_bytes) cost limits.total_bytes)
          ≡ has_room s used =
        ground arith in
      elim (Bool-cases (has_room s used)) [
        | inr full ↦
            rw (absent, tests ∙ full, full) (none_of (retained s g o.object.object_id) absent)
        | inl free ↦
            let r = make_room limits quiet cost older (s, used) in
            let room = make_room-Room z limits quiet cost older s used h in
            let (won, same) =
              make_room-quiet z limits cost g (b64, t64) older s used h own
                (subst (λ ks. older ≤ position g ks) (sym h.same_keys) (omega arith)) (ground arith)
                (ground arith) in
            let few = room.smaller.fewer in
            let few' = w.few_groups in
            rw (absent, tests ∙ free, free)
              (keep_object-retained z limits o r won room.smaller.kept (omega arith) some_room
                (room.smaller.absent g o.object.object_id absent))
      ]
