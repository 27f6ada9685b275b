-- ===== src/Relay/Retention.antt =====
-- moq-relay-ietf/src/retention.rs: the objects of a track that the relay keeps for FETCH, within a
-- number of groups and of bytes. A `BTreeMap` and a `HashMap` are association lists. The bytes of
-- all tracks together are a counter that other tracks change too: `noise n` is what they make of
-- it before the look that comes with `n` older groups left to drop. The sizes of the structures in
-- memory, which the compiler chooses, are parameters.
pub mod Groups
pub mod Invariant
pub mod Room
pub mod Insert
pub mod Quiet
pub mod Stored
pub mod Plan
use moq_rs.Prelude.{
  ℕ, zero, suc, ◌+◌, ◌*◌, ◌-◌, ◌^◌, Bool, true, false, not, ◌&&◌, List, [], ◌∷◌, ◌++◌, length, take,
  ltb, leb, ◌==◌, if◌then◌else◌, Option, none, some, is_some, find, put, erase,
}
use moq_rs.Data.Fetch.{FetchObject}
use moq_rs.Coding.KeyValuePairs.{KeyValuePair, Value, int_value, bytes_value}

pub record FetchResponseObject : Type 0 where
  pub object : FetchObject
  pub payload : List (List ℕ)

pub record Limits : Type 0 where
  pub groups : ℕ
  pub track_bytes : ℕ
  pub total_bytes : ℕ

pub record RetainedGroup : Type 0 where
  pub objects : List (ℕ × FetchResponseObject)
  pub bytes : ℕ

pub record RetainedGroups : Type 0 where
  pub groups : List (ℕ × RetainedGroup)
  pub arrival : List ℕ
  pub bytes : ℕ

-- The state of a track and the bytes of all tracks, `used_bytes`.
abbrev pub Shared : Type 0
Shared = RetainedGroups × ℕ

-- `size_of` of a response object, of a chunk and of a header.
pub record Sizes : Type 0 where
  pub response : ℕ
  pub chunk : ℕ
  pub header : ℕ

unfoldable pub value_len : Value → ℕ
value_len (bytes_value bytes) = length bytes
value_len (int_value v) = 0

unfoldable pub header_values : List KeyValuePair → ℕ
unfolding value_len
header_values [] = 0
header_values (h ∷ hs) = value_len h.value + header_values hs

unfoldable pub retained_bytes : Sizes → FetchResponseObject → ℕ
unfolding header_values
retained_bytes z o =
    z.response
    + length o.payload * z.chunk
    + o.object.payload_length
    + length o.object.extension_headers.pairs * z.header
    + header_values o.object.extension_headers.pairs

-- `a.checked_add(b)` is there and at most the limit.
abbrev pub fits : ℕ → ℕ → ℕ → Bool
fits a b limit = ltb (a + b) (2 ^ 64) && leb (a + b) limit

unfoldable pub reserve : Limits → ℕ → ℕ → Option ℕ
reserve limits used bytes = if fits used bytes limits.total_bytes then some (used + bytes) else none

-- `fetch_sub` wraps around.
unfoldable pub release : ℕ → ℕ → ℕ
release used bytes = if leb bytes used then used - bytes else used + 2 ^ 64 - bytes

unfoldable pub evict_oldest : Shared → Shared
unfolding release find erase
evict_oldest (s, used) = elim s.arrival [
  | [] ↦ (s, used)
  | group_id ∷ arrival ↦ elim (find group_id s.groups) [
    | none ↦ (record s { arrival = arrival }, used)
    | some group ↦ (
      record { groups = erase group_id s.groups; arrival = arrival; bytes = s.bytes - group.bytes },
      release used group.bytes,
    )
  ]
]

-- `position`, or the length.
unfoldable pub position : ℕ → List ℕ → ℕ
position g [] = 0
position g (a ∷ as') = let rest = position g as' in if a == g then 0 else rest + 1

abbrev pub bytes_of : Option RetainedGroup → ℕ
bytes_of none = 0
bytes_of (some group) = group.bytes

unfoldable pub sum_bytes : List ℕ → List (ℕ × RetainedGroup) → ℕ
unfolding find
sum_bytes [] groups = 0
sum_bytes (g ∷ gs) groups = bytes_of (find g groups) + sum_bytes gs groups

-- `groups.get(&group_id).is_some_and(|group| group.objects.contains_key(&object_id))`
abbrev pub object_in : Option RetainedGroup → ℕ → Option FetchResponseObject
object_in none object_id = none
object_in (some group) object_id = find object_id group.objects

unfoldable pub retained : RetainedGroups → ℕ → ℕ → Option FetchResponseObject
unfolding find
retained s group_id object_id = object_in (find group_id s.groups) object_id

-- The loop that drops older groups; its result says whether the bytes were reserved.
unfoldable pub make_room : Limits → (ℕ → ℕ → ℕ) → ℕ → ℕ → Shared → Shared × Bool
unfolding reserve evict_oldest
make_room limits noise cost zero (s, used) =
    let seen = noise 0 used in
    if fits s.bytes cost limits.track_bytes && is_some (reserve limits seen cost)
    then ((s, seen + cost), true)
    else ((s, seen), false)
make_room limits noise cost (suc older) (s, used) =
    let seen = noise (suc older) used in
    let rest = make_room limits noise cost older (evict_oldest (s, seen)) in
    if fits s.bytes cost limits.track_bytes && is_some (reserve limits seen cost)
    then ((s, seen + cost), true)
    else rest

abbrev pub or_default : Option RetainedGroup → RetainedGroup
or_default none = record { objects = []; bytes = 0 }
or_default (some group) = group

unfoldable pub store : FetchResponseObject → ℕ → RetainedGroups → RetainedGroups
unfolding find put
store o cost s =
    let g = o.object.group_id in
    let group = or_default (find g s.groups) in
    record {
      groups =
          put g
            (record {
              objects = put o.object.object_id o group.objects;
              bytes = group.bytes + cost;
            })
            s.groups;
      arrival = if is_some (find g s.groups) then s.arrival else s.arrival ++ (g ∷ []);
      bytes = s.bytes + cost;
    }

-- The loop at the end. A round drops a group, so as many rounds as there are groups are enough.
unfoldable pub trim : ℕ → Limits → Shared → Shared
unfolding evict_oldest
trim zero limits x = x
trim (suc rounds) limits (s, used) =
    let rest = trim rounds limits (evict_oldest (s, used)) in
    if ltb limits.groups (length s.groups) then rest else (s, used)

unfoldable pub keep_object : Limits → FetchResponseObject → ℕ → Shared × Bool → Shared
unfolding store trim
keep_object limits o cost (x, false) = x
keep_object limits o cost ((s, used), true) =
    let t = store o cost s in trim (length t.groups) limits (t, used)

unfoldable pub insert_object : Sizes → Limits → (ℕ → ℕ → ℕ) → FetchResponseObject → Shared → Shared
unfolding retained retained_bytes position sum_bytes make_room keep_object
insert_object z limits noise o (s, used) =
    let g = o.object.group_id in
    let cost = retained_bytes z o in
    let older_groups = position g s.arrival in
    let older_bytes = sum_bytes (take older_groups s.arrival) s.groups in
    if is_some (retained s g o.object.object_id)
    then (s, used)
    else if not (
        fits (s.bytes - older_bytes) cost limits.track_bytes
        && fits (used - older_bytes) cost limits.total_bytes)
    then (s, used)
    else keep_object limits o cost (make_room limits noise cost older_groups (s, used))
