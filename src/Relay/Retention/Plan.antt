-- ===== src/Relay/Retention/Plan.antt =====
-- `RetainedTrack::plan`: how the range of a standalone FETCH relates to what is retained. The
-- Largest Location of the live track is a parameter, `live`. The rounds of the loop over the
-- objects of a group are one more than the ids in it.
pub mod Complete
use moq_rs.Prelude.{
  ℕ, zero, suc, ◌+◌, ◌-◌, ◌≤◌, ◌<◌, ◌^◌, ◌==◌, ltb, leb, Bool, true, false, ◌&&◌, ◌||◌, List, [],
  ◌∷◌, ◌++◌, Option, some, none, is_some, find, contains, if◌then◌else◌, ◌≡◌, refl, sym, ap, ◌∙◌,
  arith, Bool-cases, Option-cases, inl, inr, min,
}
use moq_rs.Coding.Location.{Location}
use moq_rs.Relay.Retention.{FetchResponseObject, RetainedGroup, RetainedGroups, retained, object_in}

pub data GroupOrder : Type 0 where
  publisher ascending descending : GroupOrder

pub data FetchPlan : Type 0 where
  complete : List FetchResponseObject → Location → FetchPlan
  partial_plan : List FetchResponseObject → Location → Location → Location → FetchPlan
  beyond_largest nothing_published : FetchPlan

abbrev pub end_of_group : ℕ
end_of_group = 2 ^ 62 - 1

-- The derived order of locations.
unfoldable pub is_less : Location → Location → Bool
is_less a b = ltb a.group_id b.group_id || (a.group_id == b.group_id && ltb a.object_id b.object_id)

unfoldable pub inclusive_end : Location → Location
inclusive_end end =
    if end.object_id == 0
    then record end { object_id = end_of_group }
    else record end { object_id = end.object_id - 1 }

-- The last key of a `BTreeMap`.
unfoldable pub last_entry : {V : Type 0} → List (ℕ × V) → Option (ℕ × V)
last_entry [] = none
last_entry ((k, v) ∷ m) = elim (last_entry m) [
  | none ↦ some (k, v)
  | some (j, w) ↦ if ltb j k then some (k, v) else some (j, w)
]

unfoldable pub largest_retained : RetainedGroups → Option Location
unfolding last_entry
largest_retained s = elim (last_entry s.groups) [
  | none ↦ none
  | some (group_id, group) ↦ elim (last_entry group.objects) [
    | none ↦ none
    | some (object_id, o) ↦ some (record { group_id = group_id; object_id = object_id })
  ]
]

abbrev pub larger : Option Location → Option Location → Option Location
larger none b = b
larger (some a) none = some a
larger (some a) (some b) = if is_less b a then some a else some b

-- The loop over the objects of a group: those found, and the id of the first that is not.
unfoldable pub object_loop :
    ℕ → (ℕ → Option FetchResponseObject) → ℕ → ℕ → List FetchResponseObject × Option ℕ
object_loop zero get object_id final_object = ([], none)
object_loop (suc rounds) get object_id final_object = elim (get object_id) [
  | none ↦ ([], some object_id)
  | some o ↦ elim (leb final_object object_id) [
    | true ↦ (o ∷ [], none)
    | false ↦ let rest = object_loop rounds get (object_id + 1) final_object in (o ∷ rest.0, rest.1)
  ]
]

abbrev pub first_object : Location → ℕ → ℕ
first_object start group_id = if group_id == start.group_id then start.object_id else 0

abbrev pub last_object : Location → ℕ → ℕ
last_object last group_id = if group_id == last.group_id then last.object_id else end_of_group

unfoldable pub group_loop :
    RetainedGroups → Location → Location → List ℕ → List FetchResponseObject × Option Location
unfolding object_loop retained
group_loop s start last [] = ([], none)
group_loop s start last (g ∷ gs) =
    let final_object = last_object last g in
    let first = first_object start g in
    let found = object_loop (suc (final_object - first)) (retained s g) first final_object in
    let rest = group_loop s start last gs in
    elim found.1 [
      | some id ↦ (found.0, some (record { group_id = g; object_id = id }))
      | none ↦ (found.0 ++ rest.0, rest.1)
    ]

-- `first..=last` with `n` more numbers than one, and reversed.
unfoldable pub up_from : ℕ → ℕ → List ℕ
up_from first zero = first ∷ []
up_from first (suc n) = first ∷ up_from (first + 1) n

unfoldable pub down_to : ℕ → ℕ → List ℕ
down_to first zero = first ∷ []
down_to first (suc n) = (first + suc n) ∷ down_to first n

abbrev pub group_ids : GroupOrder → ℕ → ℕ → List ℕ
group_ids descending first last = down_to first (last - first)
group_ids publisher first last = up_from first (last - first)
group_ids ascending first last = up_from first (last - first)

abbrev pub last_in_order : GroupOrder → Location → Location → Location
last_in_order descending start last =
    if start.group_id == last.group_id then last else record start { object_id = end_of_group }
last_in_order publisher start last = last
last_in_order ascending start last = last

abbrev pub planned : List FetchResponseObject × Option Location → Location → Location → FetchPlan
planned (os, none) last_location end_location = complete os end_location
planned (os, some unknown) last_location end_location =
    partial_plan os unknown last_location end_location

-- `requested_last.min(largest)`
abbrev pub last_known : Location → Location → Location
last_known largest end = if is_less largest (inclusive_end end) then largest else inclusive_end end

-- `end_location` of the answer.
abbrev pub answered_end : Location → Location → Location
answered_end largest end =
    if is_less largest (inclusive_end end)
    then record largest { object_id = min (largest.object_id + 1) (2 ^ 64 - 1) }
    else end

-- The groups are looked at twice, and others may change them in between: `seen` is the first look.
unfoldable pub plan :
    RetainedGroups → RetainedGroups → Option Location → Location → Location → GroupOrder → FetchPlan
unfolding is_less inclusive_end largest_retained group_loop up_from down_to
plan seen s live start end order = elim (larger live (largest_retained seen)) [
  | none ↦ nothing_published
  | some largest ↦
      let last = last_known largest end in
      let end_location = answered_end largest end in
      if is_less largest start
      then beyond_largest
      else if is_less last start
      then complete [] end_location
      else planned (group_loop s start last (group_ids order start.group_id last.group_id))
          (last_in_order order start last) end_location
]
