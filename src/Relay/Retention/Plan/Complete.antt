-- ===== src/Relay/Retention/Plan/Complete.antt =====
-- What a complete plan says of the range.
use mathlib.Core.Path.{subst}
use moq_rs.Prelude.{
  ℕ, zero, suc, ◌+◌, ◌-◌, ◌≤◌, ◌<◌, ◌==◌, leb, true, false, List, [], ◌∷◌, Option, some, none,
  is_some, contains, ◌≡◌, refl, sym, ap, ◌∙◌, arith, Bool-cases, Option-cases, inl, inr,
}
use moq_rs.Coding.Location.{Location}
use moq_rs.Relay.Retention.{FetchResponseObject, RetainedGroups, retained, fits}
use moq_rs.Relay.Retention.Plan.{
  answered_end, end_of_group, beyond_largest, object_loop, group_loop, first_object, last_object,
  up_from, down_to, descending, complete, group_ids, publisher, planned, largest_retained,
  last_known, plan, GroupOrder, larger, ascending, is_less, last_in_order,
}

module _ (rounds : ℕ) (get : ℕ → Option FetchResponseObject) (id final : ℕ) where
  loop_missing : get id ≡ none → (object_loop (suc rounds) get id final).1 ≡ some id
  unfolding object_loop
  loop_missing h = rw (h, object_loop) refl

  loop_next :
      (o : FetchResponseObject)
      → get id ≡ some o
      → leb final id ≡ false
      → (object_loop (suc rounds) get id final).1 ≡ (object_loop rounds get (id + 1) final).1
  unfolding object_loop
  loop_next o h more' = rw (h, object_loop) (rw more' refl)

object_loop-all :
    (rounds : ℕ) (get : ℕ → Option FetchResponseObject) (id final k : ℕ)
    → (object_loop rounds get id final).1 ≡ none
    → final - id < rounds
    → id ≤ k
    → k ≤ final
    → is_some (get k) ≡ true
object_loop-all zero get id final k e enough low high = absurd (omega arith)
object_loop-all (suc rounds) get id final k e enough low high = elim (Option-cases (get id)) [
  | inl missing ↦ cc (loop_missing rounds get id final missing)
  | inr (o, there) ↦ elim (Bool-cases (k == id)) [
    | inl here ↦ let same : k ≡ id = ground arith in rw same (ap is_some there)
    | inr later ↦
        let next : leb final id ≡ false = ground arith in
        object_loop-all rounds get (id + 1) final k
          (sym (loop_next rounds get id final o there next) ∙ e) (ground arith) (ground arith) high
  ]
]

module _ (s : RetainedGroups) (start last : Location) where
  abbrev found : ℕ → List FetchResponseObject × Option ℕ
  found g =
      object_loop (suc (last_object last g - first_object start g)) (retained s g)
        (first_object start g) (last_object last g)

  group_missing :
      (g id : ℕ) (gs : List ℕ)
      → (found g).1 ≡ some id
      → (group_loop s start last (g ∷ gs)).1 ≡ some (record { group_id = g; object_id = id })
  unfolding group_loop
  group_missing g id gs h = rw (h, group_loop) refl

  group_next :
      (g : ℕ) (gs : List ℕ)
      → (found g).1 ≡ none
      → (group_loop s start last (g ∷ gs)).1 ≡ (group_loop s start last gs).1
  unfolding group_loop
  group_next g gs h = rw (h, group_loop) refl

  group_loop-all :
      (gs : List ℕ) (g k : ℕ)
      → (group_loop s start last gs).1 ≡ none
      → contains gs g ≡ true
      → first_object start g ≤ k
      → k ≤ last_object last g
      → is_some (retained s g k) ≡ true
  unfolding contains
  group_loop-all [] g k e member low high = cc
  group_loop-all (x ∷ gs) g k e member low high = elim (Option-cases (found x).1) [
    | inr (id, missing) ↦ cc (group_missing x id gs missing)
    | inl all' ↦ elim (Bool-cases (x == g)) [
      | inl here ↦
          let same : x ≡ g = ground arith in
          object_loop-all _ (retained s g) (first_object start g) (last_object last g) k
            (subst (λ y. (found y).1 ≡ none) same all') (omega arith) low high
      | inr other ↦ group_loop-all gs g k (sym (group_next x gs all') ∙ e) (ground arith) low high
    ]
  ]

contains-up_from : (n first g : ℕ) → first ≤ g → g ≤ first + n → contains (up_from first n) g ≡ true
unfolding contains up_from
contains-up_from zero first g low high = ground arith
contains-up_from (suc n) first g low high = elim (Bool-cases (first == g)) [
  | inl here ↦ ground arith
  | inr later ↦ ground (arith, contains-up_from n (first + 1) g (ground arith) (omega arith))
]

contains-down_to : (n first g : ℕ) → first ≤ g → g ≤ first + n → contains (down_to first n) g ≡ true
unfolding contains down_to
contains-down_to zero first g low high = ground arith
contains-down_to (suc n) first g low high = elim (Bool-cases (first + suc n == g)) [
  | inl here ↦ ground arith
  | inr later ↦ ground (arith, contains-down_to n first g low (ground arith))
]

contains-group_ids :
    (order : GroupOrder) (first last g : ℕ)
    → first ≤ g
    → g ≤ last
    → contains (group_ids order first last) g ≡ true
contains-group_ids publisher first last g low high =
    contains-up_from (last - first) first g low (omega arith)
contains-group_ids ascending first last g low high =
    contains-up_from (last - first) first g low (omega arith)
contains-group_ids descending first last g low high =
    contains-down_to (last - first) first g low (omega arith)

planned-complete :
    (found : List FetchResponseObject × Option Location) (a b : Location)
    (os : List FetchResponseObject) (e : Location)
    → planned found a b ≡ complete os e
    → found.1 ≡ none
planned-complete (xs, none) a b os e h = refl
planned-complete (xs, some l) a b os e h = cc

-- A location of the range lies within its group's.
in_range :
    (start last l : Location)
    → is_less l start ≡ false
    → is_less last l ≡ false
    → l.object_id ≤ end_of_group
    → (start.group_id ≤ l.group_id)
      × (l.group_id ≤ last.group_id)
      × (first_object start l.group_id ≤ l.object_id)
      × (l.object_id ≤ last_object last l.group_id)
      × (is_less last start ≡ false)
unfolding is_less
in_range start last l low high fits =
    (ground arith, ground arith, ground arith, ground arith, ground arith)

module _ (seen s : RetainedGroups) (live : Option Location) (start end : Location)
    (order : GroupOrder) (largest : Location)
    (known : larger live (largest_retained seen) ≡ some largest) where
  plan-beyond : is_less largest start ≡ true → plan seen s live start end order ≡ beyond_largest
  unfolding plan
  plan-beyond beyond = rw (known, plan) (rw beyond refl)

  plan-inside :
      is_less largest start ≡ false
      → is_less (last_known largest end) start ≡ false
      → (x : Location) × (plan seen s live start end order
          ≡ planned
              (group_loop s start
                (last_known largest end)
                (group_ids order start.group_id (last_known largest end).group_id))
              (last_in_order order start (last_known largest end))
              x)
  unfolding plan
  plan-inside inside not_empty =
      (answered_end largest end, rw (known, plan) (rw (inside, not_empty) refl))

-- If plan answers a FETCH as complete, then every location of the range, from the start up to the
-- last one both requested and, at its first look at the groups, known, with an object id of a
-- location, is retained at its second look, in any group order.
pub plan-complete :
    (seen s : RetainedGroups) (live : Option Location) (start end : Location) (order : GroupOrder)
    (os : List FetchResponseObject) (end_location largest l : Location)
    → plan seen s live start end order ≡ complete os end_location
    → larger live (largest_retained seen) ≡ some largest
    → is_less l start ≡ false
    → is_less (last_known largest end) l ≡ false
    → l.object_id ≤ end_of_group
    → is_some (retained s l.group_id l.object_id) ≡ true
plan-complete seen s live start end order os end_location largest l e known low high fits =
    let last = last_known largest end in
    let (low_group, high_group, low_object, high_object, not_empty) =
      in_range start last l low high fits in
    elim (Bool-cases (is_less largest start)) [
      | inl beyond ↦ cc (plan-beyond seen s live start end order largest known beyond)
      | inr inside ↦
          let (x, same) = plan-inside seen s live start end order largest known inside not_empty in
          let none_missing = planned-complete _ _ x os end_location (sym same ∙ e) in
          group_loop-all s start last (group_ids order start.group_id last.group_id) l.group_id
            l.object_id none_missing
            (contains-group_ids order start.group_id last.group_id l.group_id low_group high_group)
            low_object high_object
    ]
