-- ===== src/Tests/Relay.antt =====
-- Runs of the relay's parts, and their theorems at concrete inputs.
use moq_rs.Prelude.{
  ◌≡◌, refl, arith, false, [], ◌&&◌, ◌||◌, find, some, if◌then◌else◌, ℕ, ◌∷◌, is_some, none, not,
  ◌+◌, contains, bytes_eq, true,
}
use moq_rs.Coding.TrackNamespace.{TrackNamespacePrefix}
use moq_rs.Coding.KeyValuePairs.{bytes_value}
use moq_rs.Relay.CoveringPrefixSet.{
  CoveringPrefixSet, covers, strictly_covers, member, prefix_eq, add, remove,
}
use moq_rs.Relay.CoveringPrefixSet.Invariant.{HasRoots}
use moq_rs.Relay.CoveringPrefixSet.Adding.{Leads, add_lem}
use moq_rs.Relay.CoveringPrefixSet.Removing.{remove_lem}
use moq_rs.Relay.Retention.{
  FetchResponseObject, RetainedGroups, Sizes, Limits, retained_bytes, retained, insert_object,
}
use moq_rs.Relay.Retention.Invariant.{IsRetained}
use moq_rs.Relay.Retention.Insert.{WithinLimits, insert_object-WithinLimits}
use moq_rs.Relay.Retention.Quiet.{quiet}
use moq_rs.Relay.Retention.Stored.{has_room, insert_object-retained}
use moq_rs.Relay.Retention.Plan.{
  plan, complete, ascending, larger, largest_retained, is_less, inclusive_end,
}
use moq_rs.Relay.Retention.Plan.Complete.{plan-complete}
use moq_rs.Tests.Coding.{foo, foo_bar}

abbrev below_foo : TrackNamespacePrefix
below_foo = record { fields = foo ∷ [] }

abbrev below_foo_bar : TrackNamespacePrefix
below_foo_bar = record { fields = foo_bar.fields }

abbrev no_prefix : CoveringPrefixSet
no_prefix = record { active = []; roots = [] }

no_prefix-HasRoots : HasRoots no_prefix
unfolding member
no_prefix-HasRoots p = (λ e. cc, λ r. r.0)

-- `foo`, and below it `foo/bar`, which is no root.
abbrev one_prefix : CoveringPrefixSet
one_prefix = (add no_prefix below_foo_bar).0

abbrev two_prefixes : CoveringPrefixSet
two_prefixes = (add one_prefix below_foo).0

one_prefix-HasRoots : HasRoots one_prefix
one_prefix-HasRoots = (add_lem no_prefix below_foo_bar no_prefix-HasRoots).0

add_lem_example :
    HasRoots (add one_prefix below_foo).0
    × Leads one_prefix (add one_prefix below_foo).1 (add one_prefix below_foo).0
    × ((x : TrackNamespacePrefix)
        → member (add one_prefix below_foo).0.active x
          ≡ (prefix_eq below_foo x || member one_prefix.active x))
add_lem_example = add_lem one_prefix below_foo one_prefix-HasRoots

two_prefixes-HasRoots : HasRoots two_prefixes
two_prefixes-HasRoots = (add_lem one_prefix below_foo one_prefix-HasRoots).0

remove_lem_example :
    HasRoots (remove two_prefixes below_foo).0
    × Leads two_prefixes (remove two_prefixes below_foo).1 (remove two_prefixes below_foo).0
    × ((x : TrackNamespacePrefix)
        → member (remove two_prefixes below_foo).0.active x
          ≡ (member two_prefixes.active x && not (prefix_eq below_foo x)))
remove_lem_example = remove_lem two_prefixes below_foo two_prefixes-HasRoots

remove_promotes : (remove two_prefixes below_foo).1.added ≡ below_foo_bar ∷ []
unfolding remove add prefix_eq bytes_eq covers strictly_covers
remove_promotes = refl

abbrev z : Sizes
z = record { response = 10; chunk = 2; header = 3 }

abbrev limits : Limits
limits = record { groups = 1; track_bytes = 100; total_bytes = 200 }

abbrev item : ℕ → ℕ → FetchResponseObject
item group object = record {
  object = record {
    group_id = group;
    subgroup_id = none;
    object_id = object;
    publisher_priority = 1;
    extension_headers = record {
      pairs = record { key = 3; value = bytes_value (1 ∷ 2 ∷ []) } ∷ [];
    };
    payload_length = 4;
  };
  payload = (9 ∷ 9 ∷ 9 ∷ 9 ∷ []) ∷ [];
}

item_cost : retained_bytes z (item 3 0) ≡ 21
unfolding retained_bytes
item_cost = refl

abbrev one_group : RetainedGroups
one_group = record {
  groups = (3, record { objects = (0, item 3 0) ∷ []; bytes = 21 }) ∷ [];
  arrival = 3 ∷ [];
  bytes = 21;
}

one_group-IsRetained : IsRetained z one_group
unfolding retained_bytes contains
one_group-IsRetained = record {
  same_keys = refl;
  distinct = (refl, tt);
  counted = refl;
  each_counted = (refl, tt);
}

one_group-WithinLimits : WithinLimits limits one_group
one_group-WithinLimits = record { few_groups = omega arith; few_bytes = omega arith }

-- Another track takes a byte at each look.
abbrev greedy : ℕ → ℕ → ℕ
greedy n used = used + 1

insert_object-WithinLimits_example :
    let x = insert_object z limits greedy (item 5 0) (one_group, 60) in
    IsRetained z x.0 × WithinLimits limits x.0
insert_object-WithinLimits_example =
    insert_object-WithinLimits z limits (item 5 0) greedy one_group 60 one_group-IsRetained
      one_group-WithinLimits

five_absent : is_some (retained one_group 5 0) ≡ false
unfolding retained find
five_absent = refl

insert_object-retained_example :
    retained (insert_object z limits quiet (item 5 0) (one_group, 60)).0 5 0
    ≡ (if has_room z limits (item 5 0) one_group 60 then some (item 5 0) else none)
insert_object-retained_example =
    insert_object-retained z limits (item 5 0) one_group 60 one_group-IsRetained
      one_group-WithinLimits (omega arith) (omega arith) (omega arith) (omega arith) five_absent

-- The older group goes, for the limit of one group.
insert_evicts : (insert_object z limits quiet (item 5 0) (one_group, 60)).0.arrival ≡ 5 ∷ []
unfolding insert_object
insert_evicts = refl

-- A FETCH of the one object that is retained.
plan_one :
    plan one_group one_group none
      (record { group_id = 3; object_id = 0 })
      (record { group_id = 3; object_id = 1 })
      ascending
    ≡ complete (item 3 0 ∷ []) (record { group_id = 3; object_id = 1 })
unfolding plan retained find
plan_one = refl

largest_one :
    larger none (largest_retained one_group) ≡ some (record { group_id = 3; object_id = 0 })
unfolding largest_retained
largest_one = refl

plan-complete_example : is_some (retained one_group 3 0) ≡ true
unfolding is_less inclusive_end
plan-complete_example =
    plan-complete one_group one_group none (record { group_id = 3; object_id = 0 })
      (record { group_id = 3; object_id = 1 }) ascending (item 3 0 ∷ [])
      (record { group_id = 3; object_id = 1 }) (record { group_id = 3; object_id = 0 })
      (record { group_id = 3; object_id = 0 }) plan_one largest_one refl refl (omega arith)
