-- ===== src/Relay/Retention/Invariant.antt =====
-- What holds of a track's retained groups, and that dropping the oldest keeps it.
use mathlib.Core.Path.{subst}
use moq_rs.Prelude.{
  ℕ, ◌+◌, ◌-◌, false, List, [], ◌∷◌, All, ◌≡◌, refl, arith, contains, find, erase, keys, sym,
}
use moq_rs.Relay.Retention.{RetainedGroup, RetainedGroups, Sizes, evict_oldest, release}
use moq_rs.Relay.Retention.Groups.{Distinct, total, sum_cost}

abbrev pub GroupCounted : Sizes → ℕ × RetainedGroup → Type 0
GroupCounted z (g, group) = group.bytes ≡ sum_cost z group.objects

pub record IsRetained (z : Sizes) (s : RetainedGroups) : Type 0 where
  pub same_keys : keys s.groups ≡ s.arrival
  pub distinct : Distinct s.arrival
  pub counted : s.bytes ≡ total s.groups
  pub each_counted : All (GroupCounted z) s.groups

-- The oldest group comes first, and goes with its bytes.
pub evict_front :
    (g : ℕ) (group : RetainedGroup) (gs : List (ℕ × RetainedGroup)) (bytes used : ℕ)
    → evict_oldest (record { groups = (g, group) ∷ gs; arrival = g ∷ keys gs; bytes = bytes }, used)
      ≡ (
        record { groups = gs; arrival = keys gs; bytes = bytes - group.bytes },
        release used group.bytes,
      )
unfolding evict_oldest find erase
evict_front g group gs bytes used = ground arith

pub evict_none :
    (bytes used : ℕ)
    → evict_oldest (record { groups = []; arrival = []; bytes = bytes }, used)
      ≡ (record { groups = []; arrival = []; bytes = bytes }, used)
unfolding evict_oldest
evict_none bytes used = refl

-- A track that keeps the invariant, by its groups.
pub shape :
    (z : Sizes) (s : RetainedGroups)
    → IsRetained z s
    → s ≡ record { groups = s.groups; arrival = keys s.groups; bytes = total s.groups }
shape z s h = ground (arith, h.same_keys, h.counted)

-- Dropping the oldest, by cases: there is none, or it comes first.
pub data Evicts (z : Sizes) (s : RetainedGroups) (used : ℕ) : Type 0 where
  nothing : s.groups ≡ [] → evict_oldest (s, used) ≡ (s, used) → Evicts z s used
  front :
      (g : ℕ) (group : RetainedGroup) (t : RetainedGroups)
      → s.groups ≡ (g, group) ∷ t.groups
      → evict_oldest (s, used) ≡ (t, release used group.bytes)
      → s.bytes ≡ group.bytes + t.bytes
      → contains (keys t.groups) g ≡ false
      → IsRetained z t
      → Evicts z s used

evicts :
    (z : Sizes) (groups : List (ℕ × RetainedGroup)) (used : ℕ)
    → let s : RetainedGroups = record {
      groups = groups;
      arrival = keys groups;
      bytes = total groups;
    } in
      IsRetained z s → Evicts z s used
evicts z [] used h = nothing refl (evict_none 0 used)
evicts z ((g, group) ∷ gs) used h =
    let rest : group.bytes + total gs - group.bytes ≡ total gs = omega arith in
    let t : RetainedGroups = record { groups = gs; arrival = keys gs; bytes = total gs } in
    front g group t refl (rw (evict_front g group gs (group.bytes + total gs) used, rest) refl) refl
      h.distinct.0
      (record {
        same_keys = refl;
        distinct = h.distinct.1;
        counted = refl;
        each_counted = h.each_counted.1;
      })

pub evict_cases : (z : Sizes) (s : RetainedGroups) (used : ℕ) → IsRetained z s → Evicts z s used
evict_cases z s used h =
    subst (λ t. Evicts z t used) (sym (shape z s h))
      (evicts z s.groups used (subst (IsRetained z) (shape z s h) h))
