-- ===== src/Relay/CoveringPrefixSet/Adding.antt =====
-- What `add` does.
use moq_rs.Prelude.{
  suc, true, false, not, ◌&&◌, ◌||◌, List, ◌∷◌, length, if◌then◌else◌, Bool-cases, inl, inr, arith,
  ◌≡◌, ◌↔◌, ◌∙◌,
}
use moq_rs.Coding.TrackNamespace.{TrackNamespacePrefix}
use moq_rs.Relay.CoveringPrefixSet.{
  CoveringPrefixSet, RootDelta, covers, strictly_covers, prefix_eq, member, any, keep, add,
}
use moq_rs.Relay.CoveringPrefixSet.Order.{
  prefix_eq_iff, covers_trans, strictly_covers_iff, strictly_covers-other,
}
use moq_rs.Relay.CoveringPrefixSet.Members.{member-cons, member-keep, any-intro, any-elim}
use moq_rs.Relay.CoveringPrefixSet.Invariant.{IsRoot, HasRoots, covered, below-IsRoot, above_roots}

-- The roots after an operation are those before it, less those removed, and those added.
abbrev pub Leads : CoveringPrefixSet → RootDelta → CoveringPrefixSet → Type 0
Leads s d t =
    (x : TrackNamespacePrefix)
    → member t.roots x ≡ (member d.added x || (member s.roots x && not (member d.removed x)))

module _ (s : CoveringPrefixSet) (p : TrackNamespacePrefix) where
  add_active :
      (x : TrackNamespacePrefix)
      → member (add s p).0.active x ≡ (prefix_eq p x || member s.active x)
  unfolding add
  add_active x =
      ground
        (arith, member-cons p x s.active, prefix_eq_iff p x, any (λ root. covers root p) s.roots)

  add_delta : Leads s (add s p).1 (add s p).0
  unfolding add member
  add_delta x = ground (
    arith,
    member-keep (λ r. covers p r) s.roots x,
    member-keep (λ root. not (member (keep (λ r. covers p r) s.roots) root)) s.roots x,
  )

  module _ (h : HasRoots s) (new' : member s.active p ≡ false) where
    -- No active prefix is `p`.
    other_than : (o : TrackNamespacePrefix) → member s.active o ≡ true → prefix_eq o p ≡ false
    other_than o mo = elim (Bool-cases (prefix_eq o p)) [
      | inl same ↦ cc ((prefix_eq_iff o p).0 same)
      | inr other ↦ other
    ]

    add_below :
        any (λ root. covers root p) s.roots ≡ true
        → (x : TrackNamespacePrefix) → (member s.roots x ≡ true) ↔ IsRoot (p ∷ s.active) x
    add_below yes' x =
        let (r, mr, cr) = any-elim (λ root. covers root p) s.roots yes' in
        let ma = ((h r).0 mr).0 in
        let sr : strictly_covers r p ≡ true = strictly_covers-other r p (other_than r ma) ∙ cr in
        let same = below-IsRoot s.active p r x ma sr in
        ((λ m. same.0 ((h x).0 m)), (λ m. (h x).1 (same.1 m)))

    nothing_above :
        any (λ root. covers root p) s.roots ≡ false
        → (o : TrackNamespacePrefix) → member s.active o ≡ true
        → strictly_covers o p ≡ false
    nothing_above no' o mo = elim (Bool-cases (strictly_covers o p)) [
      | inl bad ↦
          let (r, root, cr) = covered (suc (length o.fields)) s.active o (omega arith) mo in
          cc (
            any-intro (λ root. covers root p) s.roots r ((h r).1 root)
              (covers_trans r o p cr ((strictly_covers_iff o p).0 bad).0))
      | inr good ↦ good
    ]

    -- The roots that `add` leaves in this case.
    abbrev above : List TrackNamespacePrefix
    above = p ∷ keep (λ root. not (member (keep (λ r. covers p r) s.roots) root)) s.roots

    member-above :
        (x : TrackNamespacePrefix)
        → member above x ≡ (if prefix_eq p x then true else member s.roots x && not (covers p x))
    member-above x = ground (
      arith,
      member-cons p x (keep (λ root. not (member (keep (λ r. covers p r) s.roots) root)) s.roots),
      member-keep (λ r. covers p r) s.roots x,
      member-keep (λ root. not (member (keep (λ r. covers p r) s.roots) root)) s.roots x,
    )

    add_above :
        any (λ root. covers root p) s.roots ≡ false
        → (x : TrackNamespacePrefix) → (member above x ≡ true) ↔ IsRoot (p ∷ s.active) x
    add_above no' x =
        let same = above_roots s.active p x (nothing_above no') in
        (
          (λ m. same.1 (elim (Bool-cases (prefix_eq p x)) [
            | inl e ↦ inl ((prefix_eq_iff p x).0 e)
            | inr other ↦ inr (
              (h x).0 (ground (arith, member-above x)),
              ground (arith, member-above x, strictly_covers-other p x),
            )
          ])),
          (λ root. elim (same.0 root) [
            | inl e ↦ ground (arith, member-above x, prefix_eq_iff p x)
            | inr (old, low) ↦
                ground (arith, member-above x, (h x).1 old, strictly_covers-other p x)
          ]),
        )

  add-HasRoots : HasRoots s → HasRoots (add s p).0
  unfolding add
  add-HasRoots h x = elim (Bool-cases (member s.active p)) [
    | inl old ↦ rw old (h x)
    | inr new' ↦ elim (Bool-cases (any (λ root. covers root p) s.roots)) [
      | inl yes' ↦ rw (new', yes') (add_below h new' yes' x)
      | inr no' ↦ rw (new', no') (add_above h new' no' x)
    ]
  ]

  -- If the roots of a set are exactly its active prefixes that no other active one strictly covers,
  -- they are so after add, whose delta leads from the old roots to the new; the active prefixes are
  -- the old ones and the one added.
  pub add_lem :
      HasRoots s
      → HasRoots (add s p).0
        × Leads s (add s p).1 (add s p).0
        × ((x : TrackNamespacePrefix)
            → member (add s p).0.active x ≡ (prefix_eq p x || member s.active x))
  add_lem h = (add-HasRoots h, add_delta, add_active)
