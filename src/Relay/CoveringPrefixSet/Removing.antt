-- ===== src/Relay/CoveringPrefixSet/Removing.antt =====
-- What `remove` does.
use moq_rs.Prelude.{true, false, not, ◌&&◌, ◌||◌, List, Bool-cases, inl, inr, arith, ◌≡◌, ◌↔◌}
use moq_rs.Coding.TrackNamespace.{TrackNamespacePrefix}
use moq_rs.Relay.CoveringPrefixSet.{
  CoveringPrefixSet, covers, strictly_covers, prefix_eq, member, any, keep, remove, promoted,
  extend, without,
}
use moq_rs.Relay.CoveringPrefixSet.Order.{
  prefix_eq_iff, strictly_covers_iff, strictly_covers_trans, strictly_covers_irrefl,
}
use moq_rs.Relay.CoveringPrefixSet.Members.{member-keep, member-extend, any-intro, any-elim}
use moq_rs.Relay.CoveringPrefixSet.Invariant.{IsRoot, HasRoots}
use moq_rs.Relay.CoveringPrefixSet.Adding.{Leads}

prefix_eq_sym : (p q : TrackNamespacePrefix) → prefix_eq p q ≡ prefix_eq q p
prefix_eq_sym p q = ground (arith, prefix_eq_iff p q, prefix_eq_iff q p)

member-without :
    (s : List TrackNamespacePrefix) (p x : TrackNamespacePrefix)
    → member (without s p) x ≡ (member s x && not (prefix_eq x p))
member-without s p x = member-keep (λ q. not (prefix_eq q p)) s x

member-promoted :
    (active : List TrackNamespacePrefix) (p x : TrackNamespacePrefix)
    → member (promoted active p) x
      ≡ (member active x && covers p x && not (any (λ other. strictly_covers other x) active))
unfolding promoted
member-promoted active p x = ground (
  arith,
  member-keep (λ c. covers p c) active x,
  member-keep (λ c. not (any (λ other. strictly_covers other c) active))
      (keep (λ c. covers p c) active) x,
)

-- Nothing active strictly covers `x`.
nothing_iff :
    (active : List TrackNamespacePrefix) (x : TrackNamespacePrefix)
    → (any (λ other. strictly_covers other x) active ≡ false)
      ↔ ((o : TrackNamespacePrefix) → member active o ≡ true → strictly_covers o x ≡ false)
nothing_iff active x = (
  (λ e o mo. elim (Bool-cases (strictly_covers o x)) [
    | inl bad ↦ cc (any-intro (λ other. strictly_covers other x) active o mo bad)
    | inr good ↦ good
  ]),
  (λ top. elim (Bool-cases (any (λ other. strictly_covers other x) active)) [
    | inl bad ↦
        let (o, mo, so) = any-elim (λ other. strictly_covers other x) active bad in cc (top o mo)
    | inr good ↦ good
  ]),
)

module _ (s : CoveringPrefixSet) (p : TrackNamespacePrefix) where
  abbrev rest : List TrackNamespacePrefix
  rest = without s.active p

  -- Above a prefix that `p` does not strictly cover nothing changes.
  IsRoot-rest :
      (x : TrackNamespacePrefix)
      → prefix_eq x p ≡ false
      → strictly_covers p x ≡ false
      → IsRoot s.active x ↔ IsRoot rest x
  IsRoot-rest x other low = (
    (λ (mx, top). (
      ground (arith, member-without s.active p x),
      λ o mo. top o (ground (arith, member-without s.active p o)),
    )),
    (λ (mx, top). (
      ground (arith, member-without s.active p x),
      λ o mo. elim (Bool-cases (prefix_eq o p)) [
        | inl same ↦ rw ((prefix_eq_iff o p).0 same) low
        | inr different ↦ top o (ground (arith, member-without s.active p o))
      ],
    )),
  )

  not_root : (x : TrackNamespacePrefix) → IsRoot rest x → prefix_eq x p ≡ false
  not_root x root = ground (arith, member-without s.active p x, root.0)

  module _ (h : HasRoots s) (old : member s.active p ≡ true) where
    -- A prefix that is no root has another above it, which stays.
    remove_below :
        member s.roots p ≡ false
        → (x : TrackNamespacePrefix) → (member s.roots x ≡ true) ↔ IsRoot rest x
    remove_below no' x = elim (Bool-cases (any (λ other. strictly_covers other p) s.active)) [
      | inr free ↦ cc ((h p).1 (old, (nothing_iff s.active p).0 free))
      | inl above ↦
          let (o, mo, so) = any-elim (λ other. strictly_covers other p) s.active above in
          (
            (λ m.
                let root = (h x).0 m in
                let low : strictly_covers p x ≡ false = elim (Bool-cases (strictly_covers p x)) [
                  | inl bad ↦ cc (
                    root.1 o mo,
                    strictly_covers_trans o p x so ((strictly_covers_iff p x).0 bad).0,
                  )
                  | inr good ↦ good
                ] in
                let other : prefix_eq x p ≡ false = elim (Bool-cases (prefix_eq x p)) [
                  | inl same ↦ cc ((prefix_eq_iff x p).0 same)
                  | inr good ↦ good
                ] in
                (IsRoot-rest x other low).0 root),
            (λ root.
                let other = not_root x root in
                let stays : member rest o ≡ true = ground (
                  arith,
                  member-without s.active p o,
                  strictly_covers_irrefl p,
                  prefix_eq_iff o p,
                ) in
                let low : strictly_covers p x ≡ false = elim (Bool-cases (strictly_covers p x)) [
                  | inl bad ↦ cc (
                    root.1 o stays,
                    strictly_covers_trans o p x so ((strictly_covers_iff p x).0 bad).0,
                  )
                  | inr good ↦ good
                ] in
                (h x).1 ((IsRoot-rest x other low).1 root)),
          )
    ]

    abbrev next_roots : List TrackNamespacePrefix
    next_roots = extend (without s.roots p) (promoted rest p)

    member-next_roots :
        (x : TrackNamespacePrefix)
        → member next_roots x ≡ (
            (member s.roots x && not (prefix_eq x p))
            || (member rest x && covers p x && not (any (λ other. strictly_covers other x) rest)))
    member-next_roots x = ground (
      arith,
      member-extend (without s.roots p) (promoted rest p) x,
      member-without s.roots p x,
      member-promoted rest p x,
    )

    remove-IsRoot :
        member s.roots p ≡ true
        → (x : TrackNamespacePrefix) → (member next_roots x ≡ true) ↔ IsRoot rest x
    remove-IsRoot yes' x = (
      (λ m. elim (Bool-cases (member s.roots x && not (prefix_eq x p))) [
        | inl kept ↦
            let root = (h x).0 (ground arith) in
            let low : strictly_covers p x ≡ false = root.1 p old in
            (IsRoot-rest x (ground arith) low).0 root
        | inr gone ↦
            let both : (member rest x
                  && covers p x
                  && not (any (λ other. strictly_covers other x) rest))
                ≡ true =
              ground (arith, member-next_roots x) in
            (ground arith, (nothing_iff rest x).0 (ground arith))
      ]),
      (λ root.
          let other = not_root x root in
          let free = (nothing_iff rest x).1 root.1 in
          elim (Bool-cases (strictly_covers p x)) [
            | inl under ↦
                let c = ((strictly_covers_iff p x).0 under).0 in
                ground (arith, member-next_roots x, root.0)
            | inr low ↦
                let m = (h x).1 ((IsRoot-rest x other low).1 root) in
                ground (arith, member-next_roots x)
          ]),
    )

  remove-HasRoots : HasRoots s → HasRoots (remove s p).0
  unfolding remove
  remove-HasRoots h x = elim (Bool-cases (member s.active p)) [
    | inr new' ↦ rw new' (h x)
    | inl old ↦ elim (Bool-cases (member s.roots p)) [
      | inr no' ↦ rw (old, no') (remove_below h old no' x)
      | inl yes' ↦ rw (old, yes') (remove-IsRoot h old yes' x)
    ]
  ]

  remove_delta : Leads s (remove s p).1 (remove s p).0
  unfolding remove member
  remove_delta x = ground (
    arith,
    member-extend (without s.roots p) (promoted rest p) x,
    member-without s.roots p x,
    prefix_eq_sym p x,
  )

  remove_active :
      (x : TrackNamespacePrefix)
      → member (remove s p).0.active x ≡ (member s.active x && not (prefix_eq p x))
  unfolding remove
  remove_active x =
      ground (arith, member-without s.active p x, prefix_eq_sym p x, prefix_eq_iff p x)

  -- If the roots of a set are exactly its active prefixes that no other active one strictly covers,
  -- they are so after remove, whose delta leads from the old roots to the new; the active prefixes
  -- are the old ones less the one removed.
  pub remove_lem :
      HasRoots s
      → HasRoots (remove s p).0
        × Leads s (remove s p).1 (remove s p).0
        × ((x : TrackNamespacePrefix)
            → member (remove s p).0.active x ≡ (member s.active x && not (prefix_eq p x)))
  remove_lem h = (remove-HasRoots h, remove_delta, remove_active)
