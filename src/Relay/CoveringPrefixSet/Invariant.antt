-- ===== src/Relay/CoveringPrefixSet/Invariant.antt =====
-- The roots are the broadest of the active prefixes, after every operation.
use moq_rs.Prelude.{
  ℕ, zero, suc, ◌<◌, true, false, List, ◌∷◌, length, Bool-cases, inl, inr, arith, ◌≡◌, ◌↔◌, ◌⊎◌,
}
use moq_rs.Coding.TrackNamespace.{TrackNamespacePrefix}
use moq_rs.Relay.CoveringPrefixSet.{
  CoveringPrefixSet, covers, strictly_covers, prefix_eq, member, any,
}
use moq_rs.Relay.CoveringPrefixSet.Order.{
  prefix_eq_iff, prefix_eq_refl, covers_trans, covers_refl, strictly_covers_iff,
  strictly_covers_irrefl, strictly_covers_trans,
}
use moq_rs.Relay.CoveringPrefixSet.Members.{member-cons, any-intro, any-elim}

-- An active prefix that no other strictly covers.
abbrev pub IsRoot : List TrackNamespacePrefix → TrackNamespacePrefix → Type 0
IsRoot active p =
    (member active p ≡ true)
    × ((o : TrackNamespacePrefix) → member active o ≡ true → strictly_covers o p ≡ false)

abbrev pub HasRoots : CoveringPrefixSet → Type 0
HasRoots s = (p : TrackNamespacePrefix) → (member s.roots p ≡ true) ↔ IsRoot s.active p

-- Each active prefix is covered by a root.
pub covered :
    (n : ℕ) (active : List TrackNamespacePrefix) (p : TrackNamespacePrefix)
    → length p.fields < n
    → member active p ≡ true
    → (r : TrackNamespacePrefix) × IsRoot active r × (covers r p ≡ true)
covered zero active p h m = absurd (omega arith)
covered (suc n) active p h m = elim (Bool-cases (any (λ o. strictly_covers o p) active)) [
  | inl yes' ↦
      let (o, mo, so) = any-elim (λ o. strictly_covers o p) active yes' in
      let (co, less) = (strictly_covers_iff o p).0 so in
      let (r, root, cr) = covered n active o (omega arith) mo in (r, root, covers_trans r o p cr co)
  | inr no' ↦ (
    p,
    (
      m,
      λ o mo. elim (Bool-cases (strictly_covers o p)) [
        | inl bad ↦ cc (any-intro (λ o. strictly_covers o p) active o mo bad)
        | inr good ↦ good
      ],
    ),
    covers_refl p,
  )
]

-- The case split on an element of `p ∷ active`.
pub cons_cases :
    (active : List TrackNamespacePrefix) (p x : TrackNamespacePrefix)
    → member (p ∷ active) x ≡ true
    → (p ≡ x) ⊎ ((prefix_eq p x ≡ false) × (member active x ≡ true))
cons_cases active p x h = elim (Bool-cases (prefix_eq p x)) [
  | inl same ↦ inl ((prefix_eq_iff p x).0 same)
  | inr other ↦ inr (other, ground (arith, member-cons p x active))
]

module _ (active : List TrackNamespacePrefix) (p : TrackNamespacePrefix) where
  -- A prefix below an active one changes nothing of the roots.
  pub below-IsRoot :
      (r x : TrackNamespacePrefix)
      → member active r ≡ true
      → strictly_covers r p ≡ true
      → IsRoot active x ↔ IsRoot (p ∷ active) x
  below-IsRoot r x mr sr = (
    (λ (mx, top). (
      ground (arith, member-cons p x active),
      λ o mo. elim (cons_cases active p o mo) [
        | inl same ↦ elim (Bool-cases (strictly_covers o x)) [
          | inl bad ↦
              let sp : strictly_covers p x ≡ true = rw same bad in
              cc (top r mr, strictly_covers_trans r p x sr ((strictly_covers_iff p x).0 sp).0)
          | inr good ↦ good
        ]
        | inr (other, ma) ↦ top o ma
      ],
    )),
    (λ (mx, top). elim (cons_cases active p x mx) [
      | inl same ↦
          let bad : strictly_covers r x ≡ false = top r (ground (arith, member-cons p r active)) in
          let good : strictly_covers r x ≡ true = rw (← same) sr in cc
      | inr (other, ma) ↦ (ma, λ o mo. top o (ground (arith, member-cons p o active)))
    ]),
  )

  -- A prefix below no active one is a root, and takes the place of those that it covers.
  pub above_roots :
      (x : TrackNamespacePrefix)
      → ((o : TrackNamespacePrefix) → member active o ≡ true → strictly_covers o p ≡ false)
      → IsRoot (p ∷ active) x ↔ ((p ≡ x) ⊎ (IsRoot active x × (strictly_covers p x ≡ false)))
  above_roots x first = (
    (λ (mx, top). elim (cons_cases active p x mx) [
      | inl same ↦ inl same
      | inr (other, ma) ↦ inr (
        (ma, λ o mo. top o (ground (arith, member-cons p o active))),
        top p (ground (arith, member-cons p p active, prefix_eq_refl p)),
      )
    ]),
    (λ h. elim h [
      | inl same ↦ (
        ground (arith, member-cons p x active, prefix_eq_iff p x),
        λ o mo. elim (cons_cases active p o mo) [
          | inl e ↦ rw (← e, ← same) (strictly_covers_irrefl p)
          | inr (other, ma) ↦ rw (← same) (first o ma)
        ],
      )
      | inr ((ma, top), low) ↦ (
        ground (arith, member-cons p x active),
        λ o mo. elim (cons_cases active p o mo) [
          | inl e ↦ rw (← e) low
          | inr (other, mo') ↦ top o mo'
        ],
      )
    ]),
  )
