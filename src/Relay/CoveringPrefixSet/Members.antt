-- ===== src/Relay/CoveringPrefixSet/Members.antt =====
-- Membership after each operation of a set.
use moq_rs.Prelude.{
  Bool, true, ◌&&◌, ◌||◌, List, [], ◌∷◌, if◌then◌else◌, Bool-cases, inl, inr, arith, ◌≡◌, refl, ap,
}
use moq_rs.Coding.TrackNamespace.{TrackNamespacePrefix}
use moq_rs.Relay.CoveringPrefixSet.{prefix_eq, member, any, keep, extend}
use moq_rs.Relay.CoveringPrefixSet.Order.{prefix_eq_iff}

pub member-cons :
    (q p : TrackNamespacePrefix) (s : List TrackNamespacePrefix)
    → member (q ∷ s) p ≡ (if prefix_eq q p then true else member s p)
unfolding member
member-cons q p s = refl

-- A test gives the same on equal prefixes.
same_test :
    (f : TrackNamespacePrefix → Bool) (q p : TrackNamespacePrefix)
    → prefix_eq q p ≡ true
    → f q ≡ f p
same_test f q p e = ap f ((prefix_eq_iff q p).0 e)

pub member-keep :
    (f : TrackNamespacePrefix → Bool) (s : List TrackNamespacePrefix) (p : TrackNamespacePrefix)
    → member (keep f s) p ≡ (member s p && f p)
unfolding member keep
member-keep f [] p = refl
member-keep f (q ∷ s) p = ground (arith, same_test f q p, member-keep f s p)

pub member-extend :
    (s qs : List TrackNamespacePrefix) (p : TrackNamespacePrefix)
    → member (extend s qs) p ≡ (member s p || member qs p)
unfolding member extend
member-extend s [] p = ground arith
member-extend s (q ∷ qs) p =
    ground (arith, same_test (member (extend s qs)) q p, member-extend s qs p)

pub any-intro :
    (f : TrackNamespacePrefix → Bool) (s : List TrackNamespacePrefix) (p : TrackNamespacePrefix)
    → member s p ≡ true
    → f p ≡ true
    → any f s ≡ true
unfolding member any
any-intro f [] p h k = h
any-intro f (q ∷ s) p h k = ground (arith, same_test f q p, any-intro f s p)

pub any-elim :
    (f : TrackNamespacePrefix → Bool) (s : List TrackNamespacePrefix)
    → any f s ≡ true
    → (p : TrackNamespacePrefix) × (member s p ≡ true) × (f p ≡ true)
unfolding member any
any-elim f [] h = cc
any-elim f (q ∷ s) h = elim (Bool-cases (f q)) [
  | inl found ↦ (q, ground (arith, prefix_eq_iff q q), found)
  | inr other ↦ let (p, m, k) = any-elim f s (ground arith) in (p, ground arith, k)
]
