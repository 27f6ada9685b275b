-- ===== src/Relay/CoveringPrefixSet.antt =====
-- moq-relay-ietf/src/covering_prefix_set.rs: the prefixes that somebody asked for, and the broadest
-- among them, the roots. A `HashSet` is a list without repetition; nothing here depends on its
-- order.
pub mod Order
pub mod Members
pub mod Invariant
pub mod Adding
pub mod Removing
use moq_rs.Prelude.{
  Bool, true, false, not, ◌&&◌, List, [], ◌∷◌, length, ltb, leb, if◌then◌else◌, bytes_eq,
}
use moq_rs.Coding.Tuple.{TupleField}
use moq_rs.Coding.TrackNamespace.{TrackNamespacePrefix, overlaps}

pub record RootDelta : Type 0 where
  pub added : List TrackNamespacePrefix
  pub removed : List TrackNamespacePrefix

-- `RootDelta::default()`
abbrev pub no_delta : RootDelta
no_delta = record { added = []; removed = [] }

pub record CoveringPrefixSet : Type 0 where
  pub active : List TrackNamespacePrefix
  pub roots : List TrackNamespacePrefix

unfoldable pub covers : TrackNamespacePrefix → TrackNamespacePrefix → Bool
unfolding overlaps
covers broader narrower =
    leb (length broader.fields) (length narrower.fields) && overlaps broader narrower

unfoldable pub strictly_covers : TrackNamespacePrefix → TrackNamespacePrefix → Bool
unfolding overlaps
strictly_covers broader narrower =
    ltb (length broader.fields) (length narrower.fields) && overlaps broader narrower

-- The derived `Eq` of prefixes.
unfoldable pub fields_eq : List TupleField → List TupleField → Bool
fields_eq [] [] = true
fields_eq [] (y ∷ ys) = false
fields_eq (x ∷ xs) [] = false
fields_eq (x ∷ xs) (y ∷ ys) = bytes_eq x.value y.value && fields_eq xs ys

unfoldable pub prefix_eq : TrackNamespacePrefix → TrackNamespacePrefix → Bool
unfolding fields_eq
prefix_eq p q = fields_eq p.fields q.fields

-- The operations of a set, and of its iterator.
unfoldable pub member : List TrackNamespacePrefix → TrackNamespacePrefix → Bool
member [] p = false
member (q ∷ s) p = let rest = member s p in if prefix_eq q p then true else rest

unfoldable pub any : (TrackNamespacePrefix → Bool) → List TrackNamespacePrefix → Bool
any f [] = false
any f (q ∷ s) = let rest = any f s in if f q then true else rest

unfoldable pub keep :
    (TrackNamespacePrefix → Bool) → List TrackNamespacePrefix → List TrackNamespacePrefix
keep f [] = []
keep f (q ∷ s) = let rest = keep f s in if f q then q ∷ rest else rest

abbrev pub without : List TrackNamespacePrefix → TrackNamespacePrefix → List TrackNamespacePrefix
without s p = keep (λ q. not (prefix_eq q p)) s

unfoldable pub add : CoveringPrefixSet → TrackNamespacePrefix → CoveringPrefixSet × RootDelta
unfolding member any keep
add s prefix =
    if member s.active prefix
    then (s, no_delta)
    else if any (λ root. covers root prefix) s.roots
    then (record s { active = prefix ∷ s.active }, no_delta)
    else (
      record {
        active = prefix ∷ s.active;
        roots =
            prefix ∷ keep (λ root. not (member (keep (λ r. covers prefix r) s.roots) root)) s.roots;
      },
      record { added = prefix ∷ []; removed = keep (λ root. covers prefix root) s.roots },
    )

-- What `remove` promotes, with `active` as it is after the prefix has left.
unfoldable pub promoted :
    List TrackNamespacePrefix → TrackNamespacePrefix → List TrackNamespacePrefix
unfolding any keep
promoted active prefix =
    keep (λ candidate. not (any (λ other. strictly_covers other candidate) active))
      (keep (λ candidate. covers prefix candidate) active)

-- `extend` of a set.
unfoldable pub extend :
    List TrackNamespacePrefix → List TrackNamespacePrefix → List TrackNamespacePrefix
unfolding member
extend s [] = s
extend s (q ∷ qs) = let t = extend s qs in if member t q then t else q ∷ t

unfoldable pub remove : CoveringPrefixSet → TrackNamespacePrefix → CoveringPrefixSet × RootDelta
unfolding member promoted extend
remove s prefix =
    if not (member s.active prefix)
    then (s, no_delta)
    else if not (member s.roots prefix)
    then (record s { active = without s.active prefix }, no_delta)
    else (
      record {
        active = without s.active prefix;
        roots = extend (without s.roots prefix) (promoted (without s.active prefix) prefix);
      },
      record { added = promoted (without s.active prefix) prefix; removed = prefix ∷ [] },
    )
