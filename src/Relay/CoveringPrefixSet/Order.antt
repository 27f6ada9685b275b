-- ===== src/Relay/CoveringPrefixSet/Order.antt =====
-- `covers` is an order on prefixes, and `strictly_covers` its strict part.
use moq_rs.Prelude.{
  Bool, true, false, ◌&&◌, List, [], ◌∷◌, length, leb, bytes_eq_iff, arith, ◌≡◌, ◌<◌, ◌≤◌, refl,
  ◌↔◌,
}
use moq_rs.Coding.Tuple.{TupleField}
use moq_rs.Coding.TrackNamespace.{TrackNamespacePrefix, overlaps, zip_equal}
use moq_rs.Relay.CoveringPrefixSet.{covers, strictly_covers, fields_eq, prefix_eq}

fields_eq_iff : (xs ys : List TupleField) → (fields_eq xs ys ≡ true) ↔ (xs ≡ ys)
unfolding fields_eq
fields_eq_iff [] [] = ((λ h. refl), (λ h. refl))
fields_eq_iff [] (y ∷ ys) = ((λ h. cc), (λ h. cc))
fields_eq_iff (x ∷ xs) [] = ((λ h. cc), (λ h. cc))
fields_eq_iff (x ∷ xs) (y ∷ ys) = (
  (λ h. ground (arith, bytes_eq_iff x.value y.value, fields_eq_iff xs ys)),
  (λ h. ground (arith, bytes_eq_iff x.value y.value, fields_eq_iff xs ys)),
)

pub prefix_eq_iff : (p q : TrackNamespacePrefix) → (prefix_eq p q ≡ true) ↔ (p ≡ q)
unfolding prefix_eq
prefix_eq_iff p q = (
  (λ h. ground (arith, fields_eq_iff p.fields q.fields)),
  (λ h. ground (arith, fields_eq_iff p.fields q.fields)),
)

-- The test of `covers` on the fields.
starts : List TupleField → List TupleField → Bool
starts xs ys = leb (length xs) (length ys) && zip_equal xs ys

starts_trans :
    (xs ys zs : List TupleField) → starts xs ys ≡ true → starts ys zs ≡ true → starts xs zs ≡ true
unfolding starts zip_equal
starts_trans [] ys zs h k = ground arith
starts_trans (x ∷ xs) [] zs h k = ground arith
starts_trans (x ∷ xs) (y ∷ ys) [] h k = ground arith
starts_trans (x ∷ xs) (y ∷ ys) (z ∷ zs) h k = ground (
  arith,
  bytes_eq_iff x.value y.value,
  bytes_eq_iff y.value z.value,
  bytes_eq_iff x.value z.value,
  starts_trans xs ys zs,
)

starts-same :
    (xs ys : List TupleField) → starts xs ys ≡ true → length xs ≡ length ys → fields_eq xs ys ≡ true
unfolding starts zip_equal fields_eq
starts-same [] [] h e = refl
starts-same [] (y ∷ ys) h e = absurd (omega arith)
starts-same (x ∷ xs) [] h e = absurd (omega arith)
starts-same (x ∷ xs) (y ∷ ys) h e = ground (arith, starts-same xs ys)

pub covers_trans :
    (p q r : TrackNamespacePrefix) → covers p q ≡ true → covers q r ≡ true → covers p r ≡ true
unfolding covers overlaps
covers_trans p q r h k = unfold starts in starts_trans p.fields q.fields r.fields h k

pub covers_size :
    (p q : TrackNamespacePrefix) → covers p q ≡ true → length p.fields ≤ length q.fields
unfolding covers
covers_size p q h = ground arith

pub covers-same :
    (p q : TrackNamespacePrefix)
    → covers p q ≡ true
    → length p.fields ≡ length q.fields
    → prefix_eq p q ≡ true
unfolding covers overlaps prefix_eq
covers-same p q h e = unfold starts in starts-same p.fields q.fields h e

pub strictly_covers_iff :
    (p q : TrackNamespacePrefix)
    → (strictly_covers p q ≡ true) ↔ ((covers p q ≡ true) × (length p.fields < length q.fields))
unfolding covers strictly_covers
strictly_covers_iff p q = ((λ h. ground arith), (λ h. ground arith))

-- Between different prefixes the two tests agree.
pub strictly_covers-other :
    (p q : TrackNamespacePrefix) → prefix_eq p q ≡ false → strictly_covers p q ≡ covers p q
strictly_covers-other p q other =
    ground (arith, strictly_covers_iff p q, covers_size p q, covers-same p q)

pub prefix_eq_refl : (p : TrackNamespacePrefix) → prefix_eq p p ≡ true
prefix_eq_refl p = (prefix_eq_iff p p).1 refl

starts_refl : (xs : List TupleField) → starts xs xs ≡ true
unfolding starts zip_equal
starts_refl [] = ground arith
starts_refl (x ∷ xs) = ground (arith, bytes_eq_iff x.value x.value, starts_refl xs)

pub covers_refl : (p : TrackNamespacePrefix) → covers p p ≡ true
unfolding covers overlaps
covers_refl p = unfold starts in starts_refl p.fields

pub strictly_covers_irrefl : (p : TrackNamespacePrefix) → strictly_covers p p ≡ false
strictly_covers_irrefl p = ground (arith, strictly_covers_iff p p)

-- Below something strictly covered everything is.
pub strictly_covers_trans :
    (p q r : TrackNamespacePrefix)
    → strictly_covers p q ≡ true
    → covers q r ≡ true
    → strictly_covers p r ≡ true
strictly_covers_trans p q r h k =
    ground
      (arith, strictly_covers_iff p q, strictly_covers_iff p r, covers_size q r, covers_trans p q r)
