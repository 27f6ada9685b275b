-- ===== src/Coding/TrackNamespace/Prefix.antt =====
-- Prefixes of namespaces, against the concatenation of lists of fields.
use mathlib.Core.Path.{ap₂}
use moq_rs.Prelude.{
  List, [], ◌≡◌, bytes_eq, refl, drop, length, length-append, ◌≤◌, arith, ◌↔◌, bytes_eq_iff, ◌++◌,
  true, ◌∷◌, none, not_ltb→le, some, ltb, All, inr, inl, ◌⊎◌, ◌∙◌, sym, drop-length_append,
  Bool-cases,
}
use moq_rs.Coding.Tuple.{TupleField}
use moq_rs.Coding.TrackNamespace.{
  TrackNamespace, TrackNamespacePrefix, zip_equal, is_prefix_of, validate_each, join_suffix,
  overlaps, try_from, strip_prefix, validate_track_namespace_fields,
}
use moq_rs.Coding.TrackNamespace.Wire.{IsNamespace, IsField}

field_eq : (f g : TupleField) → bytes_eq f.value g.value ≡ true → f ≡ g
field_eq f g h = λ i. record { value = (bytes_eq_iff f.value g.value).0 h i }

pub zip_equal-append : (xs ys : List TupleField) → zip_equal xs (xs ++ ys) ≡ true
unfolding zip_equal
zip_equal-append [] ys = refl
zip_equal-append (x ∷ xs) ys = ground (arith, bytes_eq_iff x.value x.value, zip_equal-append xs ys)

pub zip_equal-split :
    (xs ys : List TupleField)
    → zip_equal xs ys ≡ true
    → length xs ≤ length ys
    → xs ++ drop (length xs) ys ≡ ys
unfolding zip_equal
zip_equal-split [] ys h short = refl
zip_equal-split (x ∷ xs) [] h short = absurd (omega arith)
zip_equal-split (x ∷ xs) (y ∷ ys) h short =
    let same : x ≡ y = field_eq x y (ground arith) in
    ap₂ (λ a b. a ∷ b) same (zip_equal-split xs ys (ground arith) (omega arith))

-- is_prefix_of is true exactly of the namespaces that go on from the prefix.
pub is_prefix_of_iff :
    (p : TrackNamespacePrefix) (n : TrackNamespace)
    → (is_prefix_of p n ≡ true) ↔ ((rest : List TupleField) × (p.fields ++ rest ≡ n.fields))
unfolding is_prefix_of
is_prefix_of_iff p n = (
  (λ h. (
    drop (length p.fields) n.fields,
    zip_equal-split p.fields n.fields (ground arith) (ground arith),
  )),
  (λ (rest, e).
      let len : length p.fields ≤ length n.fields =
        rw (← e) (omega (arith, length-append p.fields rest)) in
      let eq : zip_equal p.fields n.fields ≡ true = rw (← e) (zip_equal-append p.fields rest) in
      rw eq (ground arith)),
)

pub zip_equal_comm : (xs ys : List TupleField) → zip_equal xs ys ≡ zip_equal ys xs
unfolding zip_equal
zip_equal_comm [] [] = refl
zip_equal_comm [] (y ∷ ys) = refl
zip_equal_comm (x ∷ xs) [] = refl
zip_equal_comm (x ∷ xs) (y ∷ ys) =
    ground (arith, bytes_eq_iff x.value y.value, bytes_eq_iff y.value x.value, zip_equal_comm xs ys)

-- Two prefixes overlap exactly if one of them goes on from the other.
pub overlaps_iff :
    (p q : TrackNamespacePrefix)
    → (overlaps p q ≡ true) ↔ (
        ((rest : List TupleField) × (p.fields ++ rest ≡ q.fields))
        ⊎ ((rest : List TupleField) × (q.fields ++ rest ≡ p.fields)))
unfolding overlaps
overlaps_iff p q = (
  (λ h. elim (Bool-cases (ltb (length q.fields) (length p.fields))) [
    | inl longer ↦ inr (
      drop (length q.fields) p.fields,
      zip_equal-split q.fields p.fields (sym (zip_equal_comm p.fields q.fields) ∙ h) (ground arith),
    )
    | inr shorter ↦ inl (
      drop (length p.fields) q.fields,
      zip_equal-split p.fields q.fields h (not_ltb→le _ _ shorter),
    )
  ]),
  elim [
    | inl (rest, e) ↦ rw (← e) (zip_equal-append p.fields rest)
    | inr (rest, e) ↦ zip_equal_comm p.fields q.fields ∙ rw (← e) (zip_equal-append q.fields rest)
  ],
)

validate_each-none : (fs : List TupleField) → All IsField fs → validate_each fs ≡ none
unfolding validate_each
validate_each-none [] h = refl
validate_each-none (f ∷ fs) ((full, fits), h) = ground (arith, validate_each-none fs h)

validate_each-All : (fs : List TupleField) → validate_each fs ≡ none → All IsField fs
unfolding validate_each
validate_each-All [] h = tt
validate_each-All (f ∷ fs) h = ground (arith, validate_each-All fs)

-- try_from accepts exactly the lists of fields of the namespaces that the draft allows.
pub try_from_iff : (n : TrackNamespace) → (try_from n.fields ≡ inl n) ↔ IsNamespace n
unfolding try_from validate_track_namespace_fields
try_from_iff n = (
  (λ h. record {
    some_fields = ground arith;
    few_fields = ground arith;
    each_field = validate_each-All n.fields (ground arith);
    short = ground arith;
  }),
  (λ h.
      ground
        (arith, validate_each-none n.fields h.each_field, h.some_fields, h.few_fields, h.short)),
)

-- A namespace that the draft allows is put together again from a prefix that matches it and the
-- suffix that strip_prefix leaves.
pub join_suffix-strip_prefix :
    (n : TrackNamespace) (p s : TrackNamespacePrefix)
    → IsNamespace n
    → strip_prefix n p ≡ some s
    → join_suffix p s ≡ inl n
unfolding strip_prefix join_suffix
join_suffix-strip_prefix n p s h e = elim (Bool-cases (is_prefix_of p n)) [
  | inl yes' ↦
      let (rest, cut) = (is_prefix_of_iff p n).0 yes' in
      let tail : s.fields ≡ drop (length p.fields) n.fields = ground arith in
      let whole : p.fields ++ s.fields ≡ n.fields =
        rw (tail, ← cut, drop-length_append p.fields rest) refl in
      rw whole ((try_from_iff n).1 h)
  | inr no' ↦ ground arith
]
