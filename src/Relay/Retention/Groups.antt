-- ===== src/Relay/Retention/Groups.antt =====
-- Facts on the groups of a track: their keys, and the sum of their bytes.
use moq_rs.Prelude.{
  ℕ, ◌+◌, ◌==◌, false, List, [], ◌∷◌, ◌++◌, if◌then◌else◌, All, ◌≡◌, refl, arith, contains, is_some,
  find, put, keys, some, length, inr, inl, Bool-cases, ◌||◌,
}
use moq_rs.Relay.Retention.{FetchResponseObject, RetainedGroup, Sizes, retained_bytes, bytes_of}

abbrev pub Distinct : List ℕ → Type 0
Distinct [] = Unit {0}
Distinct (x ∷ xs) = (contains xs x ≡ false) × Distinct xs

pub Distinct-append :
    (xs : List ℕ) (y : ℕ) → Distinct xs → contains xs y ≡ false → Distinct (xs ++ (y ∷ []))
unfolding contains
Distinct-append [] y d h = (refl, tt)
Distinct-append (x ∷ xs) y (fresh, d) h =
    (ground (arith, contains-append xs x y), Distinct-append xs y d (ground arith))
  where
    contains-append :
        (xs : List ℕ) (k y : ℕ) → contains (xs ++ (y ∷ [])) k ≡ (contains xs k || y == k)
    contains-append [] k y = ground arith
    contains-append (z ∷ zs) k y = ground (arith, contains-append zs k y)

module _ {V : Type 0} where
  pub contains-keys : (k : ℕ) (m : List (ℕ × V)) → contains (keys m) k ≡ is_some (find k m)
  unfolding contains find
  contains-keys k [] = refl
  contains-keys k ((j, w) ∷ m) = ground (arith, contains-keys k m)

  pub keys-put :
      (k : ℕ) (v : V) (m : List (ℕ × V))
      → keys (put k v m) ≡ (if is_some (find k m) then keys m else keys m ++ (k ∷ []))
  unfolding put find
  keys-put k v [] = refl
  keys-put k v ((j, w) ∷ m) = ground (arith, keys-put k v m)

  pub length-keys : (m : List (ℕ × V)) → length (keys m) ≡ length m
  length-keys [] = refl
  length-keys ((k, v) ∷ m) = omega (arith, length-keys m)

  pub put-All :
      (P : ℕ × V → Type 0) (k : ℕ) (v : V) (m : List (ℕ × V))
      → All P m
      → P (k, v)
      → All P (put k v m)
  unfolding put
  put-All P k v [] h p = (p, tt)
  put-All P k v ((j, w) ∷ m) (hj, h) p = elim (Bool-cases (j == k)) [
    | inl same ↦ rw same (p, h)
    | inr other ↦ rw other (hj, put-All P k v m h p)
  ]

  pub find-All :
      (P : ℕ × V → Type 0) (k : ℕ) (m : List (ℕ × V)) (v : V)
      → All P m
      → find k m ≡ some v
      → P (k, v)
  unfolding find
  find-All P k [] v h e = cc
  find-All P k ((j, w) ∷ m) v (hj, h) e = elim (Bool-cases (j == k)) [
    | inl same ↦
        let key : j ≡ k = ground arith in let val : w ≡ v = ground arith in rw (← key, ← val) hj
    | inr other ↦ find-All P k m v h (ground arith)
  ]

abbrev pub total : List (ℕ × RetainedGroup) → ℕ
total [] = 0
total ((g, group) ∷ gs) = group.bytes + total gs

pub total-put :
    (g : ℕ) (group : RetainedGroup) (gs : List (ℕ × RetainedGroup))
    → total (put g group gs) + bytes_of (find g gs) ≡ total gs + group.bytes
unfolding put find
total-put g group [] = omega arith
total-put g group ((j, w) ∷ gs) = ground (arith, total-put g group gs)

module _ (z : Sizes) where
  abbrev pub sum_cost : List (ℕ × FetchResponseObject) → ℕ
  sum_cost [] = 0
  sum_cost ((k, o) ∷ os) = retained_bytes z o + sum_cost os

  pub sum_cost-put :
      (k : ℕ) (o : FetchResponseObject) (os : List (ℕ × FetchResponseObject))
      → is_some (find k os) ≡ false
      → sum_cost (put k o os) ≡ sum_cost os + retained_bytes z o
  unfolding put find
  sum_cost-put k o [] h = omega arith
  sum_cost-put k o ((j, w) ∷ os) h = ground (arith, sum_cost-put k o os)
