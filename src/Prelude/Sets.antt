-- ===== src/Prelude/Sets.antt =====
-- A `HashSet<u64>` as a list of distinct numbers.
use Prim.Native.Nat.{ℕ, ◌≤◌, ◌<◌}
use mathlib.Core.Path.{◌≡◌, refl}
use mathlib.Core.Bool.{Bool, true, false, ◌||◌}
use mathlib.Core.List.{List, [], ◌∷◌}
use native.Mathlib.Omega.{arith}
use moq_rs.Prelude.Tests.{◌==◌, if◌then◌else◌}
use moq_rs.Prelude.Lists.{length}

unfoldable pub contains : List ℕ → ℕ → Bool
contains [] k = false
contains (x ∷ xs) k = x == k || contains xs k

unfoldable pub remove : List ℕ → ℕ → List ℕ
remove [] k = []
remove (x ∷ xs) k = let rest = remove xs k in if x == k then rest else x ∷ rest

pub contains-remove :
    (xs : List ℕ) (k j : ℕ) → contains (remove xs k) j ≡ (if k == j then false else contains xs j)
unfolding contains remove
contains-remove [] k j = ground arith
contains-remove (x ∷ xs) k j = ground (arith, contains-remove xs k j)

pub contains-cons : (x j : ℕ) (xs : List ℕ) → contains (x ∷ xs) j ≡ (x == j || contains xs j)
unfolding contains
contains-cons x j xs = refl

pub length-remove_le : (xs : List ℕ) (k : ℕ) → length (remove xs k) ≤ length xs
unfolding remove
length-remove_le [] k = omega arith
length-remove_le (x ∷ xs) k = ground (arith, length-remove_le xs k)

pub length-remove_lt :
    (xs : List ℕ) (k : ℕ) → contains xs k ≡ true → length (remove xs k) < length xs
unfolding contains remove
length-remove_lt [] k h = ground arith
length-remove_lt (x ∷ xs) k h = ground (arith, length-remove_le xs k, length-remove_lt xs k)
