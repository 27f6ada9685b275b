-- ===== src/Coding/KeyValuePairs/Table.antt =====
-- Lookup by key.
use moq_rs.Prelude.{arith, ℕ, List, ◌==◌, some, ◌≡◌, refl, ◌∷◌, if◌then◌else◌, []}
use moq_rs.Coding.KeyValuePairs.{KeyValuePair, set_pair, find_pair}

-- After a pair is set, get finds it under its key, and under any other key what it found before.
pub find_pair-set_pair :
    (p : KeyValuePair) (ps : List KeyValuePair) (k : ℕ)
    → find_pair k (set_pair p ps) ≡ (if p.key == k then some p else find_pair k ps)
unfolding find_pair set_pair
find_pair-set_pair p [] k = refl
find_pair-set_pair p (q ∷ qs) k = ground (arith, find_pair-set_pair p qs k)
