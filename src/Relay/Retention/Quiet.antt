-- ===== src/Relay/Retention/Quiet.antt =====
-- The loops of `insert` when no other track takes bytes meanwhile.
use mathlib.Core.Path.{subst}
use moq_rs.Prelude.{
  ℕ, zero, suc, ◌+◌, ◌-◌, ◌≤◌, ◌<◌, ◌^◌, ◌==◌, true, false, List, [], ◌∷◌, ◌≡◌, refl, arith,
  contains, is_some, find, keys, some, take, drop, inl, inr, Bool-cases, ◌&&◌, sym, ◌∙◌, ap, ltb,
  length,
}
use moq_rs.Relay.Retention.{
  RetainedGroup, RetainedGroups, Sizes, Limits, fits, release, reserve, make_room, position,
  sum_bytes, trim,
}
use moq_rs.Relay.Retention.Groups.{Distinct, total}
use moq_rs.Relay.Retention.Invariant.{IsRetained, evict_cases, nothing, front}

abbrev pub quiet : ℕ → ℕ → ℕ
quiet n used = used

-- The bytes of the groups from the n-th on are those of all less those of the n oldest.
sum_bytes-cons :
    (ks : List ℕ) (g : ℕ) (group : RetainedGroup) (gs : List (ℕ × RetainedGroup))
    → contains ks g ≡ false
    → sum_bytes ks ((g, group) ∷ gs) ≡ sum_bytes ks gs
unfolding sum_bytes contains find
sum_bytes-cons [] g group gs h = refl
sum_bytes-cons (k ∷ ks) g group gs h = ground (arith, sum_bytes-cons ks g group gs)

contains-take : (n k : ℕ) (xs : List ℕ) → contains xs k ≡ false → contains (take n xs) k ≡ false
unfolding contains
contains-take zero k xs h = refl
contains-take (suc n) k [] h = refl
contains-take (suc n) k (x ∷ xs) h = ground (arith, contains-take n k xs)

pub sum_bytes-total :
    (n : ℕ) (gs : List (ℕ × RetainedGroup))
    → Distinct (keys gs)
    → sum_bytes (take n (keys gs)) gs + total (drop n gs) ≡ total gs
unfolding sum_bytes find
sum_bytes-total zero gs d = omega arith
sum_bytes-total (suc n) [] d = refl
sum_bytes-total (suc n) ((g, group) ∷ gs) (fresh, d) =
    let found : find g ((g, group) ∷ gs) ≡ some group = ground arith in
    ground (
      arith,
      found,
      sum_bytes-total n gs d,
      sum_bytes-cons (take n (keys gs)) g group gs (contains-take n g (keys gs) fresh),
    )

release-enough : (used bytes : ℕ) → bytes ≤ used → release used bytes ≡ used - bytes
unfolding release
release-enough used bytes h = ground arith

find-front :
    (g k : ℕ) (group : RetainedGroup) (s t : RetainedGroups)
    → s.groups ≡ (g, group) ∷ t.groups
    → (g == k) ≡ false
    → find k s.groups ≡ find k t.groups
unfolding find
find-front g k group s t e other = rw e (rw other refl)

module _ (z : Sizes) (limits : Limits) (cost k : ℕ)
    (bounds : (limits.track_bytes < 2 ^ 64) × (limits.total_bytes < 2 ^ 64)) where
  -- The object of a group that stays fits once the older groups are gone, so the loop succeeds.
  pub make_room-quiet :
      (older : ℕ) (s : RetainedGroups) (used : ℕ)
      → IsRetained z s
      → s.bytes ≤ used
      → older ≤ position k (keys s.groups)
      → total (drop older s.groups) + cost ≤ limits.track_bytes
      → used - s.bytes + total (drop older s.groups) + cost ≤ limits.total_bytes
      → let r = make_room limits quiet cost older (s, used) in
        (r.1 ≡ true) × (find k r.0.0.groups ≡ find k s.groups)
  unfolding make_room
  make_room-quiet zero s used h own far track all' =
      let sum = h.counted in
      let yes' : (fits s.bytes cost limits.track_bytes && is_some (reserve limits used cost))
          ≡ true =
        unfold reserve in ground arith in
      rw yes' (refl, refl)
  make_room-quiet (suc older) s used h own far track all' =
      elim (Bool-cases
        (fits s.bytes cost limits.track_bytes && is_some (reserve limits used cost))) [
          | inl yes' ↦ rw yes' (refl, refl)
          | inr no' ↦ elim (evict_cases z s used h) [
            | nothing e p ↦ absurd (
                let q : position k (keys s.groups) ≡ 0 = rw e (unfold position in refl) in
                omega arith)
            | front g group t e p b fresh kept ↦
                let far' : suc older ≤ position k (g ∷ keys t.groups) =
                  subst (λ gs. suc older ≤ position k (keys gs)) e far in
                let other : (g == k) ≡ false = unfold position in ground arith in
                let rest : older ≤ position k (keys t.groups) = unfold position in ground arith in
                let tail : drop (suc older) s.groups ≡ drop older t.groups =
                  ap (λ gs. drop (suc older) gs) e in
                let freed = release-enough used group.bytes (omega arith) in
                let (won, same) =
                  make_room-quiet older t (release used group.bytes) kept (omega arith) rest
                    (subst (λ gs. total gs + cost ≤ limits.track_bytes) tail track)
                    (let a =
                        subst (λ gs. used - s.bytes + total gs + cost ≤ limits.total_bytes) tail
                          all' in
                      omega arith) in
                rw (no', p) (won, same ∙ sym (find-front g k group s t e other))
          ]
        ]

-- The loop at the end drops at most one group, and never the one that was written to.
trim-idle :
    (rounds : ℕ) (limits : Limits) (s : RetainedGroups) (used : ℕ)
    → length s.groups ≤ limits.groups
    → trim rounds limits (s, used) ≡ (s, used)
unfolding trim
trim-idle zero limits s used few = refl
trim-idle (suc rounds) limits s used few =
    let no' : ltb limits.groups (length s.groups) ≡ false = ground arith in rw no' refl

pub trim-find :
    (z : Sizes) (limits : Limits) (k rounds : ℕ) (s : RetainedGroups) (used : ℕ)
    → IsRetained z s
    → length s.groups ≤ limits.groups + 1
    → (limits.groups < length s.groups → 1 ≤ position k (keys s.groups))
    → find k (trim rounds limits (s, used)).0.groups ≡ find k s.groups
unfolding trim
trim-find z limits k zero s used h few far = refl
trim-find z limits k (suc rounds) s used h few far =
    elim (Bool-cases (ltb limits.groups (length s.groups))) [
      | inr no' ↦ rw no' refl
      | inl over ↦ elim (evict_cases z s used h) [
        | nothing e p ↦ absurd (ground (arith, ap length e))
        | front g group t e p b fresh kept ↦
            let away : 1 ≤ position k (g ∷ keys t.groups) =
              subst (λ gs. 1 ≤ position k (keys gs)) e (far (ground arith)) in
            let other : (g == k) ≡ false = unfold position in ground arith in
            let idle =
              trim-idle rounds limits t (release used group.bytes) (omega (arith, ap length e)) in
            rw (over, p, idle) (sym (find-front g k group s t e other))
      ]
    ]
