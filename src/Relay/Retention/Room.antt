-- ===== src/Relay/Retention/Room.antt =====
-- Making room and trimming, whatever the other tracks do to the shared bytes.
use mathlib.Core.Path.{subst}
use moq_rs.Prelude.{
  ℕ, zero, suc, ◌+◌, ◌≤◌, ◌==◌, Bool, true, false, ◌∷◌, ◌≡◌, refl, arith, contains, is_some, find,
  keys, none, length, inl, inr, Bool-cases, ltb, ◌&&◌, ap,
}
use moq_rs.Relay.Retention.{
  RetainedGroup, RetainedGroups, Sizes, Shared, Limits, evict_oldest, release, reserve, fits,
  make_room, retained, trim,
}
use moq_rs.Relay.Retention.Groups.{contains-keys}
use moq_rs.Relay.Retention.Invariant.{IsRetained, evict_cases, nothing, front}

-- What is left of a track's groups when some were dropped.
pub record Smaller (z : Sizes) (s t : RetainedGroups) : Type 0 where
  pub kept : IsRetained z t
  pub fewer : length t.groups ≤ length s.groups
  pub below : t.bytes ≤ s.bytes
  pub absent : (g o : ℕ) → is_some (retained s g o) ≡ false → is_some (retained t g o) ≡ false

pub Smaller-refl : (z : Sizes) (s : RetainedGroups) → IsRetained z s → Smaller z s s
Smaller-refl z s h = record {
  kept = h;
  fewer = omega arith;
  below = omega arith;
  absent = λ g o e. e;
}

Smaller-trans : (z : Sizes) (s t u : RetainedGroups) → Smaller z s t → Smaller z t u → Smaller z s u
Smaller-trans z s t u a b = record {
  kept = b.kept;
  fewer = let x = a.fewer in let y = b.fewer in omega arith;
  below = let x = a.below in let y = b.below in omega arith;
  absent = λ g o e. b.absent g o (a.absent g o e);
}

-- An object of the other groups is retained without the first one as well.
retained-front :
    (s t : RetainedGroups) (g : ℕ) (group : RetainedGroup)
    → s.groups ≡ (g, group) ∷ t.groups
    → contains (keys t.groups) g ≡ false
    → (k o : ℕ) → is_some (retained s k o) ≡ false
    → is_some (retained t k o) ≡ false
unfolding retained find
retained-front s t g group e fresh k o h = elim (Bool-cases (g == k)) [
  | inl same ↦
      let key : g ≡ k = ground arith in
      let gone : find k t.groups ≡ none = ground (arith, contains-keys k t.groups) in rw gone refl
  | inr other ↦ let rest : find k s.groups ≡ find k t.groups = rw e (rw other refl) in rw (← rest) h
]

pub evict-Smaller :
    (z : Sizes) (s : RetainedGroups) (used : ℕ)
    → IsRetained z s
    → Smaller z s (evict_oldest (s, used)).0
evict-Smaller z s used h = elim (evict_cases z s used h) [
  | nothing e p ↦ rw p (Smaller-refl z s h)
  | front g group t e p b fresh k ↦ rw p (record {
    kept = k;
    fewer = omega (arith, ap length e);
    below = omega arith;
    absent = retained-front s t g group e fresh;
  })
]

module _ (z : Sizes) (limits : Limits) (noise : ℕ → ℕ → ℕ) (cost : ℕ) where
  -- After `make_room` the track is smaller, and if it succeeds the object fits both budgets.
  pub record Room (s : RetainedGroups) (result : Shared × Bool) : Type 0 where
    pub smaller : Smaller z s result.0.0
    pub fits_track : result.1 ≡ true → result.0.0.bytes + cost ≤ limits.track_bytes
    pub fits_total : result.1 ≡ true → result.0.1 ≤ limits.total_bytes

  Room-found :
      (s : RetainedGroups) (seen : ℕ)
      → IsRetained z s
      → (fits s.bytes cost limits.track_bytes && is_some (reserve limits seen cost)) ≡ true
      → Room s ((s, seen + cost), true)
  unfolding reserve
  Room-found s seen h e = record {
    smaller = Smaller-refl z s h;
    fits_track = λ p. ground arith;
    fits_total = λ p. ground arith;
  }

  pub make_room-Room :
      (older : ℕ) (s : RetainedGroups) (used : ℕ)
      → IsRetained z s
      → Room s (make_room limits noise cost older (s, used))
  unfolding make_room
  make_room-Room zero s used h =
      elim (Bool-cases
        (fits s.bytes cost limits.track_bytes && is_some (reserve limits (noise 0 used) cost))) [
          | inl yes' ↦ rw yes' (Room-found s (noise 0 used) h yes')
          | inr no' ↦
              rw no' (record {
                smaller = Smaller-refl z s h;
                fits_track = λ p. cc;
                fits_total = λ p. cc;
              })
        ]
  make_room-Room (suc older) s used h =
      let seen = noise (suc older) used in
      elim (Bool-cases
        (fits s.bytes cost limits.track_bytes && is_some (reserve limits seen cost))) [
          | inl yes' ↦ rw yes' (Room-found s seen h yes')
          | inr no' ↦
              let next = evict_oldest (s, seen) in
              let less = evict-Smaller z s seen h in
              let r = make_room-Room older next.0 next.1 less.kept in
              rw no' (record {
                smaller = Smaller-trans z s next.0 _ less r.smaller;
                fits_track = r.fits_track;
                fits_total = r.fits_total;
              })
        ]

-- The last loop ends by its test: the groups left are no more than the limit.
pub trim_lem :
    (z : Sizes) (limits : Limits) (rounds : ℕ) (s : RetainedGroups) (used : ℕ)
    → IsRetained z s
    → length s.groups ≤ rounds
    → Smaller z s (trim rounds limits (s, used)).0
      × (length (trim rounds limits (s, used)).0.groups ≤ limits.groups)
unfolding trim
trim_lem z limits zero s used h few = (Smaller-refl z s h, omega arith)
trim_lem z limits (suc rounds) s used h few =
    elim (Bool-cases (ltb limits.groups (length s.groups))) [
      | inr no' ↦ rw no' (Smaller-refl z s h, ground arith)
      | inl over ↦ elim (evict_cases z s used h) [
        | nothing e p ↦ absurd (ground (arith, ap length e))
        | front g group t e p b fresh k ↦
            let less = evict-Smaller z s used h in
            let (small, ok') =
              trim_lem z limits rounds t (release used group.bytes) k
                (omega (arith, ap length e)) in
            let first : Smaller z s t = subst (λ (x : Shared). Smaller z s x.0) p less in
            rw (over, p) (Smaller-trans z s t _ first small, ok')
      ]
    ]
