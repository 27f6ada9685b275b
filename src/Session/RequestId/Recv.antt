-- ===== src/Session/RequestId/Recv.antt =====
-- Inbound ids.
use moq_rs.Prelude.{
  ◌==◌, ℕ, ◌+◌, ◌&&◌, ◌^◌, ◌≤◌, contains, ◌<◌, Bool, arith, true, inr, length, inl, leb, ◌||◌, ◌≡◌,
  contains-remove, remove, ◌%◌, suc, none, zero, ltb, Bool-cases, ◌∙◌, length-remove_lt, false, ◌∷◌,
  if◌then◌else◌, contains-cons, some, not, refl,
}
use moq_rs.Session.Error.{SessionError}
use moq_rs.Session.RequestId.{RecvState, validate_incoming, slide, checked_add, new}

-- An id of the peer that the endpoint has accepted before.
unfoldable pub seen : RecvState → ℕ → Bool
seen s x =
    leb s.first x
    && (x % 2 == s.first % 2)
    && (ltb x s.low_water || contains s.received_above_low_water x)

-- The state between two steps of the loop.
record IsSliding (s : RecvState) : Type 0 where
  parity : s.low_water % 2 ≡ s.first % 2
  above : s.first ≤ s.low_water
  small : s.our_max ≤ 2 ^ 62
  ids :
      (x : ℕ)
      → contains s.received_above_low_water x ≡ true
      → (s.low_water ≤ x) × (x < s.our_max) × (x % 2 ≡ s.first % 2)

-- What holds between two calls: the ids kept beside the low-water mark lie past it, in the window
-- that the endpoint advertises.
pub record Inv (s : RecvState) : Type 0 where
  pub parity : s.low_water % 2 ≡ s.first % 2
  pub above : s.first ≤ s.low_water
  pub small : s.our_max ≤ 2 ^ 62
  pub ids :
      (x : ℕ)
      → contains s.received_above_low_water x ≡ true
      → (s.low_water < x) × (x < s.our_max) × (x % 2 ≡ s.first % 2)

-- A loop that has come from `s` to `t`.
record Slid (s t : RecvState) : Type 0 where
  inv : Inv t
  same_first : t.first ≡ s.first
  same_max : t.our_max ≡ s.our_max
  same_seen : (x : ℕ) → seen t x ≡ seen s x

-- One round.
abbrev advance : RecvState → RecvState
advance s = record s {
  received_above_low_water = remove s.received_above_low_water s.low_water;
  low_water = s.low_water + 2;
}

advance-IsSliding : (s : RecvState) → IsSliding s → IsSliding (advance s)
advance-IsSliding s h = record {
  parity = omega (arith, h.parity);
  above = omega (arith, h.above);
  small = h.small;
  ids = λ x m.
      ground (arith, contains-remove s.received_above_low_water s.low_water x, h.ids x, h.parity);
}

seen-advance :
    (s : RecvState)
    → IsSliding s
    → contains s.received_above_low_water s.low_water ≡ true
    → (x : ℕ) → seen (advance s) x ≡ seen s x
unfolding seen
seen-advance s h m x =
    ground
      (arith, contains-remove s.received_above_low_water s.low_water x, h.ids x, h.parity, h.above)

slide-out :
    (rounds : ℕ) (s : RecvState)
    → contains s.received_above_low_water s.low_water ≡ false
    → slide (suc rounds) s ≡ (s, none)
unfolding slide
slide-out rounds s e = rw (e, slide)

slide-in :
    (rounds : ℕ) (s : RecvState)
    → contains s.received_above_low_water s.low_water ≡ true
    → s.low_water + 2 < 2 ^ 64
    → slide (suc rounds) s ≡ slide rounds (advance s)
unfolding slide
slide-in rounds s e small =
    let fits : checked_add s.low_water 2 ≡ some (s.low_water + 2) =
      unfold checked_add in ground arith in
    rw (e, slide) (rw fits)

-- The loop ends by its test, and forgets no id.
slide-Slid :
    (rounds : ℕ) (s : RecvState)
    → IsSliding s
    → length s.received_above_low_water < rounds
    → Slid s (slide rounds s).0 × ((slide rounds s).1 ≡ none)
slide-Slid zero s h room = absurd (omega arith)
slide-Slid (suc rounds) s h room =
    elim (Bool-cases (contains s.received_above_low_water s.low_water)) [
      | inl kept ↦
          let (low, fits, p) = h.ids s.low_water kept in
          let (t, e) =
            slide-Slid rounds (advance s) (advance-IsSliding s h)
              (omega (arith, length-remove_lt s.received_above_low_water s.low_water kept)) in
          rw (slide-in rounds s kept (omega (arith, h.small))) (
            record {
              inv = t.inv;
              same_first = t.same_first;
              same_max = t.same_max;
              same_seen = λ x. t.same_seen x ∙ seen-advance s h kept x;
            },
            e,
          )
      | inr out ↦ rw (slide-out rounds s out) (
        record {
          inv = record {
            parity = h.parity;
            above = h.above;
            small = h.small;
            ids = λ x m. ground (arith, h.ids x m);
          };
          same_first = refl;
          same_max = refl;
          same_seen = λ x. refl;
        },
        refl,
      )
    ]

-- What `validate_incoming` asks of an id: it lies in the window, it is one of the peer's, and it
-- has not been accepted before.
unfoldable pub accepts : RecvState → ℕ → Bool
unfolding seen
accepts s x = ltb x s.our_max && leb s.first x && (x % 2 == s.first % 2) && not (seen s x)

abbrev insert_id : RecvState → ℕ → RecvState
insert_id s id = record s { received_above_low_water = id ∷ s.received_above_low_water }

insert-IsSliding :
    (s : RecvState) (id : ℕ) → Inv s → accepts s id ≡ true → IsSliding (insert_id s id)
unfolding accepts
insert-IsSliding s id h ok' = record {
  parity = h.parity;
  above = h.above;
  small = h.small;
  ids = λ x m. ground (arith, contains-cons id x s.received_above_low_water, h.ids x);
}

seen-insert :
    (s : RecvState) (id x : ℕ)
    → Inv s
    → accepts s id ≡ true
    → seen (insert_id s id) x ≡ (x == id || seen s x)
unfolding accepts
seen-insert s id x h ok' = ground (arith, contains-cons id x s.received_above_low_water)

validate-slide :
    (s : RecvState) (id : ℕ)
    → Inv s
    → accepts s id ≡ true
    → validate_incoming s id
      ≡ slide (suc (suc (length s.received_above_low_water))) (insert_id s id)
unfolding validate_incoming accepts seen
validate-slide s id h ok' =
    let inside : leb s.our_max id ≡ false = ground arith in
    let peers : (ltb id s.first || not (id % 2 == s.first % 2) || ltb id s.low_water) ≡ false =
      ground arith in
    let fresh : contains s.received_above_low_water id ≡ false = ground arith in
    rw (inside, peers, fresh)

-- An id that is accepted joins those that were, and no other does; the window stays.
pub validate_incoming_good :
    (s : RecvState) (id : ℕ)
    → Inv s
    → accepts s id ≡ true
    → ((validate_incoming s id).1 ≡ none)
      × Inv (validate_incoming s id).0
      × ((x : ℕ) → seen (validate_incoming s id).0 x ≡ (x == id || seen s x))
      × ((validate_incoming s id).0.first ≡ s.first)
      × ((validate_incoming s id).0.our_max ≡ s.our_max)
validate_incoming_good s id h ok' =
    let (t, e) = slide-Slid _ (insert_id s id) (insert-IsSliding s id h ok') (omega arith) in
    rw (validate-slide s id h ok')
      (e, t.inv, (λ x. t.same_seen x ∙ seen-insert s id x h ok'), t.same_first, t.same_max)

-- An id that is not is refused with the code that the draft asks for, and nothing changes.
pub validate_incoming_refuses :
    (s : RecvState) (id : ℕ)
    → Inv s
    → accepts s id ≡ false
    → validate_incoming s id ≡ (
      s,
      some (
          if leb s.our_max id
          then SessionError.too_many_requests
          else SessionError.invalid_request_id),
    )
unfolding validate_incoming accepts
validate_incoming_refuses s id h no' = ground (arith, h.above, h.ids id)

-- A new endpoint has accepted nothing.
pub new-Inv :
    (local_first peer_max our_max peer_first : ℕ)
    → our_max ≤ 2 ^ 62
    → Inv (new local_first peer_max our_max peer_first).recv
unfolding new contains
new-Inv local_first peer_max our_max peer_first h = record {
  parity = refl;
  above = omega arith;
  small = h;
  ids = λ x m. cc;
}
