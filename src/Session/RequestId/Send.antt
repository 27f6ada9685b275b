-- ===== src/Session/RequestId/Send.antt =====
-- Outbound ids.
use moq_rs.Prelude.{
  zero, List, ◌*◌, ◌++◌, inl, none, ◌≤◌, suc, ℕ, [], ◌<◌, ◌⊎◌, arith, false, some, ◌^◌, leb, ◌≡◌,
  ◌∷◌, ◌+◌, inr, refl, ap, Bool-cases, max, contains, true, ltb, All, ◌∙◌, ltb→lt, contains-cons,
}
use moq_rs.Session.Error.{SessionError}
use moq_rs.Session.RequestId.{
  SendState, RequestIdAllocation, allocated, blocked, allocate, apply_max_request_id, checked_add,
  new,
}

-- What can happen to the allocator.
pub data Event : Type 0 where
  alloc : Event
  raise : ℕ → Event

-- The ids that a sequence of calls hands out, and the state behind them.
abbrev pub handed : RequestIdAllocation ⊎ SessionError → List ℕ
handed (inl (allocated n)) = n ∷ []
handed (inl (blocked m b)) = []
handed (inr e) = []

unfoldable pub run : SendState → List Event → SendState × List ℕ
run s [] = (s, [])
run s (alloc ∷ es) = let (t, r) = allocate s in let (u, ids) = run t es in (u, handed r ++ ids)
run s (raise m ∷ es) = run (apply_max_request_id s m).0 es

-- `k` ids of one parity, one after the other.
unfoldable pub progression : ℕ → ℕ → List ℕ
progression first zero = []
progression first (suc k) = first ∷ progression (first + 2) k

-- What a run from `s` to `r` has done.
record Ran (s : SendState) (r : SendState × List ℕ) : Type 0 where
  count : ℕ
  in_order : r.1 ≡ progression s.next count
  next_id : r.0.next ≡ s.next + 2 * count
  grows : s.peer_max ≤ r.0.peer_max
  below : (x : ℕ) → contains r.1 x ≡ true → x < r.0.peer_max

-- No limit that the peer announces passes 62 bits, since it comes as a `VarInt`.
abbrev pub InRange : Event → Type 0
InRange alloc = Unit
InRange (raise m) = m ≤ 2 ^ 62

allocate-below :
    (s : SendState)
    → s.next < s.peer_max
    → s.peer_max ≤ 2 ^ 62
    → allocate s ≡ (record s { next = s.next + 2; blocked_sent_for = none }, inl (allocated s.next))
unfolding allocate
allocate-below s h top =
    let room : leb s.peer_max s.next ≡ false = ground arith in
    let fits : checked_add s.next 2 ≡ some (s.next + 2) = unfold checked_add in ground arith in
    rw (room, fits)

allocate-blocked :
    (s : SendState)
    → s.peer_max ≤ s.next
    → ((allocate s).0.next ≡ s.next)
      × ((allocate s).0.peer_max ≡ s.peer_max)
      × (handed (allocate s).1 ≡ [])
      × ((allocate s).0.blocked_sent_for ≡ some s.peer_max)
unfolding allocate
allocate-blocked s h = ground arith

apply-next :
    (s : SendState) (m : ℕ)
    → ((apply_max_request_id s m).0.next ≡ s.next)
      × ((apply_max_request_id s m).0.peer_max ≡ max s.peer_max m)
unfolding apply_max_request_id
apply-next s m = ground arith

-- One id more at the front.
Ran-alloc :
    (s : SendState) (r : SendState × List ℕ)
    → s.next < s.peer_max
    → Ran (record s { next = s.next + 2; blocked_sent_for = none }) r
    → Ran s (r.0, s.next ∷ r.1)
unfolding progression
Ran-alloc s r free h = record {
  count = suc h.count;
  in_order = ap (λ ids. s.next ∷ ids) h.in_order;
  next_id = let e = h.next_id in omega arith;
  grows = h.grows;
  below = λ x m. ground (arith, contains-cons s.next x r.1, h.below x, h.grows);
}

-- No id more.
Ran-none :
    (s t : SendState) (r : SendState × List ℕ) {ids : List ℕ}
    → t.next ≡ s.next
    → s.peer_max ≤ t.peer_max
    → Ran t r
    → ids ≡ r.1
    → Ran s (r.0, ids)
Ran-none s t r n p h e = record {
  count = h.count;
  in_order = e ∙ h.in_order ∙ ap (λ k. progression k h.count) n;
  next_id = h.next_id ∙ ap (λ k. k + 2 * h.count) n;
  grows = let g = h.grows in omega arith;
  below = λ x m. h.below x (rw e at m);
}

run-Ran :
    (s : SendState) (es : List Event) → s.peer_max ≤ 2 ^ 62 → All InRange es → Ran s (run s es)
unfolding run
run-Ran s [] top h = record {
  count = 0;
  in_order = unfold progression in refl;
  next_id = omega arith;
  grows = omega arith;
  below = unfold contains in λ x m. cc;
}
run-Ran s (raise m ∷ es) top (hm, h) =
    let (n, p) = apply-next s m in
    let r = run-Ran (apply_max_request_id s m).0 es (omega arith) h in
    Ran-none s (apply_max_request_id s m).0 (run (apply_max_request_id s m).0 es) n (omega arith) r
      refl
run-Ran s (alloc ∷ es) top (_, h) = elim (Bool-cases (ltb s.next s.peer_max)) [
  | inl free ↦
      let t : SendState = record s { next = s.next + 2; blocked_sent_for = none } in
      let r = run-Ran t es top h in
      rw (allocate-below s (ltb→lt _ _ free) top) (Ran-alloc s (run t es) (ltb→lt _ _ free) r)
  | inr full ↦
      let (n, p, none', _) = allocate-blocked s (ground arith) in
      let r = run-Ran (allocate s).0 es (omega arith) h in
      (let rest = run (allocate s).0 es in
        Ran-none s (allocate s).0 rest n (omega arith) r
          (ap (λ (ids : List ℕ). ids ++ rest.1) none'))
]

-- However allocations and raised limits of at most 2^62 follow each other, the ids handed out are
-- the endpoint's first one and every second number from there, and each is below the limit that
-- the peer has announced by the end.
pub run-progression :
    (local_first peer_max our_max peer_first : ℕ) (es : List Event)
    → peer_max ≤ 2 ^ 62
    → All InRange es
    → let r = run (new local_first peer_max our_max peer_first).send es in
      ((k : ℕ) × (r.1 ≡ progression local_first k))
      × ((x : ℕ) → contains r.1 x ≡ true → x < r.0.peer_max)
unfolding new
run-progression local_first peer_max our_max peer_first es top h =
    let r =
      run-Ran (record { next = local_first; peer_max = peer_max; blocked_sent_for = none }) es top
        h in
    ((r.count, r.in_order), r.below)
