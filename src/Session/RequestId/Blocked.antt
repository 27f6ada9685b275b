-- ===== src/Session/RequestId/Blocked.antt =====
-- When REQUESTS_BLOCKED goes out, and with which limits.
use mathlib.Core.Path.{subst}
use moq_rs.Prelude.{
  leb, none, some, inr, ◌≤◌, ◌∷◌, true, ◌≡◌, sym, suc, List, arith, ◌++◌, inl, [], Bool-cases,
  if◌then◌else◌, ℕ, ◌⊎◌, contains, ◌||◌, refl,
}
use moq_rs.Session.Error.{SessionError}
use moq_rs.Session.RequestId.{
  SendState, RequestIdAllocation, requests_blocked, new, allocate, apply_max_request_id, is_some_of,
  checked_add, allocated, blocked,
}
use moq_rs.Session.RequestId.Send.{Event, alloc, raise}

-- The limits in the REQUESTS_BLOCKED messages that one call gives rise to.
sent : RequestIdAllocation ⊎ SessionError → List ℕ
unfolding requests_blocked
sent (inl a) = elim (requests_blocked a) [ none ↦ [] | some m ↦ m ∷ [] ]
sent (inr e) = []

unfoldable pub messages : SendState → List Event → List ℕ
unfolding sent
messages s [] = []
messages s (alloc ∷ es) = let (t, r) = allocate s in sent r ++ messages t es
messages s (raise m ∷ es) = messages (apply_max_request_id s m).0 es

-- The limit that a call is refused at, reported or not.
abbrev pub refused_at : RequestIdAllocation ⊎ SessionError → List ℕ
refused_at (inl (allocated n)) = []
refused_at (inl (blocked m b)) = m ∷ []
refused_at (inr e) = []

unfoldable pub refused : SendState → List Event → List ℕ
refused s [] = []
refused s (alloc ∷ es) = let (t, r) = allocate s in refused_at r ++ refused t es
refused s (raise m ∷ es) = refused (apply_max_request_id s m).0 es

-- A list that rises strictly, from `least` on.
unfoldable pub Rises : ℕ → List ℕ → Type 0
Rises least [] = Unit
Rises least (x ∷ xs) = (least ≤ x) × Rises (suc x) xs

-- The least limit that can still be reported.
floor : SendState → ℕ
floor s = if is_some_of s.blocked_sent_for s.peer_max then suc s.peer_max else s.peer_max

-- The mark is set only while the allocator is blocked.
abbrev IsMarked : SendState → Type 0
IsMarked s = is_some_of s.blocked_sent_for s.peer_max ≡ true → s.peer_max ≤ s.next

Rises-le : (a b : ℕ) (xs : List ℕ) → a ≤ b → Rises b xs → Rises a xs
unfolding Rises
Rises-le a b [] h r = tt
Rises-le a b (x ∷ xs) h (le, r) = (omega arith, r)

allocate-IsMarked : (s : SendState) → IsMarked s → IsMarked (allocate s).0
unfolding allocate checked_add
allocate-IsMarked s h = ground arith

apply-IsMarked : (s : SendState) (m : ℕ) → IsMarked s → IsMarked (apply_max_request_id s m).0
unfolding apply_max_request_id
apply-IsMarked s m h = ground arith

floor-apply : (s : SendState) (m : ℕ) → floor s ≤ floor (apply_max_request_id s m).0
unfolding apply_max_request_id floor
floor-apply s m = ground arith

data Sends (s : SendState) : Type 0 where
  silent : sent (allocate s).1 ≡ [] → floor s ≤ floor (allocate s).0 → Sends s
  reports :
      sent (allocate s).1 ≡ s.peer_max ∷ []
      → floor s ≤ s.peer_max
      → floor (allocate s).0 ≡ suc s.peer_max
      → Sends s

allocate-Sends : (s : SendState) → IsMarked s → Sends s
unfolding allocate floor checked_add sent
allocate-Sends s h = elim (Bool-cases (leb s.peer_max s.next)) [
  | inl full ↦ elim (Bool-cases (is_some_of s.blocked_sent_for s.peer_max)) [
    | inl marked ↦ silent (ground arith) (ground arith)
    | inr fresh ↦ reports (ground arith) (ground arith) (ground arith)
  ]
  | inr free ↦ silent (ground arith) (ground arith)
]

messages-Rises : (s : SendState) (es : List Event) → IsMarked s → Rises (floor s) (messages s es)
unfolding messages Rises
messages-Rises s [] h = tt
messages-Rises s (raise m ∷ es) h =
    Rises-le (floor s) _ _ (floor-apply s m)
      (messages-Rises (apply_max_request_id s m).0 es (apply-IsMarked s m h))
messages-Rises s (alloc ∷ es) h =
    let rest = messages-Rises (allocate s).0 es (allocate-IsMarked s h) in
    elim (allocate-Sends s h) [
      | silent e le ↦
          subst (λ (ms : List ℕ). Rises (floor s) (ms ++ messages (allocate s).0 es)) (sym e)
            (Rises-le (floor s) _ _ le rest)
      | reports e le f ↦
          subst (λ (ms : List ℕ). Rises (floor s) (ms ++ messages (allocate s).0 es)) (sym e)
            (le, subst (λ k. Rises k (messages (allocate s).0 es)) f rest)
    ]

-- The mark counts as a report: what one call adds to the reports and to the refusals agrees.
allocate-agrees :
    (s : SendState) (k : ℕ) (ms rs : List ℕ)
    → (let t = (allocate s).0 in
        contains ms k || is_some_of t.blocked_sent_for k
        ≡ contains rs k || is_some_of t.blocked_sent_for k)
    → contains (sent (allocate s).1 ++ ms) k || is_some_of s.blocked_sent_for k
      ≡ contains (refused_at (allocate s).1 ++ rs) k || is_some_of s.blocked_sent_for k
unfolding allocate checked_add sent contains
allocate-agrees s k ms rs h = ground arith

apply-agrees :
    (s : SendState) (m k : ℕ) (ms rs : List ℕ)
    → (let t = (apply_max_request_id s m).0 in
        contains ms k || is_some_of t.blocked_sent_for k
        ≡ contains rs k || is_some_of t.blocked_sent_for k)
    → contains ms k || is_some_of s.blocked_sent_for k
      ≡ contains rs k || is_some_of s.blocked_sent_for k
unfolding apply_max_request_id
apply-agrees s m k ms rs h = ground arith

messages-refused :
    (s : SendState) (k : ℕ) (es : List Event)
    → contains (messages s es) k || is_some_of s.blocked_sent_for k
      ≡ contains (refused s es) k || is_some_of s.blocked_sent_for k
unfolding messages refused
messages-refused s k [] = refl
messages-refused s k (raise m ∷ es) =
    let t = (apply_max_request_id s m).0 in
    apply-agrees s m k (messages t es) (refused t es) (messages-refused t k es)
messages-refused s k (alloc ∷ es) =
    let t = (allocate s).0 in
    allocate-agrees s k (messages t es) (refused t es) (messages-refused t k es)

-- The limits that an endpoint reports as used up are exactly those that an allocation is refused
-- at, and they rise strictly, so none is reported twice.
pub messages_rise :
    (local_first peer_max our_max peer_first : ℕ) (es : List Event)
    → let s = (new local_first peer_max our_max peer_first).send in
      Rises 0 (messages s es) × ((k : ℕ) → contains (messages s es) k ≡ contains (refused s es) k)
unfolding new
messages_rise local_first peer_max our_max peer_first es =
    let s : SendState = record {
      next = local_first;
      peer_max = peer_max;
      blocked_sent_for = none;
    } in
    (
      Rises-le 0 (floor s) _ (omega arith) (messages-Rises s es (λ e. cc)),
      λ k. ground (arith, messages-refused s k es),
    )
