-- ===== src/Session/PendingRequests/Expiry.antt =====
-- Deadlines: what `expire` takes away, and when it has something to take.
use moq_rs.Prelude.{
  arith, refl, leb, none, Option, if◌then◌else◌, ℕ, true, ◌==◌, ◌∷◌, ◌≡◌, List, [], not, Bool, some,
  false,
}
use moq_rs.Session.PendingRequests.{
  PendingRequests, PendingRequest, PendingRequestState, Pending, get, without, insert, expire,
  expired, without_all, next_deadline, is_some,
}
use moq_rs.Session.PendingRequests.Laws.{get-without}

-- A map has one entry for each id.
abbrev pub IsMap : Pending → Type 0
IsMap [] = Unit
IsMap ((k, s) ∷ m) = (get k m ≡ none) × IsMap m

without-IsMap : (id : ℕ) (m : Pending) → IsMap m → IsMap (without id m)
unfolding without
without-IsMap id [] h = tt
without-IsMap id ((k, s) ∷ m) (fresh, h) = ground (arith, get-without id k m, without-IsMap id m h)

pub insert-IsMap :
    (p : PendingRequests) (id now : ℕ) (request : PendingRequest)
    → IsMap p.inner
    → IsMap (insert p id request now).0.inner
unfolding insert
insert-IsMap p id now request h = ground arith

without_all-IsMap :
    (ids : List (ℕ × PendingRequest)) (m : Pending) → IsMap m → IsMap (without_all ids m)
unfolding without_all
without_all-IsMap [] m h = h
without_all-IsMap ((id, r) ∷ ids) m h = without_all-IsMap ids (without id m) (without-IsMap id m h)

-- The request that a list of expired ones gives for an id.
pub reported : ℕ → List (ℕ × PendingRequest) → Option PendingRequest
reported j [] = none
reported j ((k, r) ∷ ids) = if k == j then some r else reported j ids

get-without_all :
    (ids : List (ℕ × PendingRequest)) (m : Pending) (j : ℕ)
    → get j (without_all ids m) ≡ (if is_some (reported j ids) then none else get j m)
unfolding without_all reported
get-without_all [] m j = refl
get-without_all ((id, r) ∷ ids) m j =
    ground (arith, get-without_all ids (without id m) j, get-without id j m)

abbrev pub is_due : ℕ → PendingRequestState → Bool
is_due now s = leb s.deadline now

-- What is left of an entry, and what is reported of it, at the time `now`.
abbrev pub kept : ℕ → Option PendingRequestState → Option PendingRequestState
kept now none = none
kept now (some s) = if is_due now s then none else some s

abbrev pub dropped : ℕ → Option PendingRequestState → Option PendingRequest
dropped now none = none
dropped now (some s) = if is_due now s then some s.request else none

reported-expired :
    (now : ℕ) (m : Pending) (j : ℕ) → IsMap m → reported j (expired now m) ≡ dropped now (get j m)
unfolding reported expired get
reported-expired now [] j h = refl
reported-expired now ((k, s) ∷ m) j (fresh, h) = ground (arith, reported-expired now m j h)

-- On a table with each id once, expire takes away, and reports, exactly the requests whose
-- deadline has come, and the table keeps each id once.
pub expire_lem :
    (p : PendingRequests) (now j : ℕ)
    → IsMap p.inner
    → IsMap (expire p now).0.inner
      × (get j (expire p now).0.inner ≡ kept now (get j p.inner))
      × (reported j (expire p now).1 ≡ dropped now (get j p.inner))
unfolding expire
expire_lem p now j h = (
  without_all-IsMap (expired now p.inner) p.inner h,
  ground (arith, get-without_all (expired now p.inner) p.inner j, reported-expired now p.inner j h),
  reported-expired now p.inner j h,
)

abbrev pub is_nil : List (ℕ × PendingRequest) → Bool
is_nil [] = true
is_nil (x ∷ xs) = false

abbrev pub is_past : ℕ → Option ℕ → Bool
is_past now none = false
is_past now (some d) = leb d now

next_deadline-expired :
    (m : Pending) (now : ℕ) → not (is_nil (expired now m)) ≡ is_past now (next_deadline m)
unfolding next_deadline expired
next_deadline-expired [] now = refl
next_deadline-expired ((k, s) ∷ m) now = ground (arith, next_deadline-expired m now)

-- A timer set for next_deadline never fires in vain, and misses nothing: expire has a request to
-- report exactly from that time on.
pub next_deadline_exact :
    (p : PendingRequests) (now : ℕ)
    → not (is_nil (expire p now).1) ≡ is_past now (next_deadline p.inner)
unfolding expire
next_deadline_exact p now = next_deadline-expired p.inner now
