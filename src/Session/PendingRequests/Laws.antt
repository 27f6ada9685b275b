-- ===== src/Session/PendingRequests/Laws.antt =====
-- What each operation does to the request of one id.
use moq_rs.Prelude.{
  inr, ◌==◌, if◌then◌else◌, refl, ℕ, ◌∷◌, true, [], false, ◌+◌, some, ◌≡◌, none, arith, inl, ◌&&◌,
  Bool-cases, not,
}
use moq_rs.Session.Error.{SessionError}
use moq_rs.Session.PendingRequests.{
  PendingRequests, PendingRequest, PendingResponse, PendingRequestState, Pending, get, without,
  insert, complete, accepts, response_timeout, is_some,
}

pub get-without :
    (id j : ℕ) (m : Pending) → get j (without id m) ≡ (if id == j then none else get j m)
unfolding get without
get-without id j [] = ground arith
get-without id j ((k, s) ∷ m) = ground (arith, get-without id j m)

-- insert succeeds exactly for an id that is not pending. It makes that id pending, with 30 seconds
-- to go, and changes no other; where it fails no pending request changes.
pub insert_lem :
    (p : PendingRequests) (id now : ℕ) (request : PendingRequest)
    → ((insert p id request now).1
        ≡ (if is_some (get id p.inner) then some SessionError.duplicate else none))
      × ((j : ℕ)
          → get j (insert p id request now).0.inner ≡ (
              if id == j && not (is_some (get id p.inner))
              then some (record { request = request; deadline = now + response_timeout })
              else get j p.inner))
unfolding insert
insert_lem p id now request = elim (Bool-cases (is_some (get id p.inner))) [
  | inl old ↦ (rw old, λ j. rw old (ground arith))
  | inr new' ↦ (rw new', λ j. rw new' (unfold get in ground arith))
]

complete-fits :
    (p : PendingRequests) (id : ℕ) (response : PendingResponse) (s : PendingRequestState)
    → get id p.inner ≡ some s
    → accepts s.request response ≡ true
    → complete p id response ≡ (record p { inner = without id p.inner }, inl (some s.request))
unfolding complete
complete-fits p id response s h fits = rw (h, complete) (rw fits)

complete-unknown :
    (p : PendingRequests) (id : ℕ) (response : PendingResponse)
    → get id p.inner ≡ none
    → complete p id response ≡ (p, inl none)
unfolding complete
complete-unknown p id response h = rw (h, complete)

-- A pending request is answered once: a fitting response yields the request and frees its id and
-- no other, and a second one for the id finds nothing.
pub complete_once :
    (p : PendingRequests) (id : ℕ) (response again : PendingResponse) (s : PendingRequestState)
    → get id p.inner ≡ some s
    → accepts s.request response ≡ true
    → ((complete p id response).1 ≡ inl (some s.request))
      × ((j : ℕ)
          → get j (complete p id response).0.inner ≡ (if id == j then none else get j p.inner))
      × (complete (complete p id response).0 id again ≡ ((complete p id response).0, inl none))
complete_once p id response again s h fits =
    let t : PendingRequests = record p { inner = without id p.inner } in
    let gone : get id t.inner ≡ none = ground (arith, get-without id id p.inner) in
    rw (complete-fits p id response s h fits)
      (refl, (λ j. get-without id j p.inner), complete-unknown t id again gone)

-- A response of the wrong kind is a protocol violation, and the request stays pending.
pub complete_wrong_kind :
    (p : PendingRequests) (id : ℕ) (response : PendingResponse) (s : PendingRequestState)
    → get id p.inner ≡ some s
    → accepts s.request response ≡ false
    → complete p id response ≡ (p, inr (SessionError.protocol_violation "unexpected response"))
unfolding complete
complete_wrong_kind p id response s h bad = rw (h, complete) (rw bad)
