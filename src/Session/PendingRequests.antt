-- ===== src/Session/PendingRequests.antt =====
-- moq-transport/src/session/pending_requests.rs: the requests that wait for the peer's response.
-- The map from ids is an association list: nothing here depends on its order but the order of
-- what `expire` returns. `Instant::now()` is an argument, and `Notify` is the count of the calls
-- of `notify_one`. The text of the protocol violation is left out.
pub mod Laws
pub mod Expiry
use moq_rs.Prelude.{
  Option, [], some, false, not, ◌==◌, List, if◌then◌else◌, ℕ, ◌∷◌, ◌⊎◌, none, leb, true, min, inr,
  inl, Bool, ◌+◌,
}
use mathlib.Core.Option
use moq_rs.Session.Error.{SessionError}

-- `RESPONSE_TIMEOUT`, in the unit of the clock.
abbrev pub response_timeout : ℕ
response_timeout = 30

pub data PendingRequest : Type 0 where
  publish_namespace publish subscribe fetch : PendingRequest

pub data PendingResponse : Type 0 where
  request_ok request_error publish_ok subscribe_ok fetch_ok : PendingResponse

pub record PendingRequestState : Type 0 where
  pub request : PendingRequest
  pub deadline : ℕ

abbrev pub Pending : Type 0
Pending = List (ℕ × PendingRequestState)

pub record PendingRequests : Type 0 where
  pub inner : Pending
  pub notify : ℕ

-- `PendingRequest::accepts`
unfoldable pub accepts : PendingRequest → PendingResponse → Bool
accepts publish_namespace request_ok = true
accepts publish_namespace request_error = true
accepts publish publish_ok = true
accepts publish request_error = true
accepts subscribe subscribe_ok = true
accepts subscribe request_error = true
accepts fetch fetch_ok = true
accepts fetch request_error = true
accepts _ _ = false

-- `HashMap::get` and `HashMap::remove`
unfoldable pub get : ℕ → Pending → Option PendingRequestState
get id [] = none
get id ((k, s) ∷ m) = if k == id then some s else get id m

unfoldable pub without : ℕ → Pending → Pending
without id [] = []
without id ((k, s) ∷ m) = let rest = without id m in if k == id then rest else (k, s) ∷ rest

abbrev pub is_some {ℓ} : {A : Type ℓ} → Option A → Bool
is_some none = false
is_some (some a) = true

unfoldable pub insert :
    PendingRequests → ℕ → PendingRequest → ℕ → PendingRequests × Option SessionError
unfolding get
insert p id request now = if is_some (get id p.inner) then (p, some SessionError.duplicate) else (
  record {
    inner = (id, record { request = request; deadline = now + response_timeout }) ∷ p.inner;
    notify = p.notify + 1;
  },
  none,
)

unfoldable pub remove_request : PendingRequests → ℕ → PendingRequests × Option PendingRequest
unfolding get without
remove_request p id = (
  record p { inner = without id p.inner },
  Option.map (λ (s : PendingRequestState). s.request) (get id p.inner),
)

unfoldable pub complete :
    PendingRequests → ℕ → PendingResponse → PendingRequests × (Option PendingRequest ⊎ SessionError)
unfolding get without accepts
complete p id response = elim (get id p.inner) [
  | none ↦ (p, inl none)
  | some state ↦
      if not (accepts state.request response)
      then (p, inr (SessionError.protocol_violation "unexpected response"))
      else (record p { inner = without id p.inner }, inl (some state.request))
]

-- `values().map(|state| state.deadline).min()`
unfoldable pub next_deadline : Pending → Option ℕ
next_deadline [] = none
next_deadline ((k, s) ∷ m) = elim (next_deadline m) [
  | none ↦ some s.deadline
  | some d ↦ some (min s.deadline d)
]

unfoldable pub expired : ℕ → Pending → List (ℕ × PendingRequest)
expired now [] = []
expired now ((k, s) ∷ m) =
    let rest = expired now m in if leb s.deadline now then (k, s.request) ∷ rest else rest

unfoldable pub without_all : List (ℕ × PendingRequest) → Pending → Pending
unfolding without
without_all [] m = m
without_all ((id, r) ∷ ids) m = without_all ids (without id m)

unfoldable pub expire : PendingRequests → ℕ → PendingRequests × List (ℕ × PendingRequest)
unfolding expired without_all
expire p now = let ids = expired now p.inner in (record p { inner = without_all ids p.inner }, ids)
