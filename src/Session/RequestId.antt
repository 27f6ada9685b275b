-- ===== src/Session/RequestId.antt =====
-- moq-transport/src/session/request_id.rs: the ids of the requests that one endpoint sends, and
-- those that it accepts from the peer. Each of the two states stands behind a mutex; no code that
-- holds one panics, so a poisoned lock is left out. A method returns the new state and its result.
pub mod Send
pub mod Recv
pub mod Spec
pub mod Blocked
pub mod Peers
use moq_rs.Prelude.{
  if◌then◌else◌, inr, inl, ◌==◌, length, false, ◌||◌, contains, ℕ, suc, Option, ◌+◌, ltb, List,
  none, ◌⊎◌, true, not, [], remove, ◌^◌, Bool, ◌∷◌, leb, zero, ◌%◌, some,
}
use moq_rs.Session.Error.{SessionError}

-- `u64::checked_add`
unfoldable pub checked_add : ℕ → ℕ → Option ℕ
checked_add a b = if ltb (a + b) (2 ^ 64) then some (a + b) else none

pub record SendState : Type 0 where
  pub next : ℕ
  pub peer_max : ℕ
  pub blocked_sent_for : Option ℕ

pub record RecvState : Type 0 where
  pub first : ℕ
  pub low_water : ℕ
  pub received_above_low_water : List ℕ
  pub our_max : ℕ

pub record RequestId : Type 0 where
  pub send : SendState
  pub recv : RecvState

pub data RequestIdAllocation : Type 0 where
  allocated : ℕ → RequestIdAllocation
  blocked : ℕ → Bool → RequestIdAllocation

-- `RequestIdAllocation::requests_blocked`: the maximum that REQUESTS_BLOCKED carries.
unfoldable pub requests_blocked : RequestIdAllocation → Option ℕ
requests_blocked (blocked m true) = some m
requests_blocked (blocked m false) = none
requests_blocked (allocated n) = none

unfoldable pub new : ℕ → ℕ → ℕ → ℕ → RequestId
new local_first_id peer_max our_max peer_first_id = record {
  send = record { next = local_first_id; peer_max = peer_max; blocked_sent_for = none };
  recv = record {
    first = peer_first_id;
    low_water = peer_first_id;
    received_above_low_water = [];
    our_max = our_max;
  };
}

-- `send.blocked_sent_for == Some(send.peer_max)`
abbrev pub is_some_of : Option ℕ → ℕ → Bool
is_some_of none k = false
is_some_of (some m) k = m == k

unfoldable pub allocate : SendState → SendState × (RequestIdAllocation ⊎ SessionError)
unfolding checked_add
allocate s =
    if leb s.peer_max s.next
    then (if is_some_of s.blocked_sent_for s.peer_max
        then (s, inl (blocked s.peer_max false))
        else (record s { blocked_sent_for = some s.peer_max }, inl (blocked s.peer_max true)))
    else elim (checked_add s.next 2) [
      | none ↦ (s, inr SessionError.too_many_requests)
      | some n ↦ (record s { next = n; blocked_sent_for = none }, inl (allocated s.next))
    ]

-- `apply_max_request_id`, on the id that the message carries; `none` is `Ok(())`.
unfoldable pub apply_max_request_id : SendState → ℕ → SendState × Option SessionError
apply_max_request_id s request_id =
    if leb request_id s.peer_max
    then (s, some (SessionError.protocol_violation "MAX_REQUEST_ID must be strictly increasing"))
    else (record s { peer_max = request_id; blocked_sent_for = none }, none)

-- The loop at the end of `validate_incoming`. A round takes an id out of the set, so as many
-- rounds as the set has ids, and one more, are enough.
unfoldable pub slide : ℕ → RecvState → RecvState × Option SessionError
unfolding checked_add
slide zero s = (s, none)
slide (suc rounds) s = elim (contains s.received_above_low_water s.low_water) [
  | false ↦ (s, none)
  | true ↦
      let t = record s {
        received_above_low_water = remove s.received_above_low_water s.low_water;
      } in
      elim (checked_add s.low_water 2) [
        | none ↦ (t, some SessionError.invalid_request_id)
        | some l ↦ slide rounds (record t { low_water = l })
      ]
]

unfoldable pub validate_incoming : RecvState → ℕ → RecvState × Option SessionError
validate_incoming s id =
    if leb s.our_max id
    then (s, some SessionError.too_many_requests)
    else if ltb id s.first || not (id % 2 == s.first % 2) || ltb id s.low_water
    then (s, some SessionError.invalid_request_id)
    else if contains s.received_above_low_water id
    then (s, some SessionError.invalid_request_id)
    else slide (suc (suc (length s.received_above_low_water)))
        (record s { received_above_low_water = id ∷ s.received_above_low_water })

-- `handle_requests_blocked` only logs.
unfoldable pub handle_requests_blocked : RecvState → ℕ → RecvState × Option SessionError
handle_requests_blocked s max_request_id = (s, none)
