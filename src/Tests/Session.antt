-- ===== src/Tests/Session.antt =====
-- Runs of the session's state, and its theorems at concrete inputs.
use moq_rs.Prelude.{
  ◌++◌, ◌+◌, ◌==◌, if◌then◌else◌, ℕ, ◌≡◌, arith, contains, ◌&&◌, some, none, ◌<◌, inl, ◌∷◌, refl,
  [], List, not, true,
}
use moq_rs.Session.Reader.{decode, joined, arriving, decode-joined}
use moq_rs.Coding.Errors.{ok}
use moq_rs.Coding.VarInt.{decode_varint}
use moq_rs.Coding.VarInt.Decode.{decode_varint-IsStreaming}
use moq_rs.Session.Error.{SessionError}
use moq_rs.Session.RequestId.{SendState, new, allocate, apply_max_request_id}
use moq_rs.Session.RequestId.Send.{Event, alloc, raise, run, run-progression, progression}
use moq_rs.Session.RequestId.Spec.{validate_all, answers, validate_all-new, is_good, answer}
use moq_rs.Session.RequestId.Blocked.{messages, refused, messages_rise, Rises}
use moq_rs.Session.RequestId.Peers.{all_accepted, distinct, delivered_accepted}
use moq_rs.Session.PendingRequests.{
  PendingRequests, insert, complete, expire, get, next_deadline, accepts, is_some, response_timeout,
  subscribe, subscribe_ok, request_error, fetch,
}
use moq_rs.Session.PendingRequests.Laws.{insert_lem, complete_once}
use moq_rs.Session.PendingRequests.Expiry.{
  IsMap, expire_lem, next_deadline_exact, reported, kept, dropped, is_nil, is_past,
}

validate_all-new_example :
    validate_all (new 1 10 10 0).recv (4 ∷ 0 ∷ 2 ∷ 4 ∷ 6 ∷ 10 ∷ [])
    ≡ answers 0 10 [] (4 ∷ 0 ∷ 2 ∷ 4 ∷ 6 ∷ 10 ∷ [])
validate_all-new_example = validate_all-new 1 10 10 0 (4 ∷ 0 ∷ 2 ∷ 4 ∷ 6 ∷ 10 ∷ []) (omega arith)

out_of_order :
    answers 0 10 [] (4 ∷ 0 ∷ 2 ∷ 4 ∷ 10 ∷ [])
    ≡ none
      ∷ none
      ∷ none
      ∷ some SessionError.invalid_request_id
      ∷ some SessionError.too_many_requests
      ∷ []
unfolding answers answer is_good contains
out_of_order = refl

abbrev events : List Event
events = alloc ∷ alloc ∷ alloc ∷ raise 10 ∷ alloc ∷ []

abbrev after : SendState × List ℕ
after = (record { next = 6; peer_max = 10; blocked_sent_for = none }, 0 ∷ 2 ∷ 4 ∷ [])

run-events : run (new 0 4 10 1).send events ≡ after
unfolding run new allocate apply_max_request_id
run-events = refl

run-progression_example :
    let r = run (new 0 4 10 1).send events in
    ((k : ℕ) × (r.1 ≡ progression 0 k)) × ((x : ℕ) → contains r.1 x ≡ true → x < r.0.peer_max)
run-progression_example = run-progression 0 4 10 1 events (omega arith) (omega arith)

messages_rise_example :
    let s = (new 0 4 10 1).send in
    Rises 0 (messages s events)
    × ((k : ℕ) → contains (messages s events) k ≡ contains (refused s events) k)
messages_rise_example = messages_rise 0 4 10 1 events

delivered_accepted_example : all_accepted (validate_all (new 1 10 12 0).recv (4 ∷ 0 ∷ [])) ≡ true
delivered_accepted_example =
    delivered_accepted 0 4 10 1 12 10 events (4 ∷ 0 ∷ []) after (omega arith) (omega arith)
      (omega arith) run-events (omega arith) (unfold contains in λ x m. ground arith)
      (unfold distinct contains in refl)

abbrev waiting : PendingRequests
waiting = record {
  inner =
      (0, record { request = subscribe; deadline = 40 })
      ∷ (2, record { request = fetch; deadline = 55 })
      ∷ [];
  notify = 2;
}

waiting-IsMap : IsMap waiting.inner
unfolding get
waiting-IsMap = (refl, (refl, tt))

insert_lem_example :
    ((insert waiting 4 fetch 30).1
      ≡ (if is_some (get 4 waiting.inner) then some SessionError.duplicate else none))
    × ((j : ℕ)
        → get j (insert waiting 4 fetch 30).0.inner ≡ (
            if 4 == j && not (is_some (get 4 waiting.inner))
            then some (record { request = fetch; deadline = 30 + response_timeout })
            else get j waiting.inner))
insert_lem_example = insert_lem waiting 4 30 fetch

complete_once_example :
    ((complete waiting 0 subscribe_ok).1 ≡ inl (some subscribe))
    × ((j : ℕ)
        → get j (complete waiting 0 subscribe_ok).0.inner
          ≡ (if 0 == j then none else get j waiting.inner))
    × (complete (complete waiting 0 subscribe_ok).0 0 request_error
        ≡ ((complete waiting 0 subscribe_ok).0, inl none))
complete_once_example =
    complete_once waiting 0 subscribe_ok request_error
      (record { request = subscribe; deadline = 40 }) (unfold get in refl) (unfold accepts in refl)

expire_lem_example :
    IsMap (expire waiting 50).0.inner
    × (get 0 (expire waiting 50).0.inner ≡ kept 50 (get 0 waiting.inner))
    × (reported 0 (expire waiting 50).1 ≡ dropped 50 (get 0 waiting.inner))
expire_lem_example = expire_lem waiting 50 0 waiting-IsMap

next_deadline_exact_example :
    not (is_nil (expire waiting 50).1) ≡ is_past 50 (next_deadline waiting.inner)
next_deadline_exact_example = next_deadline_exact waiting 50

-- 16384 in three chunks, with a byte behind it.
abbrev stream : List (List ℕ)
stream = (0x00 ∷ []) ∷ (0x40 ∷ 0x00 ∷ 9 ∷ []) ∷ (8 ∷ []) ∷ []

chunks_read : decode decode_varint (0x80 ∷ []) stream ≡ ok (16384, (9 ∷ [], (8 ∷ []) ∷ []))
unfolding decode decode_varint
chunks_read = refl

decode-joined_example :
    joined (decode decode_varint (0x80 ∷ []) stream)
    ≡ decode_varint ((0x80 ∷ []) ++ arriving stream)
decode-joined_example = decode-joined decode_varint decode_varint-IsStreaming (0x80 ∷ []) stream
