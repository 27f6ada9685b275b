-- ===== src/Message/Reasons.antt =====
-- The messages of moq-transport/src/message that carry a string: request_error.rs,
-- publish_done.rs, publish_namespace_cancel.rs and go_away.rs.
use moq_rs.Prelude.{◌<◌, ◌≤◌, ◌^◌, ℕ, List, Bool, length, ◌≡◌, true}
use moq_rs.Coding.Reader.{Decoder, pure, ◌>>=◌}
use moq_rs.Coding.Writer.{Encoder, ◌⨟◌}
use moq_rs.Coding.VarInt.{decode_u64, encode_u64}
use moq_rs.Coding.VarInt.RoundTrip.{decode_u64-encode_u64}
use moq_rs.Coding.RoundTrip.{RoundTrips, RoundTrips-seq, RoundTrips-map}
use moq_rs.Coding.BoundedString.{
  decode_string, encode_string, reason_phrase, session_uri, decode_string-encode_string,
}

pub record RequestError : Type 0 where
  pub id : ℕ
  pub error_code : ℕ
  pub retry_interval : ℕ
  pub reason : List ℕ

unfoldable pub decode_request_error : (List ℕ → Bool) → Decoder RequestError
decode_request_error is_utf8 = do
  id ← decode_u64
  code ← decode_u64
  retry ← decode_u64
  reason ← decode_string is_utf8 reason_phrase
  pure (record { id = id; error_code = code; retry_interval = retry; reason = reason })

unfoldable pub encode_request_error : RequestError → Encoder (Unit {0})
encode_request_error m =
    encode_u64 m.id
    ⨟ encode_u64 m.error_code
    ⨟ encode_u64 m.retry_interval
    ⨟ encode_string reason_phrase m.reason

pub record PublishDone : Type 0 where
  pub id : ℕ
  pub status_code : ℕ
  pub stream_count : ℕ
  pub reason : List ℕ

unfoldable pub decode_publish_done : (List ℕ → Bool) → Decoder PublishDone
decode_publish_done is_utf8 = do
  id ← decode_u64
  status ← decode_u64
  count ← decode_u64
  reason ← decode_string is_utf8 reason_phrase
  pure (record { id = id; status_code = status; stream_count = count; reason = reason })

unfoldable pub encode_publish_done : PublishDone → Encoder (Unit {0})
encode_publish_done m =
    encode_u64 m.id
    ⨟ encode_u64 m.status_code
    ⨟ encode_u64 m.stream_count
    ⨟ encode_string reason_phrase m.reason

pub record PublishNamespaceCancel : Type 0 where
  pub id : ℕ
  pub error_code : ℕ
  pub reason_phrase : List ℕ

unfoldable pub decode_cancel : (List ℕ → Bool) → Decoder PublishNamespaceCancel
decode_cancel is_utf8 = do
  id ← decode_u64
  code ← decode_u64
  reason ← decode_string is_utf8 reason_phrase
  pure (record { id = id; error_code = code; reason_phrase = reason })

unfoldable pub encode_cancel : PublishNamespaceCancel → Encoder (Unit {0})
encode_cancel m =
    encode_u64 m.id ⨟ encode_u64 m.error_code ⨟ encode_string reason_phrase m.reason_phrase

pub record GoAway : Type 0 where
  pub uri : List ℕ

unfoldable pub decode_go_away : (List ℕ → Bool) → Decoder GoAway
decode_go_away is_utf8 = do uri ← decode_string is_utf8 session_uri; pure (record { uri = uri })

unfoldable pub encode_go_away : GoAway → Encoder (Unit {0})
encode_go_away m = encode_string session_uri m.uri

module _ (is_utf8 : List ℕ → Bool) where
  -- With any test of UTF-8, a REQUEST_ERROR with numbers below 2^62 and a reason of at most 1024
  -- bytes that passes the test is encoded, given room enough, and decoded back.
  pub decode_request_error-encode_request_error :
      (m : RequestError)
      → m.id < 2 ^ 62
      → m.error_code < 2 ^ 62
      → m.retry_interval < 2 ^ 62
      → is_utf8 m.reason ≡ true
      → length m.reason ≤ 1024
      → RoundTrips (encode_request_error m) (decode_request_error is_utf8) m
  unfolding encode_request_error decode_request_error
  decode_request_error-encode_request_error m hi hc hr good h =
      RoundTrips-seq _ _ decode_u64 _ m.id _ (decode_u64-encode_u64 _ hi) (
        RoundTrips-seq _ _ decode_u64 _ m.error_code _ (decode_u64-encode_u64 _ hc) (
          RoundTrips-seq _ _ decode_u64 _ m.retry_interval _ (decode_u64-encode_u64 _ hr) (
            RoundTrips-map _ (decode_string is_utf8 reason_phrase)
              (λ (s : List ℕ). record m { reason = s }) m.reason
              (decode_string-encode_string is_utf8 reason_phrase m.reason good h))))

  pub decode_publish_done-encode_publish_done :
      (m : PublishDone)
      → m.id < 2 ^ 62
      → m.status_code < 2 ^ 62
      → m.stream_count < 2 ^ 62
      → is_utf8 m.reason ≡ true
      → length m.reason ≤ 1024
      → RoundTrips (encode_publish_done m) (decode_publish_done is_utf8) m
  unfolding encode_publish_done decode_publish_done
  decode_publish_done-encode_publish_done m hi hs hc good h =
      RoundTrips-seq _ _ decode_u64 _ m.id _ (decode_u64-encode_u64 _ hi) (
        RoundTrips-seq _ _ decode_u64 _ m.status_code _ (decode_u64-encode_u64 _ hs) (
          RoundTrips-seq _ _ decode_u64 _ m.stream_count _ (decode_u64-encode_u64 _ hc) (
            RoundTrips-map _ (decode_string is_utf8 reason_phrase)
              (λ (s : List ℕ). record m { reason = s }) m.reason
              (decode_string-encode_string is_utf8 reason_phrase m.reason good h))))

  pub decode_cancel-encode_cancel :
      (m : PublishNamespaceCancel)
      → m.id < 2 ^ 62
      → m.error_code < 2 ^ 62
      → is_utf8 m.reason_phrase ≡ true
      → length m.reason_phrase ≤ 1024
      → RoundTrips (encode_cancel m) (decode_cancel is_utf8) m
  unfolding encode_cancel decode_cancel
  decode_cancel-encode_cancel m hi hc good h =
      RoundTrips-seq _ _ decode_u64 _ m.id _ (decode_u64-encode_u64 _ hi) (
        RoundTrips-seq _ _ decode_u64 _ m.error_code _ (decode_u64-encode_u64 _ hc) (
          RoundTrips-map _ (decode_string is_utf8 reason_phrase)
            (λ (s : List ℕ). record m { reason_phrase = s }) m.reason_phrase
            (decode_string-encode_string is_utf8 reason_phrase m.reason_phrase good h)))

  pub go_away-RoundTrips :
      (m : GoAway)
      → is_utf8 m.uri ≡ true
      → length m.uri ≤ 8192
      → RoundTrips (encode_go_away m) (decode_go_away is_utf8) m
  unfolding encode_go_away decode_go_away
  go_away-RoundTrips m good h =
      RoundTrips-map _ (decode_string is_utf8 session_uri) (λ (s : List ℕ). record { uri = s })
        m.uri (decode_string-encode_string is_utf8 session_uri m.uri good h)
