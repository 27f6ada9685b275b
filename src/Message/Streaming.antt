-- ===== src/Message/Streaming.antt =====
-- Which decoders of moq-transport/src/message can read from a buffer that is still filling: all but
-- those of the messages with track extensions, which read to the end of the buffer.
use moq_rs.Coding.BoundedString.{StringKind, decode_string, max_len, session_uri, reason_phrase}
use moq_rs.Coding.KeyValuePairs.{KeyValuePairs, decode_kvps}
use moq_rs.Coding.KeyValuePairs.Wire.{kvps-IsStreaming}
use moq_rs.Coding.Location.{decode_location, decode_location-IsStreaming}
use moq_rs.Coding.TrackNamespace.{
  TrackName, TrackNamespace, decode_name, decode_namespace, decode_prefix, full_track_name_len,
  max_full_track_name_len, validate_full_track_name,
}
use moq_rs.Coding.TrackNamespace.Wire.{name-IsStreaming, namespace-IsStreaming, prefix-IsStreaming}
use moq_rs.Coding.VarInt.{decode_u64}
use moq_rs.Coding.VarInt.Decode.{u64-IsStreaming}
use moq_rs.Message.Fetch.{
  FetchType, decode_fetch, decode_fetch_type, decode_joining, decode_standalone, decode_target,
  fetch_type, absolute_joining, relative_joining, standalone,
}
use moq_rs.Message.Params.{
  decode_max_request_id, decode_publish_namespace, decode_publish_ok, decode_request_ok,
  decode_request_update, decode_requests_blocked,
}
use moq_rs.Message.Reasons.{
  decode_cancel, decode_go_away, decode_publish_done, decode_request_error,
}
use moq_rs.Message.Singles.{
  decode_fetch_cancel, decode_namespace_done, decode_namespace_message,
  decode_publish_namespace_done, decode_unsubscribe,
}
use moq_rs.Message.Subscribe.{
  decode_subscribe_namespace, decode_subscribe_options, decode_track_status, subscribe_options,
}
use moq_rs.Coding.Reader.{Decoder, ◌>>=◌, pure, ◌>>◌}
use moq_rs.Coding.Streaming.{
  IsStreaming-throw, IsStreaming, IsStreaming-if, IsStreaming-slice, IsStreaming-check,
  IsStreaming-pure, IsStreaming-bind,
}
use moq_rs.Prelude.{Bool, ℕ, ◌==◌, ltb, refl, not, List}

module _ {A : Type 0} where
  -- The next field is a number.
  number_then : (f : ℕ → Decoder A) → ((n : ℕ) → IsStreaming (f n)) → IsStreaming (decode_u64 >>= f)
  number_then f h = IsStreaming-bind decode_u64 f u64-IsStreaming h

  -- The parameters come last.
  params_last : (f : KeyValuePairs → A) → IsStreaming (decode_kvps >>= λ k. pure (f k))
  params_last f = IsStreaming-bind decode_kvps _ kvps-IsStreaming (λ k. IsStreaming-pure (f k))

  -- A namespace and a track name that are checked together.
  full_name_then :
      (f : TrackNamespace → TrackName → Decoder A)
      → ((n : TrackNamespace) (t : TrackName) → IsStreaming (f n t))
      → IsStreaming (
          decode_namespace >>= λ n.
          decode_name >>= λ t. validate_full_track_name n t.value >> f n t)
  unfolding validate_full_track_name
  full_name_then f h = IsStreaming-bind decode_namespace _ namespace-IsStreaming λ n.
      IsStreaming-bind decode_name _ name-IsStreaming λ t.
        IsStreaming-check (ltb max_full_track_name_len (full_track_name_len n t.value)) _ _ refl
          (h n t)

pub decode_request_ok-IsStreaming : IsStreaming decode_request_ok
unfolding decode_request_ok
decode_request_ok-IsStreaming = number_then _ λ i. params_last _

pub decode_publish_ok-IsStreaming : IsStreaming decode_publish_ok
unfolding decode_publish_ok
decode_publish_ok-IsStreaming = number_then _ λ i. params_last _

pub decode_request_update-IsStreaming : IsStreaming decode_request_update
unfolding decode_request_update
decode_request_update-IsStreaming = number_then _ λ i. number_then _ λ e. params_last _

pub decode_publish_namespace-IsStreaming : IsStreaming decode_publish_namespace
unfolding decode_publish_namespace
decode_publish_namespace-IsStreaming =
    number_then _ λ i. IsStreaming-bind decode_namespace _ namespace-IsStreaming λ n. params_last _

pub decode_max_request_id-IsStreaming : IsStreaming decode_max_request_id
unfolding decode_max_request_id
decode_max_request_id-IsStreaming = number_then _ λ i. IsStreaming-pure _

pub decode_requests_blocked-IsStreaming : IsStreaming decode_requests_blocked
unfolding decode_requests_blocked
decode_requests_blocked-IsStreaming = number_then _ λ i. IsStreaming-pure _

pub decode_unsubscribe-IsStreaming : IsStreaming decode_unsubscribe
unfolding decode_unsubscribe
decode_unsubscribe-IsStreaming = number_then _ λ i. IsStreaming-pure _

pub decode_fetch_cancel-IsStreaming : IsStreaming decode_fetch_cancel
unfolding decode_fetch_cancel
decode_fetch_cancel-IsStreaming = number_then _ λ i. IsStreaming-pure _

pub decode_publish_namespace_done-IsStreaming : IsStreaming decode_publish_namespace_done
unfolding decode_publish_namespace_done
decode_publish_namespace_done-IsStreaming = number_then _ λ i. IsStreaming-pure _

pub decode_namespace_message-IsStreaming : IsStreaming decode_namespace_message
unfolding decode_namespace_message
decode_namespace_message-IsStreaming =
    IsStreaming-bind decode_prefix _ prefix-IsStreaming λ p. IsStreaming-pure _

pub decode_namespace_done-IsStreaming : IsStreaming decode_namespace_done
unfolding decode_namespace_done
decode_namespace_done-IsStreaming =
    IsStreaming-bind decode_prefix _ prefix-IsStreaming λ p. IsStreaming-pure _

pub decode_track_status-IsStreaming : IsStreaming decode_track_status
unfolding decode_track_status
decode_track_status-IsStreaming = number_then _ λ i. full_name_then _ λ n t. params_last _

subscribe_options-IsStreaming : (n : ℕ) → IsStreaming (subscribe_options n)
unfolding subscribe_options
subscribe_options-IsStreaming n = IsStreaming-if (n == 0) _ _ (IsStreaming-pure _) (
    IsStreaming-if (n == 1) _ _ (IsStreaming-pure _)
      (IsStreaming-if (n == 2) _ _ (IsStreaming-pure _) (IsStreaming-throw _ refl)))

pub decode_subscribe_namespace-IsStreaming : IsStreaming decode_subscribe_namespace
unfolding decode_subscribe_namespace decode_subscribe_options
decode_subscribe_namespace-IsStreaming = number_then _ λ i.
    IsStreaming-bind decode_prefix _ prefix-IsStreaming λ p.
      IsStreaming-bind (decode_u64 >>= subscribe_options) _
        (number_then subscribe_options subscribe_options-IsStreaming) λ o. params_last _

fetch_type-IsStreaming : (n : ℕ) → IsStreaming (fetch_type n)
unfolding fetch_type
fetch_type-IsStreaming n = IsStreaming-if (n == 1) _ _ (IsStreaming-pure _) (
    IsStreaming-if (n == 2) _ _ (IsStreaming-pure _)
      (IsStreaming-if (n == 3) _ _ (IsStreaming-pure _) (IsStreaming-throw _ refl)))

decode_standalone-IsStreaming : IsStreaming decode_standalone
unfolding decode_standalone
decode_standalone-IsStreaming = full_name_then _ λ n t.
    IsStreaming-bind decode_location _ decode_location-IsStreaming
      λ s. IsStreaming-bind decode_location _ decode_location-IsStreaming λ e. IsStreaming-pure _

decode_joining-IsStreaming : IsStreaming decode_joining
unfolding decode_joining
decode_joining-IsStreaming = number_then _ λ r. number_then _ λ s. IsStreaming-pure _

decode_target-IsStreaming : (kind : FetchType) → IsStreaming (decode_target kind)
unfolding decode_target
decode_target-IsStreaming standalone =
    IsStreaming-bind decode_standalone _ decode_standalone-IsStreaming λ f. IsStreaming-pure _
decode_target-IsStreaming relative_joining =
    IsStreaming-bind decode_joining _ decode_joining-IsStreaming λ f. IsStreaming-pure _
decode_target-IsStreaming absolute_joining =
    IsStreaming-bind decode_joining _ decode_joining-IsStreaming λ f. IsStreaming-pure _

pub decode_fetch-IsStreaming : IsStreaming decode_fetch
unfolding decode_fetch decode_fetch_type
decode_fetch-IsStreaming = number_then _ λ i.
    IsStreaming-bind (decode_u64 >>= fetch_type) _ (number_then fetch_type fetch_type-IsStreaming)
      λ kind.
        IsStreaming-bind (decode_target kind) _ (decode_target-IsStreaming kind)
          λ target. params_last _

module _ (is_utf8 : List ℕ → Bool) where
  decode_string-IsStreaming : (kind : StringKind) → IsStreaming (decode_string is_utf8 kind)
  unfolding decode_string
  decode_string-IsStreaming kind = number_then _ λ size.
      IsStreaming-check (ltb (max_len kind) size) _ _ refl (
        IsStreaming-slice size _
          λ buf. IsStreaming-check (not (is_utf8 buf)) _ _ refl (IsStreaming-pure buf))

  string_last :
      {A : Type 0} (kind : StringKind) (f : List ℕ → A)
      → IsStreaming (decode_string is_utf8 kind >>= λ s. pure (f s))
  string_last kind f =
      IsStreaming-bind (decode_string is_utf8 kind) _ (decode_string-IsStreaming kind)
        λ s. IsStreaming-pure (f s)

  pub decode_request_error-IsStreaming : IsStreaming (decode_request_error is_utf8)
  unfolding decode_request_error
  decode_request_error-IsStreaming =
      number_then _ λ i. number_then _ λ c. number_then _ λ r. string_last reason_phrase _

  pub decode_publish_done-IsStreaming : IsStreaming (decode_publish_done is_utf8)
  unfolding decode_publish_done
  decode_publish_done-IsStreaming =
      number_then _ λ i. number_then _ λ s. number_then _ λ c. string_last reason_phrase _

  pub decode_cancel-IsStreaming : IsStreaming (decode_cancel is_utf8)
  unfolding decode_cancel
  decode_cancel-IsStreaming = number_then _ λ i. number_then _ λ c. string_last reason_phrase _

  pub decode_go_away-IsStreaming : IsStreaming (decode_go_away is_utf8)
  unfolding decode_go_away
  decode_go_away-IsStreaming = string_last session_uri _
