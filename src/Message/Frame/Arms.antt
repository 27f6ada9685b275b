-- ===== src/Message/Frame/Arms.antt =====
-- The arms of `decode` of moq-transport/src/message/mod.rs that can tell where a payload ends.
use moq_rs.Prelude.{ℕ, List, ◌≡◌, refl, true, Bool, false, some}
use moq_rs.Coding.Reader.{Decoder, pure, ◌>>=◌}
use moq_rs.Coding.Streaming.{IsStreaming, IsStreaming-bind, IsStreaming-pure}
use moq_rs.Message.Fetch.{decode_fetch}
use moq_rs.Message.Frame.{Message, message_id, payload_decoder}
use moq_rs.Message.Params.{
  decode_max_request_id, decode_publish_namespace, decode_publish_ok, decode_request_ok,
  decode_request_update, decode_requests_blocked,
}
use moq_rs.Message.Reasons.{
  decode_cancel, decode_go_away, decode_publish_done, decode_request_error,
}
use moq_rs.Message.Singles.{
  decode_fetch_cancel, decode_namespace_done, decode_namespace_message,
  decode_publish_namespace_done, decode_unsubscribe,
}
use moq_rs.Message.Streaming.{
  decode_cancel-IsStreaming, decode_fetch-IsStreaming, decode_fetch_cancel-IsStreaming,
  decode_go_away-IsStreaming, decode_max_request_id-IsStreaming, decode_namespace_done-IsStreaming,
  decode_namespace_message-IsStreaming, decode_publish_done-IsStreaming,
  decode_publish_namespace-IsStreaming, decode_publish_namespace_done-IsStreaming,
  decode_publish_ok-IsStreaming, decode_request_error-IsStreaming, decode_request_ok-IsStreaming,
  decode_request_update-IsStreaming, decode_requests_blocked-IsStreaming,
  decode_subscribe_namespace-IsStreaming, decode_track_status-IsStreaming,
  decode_unsubscribe-IsStreaming,
}
use moq_rs.Message.Subscribe.{
  decode_subscribe, decode_subscribe_namespace, decode_track_status, subscribe-IsStreaming,
}

-- Messages whose last part goes on for as long as the payload does: the track extensions, or the
-- bytes of an unknown type.
abbrev pub runs_to_end : Message → Bool
runs_to_end (Message.subscribe_ok m) = true
runs_to_end (Message.publish m) = true
runs_to_end (Message.fetch_ok m) = true
runs_to_end (Message.unknown t payload) = true
runs_to_end _ = false

module _ (is_utf8 : List ℕ → Bool) where
  abbrev pub StreamingArm : Message → Type 0
  StreamingArm m =
      (dec : Decoder Message) × (payload_decoder is_utf8 (message_id m) ≡ some dec)
      × IsStreaming dec

  wrapped :
      {A : Type 0} (dec : Decoder A) (wrap : A → Message)
      → IsStreaming dec
      → IsStreaming (dec >>= λ m. pure (wrap m))
  wrapped dec wrap h = IsStreaming-bind dec _ h λ m. IsStreaming-pure (wrap m)

  -- The decoder of a payload that ends by itself asks for more where the payload stops.
  pub streaming_arm : (m : Message) → runs_to_end m ≡ false → StreamingArm m
  unfolding message_id payload_decoder
  streaming_arm (Message.request_update m) e = (
    _,
    refl,
    wrapped decode_request_update Message.request_update decode_request_update-IsStreaming,
  )
  streaming_arm (Message.request_error m) e = (
    _,
    refl,
    wrapped (decode_request_error is_utf8) Message.request_error
        (decode_request_error-IsStreaming is_utf8),
  )
  streaming_arm (Message.request_ok m) e =
      (_, refl, wrapped decode_request_ok Message.request_ok decode_request_ok-IsStreaming)
  streaming_arm (Message.subscribe m) e =
      (_, refl, wrapped decode_subscribe Message.subscribe subscribe-IsStreaming)
  streaming_arm (Message.unsubscribe m) e =
      (_, refl, wrapped decode_unsubscribe Message.unsubscribe decode_unsubscribe-IsStreaming)
  streaming_arm (Message.publish_namespace m) e = (
    _,
    refl,
    wrapped decode_publish_namespace Message.publish_namespace decode_publish_namespace-IsStreaming,
  )
  streaming_arm (Message.namespace m) e = (
    _,
    refl,
    wrapped decode_namespace_message Message.namespace decode_namespace_message-IsStreaming,
  )
  streaming_arm (Message.publish_namespace_done m) e = (
    _,
    refl,
    wrapped decode_publish_namespace_done Message.publish_namespace_done
        decode_publish_namespace_done-IsStreaming,
  )
  streaming_arm (Message.namespace_done m) e = (
    _,
    refl,
    wrapped decode_namespace_done Message.namespace_done decode_namespace_done-IsStreaming,
  )
  streaming_arm (Message.publish_namespace_cancel m) e = (
    _,
    refl,
    wrapped (decode_cancel is_utf8) Message.publish_namespace_cancel
        (decode_cancel-IsStreaming is_utf8),
  )
  streaming_arm (Message.track_status m) e =
      (_, refl, wrapped decode_track_status Message.track_status decode_track_status-IsStreaming)
  streaming_arm (Message.publish_done m) e = (
    _,
    refl,
    wrapped (decode_publish_done is_utf8) Message.publish_done
        (decode_publish_done-IsStreaming is_utf8),
  )
  streaming_arm (Message.publish_ok m) e =
      (_, refl, wrapped decode_publish_ok Message.publish_ok decode_publish_ok-IsStreaming)
  streaming_arm (Message.fetch m) e =
      (_, refl, wrapped decode_fetch Message.fetch decode_fetch-IsStreaming)
  streaming_arm (Message.fetch_cancel m) e =
      (_, refl, wrapped decode_fetch_cancel Message.fetch_cancel decode_fetch_cancel-IsStreaming)
  streaming_arm (Message.subscribe_namespace m) e = (
    _,
    refl,
    wrapped decode_subscribe_namespace Message.subscribe_namespace
        decode_subscribe_namespace-IsStreaming,
  )
  streaming_arm (Message.go_away m) e = (
    _,
    refl,
    wrapped (decode_go_away is_utf8) Message.go_away (decode_go_away-IsStreaming is_utf8),
  )
  streaming_arm (Message.max_request_id m) e = (
    _,
    refl,
    wrapped decode_max_request_id Message.max_request_id decode_max_request_id-IsStreaming,
  )
  streaming_arm (Message.requests_blocked m) e = (
    _,
    refl,
    wrapped decode_requests_blocked Message.requests_blocked decode_requests_blocked-IsStreaming,
  )
  streaming_arm (Message.subscribe_ok m) e = cc
  streaming_arm (Message.publish m) e = cc
  streaming_arm (Message.fetch_ok m) e = cc
  streaming_arm (Message.unknown t payload) e = cc
