-- ===== src/Session/Error.antt =====
-- moq-transport/src/session/error.rs. The errors of other crates and of `serve` are left out: no
-- modelled operation returns them.
use moq_rs.Prelude.{ℕ, String}
use moq_rs.Coding.Errors.{EncodeError, DecodeError}

pub data SessionError : Type 0 where
  encode : EncodeError → SessionError
  decode : DecodeError → SessionError
  role_violation : SessionError
  bounds_exceeded : SessionError
  duplicate : SessionError
  internal : SessionError
  wrong_size : SessionError
  invalid_path : String → SessionError
  invalid_request_id : SessionError
  too_many_requests : SessionError
  protocol_violation : String → SessionError

-- `SessionError::code`
unfoldable pub code : SessionError → ℕ
code (encode e) = 0x1
code (decode e) = 0x3
code role_violation = 0x3
code bounds_exceeded = 0x1
code duplicate = 0x5
code internal = 0x1
code wrong_size = 0x3
code (invalid_path p) = 0x3
code invalid_request_id = 0x4
code too_many_requests = 0x7
code (protocol_violation m) = 0x3
