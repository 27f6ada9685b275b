-- ===== src/Coding/BoundedString.antt =====
-- moq-transport/src/coding/bounded_string.rs: strings of UTF-8 up to a maximal length. A `String`
-- is its bytes. What bytes are UTF-8 is the standard library's to say, and a parameter here.
use moq_rs.Prelude.{ℕ, List, length, ltb, Bool, not, ◌≤◌, String, true, ◌≡◌, arith, false, ◌<◌, ◌^◌}
use moq_rs.Coding.Errors.{DecodeError, EncodeError}
use moq_rs.Coding.Reader.{Decoder, pure, ◌>>=◌, ◌>>◌, reject_if, decode_remaining, copy_to_slice}
use moq_rs.Coding.Writer.{Encoder, ◌⨟◌, refuse_if, encode_remaining, put_slice}
use moq_rs.Coding.VarInt.{decode_u64, encode_u64}
use moq_rs.Coding.VarInt.RoundTrip.{decode_u64-encode_u64}
use moq_rs.Coding.RoundTrip.{
  RoundTrips, RoundTrips-seq, RoundTrips-slice, RoundTrips-enc_check, RoundTrips-dec_check,
}

-- `ReasonPhrase` and `SessionUri`, with their names and `MAX_LEN`.
pub data StringKind : Type 0 where
  reason_phrase session_uri : StringKind

abbrev pub kind_name : StringKind → String
kind_name reason_phrase = "ReasonPhrase"
kind_name session_uri = "SessionUri"

abbrev pub max_len : StringKind → ℕ
max_len reason_phrase = 1024
max_len session_uri = 8192

unfoldable pub encode_string : StringKind → List ℕ → Encoder (Unit {0})
encode_string kind s =
    refuse_if (ltb (max_len kind) (length s)) (EncodeError.field_bounds_exceeded (kind_name kind))
    ⨟ encode_u64 (length s)
    ⨟ encode_remaining (length s)
    ⨟ put_slice s

unfoldable pub decode_string : (List ℕ → Bool) → StringKind → Decoder (List ℕ)
decode_string is_utf8 kind = do
  size ← decode_u64
  reject_if (ltb (max_len kind) size) (DecodeError.field_bounds_exceeded (kind_name kind))
  decode_remaining size
  buf ← copy_to_slice size
  reject_if (not (is_utf8 buf)) DecodeError.invalid_string
  pure buf

short_kind : (kind : StringKind) → max_len kind < 2 ^ 62
short_kind reason_phrase = omega arith
short_kind session_uri = omega arith

pub decode_string-encode_string :
    (is_utf8 : List ℕ → Bool) (kind : StringKind) (s : List ℕ)
    → is_utf8 s ≡ true
    → length s ≤ max_len kind
    → RoundTrips (encode_string kind s) (decode_string is_utf8 kind) s
unfolding encode_string decode_string
decode_string-encode_string is_utf8 kind s good h =
    let fits : ltb (max_len kind) (length s) ≡ false = ground arith in
    RoundTrips-enc_check _ _ _ _ s fits (
      RoundTrips-seq _ _ decode_u64 _ (length s) s
        (decode_u64-encode_u64 (length s) (omega (arith, short_kind kind)))
        (RoundTrips-dec_check _ _ _ _ s fits (
          RoundTrips-slice s (λ v. reject_if (not (is_utf8 v)) DecodeError.invalid_string >> pure v)
            s (λ rest. rw good))))
