-- ===== src/Coding/Streaming/Cut.antt =====
-- What a streaming decoder answers to the first part of the bytes of a value.
use moq_rs.Prelude.{
  ℕ, ◌<◌, ◌≤◌, ◌≡◌, ◌++◌, List, [], length, leb, arith, Option-cases, some, inl, inr, ap, ◌∙◌,
  Bool-cases, length-append,
}
use moq_rs.Coding.Errors.{ok, err, DecodeError, Outcome-cases}
use moq_rs.Coding.Reader.{Decoder}
use moq_rs.Coding.Streaming.{IsStreaming, awaits}

pub awaits-more : (e : DecodeError) (n : ℕ) → awaits e ≡ some n → e ≡ DecodeError.more n
awaits-more (DecodeError.more a) n h = cc
awaits-more (DecodeError.invalid_length a b) n h = cc
awaits-more DecodeError.invalid_string n h = cc
awaits-more (DecodeError.invalid_message a) n h = cc
awaits-more DecodeError.invalid_subscribe_location n h = cc
awaits-more DecodeError.invalid_filter_type n h = cc
awaits-more DecodeError.invalid_fetch_type n h = cc
awaits-more DecodeError.invalid_group_order n h = cc
awaits-more DecodeError.invalid_object_status n h = cc
awaits-more DecodeError.invalid_header_type n h = cc
awaits-more DecodeError.invalid_value n h = cc
awaits-more DecodeError.bounds_exceeded n h = cc
awaits-more (DecodeError.duplicate_parameter a) n h = cc
awaits-more DecodeError.missing_parameter n h = cc
awaits-more DecodeError.invalid_parameter n h = cc
awaits-more DecodeError.io n h = cc
awaits-more DecodeError.key_value_pair_length_exceeded n h = cc
awaits-more DecodeError.kvp_type_overflow n h = cc
awaits-more (DecodeError.field_bounds_exceeded a) n h = cc
awaits-more DecodeError.empty_namespace_field n h = cc
awaits-more DecodeError.track_name_too_long n h = cc
awaits-more DecodeError.invalid_datagram_type n h = cc
awaits-more (DecodeError.invalid_subscribe_options a) n h = cc

-- Bytes that are all of a value, cut short: the decoder asks for more, and not for more than is
-- missing.
pub cut_awaits :
    {A : Type 0} (dec : Decoder A) (front back : List ℕ) (a : A)
    → IsStreaming dec
    → dec (front ++ back) ≡ ok (a, [])
    → 0 < length back
    → (n : ℕ) × (dec front ≡ err (DecodeError.more n)) × (n ≤ length back)
cut_awaits dec front back a h whole missing = elim (Outcome-cases (dec front)) [
  | inl (inl ((b, s), p)) ↦
      let e = h.ok_extends front back b s p in
      let empty : s ++ back ≡ [] = cc in
      let none_left : length (s ++ back) ≡ 0 = ap length empty in
      absurd (omega (arith, length-append s back))
  | inl (inr (e, p)) ↦ elim (Option-cases (awaits e)) [
    | inl w ↦ cc (h.err_extends front back e p w)
    | inr (n, w) ↦
        let q : dec front ≡ err (DecodeError.more n) = p ∙ ap (λ x. err x) (awaits-more e n w) in
        elim (Bool-cases (leb n (length back))) [
          | inl le ↦ (n, q, ground arith)
          | inr gt ↦ cc (h.more_waits front back n q (ground arith))
        ]
  ]
  | inr p ↦ elim (h.safe front p) [ ]
]
