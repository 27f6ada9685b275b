-- ===== src/Coding/Errors.antt =====
-- coding/decode.rs and coding/encode.rs of moq-transport: the two error enumerations. The text
-- inside `InvalidString` and `Io`, which comes from the standard library, is left out.
use moq_rs.Prelude.{ℕ, String, ◌≡◌, refl, ◌⊎◌, inl, inr}

-- A Rust call returns a value, returns an error, or panics.
pub data Outcome {ℓ} (E : Type 0) (A : Type ℓ) : Type ℓ where
  ok : A → Outcome E A
  err : E → Outcome E A
  panicked : Outcome E A

pub data DecodeError : Type 0 where
  more : ℕ → DecodeError
  invalid_length : ℕ → ℕ → DecodeError
  invalid_string : DecodeError
  invalid_message : ℕ → DecodeError
  invalid_subscribe_location : DecodeError
  invalid_filter_type : DecodeError
  invalid_fetch_type : DecodeError
  invalid_group_order : DecodeError
  invalid_object_status : DecodeError
  invalid_header_type : DecodeError
  invalid_value : DecodeError
  bounds_exceeded : DecodeError
  duplicate_parameter : ℕ → DecodeError
  missing_parameter : DecodeError
  invalid_parameter : DecodeError
  io : DecodeError
  key_value_pair_length_exceeded : DecodeError
  kvp_type_overflow : DecodeError
  field_bounds_exceeded : String → DecodeError
  empty_namespace_field : DecodeError
  track_name_too_long : DecodeError
  invalid_datagram_type : DecodeError
  invalid_subscribe_options : ℕ → DecodeError

pub data EncodeError : Type 0 where
  more : ℕ → EncodeError
  bounds_exceeded : EncodeError
  invalid_value : EncodeError
  missing_field : String → EncodeError
  io : EncodeError
  msg_bounds_exceeded : EncodeError
  field_bounds_exceeded : String → EncodeError
  kvp_key_order : EncodeError
  key_value_pair_length_exceeded : EncodeError
  empty_namespace_field : EncodeError

-- To split on what a call returned and keep the equation.
pub Outcome-cases {ℓ} :
    {E : Type 0} {A : Type ℓ} (o : Outcome E A)
    → (((a : A) × (o ≡ ok a)) ⊎ ((e : E) × (o ≡ err e))) ⊎ (o ≡ panicked)
Outcome-cases (ok a) = inl (inl (a, refl))
Outcome-cases (err e) = inl (inr (e, refl))
Outcome-cases panicked = inr refl
