-- ===== src/Coding/KeyValuePairs.antt =====
-- moq-transport/src/coding/kvp.rs: key-value pairs. On the wire a key is its distance from the key
-- before it; an even key has a number and an odd one bytes. The capacity that the decoder reserves
-- is left out: it changes no result.
pub mod Wire
pub mod Table
pub mod ToEnd
use moq_rs.Prelude.{
  ℕ, zero, suc, ◌+◌, ◌-◌, ◌%◌, ◌^◌, List, [], ◌∷◌, length, ltb, leb, ◌==◌, ◌&&◌, not, if◌then◌else◌,
  Bool, true, false, Option, some, none, contains,
}
use moq_rs.Coding.Errors.{EncodeError, DecodeError}
use moq_rs.Coding.Reader.{Decoder, pure, ◌>>=◌, ◌>>◌, reject_if, decode_remaining, copy_to_slice}
use moq_rs.Coding.Writer.{Encoder, and_then, ◌⨟◌, done, refuse_if, encode_remaining, put_slice}
use moq_rs.Coding.VarInt.{decode_u64, encode_u64}

-- `MAX_BYTES_VALUE_LEN`
abbrev pub max_bytes_value_len : ℕ
max_bytes_value_len = 2 ^ 16 - 1

pub data Value : Type 0 where
  int_value : ℕ → Value
  bytes_value : List ℕ → Value

pub record KeyValuePair : Type 0 where
  pub key : ℕ
  pub value : Value

-- The two arms of `decode_with_prev`, for the absolute key.
unfoldable pub decode_int_pair : ℕ → Decoder (KeyValuePair × ℕ)
decode_int_pair abs_type = do
  value ← decode_u64
  pure (record { key = abs_type; value = int_value value }, abs_type)

unfoldable pub decode_bytes_pair : ℕ → Decoder (KeyValuePair × ℕ)
decode_bytes_pair abs_type = do
  size ← decode_u64
  reject_if (ltb max_bytes_value_len size) DecodeError.key_value_pair_length_exceeded
  decode_remaining size
  buf ← copy_to_slice size
  pure (record { key = abs_type; value = bytes_value buf }, abs_type)

unfoldable pub decode_pair : ℕ → Decoder (KeyValuePair × ℕ)
unfolding decode_int_pair decode_bytes_pair
decode_pair abs_type =
    if abs_type % 2 == 0 then decode_int_pair abs_type else decode_bytes_pair abs_type

unfoldable pub decode_with_prev : ℕ → Decoder (KeyValuePair × ℕ)
unfolding decode_pair
decode_with_prev prev = do
  delta ← decode_u64
  reject_if (leb (2 ^ 64) (prev + delta)) DecodeError.kvp_type_overflow
  decode_pair (prev + delta)

-- Whether `encode_with_prev` refuses the key of the value.
abbrev pub wrong_parity : Value → ℕ → Bool
wrong_parity (int_value v) key = not (key % 2 == 0)
wrong_parity (bytes_value v) key = key % 2 == 0

unfoldable pub encode_value : Value → Encoder (Unit {0})
encode_value (int_value v) = encode_u64 v
encode_value (bytes_value v) =
    refuse_if (ltb max_bytes_value_len (length v)) EncodeError.key_value_pair_length_exceeded
    ⨟ encode_u64 (length v)
    ⨟ encode_remaining (length v)
    ⨟ put_slice v

unfoldable pub encode_with_prev : KeyValuePair → ℕ → Encoder ℕ
unfolding encode_value
encode_with_prev p prev =
    (refuse_if (wrong_parity p.value p.key) EncodeError.invalid_value
      ⨟ refuse_if (ltb p.key prev) EncodeError.kvp_key_order
      ⨟ encode_u64 (p.key - prev)
      ⨟ encode_value p.value)
    ⨟ done p.key

pub record KeyValuePairs : Type 0 where
  pub pairs : List KeyValuePair

-- The loop of `KeyValuePairs::decode`.
unfoldable pub decode_pairs : ℕ → ℕ → Decoder (List KeyValuePair)
unfolding decode_with_prev
decode_pairs zero prev = pure []
decode_pairs (suc count) prev = decode_with_prev prev >>= λ (q : KeyValuePair × ℕ).
    decode_pairs count q.1 >>= λ rest. pure (q.0 ∷ rest)

unfoldable pub decode_kvps : Decoder KeyValuePairs
unfolding decode_pairs
decode_kvps = do count ← decode_u64; kvps ← decode_pairs count 0; pure (record { pairs = kvps })

-- `sort_by_key`, which keeps the order of equal keys.
unfoldable pub insert_by_key : KeyValuePair → List KeyValuePair → List KeyValuePair
insert_by_key p [] = p ∷ []
insert_by_key p (q ∷ qs) =
    let rest = insert_by_key p qs in if leb p.key q.key then p ∷ q ∷ qs else q ∷ rest

unfoldable pub sort_by_key : List KeyValuePair → List KeyValuePair
unfolding insert_by_key
sort_by_key [] = []
sort_by_key (p ∷ ps) = insert_by_key p (sort_by_key ps)

-- The loop of `KeyValuePairs::encode`.
unfoldable pub encode_pairs : List KeyValuePair → ℕ → Encoder (Unit {0})
unfolding encode_with_prev
encode_pairs [] prev = done tt
encode_pairs (p ∷ ps) prev = and_then (encode_with_prev p prev) (λ next. encode_pairs ps next)

unfoldable pub encode_kvps : KeyValuePairs → Encoder (Unit {0})
unfolding encode_pairs sort_by_key
encode_kvps k =
    let sorted = sort_by_key k.pairs in encode_u64 (length sorted) ⨟ encode_pairs sorted 0

-- `set`: the first pair of the key is replaced, or the pair comes last.
unfoldable pub set_pair : KeyValuePair → List KeyValuePair → List KeyValuePair
set_pair p [] = p ∷ []
set_pair p (q ∷ qs) = let rest = set_pair p qs in if q.key == p.key then p ∷ qs else q ∷ rest

unfoldable pub find_pair : ℕ → List KeyValuePair → Option KeyValuePair
find_pair k [] = none
find_pair k (q ∷ qs) = let rest = find_pair k qs in if q.key == k then some q else rest

unfoldable pub has_key : ℕ → List KeyValuePair → Bool
has_key k [] = false
has_key k (q ∷ qs) = let rest = has_key k qs in if q.key == k then true else rest

-- `has_duplicate_keys`: `insert` into the set of the keys seen fails.
unfoldable pub duplicate_keys : List ℕ → List KeyValuePair → Bool
unfolding contains
duplicate_keys seen [] = false
duplicate_keys seen (q ∷ qs) =
    let rest = duplicate_keys (q.key ∷ seen) qs in if contains seen q.key then true else rest
