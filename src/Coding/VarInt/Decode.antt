-- ===== src/Coding/VarInt/Decode.antt =====
-- The decoder on any bytes.
use native.Mathlib.Nat.{zero-mul, zero-add, pow-suc, mul-le-mul_right}
use moq_rs.Coding.AtEnd.{Consumes}
use moq_rs.Coding.VarInt.{decode_u64, decode_arm, decode_tail, decode_body, decode_varint}
use moq_rs.Prelude.{
  ◌≤◌, sym, ◌∙◌, bit_and_low, Bool-cases, length-take, ltb, inl, inr, ap, take, zero, suc, ◌%◌,
  IsByte, ℕ, ◌/◌, ◌^◌, ◌<◌, ◌≡◌, ◌+◌, ◌*◌, List, [], ◌∷◌, arith, bit_and, length, All,
  length-append,
}
use moq_rs.Coding.Errors.{ok}
use moq_rs.Coding.Reader.{
  bind-ok, decode_remaining-enough, read_slice-short, read_slice-enough, get_u8, decode_remaining,
  ◌>>=◌, from_be_bytes, pure,
}
use moq_rs.Coding.Streaming.{IsStreaming, IsStreaming-byte, IsStreaming-slice, IsStreaming-pure}

tail-IsStreaming : (n first : ℕ) → IsStreaming (decode_tail n first)
unfolding decode_tail
tail-IsStreaming n first =
    IsStreaming-slice n (λ t. pure (from_be_bytes 0 (first ∷ t))) (λ t. IsStreaming-pure _)

arm-IsStreaming : (tag first : ℕ) → tag < 4 → IsStreaming (decode_arm tag first)
unfolding decode_arm
arm-IsStreaming zero first h = IsStreaming-pure first
arm-IsStreaming (suc zero) first h = tail-IsStreaming 1 first
arm-IsStreaming (suc (suc zero)) first h = tail-IsStreaming 3 first
arm-IsStreaming (suc (suc (suc zero))) first h = tail-IsStreaming 7 first
arm-IsStreaming (suc (suc (suc (suc tag)))) first h = absurd (omega arith)

body-IsStreaming : (b : ℕ) → IsStreaming (decode_body b)
unfolding decode_body
body-IsStreaming b = arm-IsStreaming (b % 2 ^ 8 / 2 ^ 6) _ (omega arith)

-- On any buffer, well formed or not, decode_varint does not panic, gives no answer that later
-- bytes change, answers More(n) only if n bytes are missing, and leaves a suffix of the buffer.
pub decode_varint-IsStreaming : IsStreaming decode_varint
unfolding decode_varint
decode_varint-IsStreaming = IsStreaming-byte decode_body body-IsStreaming

-- The value of `bs` behind that of the bytes before them.
from_be_bytes_bound :
    (acc : ℕ) (bs : List ℕ) → All IsByte bs → from_be_bytes acc bs < (acc + 1) * 256 ^ length bs
unfolding from_be_bytes
from_be_bytes_bound acc [] h = omega arith
from_be_bytes_bound acc (b ∷ bs) (hb, hbs) =
    let p = 256 ^ length bs in
    let wider : (acc * 256 + b + 1) * p ≤ ((acc + 1) * 256) * p =
      mul-le-mul_right p (omega arith) in
    omega (
      arith,
      wider,
      pow-suc 256 (length bs),
      from_be_bytes_bound (acc * 256 + b) bs hbs,
      ap (λ (t : ℕ). (acc + 1) * t) (pow-suc 256 (length bs)),
    )

from_be_bytes_step : (b : ℕ) (bs : List ℕ) → from_be_bytes 0 (b ∷ bs) ≡ from_be_bytes b bs
unfolding from_be_bytes
from_be_bytes_step b bs = rw zero-mul (rw zero-add)

-- A slice of a byte buffer holds bytes.
take-IsByte : (n : ℕ) (r : List ℕ) → All IsByte r → All IsByte (take n r)
take-IsByte zero r h = tt
take-IsByte (suc n) [] h = tt
take-IsByte (suc n) (b ∷ r) (hb, h) = (hb, take-IsByte n r h)

tail_range :
    (n first x : ℕ) (r s : List ℕ)
    → All IsByte r
    → decode_tail n first r ≡ ok (x, s)
    → x < (first + 1) * 256 ^ n
unfolding decode_tail
tail_range n first x r s h e =
    let k = λ (t : List ℕ). pure (from_be_bytes 0 (first ∷ t)) in
    elim (Bool-cases (ltb (length r) n)) [
      | inl short ↦ cc (read_slice-short n k r (ground arith))
      | inr long ↦ ground (
        arith,
        read_slice-enough n k r (ground arith),
        length-take n r (ground arith),
        from_be_bytes_bound first (take n r) (take-IsByte n r h),
        from_be_bytes_step first (take n r),
      )
    ]

arm_range :
    (tag first x : ℕ) (r s : List ℕ)
    → first < 2 ^ 6
    → All IsByte r
    → decode_arm tag first r ≡ ok (x, s)
    → x < 2 ^ 62
unfolding decode_arm
arm_range zero first x r s hf h e = ground arith
arm_range (suc zero) first x r s hf h e = omega (arith, tail_range 1 first x r s h e)
arm_range (suc (suc zero)) first x r s hf h e = omega (arith, tail_range 3 first x r s h e)
arm_range (suc (suc (suc zero))) first x r s hf h e = omega (arith, tail_range 7 first x r s h e)
arm_range (suc (suc (suc (suc tag)))) first x r s hf h e = ground arith

-- What decode_varint returns on bytes is a VarInt: it lies below 2^62.
pub decode_range : (r s : List ℕ) (x : ℕ) → All IsByte r → decode_varint r ≡ ok (x, s) → x < 2 ^ 62
unfolding decode_varint decode_body
decode_range [] s x h e = unfold decode_remaining get_u8 in ground arith
decode_range (b ∷ r) s x (hb, h) e =
    arm_range (b % 2 ^ 8 / 2 ^ 6) (bit_and b 0b0011_1111) x r s (rw (bit_and_low 6 b) (omega arith))
      h
      (sym (
          bind-ok (decode_remaining 1) (λ _. get_u8 >>= decode_body) {r = b ∷ r}
            (decode_remaining-enough 1 (b ∷ r) (omega arith)))
        ∙ e)

pub u64-IsStreaming : IsStreaming decode_u64
unfolding decode_u64
u64-IsStreaming = decode_varint-IsStreaming

-- A success takes the first byte.
pub u64-Consumes : Consumes decode_u64
unfolding decode_u64 decode_varint get_u8
u64-Consumes [] x s e = unfold decode_remaining get_u8 in ground arith
u64-Consumes (b ∷ r) x s e =
    let (front, cut) = (body-IsStreaming b).leaves_suffix r x s (
      sym (
        bind-ok (decode_remaining 1) (λ _. get_u8 >>= decode_body) {r = b ∷ r}
          (decode_remaining-enough 1 (b ∷ r) (omega arith)))
      ∙ e) in
    omega (arith, ap length cut, length-append front s)
