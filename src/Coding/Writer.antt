-- ===== src/Coding/Writer.antt =====
-- Encoding: `Encode::encode_remaining` of coding/encode.rs, and the part of the `bytes::BufMut`
-- interface that the encoders call. A buffer is only appended to, so an encoder maps the room
-- that is left (`remaining_mut`) to its value, the bytes appended and the room left behind them;
-- the `put` methods panic on a full buffer, as the interface documents.
use moq_rs.Prelude.{
  ◌<◌, length-append, refl, ◌≡◌, ◌≤◌, arith, ℕ, zero, suc, ◌-◌, ◌/◌, ◌%◌, Bool, List, [], ◌∷◌, ◌++◌,
  length, ltb, if◌then◌else◌,
}
use moq_rs.Coding.Errors.{Outcome, ok, err, panicked, EncodeError}

abbrev pub Encoder {ℓ} : Type ℓ → Type ℓ
Encoder A = ℕ → Outcome EncodeError (A × List ℕ × ℕ)

module _ {ℓ} {A : Type ℓ} where
  abbrev pub done : A → Encoder A
  done a room = ok (a, [], room)

  abbrev pub fail : EncodeError → Encoder A
  fail e room = err e

-- What an action that follows wrote, behind the bytes `bs` before it.
abbrev pub behind {ℓ} :
    {A : Type ℓ}
    → List ℕ
    → Outcome EncodeError (A × List ℕ × ℕ)
    → Outcome EncodeError (A × List ℕ × ℕ)
behind bs (ok (a, cs, room)) = ok (a, bs ++ cs, room)
behind bs (err e) = err e
behind bs panicked = panicked

-- `let a = m?; f(a)`
abbrev pub and_then {ℓ κ} : {A : Type ℓ} {B : Type κ} → Encoder A → (A → Encoder B) → Encoder B
and_then m f room = elim (m room) [
  | ok (a, bs, left) ↦ behind bs (f a left)
  | err e ↦ err e
  | panicked ↦ panicked
]

-- `m?; k`
infixr 6 ◌⨟◌
abbrev pub ◌⨟◌ {ℓ} : {B : Type ℓ} → Encoder (Unit {0}) → Encoder B → Encoder B
m ⨟ k = and_then m (λ _. k)

-- `if bad { return Err(e) }`
abbrev pub refuse_if : Bool → EncodeError → Encoder (Unit {0})
refuse_if bad e = if bad then fail e else done tt

unfoldable pub encode_remaining : ℕ → Encoder (Unit {0})
encode_remaining required room =
    let needed = required - room in
    if ltb 0 needed then err (EncodeError.more needed) else ok (tt, [], room)

-- `BufMut::put_slice`; the other `put` methods write the bytes of a number.
unfoldable pub put_slice : List ℕ → Encoder (Unit {0})
put_slice bs room = if ltb room (length bs) then panicked else ok (tt, bs, room - length bs)

-- `to_be_bytes` of an integer of `n` bytes.
unfoldable pub to_be_bytes : ℕ → ℕ → List ℕ
to_be_bytes zero x = []
to_be_bytes (suc n) x = to_be_bytes n (x / 256) ++ (x % 256 ∷ [])

unfoldable pub put_u8 : ℕ → Encoder (Unit {0})
unfolding to_be_bytes put_slice
put_u8 x = put_slice (to_be_bytes 1 x)

unfoldable pub put_u16 : ℕ → Encoder (Unit {0})
unfolding to_be_bytes put_slice
put_u16 x = put_slice (to_be_bytes 2 x)

unfoldable pub put_u32 : ℕ → Encoder (Unit {0})
unfolding to_be_bytes put_slice
put_u32 x = put_slice (to_be_bytes 4 x)

unfoldable pub put_u64 : ℕ → Encoder (Unit {0})
unfolding to_be_bytes put_slice
put_u64 x = put_slice (to_be_bytes 8 x)

pub encode_remaining-short :
    (n room : ℕ) → room < n → encode_remaining n room ≡ err (EncodeError.more (n - room))
unfolding encode_remaining
encode_remaining-short n room h = ground arith

pub encode_remaining-enough : (n room : ℕ) → n ≤ room → encode_remaining n room ≡ ok (tt, [], room)
unfolding encode_remaining
encode_remaining-enough n room h = ground arith

pub put_slice-enough :
    (bs : List ℕ) (room : ℕ) → length bs ≤ room → put_slice bs room ≡ ok (tt, bs, room - length bs)
unfolding put_slice
put_slice-enough bs room h = ground arith

pub length-to_be_bytes : (n x : ℕ) → length (to_be_bytes n x) ≡ n
unfolding to_be_bytes
length-to_be_bytes zero x = refl
length-to_be_bytes (suc n) x =
    omega (
      arith,
      length-append (to_be_bytes n (x / 256)) (x % 256 ∷ []),
      length-to_be_bytes n (x / 256),
    )
