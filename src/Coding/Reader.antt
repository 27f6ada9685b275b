-- ===== src/Coding/Reader.antt =====
-- Decoding: `Decode::decode_remaining` of coding/decode.rs, and the part of the `bytes::Buf`
-- interface that the decoders call. A buffer is the list of the bytes not yet read, and its
-- `remaining` is the length; `get_u8`, `get_u16` and `copy_to_slice` panic on a short buffer, as
-- the interface documents.
use moq_rs.Prelude.{
  ◌∙◌, ◌<◌, ◌≤◌, arith, ◌≡◌, inl, inr, ℕ, ◌+◌, ◌-◌, ◌*◌, Bool, List, [], ◌∷◌, length, take, drop,
  ltb, if◌then◌else◌, sym, Bool-cases, true, false, refl,
}
use mathlib.Core.Path.{fun_ext}
use moq_rs.Coding.Errors.{Outcome, ok, err, panicked, DecodeError, Outcome-cases}

abbrev pub Decoder {ℓ} : Type ℓ → Type ℓ
Decoder A = List ℕ → Outcome DecodeError (A × List ℕ)

module _ {ℓ} {A : Type ℓ} where
  abbrev pub pure : A → Decoder A
  pure a r = ok (a, r)

  abbrev pub throw : DecodeError → Decoder A
  throw e r = err e

  abbrev pub unreachable : Decoder A
  unreachable r = panicked

module _ {ℓ κ} {A : Type ℓ} {B : Type κ} where
  infixl 5 ◌>>=◌
  abbrev pub ◌>>=◌ : Decoder A → (A → Decoder B) → Decoder B
  ◌>>=◌ m f r = elim (m r) [ ok (a, s) ↦ f a s | err e ↦ err e | panicked ↦ panicked ]

infixl 5 ◌>>◌
abbrev pub ◌>>◌ {ℓ} : {B : Type ℓ} → Decoder (Unit {0}) → Decoder B → Decoder B
m >> k = m >>= λ _. k

-- `if bad { return Err(e) }`
abbrev pub reject_if : Bool → DecodeError → Decoder (Unit {0})
reject_if bad e = if bad then throw e else pure tt

unfoldable pub decode_remaining : ℕ → Decoder (Unit {0})
decode_remaining required buf =
    let needed = required - length buf in
    if ltb 0 needed then err (DecodeError.more needed) else ok (tt, buf)

-- `Buf::get_u8`
unfoldable pub get_u8 : Decoder ℕ
get_u8 [] = panicked
get_u8 (b ∷ r) = ok (b, r)

-- `Buf::copy_to_slice` into a slice of `n` bytes
unfoldable pub copy_to_slice : ℕ → Decoder (List ℕ)
copy_to_slice n r = if ltb (length r) n then panicked else ok (take n r, drop n r)

-- `from_be_bytes`, continued from the value `acc` of the bytes before.
unfoldable pub from_be_bytes : ℕ → List ℕ → ℕ
from_be_bytes acc [] = acc
from_be_bytes acc (b ∷ bs) = from_be_bytes (acc * 256 + b) bs

module _ {ℓ κ} {A : Type ℓ} {B : Type κ} (d : Decoder A) (f : A → Decoder B) {r : List ℕ} where
  pub bind-ok : {a : A} {s : List ℕ} → d r ≡ ok (a, s) → (d >>= f) r ≡ f a s
  bind-ok p = rw (p, ◌>>=◌)

  pub bind-err : {e : DecodeError} → d r ≡ err e → (d >>= f) r ≡ err e
  bind-err p = rw (p, ◌>>=◌)

  pub bind-panicked : d r ≡ panicked → (d >>= f) r ≡ panicked
  bind-panicked p = rw (p, ◌>>=◌)

module _ {ℓ} {A B C : Type ℓ} (d : Decoder A) (f : A → Decoder B) (g : B → Decoder C) where
  pub bind_assoc : ((d >>= f) >>= g) ≡ (d >>= λ a. f a >>= g)
  bind_assoc = fun_ext λ r. elim (Outcome-cases (d r)) [
    | inl (inl ((a, s), p)) ↦ rw (p, ◌>>=◌)
    | inl (inr (e, p)) ↦ rw (p, ◌>>=◌)
    | inr p ↦ rw (p, ◌>>=◌)
  ]

pub decode_remaining-short :
    (n : ℕ) (r : List ℕ)
    → length r < n
    → decode_remaining n r ≡ err (DecodeError.more (n - length r))
unfolding decode_remaining
decode_remaining-short n r h = ground arith

pub decode_remaining-enough :
    (n : ℕ) (r : List ℕ) → n ≤ length r → decode_remaining n r ≡ ok (tt, r)
unfolding decode_remaining
decode_remaining-enough n r h = ground arith

pub copy_to_slice-enough :
    (n : ℕ) (r : List ℕ) → n ≤ length r → copy_to_slice n r ≡ ok (take n r, drop n r)
unfolding copy_to_slice
copy_to_slice-enough n r h = ground arith

-- `decode_remaining(n)?` followed by reading n bytes, on a short buffer and on a long one.
module _ {ℓ} {A : Type ℓ} (n : ℕ) (f : List ℕ → Decoder A) (r : List ℕ) where
  pub read_slice-short :
      length r < n
      → (decode_remaining n >> (copy_to_slice n >>= f)) r ≡ err (DecodeError.more (n - length r))
  read_slice-short h =
      bind-err (decode_remaining n) (λ _. copy_to_slice n >>= f) {r = r}
        (decode_remaining-short n r h)

  pub read_slice-enough :
      n ≤ length r → (decode_remaining n >> (copy_to_slice n >>= f)) r ≡ f (take n r) (drop n r)
  read_slice-enough h =
      bind-ok (decode_remaining n) (λ _. copy_to_slice n >>= f) {r = r}
        (decode_remaining-enough n r h)
      ∙ bind-ok (copy_to_slice n) f {r = r} (copy_to_slice-enough n r h)

-- A successful bind, taken apart.
pub bind-eq-ok {ℓ κ} :
    {A : Type ℓ} {B : Type κ} (d : Decoder A) (f : A → Decoder B) (r : List ℕ) (b : B) (t : List ℕ)
    → (d >>= f) r ≡ ok (b, t)
    → (a : A) × (s : List ℕ) × (d r ≡ ok (a, s)) × (f a s ≡ ok (b, t))
bind-eq-ok d f r b t e = elim (Outcome-cases (d r)) [
  | inl (inl ((a, s), p)) ↦ (a, s, p, sym (bind-ok d f p) ∙ e)
  | inl (inr (x, p)) ↦ cc (bind-err d f p)
  | inr p ↦ cc (bind-panicked d f p)
]

pub check-eq-ok {ℓ} :
    {B : Type ℓ} (bad : Bool) (x : DecodeError) (d : Decoder B) (r : List ℕ) (b : B) (t : List ℕ)
    → (reject_if bad x >> d) r ≡ ok (b, t)
    → (bad ≡ false) × (d r ≡ ok (b, t))
check-eq-ok true x d r b t e = cc
check-eq-ok false x d r b t e = (refl, e)

pub slice-eq-ok {ℓ} :
    {B : Type ℓ} (n : ℕ) (f : List ℕ → Decoder B) (r : List ℕ) (b : B) (t : List ℕ)
    → (decode_remaining n >> (copy_to_slice n >>= f)) r ≡ ok (b, t)
    → (n ≤ length r) × (f (take n r) (drop n r) ≡ ok (b, t))
slice-eq-ok n f r b t e = elim (Bool-cases (ltb (length r) n)) [
  | inl short ↦ cc (read_slice-short n f r (ground arith))
  | inr long ↦ (ground arith, sym (read_slice-enough n f r (ground arith)) ∙ e)
]
