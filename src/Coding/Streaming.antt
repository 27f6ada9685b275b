-- ===== src/Coding/Streaming.antt =====
-- What the session's reader relies on when it decodes from a buffer that is still filling
-- (moq-transport/src/session/reader.rs): a decoder never panics, its answers do not depend on
-- the bytes behind them, and `More(n)` means that n further bytes are needed at least.
pub mod Cut
use moq_rs.Prelude.{
  ℕ, ◌-◌, ◌<◌, ◌≡◌, ◌≢◌, sym, ap, ◌∙◌, ltb, Bool-cases, inl, inr, Bool, true, false, Option, none,
  some, List, [], ◌∷◌, ◌++◌, arith, length, take-length_append, drop-length_append, take, drop,
  append_assoc, length-append, take-append, drop-append, take-append-drop, if◌then◌else◌,
}
use mathlib.Core.Path.{fun_ext, subst}
use moq_rs.Coding.Errors.{ok, err, panicked, DecodeError, Outcome-cases}
use moq_rs.Coding.Reader.{
  Decoder, pure, throw, ◌>>=◌, ◌>>◌, decode_remaining, get_u8, copy_to_slice,
  decode_remaining-short, decode_remaining-enough, copy_to_slice-enough, bind_assoc, bind-ok,
  bind-err, bind-panicked, reject_if,
}

-- The count in `More(n)`.
abbrev pub awaits : DecodeError → Option ℕ
awaits (DecodeError.more n) = some n
awaits _ = none

pub record IsStreaming {ℓ} {A : Type ℓ} (dec : Decoder A) : Type ℓ where
  -- it never panics
  pub safe : (r : List ℕ) → dec r ≢ panicked
  -- a result is not changed by the bytes that arrive later
  pub ok_extends :
      (r m : List ℕ) (a : A) (s : List ℕ) → dec r ≡ ok (a, s) → dec (r ++ m) ≡ ok (a, s ++ m)
  -- nor is an error other than `More`
  pub err_extends :
      (r m : List ℕ) (e : DecodeError) → dec r ≡ err e → awaits e ≡ none → dec (r ++ m) ≡ err e
  -- after `More(n)` and fewer than n further bytes the answer is `More` of what is still missing
  pub more_waits :
      (r m : List ℕ) (n : ℕ)
      → dec r ≡ err (DecodeError.more n)
      → length m < n
      → dec (r ++ m) ≡ err (DecodeError.more (n - length m))
  -- what is left is a suffix of the buffer
  pub leaves_suffix :
      (r : List ℕ) (a : A) (s : List ℕ) → dec r ≡ ok (a, s) → (p : List ℕ) × (r ≡ p ++ s)

module _ {ℓ} {A : Type ℓ} where
  pub IsStreaming-pure : (a : A) → IsStreaming (pure a)
  IsStreaming-pure a = record {
    safe = λ r e. cc;
    ok_extends = λ r m b s e. cc;
    err_extends = λ r m x e f. cc;
    more_waits = λ r m n e f. cc;
    leaves_suffix = λ r b s e. ([], cc);
  }

  pub IsStreaming-throw : (x : DecodeError) → awaits x ≡ none → IsStreaming (throw {A = A} x)
  IsStreaming-throw x final = record {
    safe = λ r e. cc;
    ok_extends = λ r m b s e. cc;
    err_extends = λ r m y e f. e;
    more_waits = λ r m n e f. ground (arith, final);
    leaves_suffix = λ r b s e. cc;
  }

  pub IsStreaming-if :
      (b : Bool) (x y : Decoder A)
      → IsStreaming x
      → IsStreaming y
      → IsStreaming (if b then x else y)
  IsStreaming-if true x y hx hy = hx
  IsStreaming-if false x y hx hy = hy

module _ {ℓ κ} {A : Type ℓ} {B : Type κ} where
  pub IsStreaming-bind :
      (d : Decoder A) (f : A → Decoder B)
      → IsStreaming d
      → ((a : A) → IsStreaming (f a))
      → IsStreaming (d >>= f)
  IsStreaming-bind d f hd hf = record {
    safe = λ r e. elim (Outcome-cases (d r)) [
      | inl (inl ((a, s), p)) ↦ (hf a).safe s (sym (bind-ok d f p) ∙ e)
      | inl (inr (x, p)) ↦ cc (bind-err d f p)
      | inr p ↦ hd.safe r p
    ];
    ok_extends = λ r m b t e. elim (Outcome-cases (d r)) [
      | inl (inl ((a, s), p)) ↦
          bind-ok d f (hd.ok_extends r m a s p)
          ∙ (hf a).ok_extends s m b t (sym (bind-ok d f p) ∙ e)
      | inl (inr (x, p)) ↦ cc (bind-err d f p)
      | inr p ↦ cc (bind-panicked d f p)
    ];
    err_extends = λ r m x e final. elim (Outcome-cases (d r)) [
      | inl (inl ((a, s), p)) ↦
          bind-ok d f (hd.ok_extends r m a s p)
          ∙ (hf a).err_extends s m x (sym (bind-ok d f p) ∙ e) final
      | inl (inr (y, p)) ↦ bind-err d f (hd.err_extends r m x (cc (bind-err d f p)) final)
      | inr p ↦ cc (bind-panicked d f p)
    ];
    more_waits = λ r m n e short. elim (Outcome-cases (d r)) [
      | inl (inl ((a, s), p)) ↦
          bind-ok d f (hd.ok_extends r m a s p)
          ∙ (hf a).more_waits s m n (sym (bind-ok d f p) ∙ e) short
      | inl (inr (y, p)) ↦ bind-err d f (hd.more_waits r m n (cc (bind-err d f p)) short)
      | inr p ↦ cc (bind-panicked d f p)
    ];
    leaves_suffix = λ r b t e. elim (Outcome-cases (d r)) [
      | inl (inl ((a, s), p)) ↦
          let (front, q) = hd.leaves_suffix r a s p in
          let (back, q') = (hf a).leaves_suffix s b t (sym (bind-ok d f p) ∙ e) in
          (front ++ back, q ∙ ap (λ x. front ++ x) q' ∙ sym (append_assoc front back t))
      | inl (inr (y, p)) ↦ cc (bind-err d f p)
      | inr p ↦ cc (bind-panicked d f p)
    ];
  }

-- `decode_remaining(n)?` followed by reading n bytes.
slice : ℕ → Decoder (List ℕ)
slice n r =
    if ltb (length r) n then err (DecodeError.more (n - length r)) else ok (take n r, drop n r)

slice_lem : (n : ℕ) → (decode_remaining n >> copy_to_slice n) ≡ slice n
unfolding slice
slice_lem n = fun_ext λ r. elim (Bool-cases (ltb (length r) n)) [
  | inl short ↦ rw short (
      bind-err (decode_remaining n) (λ _. copy_to_slice n) {r = r}
        (decode_remaining-short n r (ground arith)))
  | inr long ↦ rw long (
      bind-ok (decode_remaining n) (λ _. copy_to_slice n) {r = r}
        (decode_remaining-enough n r (ground arith))
      ∙ copy_to_slice-enough n r (ground arith))
]

slice-IsStreaming : (n : ℕ) → IsStreaming (slice n)
unfolding slice
slice-IsStreaming n = record {
  safe = λ r e. ground arith;
  ok_extends = λ r m a s e. ground (arith, length-append r m, take-append n r m, drop-append n r m);
  err_extends = λ r m x e final. ground (arith, length-append r m);
  more_waits = λ r m k e short. ground (arith, length-append r m);
  leaves_suffix = λ r a s e. (take n r, ground (arith, take-append-drop n r));
}

pub read_slice-IsStreaming : (n : ℕ) → IsStreaming (decode_remaining n >> copy_to_slice n)
read_slice-IsStreaming n = rw (slice_lem n) (slice-IsStreaming n)

slice-append : (bs rest : List ℕ) → slice (length bs) (bs ++ rest) ≡ ok (bs, rest)
unfolding slice
slice-append bs rest =
    ground (arith, length-append bs rest, take-length_append bs rest, drop-length_append bs rest)

-- `decode_remaining(1)?` followed by `get_u8`.
byte : Decoder ℕ
byte [] = err (DecodeError.more 1)
byte (b ∷ r) = ok (b, r)

byte_lem : (r : List ℕ) → (decode_remaining 1 >> get_u8) r ≡ byte r
unfolding byte get_u8
byte_lem [] =
    bind-err (decode_remaining 1) (λ _. get_u8) {r = []} (decode_remaining-short 1 [] (omega arith))
byte_lem (b ∷ r) =
    bind-ok (decode_remaining 1) (λ _. get_u8) {r = b ∷ r}
      (decode_remaining-enough 1 (b ∷ r) (omega arith))

byte-IsStreaming : IsStreaming byte
unfolding byte
byte-IsStreaming = record {
  safe = λ r e. ground arith;
  ok_extends = λ r m a s e. ground arith;
  err_extends = λ r m x e final. ground arith;
  more_waits = λ r m k e short. ground arith;
  leaves_suffix = λ r a s e. (take 1 r, ground arith);
}

module _ {B : Type 0} where
  -- The two ways in which the decoders read from the buffer.
  pub IsStreaming-byte :
      (f : ℕ → Decoder B)
      → ((b : ℕ) → IsStreaming (f b))
      → IsStreaming (decode_remaining 1 >> (get_u8 >>= f))
  IsStreaming-byte f hf = subst IsStreaming (bind_assoc (decode_remaining 1) (λ _. get_u8) f) (
      IsStreaming-bind (decode_remaining 1 >> get_u8) f (rw (fun_ext byte_lem) byte-IsStreaming) hf)

  pub IsStreaming-slice :
      (n : ℕ) (f : List ℕ → Decoder B)
      → ((bs : List ℕ) → IsStreaming (f bs))
      → IsStreaming (decode_remaining n >> (copy_to_slice n >>= f))
  IsStreaming-slice n f hf =
      subst IsStreaming (bind_assoc (decode_remaining n) (λ _. copy_to_slice n) f)
        (IsStreaming-bind (decode_remaining n >> copy_to_slice n) f (read_slice-IsStreaming n) hf)

pub IsStreaming-check {ℓ} :
    {A : Type ℓ} (b : Bool) (e : DecodeError) (d : Decoder A)
    → awaits e ≡ none
    → IsStreaming d
    → IsStreaming (reject_if b e >> d)
IsStreaming-check true e d final h =
    IsStreaming-bind {0, ℓ} (throw {A = Unit {0}} e) (λ _. d) (IsStreaming-throw e final) (λ _. h)
IsStreaming-check false e d final h =
    IsStreaming-bind {0, ℓ} (pure {A = Unit {0}} tt) (λ _. d) (IsStreaming-pure tt) (λ _. h)
