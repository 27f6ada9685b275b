-- ===== src/Coding/Repeat.antt =====
-- The loops `for x in xs { x.encode(w)? }` and `for _ in 0..n { xs.push(T::decode(r)?) }`.
use moq_rs.Coding.Errors.{ok}
use moq_rs.Coding.RoundTrip.{RoundTrips-seq, RoundTrips-map, RoundTrips, RoundTrips-pure}
use moq_rs.Coding.Reader.{◌>>=◌, Decoder, pure, bind-eq-ok}
use moq_rs.Coding.Streaming.{IsStreaming, IsStreaming-pure, IsStreaming-bind}
use moq_rs.Prelude.{◌∷◌, ℕ, [], All, List, length, suc, zero, refl, ap, ◌≡◌}
use moq_rs.Coding.Writer.{◌⨟◌, Encoder, done}

module _ {A : Type 0} where
  unfoldable pub encode_each : (A → Encoder (Unit {0})) → List A → Encoder (Unit {0})
  encode_each enc [] = done tt
  encode_each enc (x ∷ xs) = enc x ⨟ encode_each enc xs

  unfoldable pub decode_times : Decoder A → ℕ → Decoder (List A)
  decode_times dec zero = pure []
  decode_times dec (suc n) = do x ← dec; xs ← decode_times dec n; pure (x ∷ xs)

  pub times-IsStreaming :
      (dec : Decoder A) (n : ℕ) → IsStreaming dec → IsStreaming (decode_times dec n)
  unfolding decode_times
  times-IsStreaming dec zero h = IsStreaming-pure []
  times-IsStreaming dec (suc n) h =
      IsStreaming-bind dec (λ x. decode_times dec n >>= λ xs. pure (x ∷ xs)) h
        (λ x.
          IsStreaming-bind (decode_times dec n) (λ xs. pure (x ∷ xs)) (times-IsStreaming dec n h)
            (λ xs. IsStreaming-pure (x ∷ xs)))

  pub RoundTrips-each :
      (P : A → Type 0) (enc : A → Encoder (Unit {0})) (dec : Decoder A)
      → ((x : A) → P x → RoundTrips (enc x) dec x)
      → (xs : List A) → All P xs
      → RoundTrips (encode_each enc xs) (decode_times dec (length xs)) xs
  unfolding encode_each decode_times
  RoundTrips-each P enc dec each [] h = RoundTrips-pure []
  RoundTrips-each P enc dec each (x ∷ xs) (hx, h) =
      RoundTrips-seq (enc x) (encode_each enc xs) dec _ x (x ∷ xs) (each x hx) (
        RoundTrips-map (encode_each enc xs) (decode_times dec (length xs)) (λ ys. x ∷ ys) xs
          (RoundTrips-each P enc dec each xs h))

module _ {A : Type 0} (P : A → Type 0) (dec : Decoder A) where
  -- What holds of each item read holds of them all.
  pub times-All :
      ((r : List ℕ) (x : A) (s : List ℕ) → dec r ≡ ok (x, s) → P x)
      → (n : ℕ) (r : List ℕ) (xs : List A) (s : List ℕ) → decode_times dec n r ≡ ok (xs, s)
      → All P xs × (length xs ≡ n)
  unfolding decode_times
  times-All each zero r [] s e = (tt, refl)
  times-All each zero r (x ∷ xs) s e = cc
  times-All each (suc n) r ys s e =
      let (x, r', p, q) =
        bind-eq-ok dec (λ x. decode_times dec n >>= λ xs. pure (x ∷ xs)) r ys s e in
      let (xs, r'', p', q') = bind-eq-ok (decode_times dec n) (λ xs. pure (x ∷ xs)) r' ys s q in
      let (h, k) = times-All each n r' xs r'' p' in
      let eq : ys ≡ x ∷ xs = cc in rw eq ((each r x r' p, h), ap suc k)
