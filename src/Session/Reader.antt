-- ===== src/Session/Reader.antt =====
-- moq-transport/src/session/reader.rs: `Reader::decode`, which tries a decoder again and again on a
-- buffer that the stream fills. The stream is the chunks still to come, each what one `read_buf`
-- appends; it ends after the last. A failure of the transport is left out.
use moq_rs.Prelude.{
  ℕ, ◌+◌, ◌-◌, ◌<◌, List, [], ◌∷◌, ◌++◌, length, leb, if◌then◌else◌, ◌≡◌, refl, sym, ◌∙◌, arith,
  Bool-cases, inl, inr, some, none, Option-cases, append-nil, append_assoc, length-append, ap,
}
use moq_rs.Coding.Errors.{Outcome, ok, err, panicked, DecodeError, Outcome-cases}
use moq_rs.Coding.Reader.{Decoder}
use moq_rs.Coding.Streaming.{IsStreaming, awaits}
use moq_rs.Coding.Streaming.Cut.{awaits-more}

-- A message with the buffer and the stream behind it, or an error.
abbrev pub Answer : Type 0 → Type 0
Answer A = Outcome DecodeError (A × (List ℕ × List (List ℕ)))

-- The bytes still to come.
abbrev pub arriving : List (List ℕ) → List ℕ
arriving [] = []
arriving (c ∷ stream) = c ++ arriving stream

module _ {A : Type 0} where
  -- One try: `required` goes on to the inner loop.
  unfoldable pub retry : Decoder A → List ℕ → List (List ℕ) → (ℕ → Answer A) → Answer A
  retry dec buffer stream inner = elim (dec buffer) [
    | ok (msg, left) ↦ ok (msg, (left, stream))
    | err e ↦ elim (awaits e) [ some n ↦ inner (length buffer + n) | none ↦ err e ]
    | panicked ↦ panicked
  ]

  -- The inner loop, with the tries that follow it.
  unfoldable pub read_more : Decoder A → ℕ → List ℕ → List (List ℕ) → Answer A
  unfolding retry
  read_more dec required buffer [] = err (DecodeError.more (required - length buffer))
  read_more dec required buffer (c ∷ stream) =
      let again = retry dec (buffer ++ c) stream (λ n. read_more dec n (buffer ++ c) stream) in
      let rest = read_more dec required (buffer ++ c) stream in
      if leb required (length (buffer ++ c)) then again else rest

  unfoldable pub decode : Decoder A → List ℕ → List (List ℕ) → Answer A
  unfolding retry read_more
  decode dec buffer stream = retry dec buffer stream (λ n. read_more dec n buffer stream)

  -- An answer with buffer and stream as one run of bytes.
  abbrev pub joined : Answer A → Outcome DecodeError (A × List ℕ)
  joined (ok (msg, (left, stream))) = ok (msg, left ++ arriving stream)
  joined (err e) = err e
  joined panicked = panicked

module _ {A : Type 0} (dec : Decoder A) (h : IsStreaming dec) where
  retry-joined :
      (buffer : List ℕ) (stream : List (List ℕ)) (inner : ℕ → Answer A)
      → ((n : ℕ)
          → dec buffer ≡ err (DecodeError.more n)
          → joined (inner (length buffer + n)) ≡ dec (buffer ++ arriving stream))
      → joined (retry dec buffer stream inner) ≡ dec (buffer ++ arriving stream)
  unfolding retry
  retry-joined buffer stream inner go_on = elim (Outcome-cases (dec buffer)) [
    | inl (inl ((a, s), p)) ↦
        let q : retry dec buffer stream inner ≡ ok (a, (s, stream)) = rw (p, retry) in
        ap joined q ∙ sym (h.ok_extends buffer (arriving stream) a s p)
    | inl (inr (e, p)) ↦ elim (Option-cases (awaits e)) [
      | inr (n, w) ↦
          let eq : e ≡ DecodeError.more n = awaits-more e n w in
          let q : retry dec buffer stream inner ≡ inner (length buffer + n) =
            rw (p, retry) (rw w refl) in
          ap joined q ∙ go_on n (p ∙ ap (λ x. err x) eq)
      | inl w ↦
          let q : retry dec buffer stream inner ≡ err e = rw (p, retry) (rw w refl) in
          ap joined q ∙ sym (h.err_extends buffer (arriving stream) e p w)
    ]
    | inr p ↦ elim (h.safe buffer p) [ ]
  ]

  read_more-joined :
      (buffer : List ℕ) (k required : ℕ) (stream : List (List ℕ))
      → dec buffer ≡ err (DecodeError.more k)
      → required ≡ length buffer + k
      → joined (read_more dec required buffer stream) ≡ dec (buffer ++ arriving stream)
  unfolding read_more
  read_more-joined buffer k required [] e size =
      let left : required - length buffer ≡ k = omega (arith, size) in
      rw (left, append-nil buffer) (sym e)
  read_more-joined buffer k required (c ∷ stream) e size =
      let grown : length (buffer ++ c) ≡ length buffer + length c = length-append buffer c in
      elim (Bool-cases (leb required (length (buffer ++ c)))) [
        | inl enough ↦
            rw (enough, ← append_assoc buffer c (arriving stream))
              (retry-joined (buffer ++ c) stream (λ n. read_more dec n (buffer ++ c) stream)
                (λ n p. read_more-joined (buffer ++ c) n _ stream p refl))
        | inr short ↦
            let fewer : length c < k = ground (arith, grown, size) in
            let total : required ≡ length (buffer ++ c) + (k - length c) =
              omega (arith, grown, size, fewer) in
            rw (short, ← append_assoc buffer c (arriving stream))
              (read_more-joined (buffer ++ c) (k - length c) required stream
                (h.more_waits buffer c k e fewer) total)
      ]

  -- Reader::decode on a streaming decoder answers as the decoder does on all the bytes at once,
  -- however the stream cuts them into chunks: the same message with the same bytes left in buffer
  -- and stream, or the same error, More at the end of the stream included.
  pub decode-joined :
      (buffer : List ℕ) (stream : List (List ℕ))
      → joined (decode dec buffer stream) ≡ dec (buffer ++ arriving stream)
  unfolding decode
  decode-joined buffer stream =
      retry-joined buffer stream (λ n. read_more dec n buffer stream)
        (λ n p. read_more-joined buffer n _ stream p refl)
