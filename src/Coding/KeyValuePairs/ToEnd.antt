-- ===== src/Coding/KeyValuePairs/ToEnd.antt =====
-- The loop `while r.has_remaining()` over pairs, of `TrackExtensions` (moq-transport/src/message/
-- params.rs) and `ExtensionHeaders` (moq-transport/src/data/extension_headers.rs). A round takes a
-- byte at least, so one round more than there are bytes is enough.
use moq_rs.Prelude.{
  ℕ, zero, suc, List, [], ◌∷◌, length, ◌<◌, ◌≡◌, ◌≢◌, arith, sym, ◌∙◌, inl, inr, length-append, ap,
}
use moq_rs.Coding.Errors.{ok, panicked, Outcome-cases}
use moq_rs.Coding.Reader.{Decoder, pure, ◌>>=◌, bind-ok, bind-err, bind-eq-ok}
use moq_rs.Coding.AtEnd.{Consumes}
use moq_rs.Coding.VarInt.{decode_u64}
use moq_rs.Coding.VarInt.Decode.{u64-Consumes}
use moq_rs.Coding.KeyValuePairs.{KeyValuePair, decode_with_prev, decode_pairs}
use moq_rs.Coding.KeyValuePairs.Wire.{with_prev-IsStreaming, after_delta-IsStreaming}

unfoldable pub decode_to_end : ℕ → ℕ → Decoder (List KeyValuePair)
unfolding decode_with_prev
decode_to_end zero prev r = panicked
decode_to_end (suc rounds) prev [] = ok ([], [])
decode_to_end (suc rounds) prev (b ∷ r) =
    (decode_with_prev prev >>= λ (q : KeyValuePair × ℕ).
    decode_to_end rounds q.1 >>= λ rest. pure (q.0 ∷ rest))
      (b ∷ r)

with_prev-Consumes : (prev : ℕ) → Consumes (decode_with_prev prev)
unfolding decode_with_prev
with_prev-Consumes prev r q s e =
    let (delta, r', p, p') = bind-eq-ok decode_u64 _ r q s e in
    let first = u64-Consumes r delta r' p in
    let (front, cut) = (after_delta-IsStreaming prev delta).leaves_suffix r' q s p' in
    omega (arith, first, ap length cut, length-append front s)

-- The loop that reads pairs up to the end of a payload ends, on any bytes, within one round more
-- than there are bytes, and does not panic.
pub to_end-ne-panicked :
    (rounds prev : ℕ) (r : List ℕ) → length r < rounds → decode_to_end rounds prev r ≢ panicked
unfolding decode_to_end
to_end-ne-panicked zero prev r h e = absurd (omega arith)
to_end-ne-panicked (suc rounds) prev [] h e = cc
to_end-ne-panicked (suc rounds) prev (b ∷ r) h e =
    elim (Outcome-cases (decode_with_prev prev (b ∷ r))) [
      | inl (inl ((q, s), p)) ↦
          let fewer = with_prev-Consumes prev (b ∷ r) q s p in
          let tail : (decode_to_end rounds q.1 >>= λ rest. pure (q.0 ∷ rest)) s ≡ panicked =
            sym (bind-ok (decode_with_prev prev) _ p) ∙ e in
          elim (Outcome-cases (decode_to_end rounds q.1 s)) [
            | inl (inl ((ps, t), p')) ↦
                cc (bind-ok (decode_to_end rounds q.1) (λ rest. pure (q.0 ∷ rest)) p')
            | inl (inr (x, p')) ↦
                cc (bind-err (decode_to_end rounds q.1) (λ rest. pure (q.0 ∷ rest)) p')
            | inr p' ↦ to_end-ne-panicked rounds q.1 s (omega arith) p'
          ]
      | inl (inr (x, p)) ↦ cc (
          bind-err (decode_with_prev prev)
            (λ (q : KeyValuePair × ℕ). decode_to_end rounds q.1 >>= λ rest. pure (q.0 ∷ rest)) p)
      | inr p ↦ (with_prev-IsStreaming prev).safe (b ∷ r) p
    ]

to_end-step :
    (rounds prev : ℕ) (r : List ℕ) (x : List KeyValuePair × List ℕ)
    → 0 < length r
    → (decode_with_prev prev >>= λ (q : KeyValuePair × ℕ).
          decode_to_end rounds q.1 >>= λ rest. pure (q.0 ∷ rest))
        r
      ≡ ok x
    → decode_to_end (suc rounds) prev r ≡ ok x
unfolding decode_to_end
to_end-step rounds prev [] x h e = absurd (omega arith)
to_end-step rounds prev (b ∷ r) x h e = e

-- Pairs that fill the buffer are what it returns.
pub to_end-pairs :
    (n rounds prev : ℕ) (r : List ℕ) (ps : List KeyValuePair)
    → length r < rounds
    → decode_pairs n prev r ≡ ok (ps, [])
    → decode_to_end rounds prev r ≡ ok (ps, [])
unfolding decode_to_end decode_pairs
to_end-pairs n zero prev r ps h e = absurd (omega arith)
to_end-pairs zero (suc rounds) prev [] ps h e = e
to_end-pairs zero (suc rounds) prev (b ∷ r) ps h e = cc
to_end-pairs (suc n) (suc rounds) prev r ps h e =
    let (q, s, p, p') = bind-eq-ok (decode_with_prev prev) _ r ps [] e in
    let (rest, t, w, w') = bind-eq-ok (decode_pairs n q.1) _ s ps [] p' in
    let fewer = with_prev-Consumes prev r q s p in
    let left : t ≡ [] = cc in
    let ih : decode_to_end rounds q.1 s ≡ ok (rest, []) =
      to_end-pairs n rounds q.1 s rest (omega arith) (w ∙ ap (λ x. ok (rest, x)) left) in
    let step : (decode_with_prev prev >>= λ (q : KeyValuePair × ℕ).
    decode_to_end rounds q.1 >>= λ rest. pure (q.0 ∷ rest))
          r
        ≡ ok (ps, []) =
      bind-ok (decode_with_prev prev) _ p ∙ bind-ok (decode_to_end rounds q.1) _ ih ∙ cc in
    to_end-step rounds prev r (ps, []) (omega arith) step
