-- ===== src/Session/RequestId/Peers.antt =====
-- The two ends of a session together.
use moq_rs.Prelude.{
  arith, some, not, zero, List, [], none, Option, ◌<◌, ◌+◌, ℕ, Bool, ◌≤◌, ◌≡◌, contains, false, ◌%◌,
  ◌&&◌, ◌∷◌, suc, true, ◌^◌, refl, contains-cons, All,
}
use moq_rs.Session.Error.{SessionError}
use moq_rs.Session.RequestId.{new, SendState}
use moq_rs.Session.RequestId.Send.{Event, InRange, run, progression, run-progression}
use moq_rs.Session.RequestId.Spec.{validate_all, answers, validate_all-new, answer, is_good}

-- Every id answered with `Ok(())`.
pub all_accepted : List (Option SessionError) → Bool
all_accepted [] = true
all_accepted (none ∷ rs) = all_accepted rs
all_accepted (some e ∷ rs) = false

-- No id twice.
unfoldable pub distinct : List ℕ → Bool
unfolding contains
distinct [] = true
distinct (x ∷ xs) = not (contains xs x) && distinct xs

progression-bounds :
    (k first x : ℕ) → contains (progression first k) x ≡ true → (first ≤ x) × (x % 2 ≡ first % 2)
unfolding progression contains
progression-bounds zero first x h = ground arith
progression-bounds (suc k) first x h = ground (arith, progression-bounds k (first + 2) x)

-- Ids that are good and new are all accepted.
answers-accepted :
    (first our_max : ℕ) (xs history : List ℕ)
    → ((x : ℕ) → contains xs x ≡ true → (x < our_max) × (first ≤ x) × (x % 2 ≡ first % 2))
    → ((x : ℕ) → contains xs x ≡ true → contains history x ≡ false)
    → distinct xs ≡ true
    → all_accepted (answers first our_max history xs) ≡ true
unfolding distinct all_accepted answers answer
answers-accepted first our_max [] history good new' once = refl
answers-accepted first our_max (x ∷ xs) history good new' once =
    let here : contains (x ∷ xs) x ≡ true = ground (arith, contains-cons x x xs) in
    let fresh : contains xs x ≡ false = ground arith in
    let fits : is_good first our_max history x ≡ true =
      unfold is_good in ground (arith, good x here, new' x here) in
    let rest : all_accepted (answers first our_max (x ∷ history) xs) ≡ true =
      answers-accepted first our_max xs (x ∷ history)
        (λ y m. good y (ground (arith, contains-cons x y xs)))
        (λ y m. ground (arith, contains-cons x y xs, contains-cons x y history, new' y))
        (ground arith) in
    rw fits rest

-- The ids that one end hands out, under limits of at most 2^62 that the other end has not gone
-- back on, reach that end in any order: each is accepted, if none is delivered twice.
pub delivered_accepted :
    (local_first peer_max our_max peer_first local_max first_max : ℕ) (es : List Event)
    (ids : List ℕ) (sender : SendState × List ℕ)
    → peer_max ≤ 2 ^ 62
    → local_max ≤ 2 ^ 62
    → All InRange es
    → run (new local_first peer_max our_max peer_first).send es ≡ sender
    → sender.0.peer_max ≤ local_max
    → ((x : ℕ) → contains ids x ≡ true → contains sender.1 x ≡ true)
    → distinct ids ≡ true
    → all_accepted (validate_all (new peer_first first_max local_max local_first).recv ids) ≡ true
delivered_accepted local_first peer_max our_max peer_first local_max first_max es ids sender top
      top' h ran lim within once =
    let ((k, e), below) = run-progression local_first peer_max our_max peer_first es top h in
    rw (validate_all-new peer_first first_max local_max local_first ids top') (
      answers-accepted local_first local_max ids []
        (λ x m.
          let given : contains (run (new local_first peer_max our_max peer_first).send es).1 x
              ≡ true =
            rw ran (within x m) in
          let (lo, par) = progression-bounds k local_first x (rw e at given) in
          let lim' : (run (new local_first peer_max our_max peer_first).send es).0.peer_max
              ≤ local_max =
            rw ran lim in
          (omega (arith, below x given), lo, par))
        (λ x m. unfold contains in refl) once)
