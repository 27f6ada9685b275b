-- ===== src/Session/RequestId/Spec.antt =====
-- Inbound ids against a specification that keeps the whole history and no low-water mark.
use mathlib.Core.Path.{ap₂}
use moq_rs.Prelude.{
  Option, not, some, refl, leb, arith, ltb, List, ◌%◌, contains, Bool, ◌&&◌, ◌∷◌, ◌≡◌, [], inr,
  Bool-cases, inl, if◌then◌else◌, ◌==◌, none, ℕ, false, ◌^◌, ◌≤◌, ◌∙◌, true, sym, contains-cons,
  ◌||◌,
}
use moq_rs.Session.Error.{SessionError}
use moq_rs.Session.RequestId.{RecvState, new, validate_incoming}
use moq_rs.Session.RequestId.Recv.{
  Inv, seen, accepts, validate_incoming_good, validate_incoming_refuses, new-Inv,
}

-- The draft's rule: an id of the peer's parity, from its first one up to the advertised maximum,
-- is good once. `history` holds those accepted before.
module _ (first our_max : ℕ) where
  unfoldable pub is_good : List ℕ → ℕ → Bool
  is_good history x =
      ltb x our_max && leb first x && (x % 2 == first % 2) && not (contains history x)

  unfoldable pub answer : List ℕ → ℕ → Option SessionError
  answer history x =
      if is_good history x
      then none
      else some (
          if leb our_max x then SessionError.too_many_requests else SessionError.invalid_request_id)

  -- The answers to a sequence of ids.
  unfoldable pub answers : List ℕ → List ℕ → List (Option SessionError)
  answers history [] = []
  answers history (x ∷ xs) =
      let after = if is_good history x then x ∷ history else history in
      answer history x ∷ answers after xs

-- The same sequence through the code.
pub validate_all : RecvState → List ℕ → List (Option SessionError)
validate_all s [] = []
validate_all s (x ∷ xs) = let (t, r) = validate_incoming s x in r ∷ validate_all t xs

-- The state stands for the history.
record Stands (first our_max : ℕ) (history : List ℕ) (s : RecvState) : Type 0 where
  inv : Inv s
  same_first : s.first ≡ first
  same_max : s.our_max ≡ our_max
  same_seen : (x : ℕ) → seen s x ≡ (leb first x && (x % 2 == first % 2) && contains history x)

accepts-is_good :
    (first our_max : ℕ) (history : List ℕ) (s : RecvState) (x : ℕ)
    → Stands first our_max history s
    → accepts s x ≡ is_good first our_max history x
unfolding is_good accepts
accepts-is_good first our_max history s x h =
    ground (arith, h.same_first, h.same_max, h.same_seen x)

Stands-cons :
    (first our_max : ℕ) (history : List ℕ) (s : RecvState) (x y : ℕ) {b : Bool}
    → Stands first our_max history s
    → accepts s x ≡ true
    → b ≡ (y == x || seen s y)
    → b ≡ (leb first y && (y % 2 == first % 2) && contains (x ∷ history) y)
unfolding accepts
Stands-cons first our_max history s x y h good e =
    ground (arith, contains-cons x y history, h.same_first, h.same_seen y)

validate_all-answers :
    (first our_max : ℕ) (xs history : List ℕ) (s : RecvState)
    → Stands first our_max history s
    → validate_all s xs ≡ answers first our_max history xs
unfolding validate_all answers answer
validate_all-answers first our_max [] history s h = refl
validate_all-answers first our_max (x ∷ xs) history s h = elim (Bool-cases (accepts s x)) [
  | inl good ↦
      let (e, inv, grown, f, m) = validate_incoming_good s x h.inv good in
      let good' : is_good first our_max history x ≡ true =
        sym (accepts-is_good first our_max history s x h) ∙ good in
      let next : Stands first our_max (x ∷ history) (validate_incoming s x).0 = record {
        inv = inv;
        same_first = f ∙ h.same_first;
        same_max = m ∙ h.same_max;
        same_seen = λ y. Stands-cons first our_max history s x y h good (grown y);
      } in
      rw good' (ap₂ (λ r rs. r ∷ rs) e (validate_all-answers first our_max xs (x ∷ history) _ next))
  | inr bad ↦
      let bad' : is_good first our_max history x ≡ false =
        sym (accepts-is_good first our_max history s x h) ∙ bad in
      rw (bad', validate_incoming_refuses s x h.inv bad)
        (ap₂
          (λ m rs.
            some
              (if leb m x then SessionError.too_many_requests else SessionError.invalid_request_id)
            ∷ rs)
          h.same_max (validate_all-answers first our_max xs history s h))
]

-- With a limit of at most 2^62, on any ids in any order, the low-water mark and the set beside it
-- answer as the history of the accepted ids does: an id is accepted if it is below the limit, not
-- below the peer's first id, of its parity, and new.
pub validate_all-new :
    (local_first peer_max our_max peer_first : ℕ) (xs : List ℕ)
    → our_max ≤ 2 ^ 62
    → validate_all (new local_first peer_max our_max peer_first).recv xs
      ≡ answers peer_first our_max [] xs
validate_all-new local_first peer_max our_max peer_first xs h =
    validate_all-answers peer_first our_max xs [] _ (record {
      inv = new-Inv local_first peer_max our_max peer_first h;
      same_first = unfold new in refl;
      same_max = unfold new in refl;
      same_seen = unfold new seen contains in λ x. ground arith;
    })
