-- ===== src/Proof/Prover/ChalGen.antt =====
-- pkg/proof/chalGen.go: ChalGen, which draws a challenge. The numbers that crypto/rand draws are lists; where one of
-- them ends, the function still draws. SharedParams are those of a pairing.
use cess_scheduler.Prelude.{
  ℕ, zero, suc, Bytes, Bool, false, Option, none, some, List, [], ◌∷◌, ◌||◌, ◌==◌, if◌then◌else◌,
  pos,
}
use cess_scheduler.Proof.Challenge.{QElement}

-- The first number above 0.
unfoldable pub chal_length : List ℕ → Option ℕ
chal_length [] = none
chal_length (zero ∷ ls) = chal_length ls
chal_length (suc l ∷ ls) = some (suc l)

unfoldable pub elem : ℕ → List ℕ → Bool
elem i [] = false
elem i (j ∷ js) = (j == i) || elem i js

-- The first index that is not taken, and the draws after it.
unfoldable pub pick : List ℕ → List ℕ → Option (ℕ × List ℕ)
unfolding elem
pick taken [] = none
pick taken (i ∷ is') = let later = pick taken is' in if elem i taken then later else some (i, is')

-- The loop over the elements, the k-th and those behind it; `element k` are the bytes of its random exponent.
unfoldable pub chal_loop : (ℕ → Bytes) → ℕ → ℕ → List ℕ → List ℕ → Option (List QElement)
unfolding pick
chal_loop element zero k taken indices = some []
chal_loop element (suc left) k taken indices = elim (pick taken indices) [
  | none ↦ none
  | some (i, rest) ↦ elim (chal_loop element left (suc k) (i ∷ taken) rest) [
    | none ↦ none
    | some qs ↦ some (record { i = pos i; v = element k } ∷ qs)
  ]
]

-- `lengths` are drawn up to N, `indices` below N.
unfoldable pub chal_gen : (ℕ → Bytes) → List ℕ → List ℕ → Option (List QElement)
unfolding chal_length chal_loop
chal_gen element lengths indices = elim (chal_length lengths) [
  | none ↦ none
  | some l ↦ chal_loop element l 0 [] indices
]
