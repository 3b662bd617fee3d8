-- ===== src/Proof/Challenge.antt =====
-- pkg/proof/chalGen.go: the challenge that the chain sends, as the verifier reads it.
use cess_scheduler.Prelude.{
  ℕ, zero, suc, ◌≡◌, refl, Bytes, Option, none, some, List, [], ◌∷◌, length, get_elem?, ◌==◌,
  if◌then◌else◌, ℤ, pos, sub_ℕ, arith, Bool-cases, ◌⊎◌, inl, inr, ap, ◌≢◌, leb,
}

pub record QElement : Type 0 where
  pub i : ℤ
  pub v : Bytes

-- The loop over the two lists, which it indexes alike.
unfoldable pub challenge : List ℕ → List Bytes → List QElement
challenge [] vs = []
challenge (b ∷ bs) [] = []
challenge (b ∷ bs) (v ∷ vs) =
    record { i = if leb 0 b then sub_ℕ b 1 else pos 0; v = v } ∷ challenge bs vs

-- PoDR2ChallengeGenerateFromChain; `none` is its error.
unfoldable pub podr2_challenge_generate_from_chain : List ℕ → List Bytes → Option (List QElement)
unfolding challenge
podr2_challenge_generate_from_chain blockindex blockrandom =
    if length blockindex == length blockrandom
    then some (challenge blockindex blockrandom)
    else none

length-challenge :
    (bs : List ℕ) (vs : List Bytes) → length bs ≡ length vs → length (challenge bs vs) ≡ length bs
unfolding challenge
length-challenge [] vs h = refl
length-challenge (b ∷ bs) [] h = absurd (omega arith)
length-challenge (b ∷ bs) (v ∷ vs) h = ap suc (length-challenge bs vs (omega arith))

challenge-get :
    (bs : List ℕ) (vs : List Bytes) (j b : ℕ) (v : Bytes)
    → get_elem? bs j ≡ some b
    → get_elem? vs j ≡ some v
    → get_elem? (challenge bs vs) j ≡ some (record { i = sub_ℕ b 1; v = v })
unfolding challenge
challenge-get [] vs j b v p q = cc
challenge-get (x ∷ bs) [] j b v p q = cc
challenge-get (x ∷ bs) (y ∷ vs) zero b v p q = ground arith
challenge-get (x ∷ bs) (y ∷ vs) (suc j) b v p q = challenge-get bs vs j b v p q

-- The challenge is refused exactly when the two lists differ in length; else it has one element for
-- each block, in order, which pairs the block's number less one (-1 for block 0) with its random number.
pub challenge_pairs :
    (bs : List ℕ) (vs : List Bytes)
    → ((length bs ≢ length vs) × (podr2_challenge_generate_from_chain bs vs ≡ none))
      ⊎ ((qs : List QElement) × (podr2_challenge_generate_from_chain bs vs ≡ some qs)
          × (length qs ≡ length bs)
          × ((j b : ℕ) (v : Bytes)
              → get_elem? bs j ≡ some b
              → get_elem? vs j ≡ some v
              → get_elem? qs j ≡ some (record { i = sub_ℕ b 1; v = v })))
unfolding podr2_challenge_generate_from_chain
challenge_pairs bs vs = elim (Bool-cases (length bs == length vs)) [
  | inr differ ↦ inl (ground arith, ground arith)
  | inl same ↦
      inr (challenge bs vs, rw same, length-challenge bs vs (ground arith), challenge-get bs vs)
]
