-- ===== src/Node/Proofs/Submission.antt =====
-- How often submitProofResult calls the chain.
use cess_scheduler.Prelude.{
  ℕ, zero, suc, ◌<◌, ◌≡◌, refl, Bytes, Bool, true, false, Option, none, some, List, [], ◌∷◌, length,
  leb, if◌then◌else◌, arith, ◌==◌, is_some,
}
use cess_scheduler.Chain.Types.{Error, ProofResult}
use cess_scheduler.Node.Proofs.{submit_loop, submit_proof_result}

-- Whenever SubmitProofResults gives no hash, it gives an error.
abbrev pub IsReported : (ℕ → Bytes × Option Error) → Type 0
IsReported replies = (k : ℕ) → (length (replies k).0 == 0) ≡ true → is_some (replies k).1 ≡ true

abbrev pub no_hash : (ℕ → Bytes × Option Error) → ℕ → Bool
no_hash replies k = length (replies k).0 == 0

-- If every reply with an empty hash has an error, and there are at least three rounds of fuel, a list
-- that is not empty is submitted: the loop ends with the first of three calls that gives a hash, and
-- gives up after the third.
pub submit_proof_result_ends :
    (fuel : ℕ) (r : ProofResult) (rs : List ProofResult) (replies : ℕ → Bytes × Option Error)
    → IsReported replies
    → submit_proof_result (suc (suc (suc fuel))) (r ∷ rs) replies ≡ (
        if no_hash replies 0
        then (if no_hash replies 1
            then (if no_hash replies 2 then some (3, false) else some (3, true))
            else some (2, true))
        else some (1, true))
unfolding submit_proof_result
submit_proof_result_ends fuel r rs replies h = ground (arith, h 0, h 1, h 2)

-- An empty hash with a nil error at every call, before three tries are counted: the loop has not ended
-- after any number of rounds.
pub submit_loop_forever :
    (fuel k t : ℕ) (replies : ℕ → Bytes × Option Error)
    → ((j : ℕ) → replies j ≡ ([], none))
    → t < 3
    → submit_loop fuel k t replies ≡ none
unfolding submit_loop
submit_loop_forever zero k t replies h s = refl
submit_loop_forever (suc fuel) k t replies h s =
    rw (h k, submit_loop)
      (let f : leb 3 t ≡ false = ground arith in
        rw (f, submit_loop) (submit_loop_forever fuel (suc k) t replies h s))
