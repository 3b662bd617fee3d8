-- ===== src/Node/Proofs.antt =====
-- node/sub_verifyProofs.go: the task that verifies the proofs on the chain and submits the results.
use cess_scheduler.Prelude.{
  ℕ, zero, suc, ◌+◌, ◌%◌, Bytes, Bool, true, false, Option, none, some, List, [], ◌∷◌, ◌++◌, length,
  ◌==◌, ◌||◌, leb, if◌then◌else◌, is_some,
}
use cess_scheduler.Chain.Types.{Error, Proof, ProofResult}
use cess_scheduler.Proof.Challenge.{QElement, podr2_challenge_generate_from_chain}
use cess_scheduler.Proof.Verify.{Verdict, RsaKey, verify_proof}
pub mod Batches
pub mod Hostile
pub mod Submission

-- What verifyProof comes to for one proof.
pub data Checked : Type 0 where
  result : ProofResult → Checked
  panics : Checked
  crashes : Checked

abbrev pub max_sub_proof_results : ℕ
max_sub_proof_results = 40

-- The result for a proof, with its verdict.
abbrev pub result_of : Proof → Bool → ProofResult
result_of prf b = record {
  public_key = prf.miner_pubkey;
  file_id = prf.challenge_info.file_id;
  shard_id = prf.challenge_info.shard_id;
  result = b;
}

abbrev pub concluded : Proof → Verdict → Checked
concluded prf (Verdict.answer b) = result (result_of prf b)
concluded prf Verdict.panics = panics
concluded prf Verdict.crashes = crashes

-- From the challenge on. A challenge that cannot be built counts for the miner.
unfoldable pub verify_challenge :
    (List ℕ → List ℕ) → RsaKey → Proof → Option (List QElement) → Checked
verify_challenge order key prf none = result (result_of prf true)
verify_challenge order key prf (some qs) =
    concluded prf (verify_proof order key prf.u qs prf.mu prf.sigma prf.hash_mi)

-- Node.verifyProof; `order` is the order in which the goroutines of VerifyProof multiply.
unfoldable pub verify_one : (List ℕ → List ℕ) → RsaKey → Proof → Checked
unfolding verify_challenge
verify_one order key prf =
    if (length prf.u == 0) || ((length prf.sigma == 0) || (length prf.omega_bytes == 0))
    then result (result_of prf false)
    else (verify_challenge order key prf (
        podr2_challenge_generate_from_chain prf.challenge_info.block_list
          prf.challenge_info.random))

-- workLock, and what was handed to submitProofResult so far, in order.
pub record Task : Type 0 where
  pub locked : Bool
  pub submitted : List (List ProofResult)

-- submitProofResult does nothing for an empty list.
abbrev pub submit : List ProofResult → Task → Task
submit [] t = t
submit (r ∷ rs) t = record t { submitted = t.submitted ++ (r ∷ rs) ∷ [] }

-- How one pass over the proofs ends. `deadlocked` waits for a lock that is never released.
pub data Ended : Type 0 where
  done : Task → Ended
  panicked : Task → Ended
  crashed : Task → Ended
  deadlocked : Task → Ended

-- A full list of results is handed over before the next proof.
abbrev pub flush : List ProofResult → Task → Task
flush rs t = if leb max_sub_proof_results (length rs) then submit rs t else t

abbrev pub kept : List ProofResult → List ProofResult
kept rs = if leb max_sub_proof_results (length rs) then [] else rs

-- The loop under the lock, then the unlock and the last submission. A panic leaves the lock held.
unfoldable pub verify_all :
    (List ℕ → List ℕ) → RsaKey → List ProofResult → Task → List Proof → Ended
verify_all order key rs t [] = done (submit rs (record t { locked = false }))
verify_all order key rs t (prf ∷ rest) = elim (verify_one order key prf) [
  | result r ↦ verify_all order key (kept rs ++ r ∷ []) (flush rs t) rest
  | panics ↦ panicked (flush rs t)
  | crashes ↦ crashed (flush rs t)
]

-- One round of the outer loop, with the proofs that the chain returned.
unfoldable pub validate_round : (List ℕ → List ℕ) → RsaKey → Task → List Proof → Ended
unfolding verify_all
validate_round order key t [] = done t
validate_round order key t (prf ∷ rest) =
    if t.locked
    then deadlocked t
    else verify_all order key [] (record t { locked = true }) (prf ∷ rest)

-- The loop of submitProofResult; `replies k` is what the k-th SubmitProofResults returns. The number
-- of calls that were made, and whether the last gave a hash; `none` while it runs.
unfoldable pub submit_loop : ℕ → ℕ → ℕ → (ℕ → Bytes × Option Error) → Option (ℕ × Bool)
submit_loop zero k try_count replies = none
submit_loop (suc fuel) k try_count replies =
    let (txhash, e) = replies k in
    let tries = if is_some e then (try_count + 1) % 256 else try_count in
    let rest = submit_loop fuel (suc k) tries replies in
    if length txhash == 0
    then (if leb 3 tries then some (suc k, false) else rest)
    else some (suc k, true)

unfoldable pub submit_proof_result :
    ℕ → List ProofResult → (ℕ → Bytes × Option Error) → Option (ℕ × Bool)
unfolding submit_loop
submit_proof_result fuel [] replies = some (0, false)
submit_proof_result fuel (r ∷ rs) replies = submit_loop fuel 0 0 replies
