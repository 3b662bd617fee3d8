-- ===== src/Examples/ProofTaskTests.antt =====
-- The proof task (node/sub_verifyProofs.go).
use cess_scheduler.Prelude.{
  ℕ, zero, suc, ◌≡◌, refl, Bytes, true, false, Option, none, some, List, [], ◌∷◌, ◌++◌, arith, str,
  All, if◌then◌else◌,
}
use mathlib.Core.List.{flatten}
use cess_scheduler.Chain.Types.{Error, rpc_empty_value, rpc_timeout, Proof, ChallengeInfo}
use cess_scheduler.Proof.Challenge.{podr2_challenge_generate_from_chain}
use cess_scheduler.Proof.Verify.{RsaKey, verify_proof}
use cess_scheduler.Node.Proofs.{
  Task, done, panicked, deadlocked, crashes, result_of, verify_one, validate_round,
  submit_proof_result, submit_loop,
}
use cess_scheduler.Node.Proofs.Batches.{Results, nil, cons, IsBatch, validate_round_submits_each}
use cess_scheduler.Node.Proofs.Hostile.{empty_challenge_deadlocks, short_hashes_crash}
use cess_scheduler.Node.Proofs.Submission.{submit_proof_result_ends, submit_loop_forever, no_hash}
use cess_scheduler.Examples.NodeTests.{key32}

abbrev challenge : ChallengeInfo
challenge = record {
  file_size = 0;
  file_type = 1;
  block_list = [];
  file_id = str "f";
  shard_id = str "s";
  random = [];
}

abbrev rsa : RsaKey
rsa = record { n = 33; e = 3 }

-- Filled, and with an empty challenge.
abbrev hostile : Proof
hostile = record {
  file_id = str "f";
  miner_pubkey = key32;
  challenge_info = challenge;
  u = 2 ∷ [];
  mu = 6 ∷ [];
  sigma = 25 ∷ [];
  omega_bytes = 1 ∷ [];
  sig_root_hash = [];
  hash_mi = [];
}

abbrev good : Proof
good = record hostile {
  challenge_info = record challenge { block_list = 1 ∷ []; random = (2 ∷ []) ∷ [] };
  hash_mi = (5 ∷ []) ∷ [];
}

abbrev short : Proof
short = record good { hash_mi = [] }

abbrev in_order : List ℕ → List ℕ
in_order xs = xs

good-Results : Results in_order rsa (good ∷ []) (result_of good true ∷ [])
unfolding verify_one podr2_challenge_generate_from_chain verify_proof
good-Results = cons refl nil

validate_round_submits_each_example :
    (t : Task) × (validate_round in_order rsa
        (record { locked = false; submitted = [] })
        (good ∷ [])
      ≡ done t)
    × (t.locked ≡ false)
    × (flatten t.submitted ≡ result_of good true ∷ [])
    × All IsBatch t.submitted
validate_round_submits_each_example = validate_round_submits_each in_order rsa good-Results

empty_challenge_deadlocks_example :
    (t : Task) × (validate_round in_order rsa
        (record { locked = false; submitted = [] })
        ((good ∷ []) ++ hostile ∷ [])
      ≡ panicked t)
    × ((next : Proof) (later : List Proof)
        → validate_round in_order rsa t (next ∷ later) ≡ deadlocked t)
empty_challenge_deadlocks_example =
    empty_challenge_deadlocks in_order rsa [] hostile [] good-Results
      (((λ e. cc), (λ e. cc), (λ e. cc)), refl, refl)

missing_hash : verify_one in_order rsa short ≡ crashes
missing_hash =
    short_hashes_crash in_order rsa short ((λ e. cc), (λ e. cc), (λ e. cc)) refl (omega arith)

-- Two failures, then a hash.
replies : ℕ → Bytes × Option Error
replies zero = ([], some rpc_timeout)
replies (suc zero) = ([], some rpc_empty_value)
replies _ = (0xab ∷ [], none)

replies_reported :
    (k : ℕ)
    → no_hash replies k ≡ true
    → (elim ((replies k).1) [ none ↦ false | some e ↦ true ]) ≡ true
unfolding replies
replies_reported zero h = refl
replies_reported (suc zero) h = refl
replies_reported (suc (suc k)) h = cc

submit_proof_result_ends_example :
    submit_proof_result (suc (suc (suc 5))) (result_of good true ∷ []) replies ≡ (
      if no_hash replies 0
      then (if no_hash replies 1
          then (if no_hash replies 2 then some (3, false) else some (3, true))
          else some (2, true))
      else some (1, true))
submit_proof_result_ends_example =
    submit_proof_result_ends 5 (result_of good true) [] replies replies_reported

hundred_rounds : submit_loop 100 0 0 (λ k. ([], none)) ≡ none
hundred_rounds = submit_loop_forever 100 0 0 (λ k. ([], none)) (λ j. refl) (omega arith)
