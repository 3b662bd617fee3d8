-- ===== src/Examples/ProverTests.antt =====
-- Storage proofs over a pairing (pkg/proof/sigGen.go, genProof.go) in a small group.
use cess_scheduler.Prelude.{
  ◌<◌, ◌≤◌, ℕ, ◌+◌, ◌*◌, ◌≡◌, refl, inr, Bytes, true, some, List, [], ◌∷◌, length, arith, pos,
  negsuc, ◌==◌, str, All,
}
use mathlib.Core.List.{Permᴰ}
use native.Mathlib.Nat.{mul_comm}
use cess_scheduler.Proof.Challenge.{QElement}
use cess_scheduler.Proof.Prover.{
  Pairing, PbcKeyPair, ProofEnv, SigGenResponse, GenProofResponse, sent, crashes, panics, success,
  sig_gen, gen_proof, failed_proof,
}
use cess_scheduler.Proof.Prover.Group.{IsLawful, equation}
use cess_scheduler.Proof.Prover.Sign.{below}
use cess_scheduler.Proof.Prover.ChalGen.{chal_gen}
use cess_scheduler.Proof.Prover.Drawn.{Distinct, chal_gen_lem}
use cess_scheduler.Proof.Prover.Gathered.{InRange}
use cess_scheduler.Proof.Prover.Honest.{honest_prover_accepted}

abbrev first : Bytes → ℕ
first [] = 0
first (b ∷ bs) = b

-- The numbers under addition, whose pairing is the product.
abbrev plain : Pairing ℕ ℕ ℕ
plain = record {
  new_g1 = 0;
  mul = λ a b. a + b;
  pow_zn = λ a z. a * z;
  g1_set_bytes = first;
  g1_bytes = λ a. a ∷ [];
  set_from_string_hash = λ b. first b + 7;
  set_from_hash = first;
  new_zr = 0;
  add_zr = λ a b. a + b;
  mul_zr = λ a b. a * b;
  zr_set_bytes = first;
  zr_bytes = λ a. a ∷ [];
  pair = λ a b. a * b;
  equals = λ a b. a == b;
}

plain-IsLawful : IsLawful plain
plain-IsLawful = record {
  mul_assoc = λ a b c. omega arith;
  mul_comm = λ a b. omega arith;
  mul_new = λ a. omega arith;
  pow-new_zr = λ a. omega arith;
  pow-new_g1 = λ z. omega arith;
  pow-add = λ a y z. grind arith;
  pow-mul = λ a y z. grind arith;
  mul-pow = λ a b z. grind arith;
  mul_zr_comm = λ y z. mul_comm y z;
  g1-set_bytes = λ a. refl;
  zr-set_bytes = λ z. refl;
  pair-pow = λ a b z. grind arith;
  equals_self = λ x. ground arith;
}

abbrev env : ProofEnv ℕ ℕ ℕ
env = record {
  new_pairing = λ s. some plain;
  marshal = λ tag. inr tag.u;
  sha256 = λ b. b;
  merkle_root = λ h e cs. inr (9 ∷ []);
}

-- The generator is 2, the private key 3.
abbrev key : PbcKeyPair
key = record { spk = 6 ∷ []; ssk = 3 ∷ []; shared_params = []; shared_g = 2 ∷ [] }

abbrev rows : List Bytes
rows = (5 ∷ []) ∷ (8 ∷ []) ∷ (1 ∷ []) ∷ []

abbrev asked : List QElement
asked = record { i = pos 2; v = 4 ∷ [] } ∷ record { i = pos 0; v = 6 ∷ [] } ∷ []

in_range : All (InRange (length rows)) asked
unfolding InRange
in_range = ((2, refl, omega arith), ((0, refl, omega arith), tt))

honest_prover_accepted_example :
    (s : SigGenResponse) × (sig_gen env key 11 13 (1 ∷ 2 ∷ 0 ∷ []) rows (pos (length rows))
      ≡ sent s)
    × (s.statue_msg.status_code ≡ success)
    × (r : GenProofResponse) × (gen_proof env key asked s.t s.phi rows s.sig_root_hash ≡ sent r)
    × (r.statue_msg.status_code ≡ success)
    × (equation plain key (13 ∷ []) asked r.hash_mi r.mu r.sigma ≡ true)
unfolding below
honest_prover_accepted_example =
    honest_prover_accepted env key plain plain-IsLawful refl refl 11 13 (1 ∷ 2 ∷ 0 ∷ []) rows
      (13 ∷ []) (9 ∷ []) asked (Permᴰ.swap refl refl) refl refl in_range

-- More rows announced than there are: a goroutine reads past the end.
short_matrix : sig_gen env key 11 13 (0 ∷ 3 ∷ 1 ∷ 2 ∷ []) rows (pos 4) ≡ crashes
unfolding sig_gen
short_matrix = refl

-- A tag that another key signed.
foreign_tag :
    gen_proof env key asked
      (record { tag = record { name = []; n = pos 3; u = 13 ∷ [] }; sig_above = 59 ∷ [] })
      []
      rows
      []
    ≡ sent (failed_proof 202 (str "Signature information verification error"))
unfolding gen_proof failed_proof
foreign_tag = refl

-- Block 0 of the chain gives the index -1.
negative_index :
    gen_proof env key
      (record { i = negsuc 0; v = [] } ∷ [])
      (record { tag = record { name = []; n = pos 3; u = 13 ∷ [] }; sig_above = 60 ∷ [] })
      []
      rows
      []
    ≡ panics
unfolding gen_proof
negative_index = refl

-- Index 2 is drawn twice.
drawn :
    chal_gen (λ k. k ∷ []) (0 ∷ 2 ∷ []) (2 ∷ 2 ∷ 0 ∷ [])
    ≡ some (record { i = pos 2; v = 0 ∷ [] } ∷ record { i = pos 0; v = 1 ∷ [] } ∷ [])
unfolding chal_gen
drawn = refl

chal_gen_lem_example :
    (0 < 2)
    × (2 ≤ 3)
    × All (InRange 3) (record { i = pos 2; v = 0 ∷ [] } ∷ record { i = pos 0; v = 1 ∷ [] } ∷ [])
    × Distinct (record { i = pos 2; v = 0 ∷ [] } ∷ record { i = pos 0; v = 1 ∷ [] } ∷ [])
chal_gen_lem_example =
    chal_gen_lem 3 (λ k. k ∷ []) (0 ∷ 2 ∷ []) (2 ∷ 2 ∷ 0 ∷ [])
      (record { i = pos 2; v = 0 ∷ [] } ∷ record { i = pos 0; v = 1 ∷ [] } ∷ [])
      (omega arith, (omega arith, tt)) (omega arith, (omega arith, (omega arith, tt))) drawn
