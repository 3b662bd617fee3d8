-- ===== src/Proof/Prover.antt =====
-- The storage proofs over a pairing: SigGen and GenerateSigma of pkg/proof/sigGen.go, GenProof of
-- pkg/proof/genProof.go. The library pbc is a `Pairing`, JSON, SHA-256 and the Merkle tree are a `ProofEnv`;
-- the two random draws are arguments, and so is the order in which the goroutines of SigGen write.
use cess_scheduler.Prelude.{
  ℕ, zero, suc, ◌≡◌, Bytes, Bool, true, false, Option, none, some, List, [], ◌∷◌, ◌++◌, map, ◌⊎◌,
  inl, inr, get_elem?, replicate, str, bytes_eq, ℤ, pos, negsuc, if◌then◌else◌,
}
use cess_scheduler.Proof.Challenge.{QElement}
pub mod Group
pub mod Sign
pub mod Gathered
pub mod Honest
pub mod ChalGen
pub mod Drawn

-- The operations of a pairing's elements, and the two hashes into G1.
pub record Pairing (G1 GT Zr : Type 0) : Type 0 where
  pub new_g1 : G1
  pub mul : G1 → G1 → G1
  pub pow_zn : G1 → Zr → G1
  pub g1_set_bytes : Bytes → G1
  pub g1_bytes : G1 → Bytes
  pub set_from_string_hash : Bytes → G1
  pub set_from_hash : Bytes → G1
  pub new_zr : Zr
  pub add_zr : Zr → Zr → Zr
  pub mul_zr : Zr → Zr → Zr
  pub zr_set_bytes : Bytes → Zr
  pub zr_bytes : Zr → Bytes
  pub pair : G1 → G1 → GT
  pub equals : GT → GT → Bool

-- Without ZrLength, which no code reads.
pub record PbcKeyPair : Type 0 where
  pub spk : Bytes
  pub ssk : Bytes
  pub shared_params : Bytes
  pub shared_g : Bytes

pub record Tag : Type 0 where
  pub name : Bytes
  pub n : ℤ
  pub u : Bytes

pub record T : Type 0 where
  pub tag : Tag
  pub sig_above : Bytes

pub record StatueMsg : Type 0 where
  pub status_code : ℕ
  pub msg : Bytes

pub record SigGenResponse : Type 0 where
  pub t : T
  pub phi : List Bytes
  pub sig_root_hash : Bytes
  pub statue_msg : StatueMsg

-- Without Omega, which GenProof does not set.
pub record GenProofResponse : Type 0 where
  pub sigma : Bytes
  pub mu : Bytes
  pub hash_mi : List Bytes
  pub sig_root_hash : Bytes
  pub statue_msg : StatueMsg

pub record Content : Type 0 where
  pub x : Bytes

-- `panics` unwinds the caller, `crashes` is a panic of a goroutine, which ends the process.
pub data Ran {ℓ} (A : Type ℓ) : Type ℓ where
  sent : A → Ran A
  panics : Ran A
  crashes : Ran A

-- The left of a sum is an error's text. `new_pairing` is a nil pointer for parameters that it cannot read.
-- The Merkle tree takes the two methods of its contents.
pub record ProofEnv (G1 GT Zr : Type 0) : Type 0 where
  pub new_pairing : Bytes → Option (Pairing G1 GT Zr)
  pub marshal : Tag → Bytes ⊎ Bytes
  pub sha256 : Bytes → Bytes
  pub merkle_root : (Content → Bytes) → (Content → Content → Bool) → List Content → Bytes ⊎ Bytes

abbrev pub success : ℕ
success = 200

abbrev pub error_param : ℕ
error_param = 202

abbrev pub error_internal : ℕ
error_internal = 204

abbrev empty_t : T
empty_t = record { tag = record { name = []; n = pos 0; u = [] }; sig_above = [] }

unfoldable pub equals_content : Content → Content → Bool
equals_content c d = bytes_eq c.x d.x

-- A slice at a signed index.
unfoldable pub at : List Bytes → ℤ → Option Bytes
at xs (pos i) = get_elem? xs i
at xs (negsuc i) = none

unfoldable pub write_at : ℕ → Bytes → List Bytes → List Bytes
write_at i b [] = []
write_at zero b (x ∷ xs) = b ∷ xs
write_at (suc i) b (x ∷ xs) = x ∷ write_at i b xs

-- Without a value for MU and Sigma.
unfoldable pub failed_proof : ℕ → Bytes → GenProofResponse
failed_proof code text = record {
  sigma = [];
  mu = [];
  hash_mi = [];
  sig_root_hash = [];
  statue_msg = record { status_code = code; msg = text };
}

unfoldable pub failed_sig : T → ℕ → Bytes → SigGenResponse
failed_sig t code text = record {
  t = t;
  phi = [];
  sig_root_hash = [];
  statue_msg = record { status_code = code; msg = text };
}

module _ {G1 GT Zr : Type 0} where
  unfoldable pub calculate_hash : ProofEnv G1 GT Zr → Content → Bytes
  calculate_hash env c = env.sha256 c.x

  -- (H(mi) · u^mi)^α
  unfoldable pub generate_sigma : Pairing G1 GT Zr → Bytes → Bytes → Zr → Bytes
  generate_sigma p data' u alpha = p.g1_bytes (
      p.pow_zn
        (p.mul (p.set_from_string_hash data') (p.pow_zn (p.g1_set_bytes u) (p.zr_set_bytes data')))
        alpha)

  -- The goroutines, in the order of their writes; `none` if one reads past the end of the matrix.
  unfoldable pub write_sigmas :
      Pairing G1 GT Zr → Zr → Bytes → List Bytes → List ℕ → List Bytes → Option (List Bytes)
  unfolding generate_sigma
  write_sigmas p alpha u matrix [] phi = some phi
  write_sigmas p alpha u matrix (i ∷ order) phi = elim (get_elem? matrix i) [
    | none ↦ none
    | some row ↦ write_sigmas p alpha u matrix order (write_at i (generate_sigma p row u alpha) phi)
  ]

  -- From the Merkle root on.
  unfoldable pub sign_rows :
      Pairing G1 GT Zr → Zr → T → Bytes → List Bytes → ℤ → List ℕ → Ran SigGenResponse
  unfolding write_sigmas
  sign_rows p alpha t root matrix (negsuc n) order = panics
  sign_rows p alpha t root matrix (pos n) order =
      elim (write_sigmas p alpha t.tag.u matrix order (replicate n [])) [
        | none ↦ crashes
        | some phi ↦ sent (record {
          t = t;
          phi = phi;
          sig_root_hash = p.g1_bytes (p.pow_zn (p.set_from_hash root) alpha);
          statue_msg = record { status_code = success; msg = str "PoDR2ProofCommit success" };
        })
      ]

  unfoldable pub sig_gen_with :
      ProofEnv G1 GT Zr → Pairing G1 GT Zr → Zr → Tag → List Bytes → ℤ → List ℕ → Ran SigGenResponse
  unfolding sign_rows calculate_hash equals_content failed_sig
  sig_gen_with env p alpha tag matrix n order = elim (env.marshal tag) [
    | inl err ↦ sent (failed_sig empty_t error_internal err)
    | inr tmp ↦
        let t : T = record {
          tag = tag;
          sig_above = p.g1_bytes (p.pow_zn (p.set_from_string_hash tmp) alpha);
        } in
        elim (env.merkle_root (calculate_hash env) equals_content
          (map (λ v. record { x = v }) matrix)) [
            | inl err ↦ sent (failed_sig t error_internal err)
            | inr root ↦ sign_rows p alpha t root matrix n order
          ]
  ]

  -- `name` and `u` are the random elements.
  unfoldable pub sig_gen :
      ProofEnv G1 GT Zr → PbcKeyPair → Zr → G1 → List ℕ → List Bytes → ℤ → Ran SigGenResponse
  unfolding sig_gen_with
  sig_gen env key name u order matrix n = elim (env.new_pairing key.shared_params) [
    | none ↦ panics
    | some p ↦
        sig_gen_with env p (p.zr_set_bytes key.ssk)
          (record { name = p.zr_bytes name; n = n; u = p.g1_bytes u }) matrix n order
  ]

  -- The loop over QSlice: mu, sigma and HashMi; `none` if an index is out of range.
  unfoldable pub accumulate :
      Pairing G1 GT Zr
      → List Bytes
      → List Bytes
      → List QElement
      → Zr
      → G1
      → List Bytes
      → Option (Zr × G1 × List Bytes)
  unfolding at
  accumulate p matrix phi [] mu sigma hash_mi = some (mu, sigma, hash_mi)
  accumulate p matrix phi (q ∷ qs) mu sigma hash_mi = elim (at matrix q.i) [
    | none ↦ none
    | some m ↦ elim (at phi q.i) [
      | none ↦ none
      | some s ↦
          accumulate p matrix phi qs
            (p.add_zr (p.mul_zr (p.zr_set_bytes m) (p.zr_set_bytes q.v)) mu)
            (p.mul (p.pow_zn (p.g1_set_bytes s) (p.zr_set_bytes q.v)) sigma)
            (hash_mi ++ p.g1_bytes (p.set_from_string_hash m) ∷ [])
    ]
  ]

  -- The check of the tag's signature.
  unfoldable pub tag_signed : Pairing G1 GT Zr → PbcKeyPair → T → Bytes → Bool
  tag_signed p key t tmp =
      p.equals (p.pair (p.set_from_string_hash tmp) (p.g1_set_bytes key.spk))
        (p.pair (p.g1_set_bytes t.sig_above) (p.g1_set_bytes key.shared_g))

  unfoldable pub prove :
      Pairing G1 GT Zr → List QElement → List Bytes → List Bytes → Bytes → Ran GenProofResponse
  unfolding accumulate
  prove p qs phi matrix sig_root_hash = elim (accumulate p matrix phi qs p.new_zr p.new_g1 []) [
    | none ↦ panics
    | some (mu, sigma, hash_mi) ↦ sent (record {
      sigma = p.g1_bytes sigma;
      mu = p.zr_bytes mu;
      hash_mi = hash_mi;
      sig_root_hash = sig_root_hash;
      statue_msg = record { status_code = success; msg = str "Success" };
    })
  ]

  unfoldable pub gen_proof :
      ProofEnv G1 GT Zr
      → PbcKeyPair
      → List QElement
      → T
      → List Bytes
      → List Bytes
      → Bytes
      → Ran GenProofResponse
  unfolding tag_signed prove failed_proof
  gen_proof env key qs t phi matrix sig_root_hash = elim (env.new_pairing key.shared_params) [
    | none ↦ panics
    | some p ↦ elim (env.marshal t.tag) [
      | inl err ↦ sent (failed_proof error_internal err)
      | inr tmp ↦
          if tag_signed p key t tmp
          then prove p qs phi matrix sig_root_hash
          else sent (failed_proof error_param (str "Signature information verification error"))
    ]
  ]
