-- ===== src/Proof.antt =====
-- pkg/proof: the challenge, the verification of a storage proof, the splitting of files, the tags and proofs
-- over a pairing, and the verifier's key.
pub mod Modular
pub mod Challenge
pub mod Verify
pub mod Split
pub mod Prover
pub mod Key
