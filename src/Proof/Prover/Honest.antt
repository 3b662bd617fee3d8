-- ===== src/Proof/Prover/Honest.antt =====
-- GenProof (pkg/proof/genProof.go) over what SigGen (pkg/proof/sigGen.go) returns for the same matrix.
use cess_scheduler.Prelude.{
  ℕ, ◌<◌, ◌≡◌, refl, sym, ap, ◌∙◌, inr, Bytes, some, List, [], map, length, All, true, pos, str,
}
use mathlib.Core.List.{Permᴰ}
use cess_scheduler.Proof.Challenge.{QElement}
use cess_scheduler.Proof.Prover.{
  Pairing, PbcKeyPair, ProofEnv, Tag, SigGenResponse, GenProofResponse, sent, success, sig_gen,
  sig_gen_with, sign_rows, gen_proof, prove, tag_signed, calculate_hash, equals_content,
}
use cess_scheduler.Proof.Prover.Gathered.{InRange, accumulate_lem}
use cess_scheduler.Proof.Prover.Group.{IsLawful, hash_product, equation}
use cess_scheduler.Proof.Prover.Sign.{below, Signed, write_sigmas_all}

module _ {G1 GT Zr : Type 0} (env : ProofEnv G1 GT Zr) (key : PbcKeyPair) (p : Pairing G1 GT Zr)
    (law : IsLawful p) (finds : env.new_pairing key.shared_params ≡ some p)
    (paired : key.spk
      ≡ p.g1_bytes (p.pow_zn (p.g1_set_bytes key.shared_g) (p.zr_set_bytes key.ssk))) where
  -- e(a^α, g) = e(a, v)
  signature_holds :
      (a : G1)
      → p.pair (p.pow_zn a (p.zr_set_bytes key.ssk)) (p.g1_set_bytes key.shared_g)
        ≡ p.pair a (p.g1_set_bytes key.spk)
  signature_holds a =
      law.pair-pow a (p.g1_set_bytes key.shared_g) (p.zr_set_bytes key.ssk)
      ∙ ap (p.pair a) (
          sym (
            ap p.g1_set_bytes paired
            ∙ law.g1-set_bytes (p.pow_zn (p.g1_set_bytes key.shared_g) (p.zr_set_bytes key.ssk))))

  tag_signed_lem :
      (tag : Tag) (tmp : Bytes)
      → tag_signed p key
          (record {
            tag = tag;
            sig_above = p.g1_bytes (p.pow_zn (p.set_from_string_hash tmp) (p.zr_set_bytes key.ssk));
          })
          tmp
        ≡ true
  unfolding tag_signed
  tag_signed_lem tag tmp =
      let h : G1 = p.set_from_string_hash tmp in
      let e : p.pair (p.g1_set_bytes (p.g1_bytes (p.pow_zn h (p.zr_set_bytes key.ssk))))
            (p.g1_set_bytes key.shared_g)
          ≡ p.pair h (p.g1_set_bytes key.spk) =
        ap (λ t. p.pair t (p.g1_set_bytes key.shared_g))
          (law.g1-set_bytes (p.pow_zn h (p.zr_set_bytes key.ssk)))
        ∙ signature_holds h in
      ap (p.equals (p.pair h (p.g1_set_bytes key.spk))) e
      ∙ law.equals_self (p.pair h (p.g1_set_bytes key.spk))

  equation_holds :
      (u : Bytes) (qs : List QElement) (hs : List Bytes) (mu : Zr) (sigma : G1)
      → sigma
        ≡ p.pow_zn
            (p.mul (hash_product p p.new_g1 qs hs) (p.pow_zn (p.g1_set_bytes u) mu))
            (p.zr_set_bytes key.ssk)
      → equation p key u qs hs (p.zr_bytes mu) (p.g1_bytes sigma) ≡ true
  unfolding equation
  equation_holds u qs hs mu sigma e =
      let y : G1 = p.mul (hash_product p p.new_g1 qs hs) (p.pow_zn (p.g1_set_bytes u) mu) in
      let left : p.pair (p.g1_set_bytes (p.g1_bytes sigma)) (p.g1_set_bytes key.shared_g)
          ≡ p.pair y (p.g1_set_bytes key.spk) =
        ap (λ t. p.pair t (p.g1_set_bytes key.shared_g)) (law.g1-set_bytes sigma ∙ e)
        ∙ signature_holds y in
      let x : G1 = hash_product p p.new_g1 qs hs in
      ap
        (λ t. p.equals t (
          p.pair (p.mul x (p.pow_zn (p.g1_set_bytes u) (p.zr_set_bytes (p.zr_bytes mu))))
            (p.g1_set_bytes key.spk)))
        left
      ∙ ap
          (λ z.
            p.equals (p.pair y (p.g1_set_bytes key.spk))
              (p.pair (p.mul x (p.pow_zn (p.g1_set_bytes u) z)) (p.g1_set_bytes key.spk)))
          (law.zr-set_bytes mu)
      ∙ law.equals_self (p.pair y (p.g1_set_bytes key.spk))

  start : (u : G1) (alpha : Zr) → p.new_g1 ≡ p.pow_zn (p.mul p.new_g1 (p.pow_zn u p.new_zr)) alpha
  start u alpha = sym (
      ap (λ t. p.pow_zn (p.mul p.new_g1 t) alpha) (law.pow-new_zr u)
      ∙ ap (λ t. p.pow_zn t alpha) (law.mul_new p.new_g1)
      ∙ law.pow-new_g1 alpha)

  -- SigGen over a matrix as long as it says, when JSON and the Merkle tree give no error.
  sig_gen_lem :
      (name : Zr) (u : G1) (order : List ℕ) (matrix : List Bytes) (tmp root : Bytes)
      → Permᴰ (below (length matrix)) order
      → env.marshal (record { name = p.zr_bytes name; n = pos (length matrix); u = p.g1_bytes u })
        ≡ inr tmp
      → env.merkle_root (calculate_hash env) equals_content (map (λ v. record { x = v }) matrix)
        ≡ inr root
      → (r : SigGenResponse) × (sig_gen env key name u order matrix (pos (length matrix)) ≡ sent r)
        × (r.statue_msg.status_code ≡ success)
        × (r.t ≡ record {
          tag = record { name = p.zr_bytes name; n = pos (length matrix); u = p.g1_bytes u };
          sig_above = p.g1_bytes (p.pow_zn (p.set_from_string_hash tmp) (p.zr_set_bytes key.ssk));
        })
        × ((i : ℕ)
            → i < length matrix
            → Signed p (p.zr_set_bytes key.ssk) (p.g1_bytes u) matrix r.phi i)
  unfolding sig_gen sig_gen_with sign_rows
  sig_gen_lem name u order matrix tmp root perm marshals roots =
      let alpha : Zr = p.zr_set_bytes key.ssk in
      let (phi, runs, long, all) = write_sigmas_all p alpha (p.g1_bytes u) matrix order perm in
      (
        record {
          t = record {
            tag = record { name = p.zr_bytes name; n = pos (length matrix); u = p.g1_bytes u };
            sig_above = p.g1_bytes (p.pow_zn (p.set_from_string_hash tmp) alpha);
          };
          phi = phi;
          sig_root_hash = p.g1_bytes (p.pow_zn (p.set_from_hash root) alpha);
          statue_msg = record { status_code = success; msg = str "PoDR2ProofCommit success" };
        },
        rw (finds, sig_gen, marshals, sig_gen_with, roots, runs, sign_rows) refl,
        refl,
        refl,
        all,
      )

  gen_proof_lem :
      (qs : List QElement) (tag : Tag) (tmp u : Bytes) (matrix phi : List Bytes) (root : Bytes)
      → ((i : ℕ) → i < length matrix → Signed p (p.zr_set_bytes key.ssk) u matrix phi i)
      → All (InRange (length matrix)) qs
      → env.marshal tag ≡ inr tmp
      → (r : GenProofResponse) × (gen_proof env key qs
            (record {
              tag = tag;
              sig_above =
                  p.g1_bytes (p.pow_zn (p.set_from_string_hash tmp) (p.zr_set_bytes key.ssk));
            })
            phi
            matrix
            root
          ≡ sent r)
        × (r.statue_msg.status_code ≡ success)
        × (equation p key u qs r.hash_mi r.mu r.sigma ≡ true)
  unfolding gen_proof prove
  gen_proof_lem qs tag tmp u matrix phi root signed inside marshals =
      let alpha : Zr = p.zr_set_bytes key.ssk in
      let (mu, sigma, hs, runs, done) =
        accumulate_lem p law alpha u matrix phi signed qs p.new_zr p.new_g1 p.new_g1 [] inside
          (start (p.g1_set_bytes u) alpha) in
      (
        record {
          sigma = p.g1_bytes sigma;
          mu = p.zr_bytes mu;
          hash_mi = hs;
          sig_root_hash = root;
          statue_msg = record { status_code = success; msg = str "Success" };
        },
        rw (finds, marshals, gen_proof, tag_signed_lem tag tmp, runs, prove) refl,
        refl,
        equation_holds u qs hs mu sigma done,
      )

  -- For a key pair whose public key is the generator raised to its private key, in groups that obey the laws
  -- of a bilinear pairing, and a matrix whose tag JSON can write and whose Merkle tree can be built: SigGen,
  -- told the length of the matrix, returns with status 200 in whatever order its goroutines write; GenProof,
  -- for any challenge whose elements name rows of the matrix, then accepts the tag's signature, returns with
  -- status 200, and its HashMi, mu and sigma satisfy e(σ, g) = e(∏ H(mi)^νi · u^μ, v).
  pub honest_prover_accepted :
      (name : Zr) (u : G1) (order : List ℕ) (matrix : List Bytes) (tmp root : Bytes)
      (qs : List QElement)
      → Permᴰ (below (length matrix)) order
      → env.marshal (record { name = p.zr_bytes name; n = pos (length matrix); u = p.g1_bytes u })
        ≡ inr tmp
      → env.merkle_root (calculate_hash env) equals_content (map (λ v. record { x = v }) matrix)
        ≡ inr root
      → All (InRange (length matrix)) qs
      → (s : SigGenResponse) × (sig_gen env key name u order matrix (pos (length matrix)) ≡ sent s)
        × (s.statue_msg.status_code ≡ success)
        × (r : GenProofResponse) × (gen_proof env key qs s.t s.phi matrix s.sig_root_hash ≡ sent r)
        × (r.statue_msg.status_code ≡ success)
        × (equation p key (p.g1_bytes u) qs r.hash_mi r.mu r.sigma ≡ true)
  honest_prover_accepted name u order matrix tmp root qs perm marshals roots inside =
      let (s, runs, ok, t, all) = sig_gen_lem name u order matrix tmp root perm marshals roots in
      let (r, proves, fine, holds) =
        gen_proof_lem qs
          (record { name = p.zr_bytes name; n = pos (length matrix); u = p.g1_bytes u }) tmp
          (p.g1_bytes u) matrix s.phi s.sig_root_hash all inside marshals in
      (
        s,
        runs,
        ok,
        r,
        ap (λ t. gen_proof env key qs t s.phi matrix s.sig_root_hash) t ∙ proves,
        fine,
        holds,
      )
