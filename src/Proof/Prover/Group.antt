-- ===== src/Proof/Prover/Group.antt =====
-- The laws of the groups that the storage proofs of pkg/proof compute in, the library pbc's.
use cess_scheduler.Prelude.{◌≡◌, sym, ap, ◌∙◌, Bytes, Bool, true, List, [], ◌∷◌}
use cess_scheduler.Proof.Challenge.{QElement}
use cess_scheduler.Proof.Prover.{Pairing, PbcKeyPair}

-- A new element is the neutral one; G1 is commutative with exponents in Zr; bytes are read back; the
-- pairing is bilinear.
pub record IsLawful {G1 GT Zr : Type 0} (p : Pairing G1 GT Zr) : Type 0 where
  pub mul_assoc : (a b c : G1) → p.mul (p.mul a b) c ≡ p.mul a (p.mul b c)
  pub mul_comm : (a b : G1) → p.mul a b ≡ p.mul b a
  pub mul_new : (a : G1) → p.mul a p.new_g1 ≡ a
  pub pow-new_zr : (a : G1) → p.pow_zn a p.new_zr ≡ p.new_g1
  pub pow-new_g1 : (z : Zr) → p.pow_zn p.new_g1 z ≡ p.new_g1
  pub pow-add :
      (a : G1) (y z : Zr) → p.pow_zn a (p.add_zr y z) ≡ p.mul (p.pow_zn a y) (p.pow_zn a z)
  pub pow-mul : (a : G1) (y z : Zr) → p.pow_zn a (p.mul_zr y z) ≡ p.pow_zn (p.pow_zn a y) z
  pub mul-pow : (a b : G1) (z : Zr) → p.pow_zn (p.mul a b) z ≡ p.mul (p.pow_zn a z) (p.pow_zn b z)
  pub mul_zr_comm : (y z : Zr) → p.mul_zr y z ≡ p.mul_zr z y
  pub g1-set_bytes : (a : G1) → p.g1_set_bytes (p.g1_bytes a) ≡ a
  pub zr-set_bytes : (z : Zr) → p.zr_set_bytes (p.zr_bytes z) ≡ z
  pub pair-pow : (a b : G1) (z : Zr) → p.pair (p.pow_zn a z) b ≡ p.pair a (p.pow_zn b z)
  pub equals_self : (x : GT) → p.equals x x ≡ true

module _ {G1 GT Zr : Type 0} (p : Pairing G1 GT Zr) where
  -- acc · ∏ H(mi)^νi, as a verifier computes it from the challenge and HashMi.
  unfoldable pub hash_product : G1 → List QElement → List Bytes → G1
  hash_product acc [] hs = acc
  hash_product acc (q ∷ qs) [] = acc
  hash_product acc (q ∷ qs) (h ∷ hs) =
      hash_product (p.mul acc (p.pow_zn (p.g1_set_bytes h) (p.zr_set_bytes q.v))) qs hs

  -- e(σ, g) = e(∏ H(mi)^νi · u^μ, v)
  unfoldable pub equation : PbcKeyPair → Bytes → List QElement → List Bytes → Bytes → Bytes → Bool
  unfolding hash_product
  equation key u qs hash_mi mu sigma =
      p.equals (p.pair (p.g1_set_bytes sigma) (p.g1_set_bytes key.shared_g)) (
        p.pair
          (p.mul (hash_product p.new_g1 qs hash_mi)
            (p.pow_zn (p.g1_set_bytes u) (p.zr_set_bytes mu)))
          (p.g1_set_bytes key.spk))

module _ {G1 GT Zr : Type 0} (p : Pairing G1 GT Zr) (law : IsLawful p) where
  -- (a b) (c d) = (a c) (b d)
  pub mul_exchange : (a b c d : G1) → p.mul (p.mul a b) (p.mul c d) ≡ p.mul (p.mul a c) (p.mul b d)
  mul_exchange a b c d =
      law.mul_assoc a b (p.mul c d)
      ∙ ap (λ t. p.mul a t)
          (sym (law.mul_assoc b c d) ∙ ap (λ t. p.mul t d) (law.mul_comm b c) ∙ law.mul_assoc c b d)
      ∙ sym (law.mul_assoc a c (p.mul b d))

  -- The signature of one block, raised to ν and multiplied to what was signed before.
  pub signed_step :
      (h x u : G1) (m v mu alpha : Zr)
      → p.mul
          (p.pow_zn (p.pow_zn (p.mul h (p.pow_zn u m)) alpha) v)
          (p.pow_zn (p.mul x (p.pow_zn u mu)) alpha)
        ≡ p.pow_zn (p.mul (p.mul x (p.pow_zn h v)) (p.pow_zn u (p.add_zr (p.mul_zr m v) mu))) alpha
  signed_step h x u m v mu alpha =
      let swap : p.pow_zn (p.pow_zn (p.mul h (p.pow_zn u m)) alpha) v
          ≡ p.pow_zn (p.pow_zn (p.mul h (p.pow_zn u m)) v) alpha =
        sym (law.pow-mul (p.mul h (p.pow_zn u m)) alpha v)
        ∙ ap (λ t. p.pow_zn (p.mul h (p.pow_zn u m)) t) (law.mul_zr_comm alpha v)
        ∙ law.pow-mul (p.mul h (p.pow_zn u m)) v alpha in
      let inside : p.pow_zn (p.mul h (p.pow_zn u m)) v
          ≡ p.mul (p.pow_zn h v) (p.pow_zn u (p.mul_zr m v)) =
        law.mul-pow h (p.pow_zn u m) v
        ∙ ap (λ t. p.mul (p.pow_zn h v) t) (sym (law.pow-mul u m v)) in
      let together : p.mul (p.mul (p.pow_zn h v) (p.pow_zn u (p.mul_zr m v)))
            (p.mul x (p.pow_zn u mu))
          ≡ p.mul (p.mul x (p.pow_zn h v)) (p.pow_zn u (p.add_zr (p.mul_zr m v) mu)) =
        mul_exchange (p.pow_zn h v) (p.pow_zn u (p.mul_zr m v)) x (p.pow_zn u mu)
        ∙ ap (λ t. p.mul t (p.mul (p.pow_zn u (p.mul_zr m v)) (p.pow_zn u mu)))
            (law.mul_comm (p.pow_zn h v) x)
        ∙ ap (λ t. p.mul (p.mul x (p.pow_zn h v)) t) (sym (law.pow-add u (p.mul_zr m v) mu)) in
      ap (λ t. p.mul t (p.pow_zn (p.mul x (p.pow_zn u mu)) alpha))
        (swap ∙ ap (λ t. p.pow_zn t alpha) inside)
      ∙ sym (
          law.mul-pow (p.mul (p.pow_zn h v) (p.pow_zn u (p.mul_zr m v))) (p.mul x (p.pow_zn u mu))
            alpha)
      ∙ ap (λ t. p.pow_zn t alpha) together
