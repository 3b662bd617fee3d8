-- ===== src/Proof/Verify/Complete.antt =====
-- VerifyProof on what an honest miner computes.
use cess_scheduler.Prelude.{
  ℕ, ◌+◌, ◌*◌, ◌%◌, ◌^◌, ◌<◌, ◌≡◌, refl, sym, ap, ◌∙◌, Bytes, true, some, List, [], ◌∷◌, map, arith,
  All, ==_self,
}
use native.Mathlib.Nat.{mod-mod, pow-zero, mul_comm}
use mathlib.Core.List.{Permᴰ}
use cess_scheduler.Proof.Modular.{
  set_bytes, exp, product, mul-mod, mul_congr, pow_congr, pow-add, mul-pow, pow-mul, pow-one,
  product-perm,
}
use cess_scheduler.Proof.Challenge.{QElement}
use cess_scheduler.Proof.Verify.{
  RsaKey, answer, pow_of, pows, check_equation, conclude, verify_proof,
}

-- A challenged block as the miner holds it: what is asked of it, the hash and the number of its
-- content, and its tag.
pub record Block : Type 0 where
  pub q : QElement
  pub hash : Bytes
  pub m : ℕ
  pub tag : ℕ

abbrev pub random : Block → ℕ
random b = set_bytes b.q.v

-- σi^e = H(mi) * u^mi modulo N: what the owner of the private key signed.
abbrev pub IsTagged : RsaKey → ℕ → Block → Type 0
IsTagged key u b = (b.tag ^ key.e) % key.n ≡ (set_bytes b.hash * u ^ b.m) % key.n

-- µ = Σ νi * mi
unfoldable pub mu_of : List Block → ℕ
mu_of [] = 0
mu_of (b ∷ bs) = b.m * random b + mu_of bs

-- σ = ∏ σi^νi
unfoldable pub sigma_of : List Block → ℕ
sigma_of [] = 1
sigma_of (b ∷ bs) = b.tag ^ random b * sigma_of bs

-- ∏ H(mi)^νi
hashes_of : List Block → ℕ
hashes_of [] = 1
hashes_of (b ∷ bs) = set_bytes b.hash ^ random b * hashes_of bs

-- The algebra: σ^e = ∏ H(mi)^νi * u^µ modulo N.
sigma-pow :
    (key : RsaKey) (u : ℕ) (bs : List Block)
    → All (IsTagged key u) bs
    → (sigma_of bs ^ key.e) % key.n ≡ (hashes_of bs * u ^ mu_of bs) % key.n
unfolding sigma_of hashes_of mu_of
sigma-pow key u [] h = rw (pow-one key.e, pow-zero u) (ap (λ (t : ℕ). t % key.n) (omega arith))
sigma-pow key u (b ∷ bs) h =
    let v = random b in
    let e₁ : (b.tag ^ v * sigma_of bs) ^ key.e ≡ (b.tag ^ key.e) ^ v * sigma_of bs ^ key.e =
      mul-pow (b.tag ^ v) (sigma_of bs) key.e
      ∙ ap (λ (t : ℕ). t * sigma_of bs ^ key.e)
          (sym (pow-mul b.tag v key.e)
            ∙ ap (λ (t : ℕ). b.tag ^ t) (mul_comm v key.e)
            ∙ pow-mul b.tag key.e v) in
    let e₂ : (set_bytes b.hash * u ^ b.m) ^ v ≡ set_bytes b.hash ^ v * u ^ (b.m * v) =
      mul-pow (set_bytes b.hash) (u ^ b.m) v
      ∙ ap (λ (t : ℕ). set_bytes b.hash ^ v * t) (sym (pow-mul u b.m v)) in
    let e₃ : u ^ (b.m * v + mu_of bs) ≡ u ^ (b.m * v) * u ^ mu_of bs =
      pow-add u (b.m * v) (mu_of bs) in
    ap (λ (t : ℕ). t % key.n) e₁
    ∙ mul_congr _ _ _ _ key.n (pow_congr _ _ v key.n h.0) (sigma-pow key u bs h.1)
    ∙ ap (λ (t : ℕ). t % key.n)
        (ap (λ (t : ℕ). t * (hashes_of bs * u ^ mu_of bs)) e₂ ∙ rw e₃ (grind arith))

exp-mod : (x y n : ℕ) → 0 < n → exp x y n ≡ x ^ y % n
unfolding exp
exp-mod x y n h = ground arith

powers : RsaKey → List Block → List ℕ
powers key [] = []
powers key (b ∷ bs) = pow_of key b.q b.hash ∷ powers key bs

pows-blocks :
    (key : RsaKey) (bs : List Block)
    → pows key (map (λ b. b.q) bs) (map (λ b. b.hash) bs) ≡ some (powers key bs)
unfolding pows powers
pows-blocks key [] = refl
pows-blocks key (b ∷ bs) = rw (pows-blocks key bs)

product-powers :
    (key : RsaKey) (bs : List Block)
    → 0 < key.n
    → product (powers key bs) % key.n ≡ hashes_of bs % key.n
unfolding product powers hashes_of pow_of
product-powers key [] h = refl
product-powers key (b ∷ bs) h =
    rw (exp-mod (set_bytes b.hash) (random b) key.n h)
      (mul_congr _ _ _ _ key.n (mod-mod _ key.n) (product-powers key bs h))

equation_holds :
    (key : RsaKey) (u mu sigma : Bytes) (multiply : ℕ) (bs : List Block)
    → 0 < key.n
    → All (IsTagged key (set_bytes u)) bs
    → set_bytes mu ≡ mu_of bs
    → set_bytes sigma % key.n ≡ sigma_of bs % key.n
    → multiply % key.n ≡ hashes_of bs % key.n
    → check_equation key multiply u mu sigma ≡ true
unfolding check_equation
equation_holds key u mu sigma multiply bs pos tagged m s p =
    let U = set_bytes u in
    let same : (multiply * (U ^ mu_of bs % key.n)) % key.n ≡ set_bytes sigma ^ key.e % key.n =
      mul-mod multiply (U ^ mu_of bs) key.n
      ∙ mul_congr _ _ _ _ key.n p refl
      ∙ sym (sigma-pow key U bs tagged)
      ∙ sym (pow_congr _ _ key.e key.n s) in
    rw (exp-mod U (set_bytes mu) key.n pos, exp-mod (set_bytes sigma) key.e key.n pos, m, same)
      (==_self (set_bytes sigma ^ key.e % key.n))

-- Completeness: if each challenged block has a valid tag, µ is the sum of the νi * mi and σ is
-- congruent to the product of the σi^νi, then VerifyProof answers true, for at least one block, a
-- positive modulus and every order in which the goroutines multiply.
pub honest_proof_accepted :
    (order : List ℕ → List ℕ) (key : RsaKey) (u mu sigma : Bytes) (b : Block) (bs : List Block)
    → ((xs : List ℕ) → Permᴰ (order xs) xs)
    → 0 < key.n
    → All (IsTagged key (set_bytes u)) (b ∷ bs)
    → set_bytes mu ≡ mu_of (b ∷ bs)
    → set_bytes sigma % key.n ≡ sigma_of (b ∷ bs) % key.n
    → verify_proof order key u (map (λ c. c.q) (b ∷ bs)) mu sigma (map (λ c. c.hash) (b ∷ bs))
      ≡ answer true
unfolding verify_proof
honest_proof_accepted order key u mu sigma b bs perm pos tagged m s =
    let ps = powers key (b ∷ bs) in
    let p : product (order ps) % key.n ≡ hashes_of (b ∷ bs) % key.n =
      ap (λ (t : ℕ). t % key.n) (product-perm (perm ps)) ∙ product-powers key (b ∷ bs) pos in
    rw (pows-blocks key (b ∷ bs), verify_proof)
      (concluded (product (order ps)) (equation_holds key u mu sigma _ (b ∷ bs) pos tagged m s p))
  where
    concluded :
        (multiply : ℕ)
        → check_equation key multiply u mu sigma ≡ true
        → conclude key (b.q ∷ map (λ c. c.q) bs) multiply u mu sigma ≡ answer true
    concluded multiply e = ground arith
