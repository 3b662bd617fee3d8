-- ===== src/Proof/Prover/Gathered.antt =====
-- The loop of GenProof (pkg/proof/genProof.go) over rows that SigGen signed.
use cess_scheduler.Prelude.{
  ℕ, ◌<◌, ◌≡◌, refl, sym, ap, ◌∙◌, Bytes, some, List, [], ◌∷◌, ◌++◌, length, All, pos,
}
use mathlib.Core.List.{append_assoc, append-nil}
use cess_scheduler.Proof.Challenge.{QElement}
use cess_scheduler.Proof.Prover.{Pairing, generate_sigma, accumulate, at}
use cess_scheduler.Proof.Prover.Group.{IsLawful, hash_product, signed_step}
use cess_scheduler.Proof.Prover.Sign.{Signed}

-- An element of the challenge that names a row of the matrix.
unfoldable pub InRange : ℕ → QElement → Type 0
InRange n q = (i : ℕ) × (q.i ≡ pos i) × (i < n)

module _ {G1 GT Zr : Type 0} (p : Pairing G1 GT Zr) (law : IsLawful p) (alpha : Zr) (u : Bytes)
    (matrix phi : List Bytes)
    (signed : (i : ℕ) → i < length matrix → Signed p alpha u matrix phi i) where
  at_row :
      (q : QElement)
      → InRange (length matrix) q
      → (row : Bytes) × (at matrix q.i ≡ some row)
        × (at phi q.i ≡ some (generate_sigma p row u alpha))
  unfolding InRange Signed at
  at_row q (i, e, h) = let (row, m, s) = signed i h in (row, rw e m, rw e s)

  accumulate_step :
      (q : QElement) (qs : List QElement) (m s : Bytes) (mu : Zr) (sigma : G1) (hs : List Bytes)
      → at matrix q.i ≡ some m
      → at phi q.i ≡ some s
      → accumulate p matrix phi (q ∷ qs) mu sigma hs
        ≡ accumulate p matrix phi qs
            (p.add_zr (p.mul_zr (p.zr_set_bytes m) (p.zr_set_bytes q.v)) mu)
            (p.mul (p.pow_zn (p.g1_set_bytes s) (p.zr_set_bytes q.v)) sigma)
            (hs ++ p.g1_bytes (p.set_from_string_hash m) ∷ [])
  unfolding accumulate
  accumulate_step q qs m s mu sigma hs e f = rw (e, f, accumulate) refl

  -- What was gathered so far is signed with the exponent alpha; so is the rest.
  pub accumulate_lem :
      (qs : List QElement) (mu : Zr) (sigma x : G1) (hs : List Bytes)
      → All (InRange (length matrix)) qs
      → sigma ≡ p.pow_zn (p.mul x (p.pow_zn (p.g1_set_bytes u) mu)) alpha
      → (mu' : Zr) × (sigma' : G1) × (hs' : List Bytes) × (accumulate p matrix phi qs mu sigma hs
          ≡ some (mu', sigma', hs ++ hs'))
        × (sigma'
            ≡ p.pow_zn (p.mul (hash_product p x qs hs') (p.pow_zn (p.g1_set_bytes u) mu')) alpha)
  unfolding accumulate hash_product generate_sigma
  accumulate_lem [] mu sigma x hs inside e = (mu, sigma, [], rw (append-nil hs) refl, e)
  accumulate_lem (q ∷ qs) mu sigma x hs (here, inside) e =
      let (row, at_m, at_s) = at_row q here in
      let v : Zr = p.zr_set_bytes q.v in
      let h : G1 = p.set_from_string_hash row in
      let sigma_next : G1 =
        p.mul (p.pow_zn (p.g1_set_bytes (generate_sigma p row u alpha)) v) sigma in
      let mu_next : Zr = p.add_zr (p.mul_zr (p.zr_set_bytes row) v) mu in
      let x_next : G1 = p.mul x (p.pow_zn (p.g1_set_bytes (p.g1_bytes h)) v) in
      let next : sigma_next ≡ p.pow_zn (p.mul x_next (p.pow_zn (p.g1_set_bytes u) mu_next)) alpha =
        ap (λ t. p.mul (p.pow_zn t v) sigma)
          (law.g1-set_bytes
            (p.pow_zn (p.mul h (p.pow_zn (p.g1_set_bytes u) (p.zr_set_bytes row))) alpha))
        ∙ ap
            (λ t.
              p.mul
                (p.pow_zn
                  (p.pow_zn (p.mul h (p.pow_zn (p.g1_set_bytes u) (p.zr_set_bytes row))) alpha) v)
                t)
            e
        ∙ signed_step p law h x (p.g1_set_bytes u) (p.zr_set_bytes row) v mu alpha
        ∙ ap
            (λ t.
              p.pow_zn (p.mul (p.mul x (p.pow_zn t v)) (p.pow_zn (p.g1_set_bytes u) mu_next)) alpha)
            (sym (law.g1-set_bytes h)) in
      let (mu', sigma', hs', runs, done) =
        accumulate_lem qs mu_next sigma_next x_next (hs ++ p.g1_bytes h ∷ []) inside next in
      (
        mu',
        sigma',
        p.g1_bytes h ∷ hs',
        accumulate_step q qs row (generate_sigma p row u alpha) mu sigma hs at_m at_s
            ∙ runs
            ∙ ap (λ t. some (mu', sigma', t)) (append_assoc hs (p.g1_bytes h ∷ []) hs'),
        done,
      )
