-- ===== src/Proof/Prover/Sign.antt =====
-- The goroutines of SigGen (pkg/proof/sigGen.go): what they leave in Phi, whatever the order of their writes.
use cess_scheduler.Prelude.{
  ℕ, zero, suc, ◌<◌, ◌≡◌, refl, sym, ap, ◌∙◌, ◌≢◌, ◌⊎◌, inl, inr, Bytes, some, List, [], ◌∷◌,
  get_elem?, length, All, replicate, length-replicate, arith, ◌==◌, Bool-cases,
}
use mathlib.Core.Path.{subst}
use mathlib.Core.List.{Memᴰ, Permᴰ}
use mathlib.Core.List.Memᴰ
use mathlib.Core.List.Permᴰ
use cess_scheduler.Proof.Prover.{Pairing, generate_sigma, write_sigmas, write_at}

length-write_at : (i : ℕ) (b : Bytes) (xs : List Bytes) → length (write_at i b xs) ≡ length xs
unfolding write_at
length-write_at i b [] = refl
length-write_at zero b (x ∷ xs) = refl
length-write_at (suc i) b (x ∷ xs) = ap suc (length-write_at i b xs)

write_at_same :
    (i : ℕ) (b : Bytes) (xs : List Bytes) → i < length xs → get_elem? (write_at i b xs) i ≡ some b
unfolding write_at
write_at_same i b [] h = absurd (omega arith)
write_at_same zero b (x ∷ xs) h = refl
write_at_same (suc i) b (x ∷ xs) h = write_at_same i b xs (omega arith)

write_at_other :
    (i j : ℕ) (b : Bytes) (xs : List Bytes) → i ≢ j → get_elem? (write_at i b xs) j ≡ get_elem? xs j
unfolding write_at
write_at_other i j b [] h = refl
write_at_other zero zero b (x ∷ xs) h = absurd (h refl)
write_at_other zero (suc j) b (x ∷ xs) h = refl
write_at_other (suc i) zero b (x ∷ xs) h = refl
write_at_other (suc i) (suc j) b (x ∷ xs) h = write_at_other i j b xs (λ e. h (ap suc e))

-- The numbers below a bound: the goroutines that are started.
unfoldable pub below : ℕ → List ℕ
below zero = []
below (suc n) = n ∷ below n

mem-perm : {xs ys : List ℕ} {i : ℕ} → Permᴰ xs ys → Memᴰ i xs → Memᴰ i ys
mem-perm Permᴰ.nil m = m
mem-perm (Permᴰ.cons e p) m = elim (Memᴰ.cases_cons m) [
  | inl f ↦ Memᴰ.head (f ∙ e)
  | inr m' ↦ Memᴰ.tail (mem-perm p m')
]
mem-perm (Permᴰ.swap e f) m = elim (Memᴰ.cases_cons m) [
  | inl g ↦ Memᴰ.tail (Memᴰ.head (g ∙ e))
  | inr m' ↦ elim (Memᴰ.cases_cons m') [
    | inl g ↦ Memᴰ.head (g ∙ f)
    | inr m'' ↦ Memᴰ.tail (Memᴰ.tail m'')
  ]
]
mem-perm (Permᴰ.trans p q) m = mem-perm q (mem-perm p m)

mem-below : (n i : ℕ) → i < n → Memᴰ i (below n)
unfolding below
mem-below zero i h = absurd (omega arith)
mem-below (suc n) i h = elim (Bool-cases (i == n)) [
  | inl same ↦ Memᴰ.head (ground arith)
  | inr other ↦ Memᴰ.tail (mem-below n i (ground arith))
]

mem_below-lt : (n i : ℕ) → Memᴰ i (below n) → i < n
unfolding below
mem_below-lt zero i m = absurd (Memᴰ.not-nil m)
mem_below-lt (suc n) i m = elim (Memᴰ.cases_cons m) [
  | inl e ↦ omega (arith, e)
  | inr m' ↦ omega (arith, mem_below-lt n i m')
]

bounded_members : (n : ℕ) (xs : List ℕ) → ((i : ℕ) → Memᴰ i xs → i < n) → All (λ i. i < n) xs
bounded_members n [] h = tt
bounded_members n (x ∷ xs) h =
    (h x (Memᴰ.head refl), bounded_members n xs (λ i m. h i (Memᴰ.tail m)))

pub get_elem?_in :
    (xs : List Bytes) (i : ℕ) → i < length xs → (x : Bytes) × (get_elem? xs i ≡ some x)
get_elem?_in [] i h = absurd (omega arith)
get_elem?_in (x ∷ xs) zero h = (x, refl)
get_elem?_in (x ∷ xs) (suc i) h = get_elem?_in xs i (omega arith)

module _ {G1 GT Zr : Type 0} (p : Pairing G1 GT Zr) (alpha : Zr) (u : Bytes)
    (matrix : List Bytes) where
  -- What the entry of row i is to be.
  unfoldable pub Signed : List Bytes → ℕ → Type 0
  Signed phi i =
      (row : Bytes) × (get_elem? matrix i ≡ some row)
      × (get_elem? phi i ≡ some (generate_sigma p row u alpha))

  write_keeps :
      (i j : ℕ) (row : Bytes) (phi : List Bytes)
      → get_elem? matrix i ≡ some row
      → Signed phi j
      → i < length phi
      → Signed (write_at i (generate_sigma p row u alpha) phi) j
  unfolding Signed
  write_keeps i j row phi at_i (r, at_j, done) h = elim (Bool-cases (i == j)) [
    | inl same ↦
        let e : i ≡ j = ground arith in
        (
          row,
          ap (get_elem? matrix) (sym e) ∙ at_i,
          ap (get_elem? (write_at i (generate_sigma p row u alpha) phi)) (sym e)
              ∙ write_at_same i (generate_sigma p row u alpha) phi h,
        )
    | inr other ↦
        (r, at_j, write_at_other i j (generate_sigma p row u alpha) phi (λ e. ground arith) ∙ done)
  ]

  write_step :
      (i : ℕ) (row : Bytes) (order : List ℕ) (phi : List Bytes)
      → get_elem? matrix i ≡ some row
      → write_sigmas p alpha u matrix (i ∷ order) phi
        ≡ write_sigmas p alpha u matrix order (write_at i (generate_sigma p row u alpha) phi)
  unfolding write_sigmas
  write_step i row order phi e = rw (e, write_sigmas) refl

  -- The entries written before stay, and those of the order are written.
  pub write_sigmas_lem :
      (order : List ℕ) (phi : List Bytes)
      → All (λ i. i < length matrix) order
      → length phi ≡ length matrix
      → (phi' : List Bytes) × (write_sigmas p alpha u matrix order phi ≡ some phi')
        × (length phi' ≡ length matrix)
        × ((j : ℕ) → Signed phi j ⊎ Memᴰ j order → Signed phi' j)
  unfolding write_sigmas Signed
  write_sigmas_lem [] phi inside same =
      (phi, refl, same, λ j m. elim m [ inl s ↦ s | inr never ↦ absurd (Memᴰ.not-nil never) ])
  write_sigmas_lem (i ∷ order) phi (h, inside) same =
      let (row, at_i) = get_elem?_in matrix i h in
      let sigma : Bytes = generate_sigma p row u alpha in
      let (phi', runs, long, rest) =
        write_sigmas_lem order (write_at i sigma phi) inside (length-write_at i sigma phi ∙ same) in
      let now : Signed (write_at i sigma phi) i =
        (row, at_i, write_at_same i sigma phi (omega (arith, same))) in
      (
        phi',
        write_step i row order phi at_i ∙ runs,
        long,
        λ j m. rest j (elim m [
          | inl s ↦ inl (write_keeps i j row phi at_i s (omega (arith, same)))
          | inr m' ↦ elim (Memᴰ.cases_cons m') [
            | inl e ↦ inl (subst (Signed (write_at i sigma phi)) (sym e) now)
            | inr later ↦ inr later
          ]
        ]),
      )

  -- Every row is signed, in whatever order the goroutines write.
  pub write_sigmas_all :
      (order : List ℕ)
      → Permᴰ (below (length matrix)) order
      → (phi : List Bytes) × (write_sigmas p alpha u matrix order (replicate (length matrix) [])
          ≡ some phi)
        × (length phi ≡ length matrix)
        × ((i : ℕ) → i < length matrix → Signed phi i)
  write_sigmas_all order perm =
      let back : (i : ℕ) → Memᴰ i order → i < length matrix =
        λ i m. mem_below-lt (length matrix) i (mem-perm (Permᴰ.symm perm) m) in
      let (phi, runs, long, all) =
        write_sigmas_lem order (replicate (length matrix) [])
          (bounded_members (length matrix) order back) (length-replicate (length matrix) []) in
      (phi, runs, long, λ i h. all i (inr (mem-perm perm (mem-below (length matrix) i h))))
