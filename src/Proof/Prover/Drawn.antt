-- ===== src/Proof/Prover/Drawn.antt =====
-- The challenges of ChalGen (pkg/proof/chalGen.go), as GenProof (pkg/proof/genProof.go) reads them.
use cess_scheduler.Prelude.{
  ℕ, zero, suc, ◌<◌, ◌≤◌, ◌≡◌, ◌≢◌, refl, sym, ap, ◌∙◌, inl, inr, Bytes, Bool, true, false, Option,
  none, some, List, [], ◌∷◌, ◌||◌, ◌==◌, length, All, Bool-cases, Option-cases, arith, pos,
}
use mathlib.Core.Path.{subst}
use mathlib.Core.Option.{none-ne-some}
use cess_scheduler.Proof.Challenge.{QElement}
use cess_scheduler.Proof.Prover.Gathered.{InRange}
use cess_scheduler.Proof.Prover.ChalGen.{chal_length, elem, pick, chal_loop, chal_gen}

-- No block is asked for twice.
unfoldable pub Distinct : List QElement → Type 0
Distinct [] = Unit
Distinct (q ∷ qs) = All (λ r. r.i ≢ q.i) qs × Distinct qs

-- An element whose index is not taken.
Untaken : List ℕ → QElement → Type 0
Untaken taken q = (i : ℕ) × (q.i ≡ pos i) × (elem i taken ≡ false)

pick_again : (taken js : List ℕ) (j : ℕ) → elem j taken ≡ true → pick taken (j ∷ js) ≡ pick taken js
unfolding pick
pick_again taken js j h = rw (h, pick) refl

pick_new : (taken js : List ℕ) (j : ℕ) → elem j taken ≡ false → pick taken (j ∷ js) ≡ some (j, js)
unfolding pick
pick_new taken js j h = rw (h, pick) refl

pick_first :
    (n : ℕ) (taken js rest : List ℕ) (i j : ℕ)
    → elem j taken ≡ false
    → ◌≡◌ {A = Option (ℕ × List ℕ)} (some (j, js)) (some (i, rest))
    → j < n
    → All (λ j. j < n) js
    → (i < n) × (elem i taken ≡ false) × All (λ j. j < n) rest
pick_first n taken js rest i j new e below all =
    let q : j ≡ i = ap (λ (r : Option (ℕ × List ℕ)). first_of r) e in
    (
      subst (λ x. x < n) q below,
      subst (λ x. elem x taken ≡ false) q new,
      subst (All (λ x. x < n)) (ap (λ (r : Option (ℕ × List ℕ)). rest_of r) e) all,
    )
  where
    first_of : Option (ℕ × List ℕ) → ℕ
    first_of none = j
    first_of (some (a, as')) = a

    rest_of : Option (ℕ × List ℕ) → List ℕ
    rest_of none = js
    rest_of (some (a, as')) = as'

pick_lem :
    (n : ℕ) (taken is' rest : List ℕ) (i : ℕ)
    → pick taken is' ≡ some (i, rest)
    → All (λ j. j < n) is'
    → (i < n) × (elem i taken ≡ false) × All (λ j. j < n) rest
unfolding pick
pick_lem n taken [] rest i h all = cc
pick_lem n taken (j ∷ js) rest i h (below, all) = elim (Bool-cases (elem j taken)) [
  | inl again ↦ pick_lem n taken js rest i (sym (pick_again taken js j again) ∙ h) all
  | inr new ↦ pick_first n taken js rest i j new (sym (pick_new taken js j new) ∙ h) below all
]

or_false : (a b : Bool) → (a || b) ≡ false → (a ≡ false) × (b ≡ false)
or_false false b h = (refl, h)
or_false true b h = cc

some_inj : {a b : List QElement} → some a ≡ some b → a ≡ b
some_inj h = cc

pos_inj : {a b : ℕ} → pos a ≡ pos b → a ≡ b
pos_inj h = cc

-- What is not in a longer list is not its head, and not in its tail.
Untaken-head : (i : ℕ) (taken : List ℕ) (q : QElement) → Untaken (i ∷ taken) q → q.i ≢ pos i
unfolding Untaken elem
Untaken-head i taken q (j, e, out) h =
    let (differs, _) = or_false (i == j) (elem j taken) out in
    let same : j ≡ i = pos_inj (sym e ∙ h) in absurd (ground arith)

Untaken-tail : (i : ℕ) (taken : List ℕ) (q : QElement) → Untaken (i ∷ taken) q → Untaken taken q
unfolding Untaken elem
Untaken-tail i taken q (j, e, out) = (j, e, (or_false (i == j) (elem j taken) out).1)

All-map :
    {P Q : QElement → Type 0}
    → ((q : QElement) → P q → Q q)
    → (qs : List QElement) → All P qs
    → All Q qs
All-map f [] h = tt
All-map f (q ∷ qs) (h, hs) = (f q h, All-map f qs hs)

loop_rest :
    (element : ℕ → Bytes) (left k i : ℕ) (taken indices rest : List ℕ) (o : Option (List QElement))
    → pick taken indices ≡ some (i, rest)
    → chal_loop element left (suc k) (i ∷ taken) rest ≡ o
    → chal_loop element (suc left) k taken indices
      ≡ elim o [ none ↦ none | some qs ↦ some (record { i = pos i; v = element k } ∷ qs) ]
unfolding chal_loop
loop_rest element left k i taken indices rest o e f = rw (e, f, chal_loop) refl

loop_stuck :
    (element : ℕ → Bytes) (left k : ℕ) (taken indices : List ℕ)
    → pick taken indices ≡ none
    → chal_loop element (suc left) k taken indices ≡ none
unfolding chal_loop
loop_stuck element left k taken indices e = rw (e, chal_loop) refl

-- What the loop draws, below n.
Drawn : ℕ → ℕ → List ℕ → List QElement → Type 0
Drawn n left taken qs =
    (length qs ≡ left) × All (InRange n) qs × All (Untaken taken) qs × Distinct qs

chal_loop-Drawn :
    (n : ℕ) (element : ℕ → Bytes) (left k : ℕ) (taken indices : List ℕ) (qs : List QElement)
    → All (λ i. i < n) indices
    → chal_loop element left k taken indices ≡ some qs
    → Drawn n left taken qs
unfolding Drawn Distinct Untaken InRange chal_loop
chal_loop-Drawn n element zero k taken indices qs below h =
    subst (Drawn n zero taken) (some_inj h) (refl, tt, tt, tt)
chal_loop-Drawn n element (suc left) k taken indices qs below h =
    elim (Option-cases (pick taken indices)) [
      | inl stuck ↦
          absurd (none-ne-some qs (sym (loop_stuck element left k taken indices stuck) ∙ h))
      | inr ((i, rest), picked) ↦
          let (small, new, below') = pick_lem n taken indices rest i picked below in
          elim (Option-cases (chal_loop element left (suc k) (i ∷ taken) rest)) [
            | inl stuck ↦ absurd (
                none-ne-some qs
                  (sym (loop_rest element left k i taken indices rest none picked stuck) ∙ h))
            | inr (ps, runs) ↦
                let q : QElement = record { i = pos i; v = element k } in
                let (long, ranged, untaken, distinct) =
                  chal_loop-Drawn n element left (suc k) (i ∷ taken) rest ps below' runs in
                subst (Drawn n (suc left) taken)
                  (some_inj
                    (sym (loop_rest element left k i taken indices rest (some ps) picked runs) ∙ h))
                  (
                    ap suc long,
                    ((i, refl, small), ranged),
                    ((i, refl, new), All-map (Untaken-tail i taken) ps untaken),
                    (All-map (Untaken-head i taken) ps untaken, distinct),
                  )
          ]
    ]

chal_length_lem :
    (n : ℕ) (ls : List ℕ) (l : ℕ)
    → All (λ m. m ≤ n) ls
    → chal_length ls ≡ some l
    → (0 < l) × (l ≤ n)
unfolding chal_length
chal_length_lem n [] l all h = cc
chal_length_lem n (zero ∷ ls) l (_, all) h = chal_length_lem n ls l all h
chal_length_lem n (suc m ∷ ls) l (small, all) h =
    let e : suc m ≡ l = some_number h in (omega (arith, e), omega (arith, e, small))
  where
    some_number : {a b : ℕ} → some a ≡ some b → a ≡ b
    some_number p = cc

gen_stuck :
    (element : ℕ → Bytes) (lengths indices : List ℕ)
    → chal_length lengths ≡ none
    → chal_gen element lengths indices ≡ none
unfolding chal_gen
gen_stuck element lengths indices e = rw (e, chal_gen) refl

gen_runs :
    (element : ℕ → Bytes) (lengths indices : List ℕ) (l : ℕ)
    → chal_length lengths ≡ some l
    → chal_gen element lengths indices ≡ chal_loop element l 0 [] indices
unfolding chal_gen
gen_runs element lengths indices l e = rw (e, chal_gen) refl

-- Where the lengths are drawn up to N and the indices below N, a challenge that ChalGen returns has from one to N
-- elements, each of which names a row below N, and no row is named twice.
pub chal_gen_lem :
    (n : ℕ) (element : ℕ → Bytes) (lengths indices : List ℕ) (qs : List QElement)
    → All (λ l. l ≤ n) lengths
    → All (λ i. i < n) indices
    → chal_gen element lengths indices ≡ some qs
    → (0 < length qs) × (length qs ≤ n) × All (InRange n) qs × Distinct qs
unfolding Drawn
chal_gen_lem n element lengths indices qs bounded below h =
    elim (Option-cases (chal_length lengths)) [
      | inl stuck ↦ absurd (none-ne-some qs (sym (gen_stuck element lengths indices stuck) ∙ h))
      | inr (l, drawn) ↦
          let (above, small) = chal_length_lem n lengths l bounded drawn in
          let (long, ranged, _, distinct) =
            chal_loop-Drawn n element l 0 [] indices qs below
              (sym (gen_runs element lengths indices l drawn) ∙ h) in
          (omega (arith, long, above), omega (arith, long, small), ranged, distinct)
    ]
