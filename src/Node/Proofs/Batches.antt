-- ===== src/Node/Proofs/Batches.antt =====
-- What a round of the proof task hands over.
use cess_scheduler.Prelude.{
  ℕ, ◌≤◌, ◌<◌, ◌≡◌, refl, sym, ap, ◌∙◌, inl, inr, true, false, List, [], ◌∷◌, ◌++◌, length,
  length-append, leb, arith, All, Bool-cases,
}
use mathlib.Core.List.{flatten, append-nil, append_assoc}
use cess_scheduler.Chain.Types.{Proof, ProofResult}
use cess_scheduler.Proof.Verify.{RsaKey}
use cess_scheduler.Node.Proofs.{
  result, max_sub_proof_results, verify_one, Task, submit, flush, kept, done, verify_all,
  validate_round,
}

-- `rs` are the results of the proofs, one for each.
pub data Results (order : List ℕ → List ℕ) (key : RsaKey)
    : List Proof → List ProofResult → Type 0 where
  nil : Results order key [] []
  cons :
      {prf : Proof} {r : ProofResult} {ps : List Proof} {rs : List ProofResult}
      → verify_one order key prf ≡ result r
      → Results order key ps rs
      → Results order key (prf ∷ ps) (r ∷ rs)

-- A list of results that the chain takes in one transaction.
abbrev pub IsBatch : List ProofResult → Type 0
IsBatch b = (0 < length b) × (length b ≤ max_sub_proof_results)

flatten-append : (xs ys : List (List ProofResult)) → flatten (xs ++ ys) ≡ flatten xs ++ flatten ys
unfolding flatten
flatten-append [] ys = refl
flatten-append (x ∷ xs) ys =
    rw (flatten-append xs ys) (sym (append_assoc x (flatten xs) (flatten ys)))

All-append :
    (xs ys : List (List ProofResult)) → All IsBatch xs → All IsBatch ys → All IsBatch (xs ++ ys)
All-append [] ys h k = k
All-append (x ∷ xs) ys h k = (h.0, All-append xs ys h.1 k)

-- Handing over keeps all results in order.
submit-flatten :
    (rs : List ProofResult) (t : Task) → flatten (submit rs t).submitted ≡ flatten t.submitted ++ rs
unfolding flatten
submit-flatten [] t = rw append-nil
submit-flatten (r ∷ rs) t = rw (flatten-append t.submitted ((r ∷ rs) ∷ []), append-nil) refl

submit-All :
    (rs : List ProofResult) (t : Task)
    → length rs ≤ max_sub_proof_results
    → All IsBatch t.submitted
    → All IsBatch (submit rs t).submitted
submit-All [] t h k = k
submit-All (r ∷ rs) t h k = All-append t.submitted ((r ∷ rs) ∷ []) k ((omega arith, h), tt)

-- What one round of the loop does with the results so far.
flush-kept :
    (rs : List ProofResult) (t : Task)
    → length rs ≤ max_sub_proof_results
    → All IsBatch t.submitted
    → (flatten (flush rs t).submitted ++ kept rs ≡ flatten t.submitted ++ rs)
      × All IsBatch (flush rs t).submitted
      × (length (kept rs) < max_sub_proof_results)
flush-kept rs t h k = elim (Bool-cases (leb max_sub_proof_results (length rs))) [
  | inl full ↦ rw full (append-nil _ ∙ submit-flatten rs t, submit-All rs t h k, omega arith)
  | inr room ↦ rw room (refl, k, ground arith)
]

verify_all-batches :
    (order : List ℕ → List ℕ) (key : RsaKey) {ps : List Proof} {rs' : List ProofResult}
    (rs : List ProofResult) (t : Task)
    → Results order key ps rs'
    → length rs ≤ max_sub_proof_results
    → All IsBatch t.submitted
    → (t' : Task) × (verify_all order key rs t ps ≡ done t')
      × (t'.locked ≡ false)
      × (flatten t'.submitted ≡ flatten t.submitted ++ (rs ++ rs'))
      × All IsBatch t'.submitted
unfolding verify_all
verify_all-batches order key rs t nil h k = (
  submit rs (record t { locked = false }),
  refl,
  unlocked rs,
  submit-flatten rs (record t { locked = false })
      ∙ ap (λ l. flatten t.submitted ++ l) (sym (append-nil rs)),
  submit-All rs (record t { locked = false }) h k,
)
  where
    unlocked : (rs : List ProofResult) → (submit rs (record t { locked = false })).locked ≡ false
    unlocked [] = refl
    unlocked (r ∷ rs) = refl
verify_all-batches order key rs t (cons {prf = prf} {r = r} {ps = ps} {rs = rs'} e more) h k =
    let (same, batches, room) = flush-kept rs t h k in
    let (t', run, free, all, good) =
      verify_all-batches order key (kept rs ++ r ∷ []) (flush rs t) more
        (rw (length-append (kept rs) (r ∷ [])) (omega arith)) batches in
    (
      t',
      rw (e, verify_all) run,
      free,
      all ∙ regroup (flatten (flush rs t).submitted) (kept rs) (flatten t.submitted) rs r rs' same,
      good,
    )
  where
    regroup :
        (a b c d : List ProofResult) (r : ProofResult) (s : List ProofResult)
        → a ++ b ≡ c ++ d
        → a ++ ((b ++ r ∷ []) ++ s) ≡ c ++ (d ++ r ∷ s)
    regroup a b c d r s q =
        rw (append_assoc b (r ∷ []) s, ← append_assoc a b (r ∷ s), q) (append_assoc c d (r ∷ s))

-- A round over proofs that are all verified without a panic, from a task whose lock is free: it ends
-- with the lock free, and the lists that it hands over hold one result for each proof, in the order of
-- the proofs, in lists of one to forty.
pub validate_round_submits_each :
    (order : List ℕ → List ℕ) (key : RsaKey) {ps : List Proof} {rs : List ProofResult}
    → Results order key ps rs
    → (t : Task) × (validate_round order key (record { locked = false; submitted = [] }) ps
        ≡ done t)
      × (t.locked ≡ false)
      × (flatten t.submitted ≡ rs)
      × All IsBatch t.submitted
unfolding validate_round flatten
validate_round_submits_each order key nil =
    (record { locked = false; submitted = [] }, refl, refl, refl, tt)
validate_round_submits_each order key (cons e more) =
    verify_all-batches order key [] (record { locked = true; submitted = [] }) (cons e more)
      (omega arith) tt
