-- ===== src/Node/Proofs/Hostile.antt =====
-- Proofs on the chain on which the proof task panics.
use cess_scheduler.Prelude.{
  ℕ, ◌<◌, ◌≡◌, ◌≢◌, refl, ap, ◌∙◌, inl, inr, Bytes, true, false, none, some, List, [], ◌∷◌, ◌++◌,
  length, leb, arith, Bool-cases, ◌==◌,
}
use cess_scheduler.Chain.Types.{Proof, ProofResult}
use cess_scheduler.Proof.Challenge.{QElement, podr2_challenge_generate_from_chain, challenge_pairs}
use cess_scheduler.Proof.Verify.{RsaKey, pows, verify_proof}
use cess_scheduler.Node.Proofs.{
  panics, crashes, max_sub_proof_results, verify_one, verify_challenge, Task, submit, flush, kept,
  panicked, deadlocked, verify_all, validate_round,
}
use cess_scheduler.Node.Proofs.Batches.{Results, nil, cons}

-- The three fields that the verifier tests are set.
abbrev pub IsFilled : Proof → Type 0
IsFilled prf = (prf.u ≢ []) × (prf.sigma ≢ []) × (prf.omega_bytes ≢ [])

-- A filled proof whose challenge names no block.
abbrev pub IsEmptyChallenge : Proof → Type 0
IsEmptyChallenge prf =
    IsFilled prf × (prf.challenge_info.block_list ≡ []) × (prf.challenge_info.random ≡ [])

length-ne : (xs : Bytes) → xs ≢ [] → (length xs == 0) ≡ false
length-ne [] h = absurd (h refl)
length-ne (x ∷ xs) h = ground arith

-- A filled proof goes on to its challenge.
verify_one-filled :
    (order : List ℕ → List ℕ) (key : RsaKey) (prf : Proof)
    → IsFilled prf
    → verify_one order key prf
      ≡ verify_challenge order key prf (
          podr2_challenge_generate_from_chain prf.challenge_info.block_list
            prf.challenge_info.random)
unfolding verify_one
verify_one-filled order key prf (u, s, o) =
    rw (length-ne prf.u u, verify_one)
      (rw (length-ne prf.sigma s, verify_one) (rw (length-ne prf.omega_bytes o, verify_one) refl))

verify_one-empty :
    (order : List ℕ → List ℕ) (key : RsaKey) (prf : Proof)
    → IsEmptyChallenge prf
    → verify_one order key prf ≡ panics
unfolding podr2_challenge_generate_from_chain verify_challenge verify_proof
verify_one-empty order key prf (filled, blocks, random) =
    verify_one-filled order key prf filled
    ∙ ap
        (λ (l : List ℕ).
          verify_challenge order key prf
            (podr2_challenge_generate_from_chain l prf.challenge_info.random))
        blocks
    ∙ ap
        (λ (l : List Bytes).
          verify_challenge order key prf (podr2_challenge_generate_from_chain [] l))
        random

pows-short :
    (key : RsaKey) (qs : List QElement) (hs : List Bytes)
    → length hs < length qs
    → pows key qs hs ≡ none
unfolding pows
pows-short key [] hs h = absurd (omega arith)
pows-short key (q ∷ qs) [] h = refl
pows-short key (q ∷ qs) (x ∷ hs) h = rw (pows-short key qs hs (omega arith), pows) refl

-- A filled proof with fewer hashes than its challenge has blocks, where the challenge has a random
-- number for each block: a goroutine of VerifyProof panics, which ends the process, whatever the key,
-- the rest of the proof and the order of the goroutines.
pub short_hashes_crash :
    (order : List ℕ → List ℕ) (key : RsaKey) (prf : Proof)
    → IsFilled prf
    → length prf.challenge_info.block_list ≡ length prf.challenge_info.random
    → length prf.hash_mi < length prf.challenge_info.block_list
    → verify_one order key prf ≡ crashes
unfolding verify_challenge verify_proof
short_hashes_crash order key prf filled same short =
    elim (challenge_pairs prf.challenge_info.block_list prf.challenge_info.random) [
      | inl differ ↦ absurd (differ.0 same)
      | inr (qs, made, long, _) ↦
          verify_one-filled order key prf filled
          ∙ ap (verify_challenge order key prf) made
          ∙ crash qs (pows-short key qs prf.hash_mi (omega arith))
    ]
  where
    crash :
        (qs : List QElement)
        → pows key qs prf.hash_mi ≡ none
        → verify_challenge order key prf (some qs) ≡ crashes
    crash qs e = rw (e, verify_proof) refl

flush-locked : (rs : List ProofResult) (t : Task) → (flush rs t).locked ≡ t.locked
flush-locked rs t = elim (Bool-cases (leb max_sub_proof_results (length rs))) [
  | inr f ↦ rw f refl
  | inl full ↦ rw full (kept_lock rs)
]
  where
    kept_lock : (rs : List ProofResult) → (submit rs t).locked ≡ t.locked
    kept_lock [] = refl
    kept_lock (r ∷ rs) = refl

verify_all-panics :
    (order : List ℕ → List ℕ) (key : RsaKey) {ps : List Proof} {rs' : List ProofResult}
    (rs : List ProofResult) (t : Task) (bad : Proof) (rest : List Proof)
    → Results order key ps rs'
    → verify_one order key bad ≡ panics
    → (t' : Task) × (verify_all order key rs t (ps ++ bad ∷ rest) ≡ panicked t')
      × (t'.locked ≡ t.locked)
unfolding verify_all
verify_all-panics order key rs t bad rest nil p =
    (flush rs t, rw (p, verify_all) refl, flush-locked rs t)
verify_all-panics order key rs t bad rest (cons {prf = prf} {r = r} e more) p =
    let (t', run, held) =
      verify_all-panics order key (kept rs ++ r ∷ []) (flush rs t) bad rest more p in
    (t', rw (e, verify_all) run, held ∙ flush-locked rs t)

-- A filled proof whose challenge names no block and has no random number, behind any proofs that are
-- verified: the round panics with workLock held, and every later round that finds a proof waits for that
-- lock for ever.
pub empty_challenge_deadlocks :
    (order : List ℕ → List ℕ) (key : RsaKey) {ps : List Proof} {rs : List ProofResult}
    (submitted : List (List ProofResult)) (bad : Proof) (rest : List Proof)
    → Results order key ps rs
    → IsEmptyChallenge bad
    → (t : Task) × (validate_round order key
          (record { locked = false; submitted = submitted })
          (ps ++ bad ∷ rest)
        ≡ panicked t)
      × ((next : Proof) (later : List Proof)
          → validate_round order key t (next ∷ later) ≡ deadlocked t)
unfolding validate_round
empty_challenge_deadlocks order key submitted bad rest good empty =
    let p = verify_one-empty order key bad empty in
    let start : Task = record { locked = true; submitted = submitted } in
    let (t, run, held) = verify_all-panics order key [] start bad rest good p in
    (t, begin good run, λ next later. rw held refl)
  where
    begin :
        {ps : List Proof} {rs : List ProofResult} {t : Task}
        → Results order key ps rs
        → verify_all order key []
            (record { locked = true; submitted = submitted })
            (ps ++ bad ∷ rest)
          ≡ panicked t
        → validate_round order key
            (record { locked = false; submitted = submitted })
            (ps ++ bad ∷ rest)
          ≡ panicked t
    begin nil run = run
    begin (cons e more) run = run
