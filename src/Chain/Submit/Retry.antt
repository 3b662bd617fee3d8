-- ===== src/Chain/Submit/Retry.antt =====
-- The submission loop: how often an extrinsic is sent, with which nonces, and when the loop is
-- entered at all.
use cess_scheduler.Prelude.{
  ℕ, zero, suc, ◌+◌, ◌≤◌, ◌<◌, ◌≡◌, refl, Bool, true, false, none, some, List, [], ◌∷◌, arith, ◌⊎◌,
  inl, inr, replicate, Bool-cases, Option-cases,
}
use cess_scheduler.Chain.Types.{Error}
use cess_scheduler.Chain.Submit.{
  Network, Sent, accepted, refused, nonces, also_sent, next_nonce, resubmit, submit_extrinsic,
  max_try_count, is_low_priority,
}

nonces-also_sent : (n : ℕ) (s : Sent) → nonces (also_sent n s) ≡ n ∷ nonces s
nonces-also_sent n (accepted ns) = refl
nonces-also_sent n (refused ns at e) = refl

-- Every retry carries the same nonce, and there are at most as many as rounds are left.
pub resubmit-nonces :
    (left k : ℕ) (w : Network) (nonce : ℕ) (e : Error)
    → (m : ℕ) × (nonces (resubmit left k w nonce e) ≡ replicate m (next_nonce nonce)) × (m ≤ left)
unfolding resubmit
resubmit-nonces zero k w nonce e = (0, refl, omega arith)
resubmit-nonces (suc left) k w nonce e = elim (Option-cases (w.sign_err k)) [
  | inr (s, p) ↦ (0, rw (p, resubmit), omega arith)
  | inl p ↦ elim (Option-cases (w.submit_err k)) [
    | inl q ↦ (1, rw (p, q, resubmit), omega arith)
    | inr (e', q) ↦
        let (m, same, few) = resubmit-nonces left (suc k) w nonce e' in
        (suc m, rw (p, q, resubmit) (rw (nonces-also_sent _ _, same)), omega arith)
  ]
]

-- Why a retry was made: the transaction retries and the first answer was a priority too low.
abbrev pub MayRetry : Bool → Network → Type 0
MayRetry retries w =
    (retries ≡ true) × ((e : Error) × (w.submit_err 0 ≡ some e) × (is_low_priority e ≡ true))

-- The extrinsics of one transaction: none, or the first with the account's nonce and then at most
-- twenty more, all with the nonce after it; there is a second one only if the transaction is one
-- that retries and the node answered the first with a priority that is too low.
pub submit_extrinsic-nonces :
    (retries : Bool) (w : Network) (nonce : ℕ)
    → (nonces (submit_extrinsic retries w nonce) ≡ [])
      ⊎ ((m : ℕ) × (nonces (submit_extrinsic retries w nonce)
            ≡ nonce ∷ replicate m (next_nonce nonce))
          × (m ≤ max_try_count)
          × (0 < m → MayRetry retries w))
unfolding submit_extrinsic
submit_extrinsic-nonces retries w nonce = elim (Option-cases (w.sign_err 0)) [
  | inr (s, p) ↦ inl (rw (p, submit_extrinsic))
  | inl p ↦ elim (Option-cases (w.submit_err 0)) [
    | inl q ↦ inr (0, rw (p, q, submit_extrinsic), omega arith, λ h. absurd (omega arith))
    | inr (e, q) ↦ inr (retried retries e p q)
  ]
]
  where
    retried :
        (r : Bool) (e : Error)
        → w.sign_err 0 ≡ none
        → w.submit_err 0 ≡ some e
        → (m : ℕ) × (nonces (submit_extrinsic r w nonce) ≡ nonce ∷ replicate m (next_nonce nonce))
          × (m ≤ max_try_count)
          × (0 < m → MayRetry r w)
    retried false e p q = (0, rw (p, q, submit_extrinsic), omega arith, λ h. absurd (omega arith))
    retried true e p q = elim (Bool-cases (is_low_priority e)) [
      | inr r ↦ (0, rw (p, q, r, submit_extrinsic), omega arith, λ h. absurd (omega arith))
      | inl r ↦
          let (m, same, few) = resubmit-nonces max_try_count 1 w nonce e in
          (
            m,
            rw (p, q, r, submit_extrinsic) (rw (nonces-also_sent _ _, same)),
            few,
            λ h. (refl, (e, q, r)),
          )
    ]

-- The rounds of the loop keep an acceptance.
accepted-also_sent :
    (n : ℕ) (s : Sent)
    → (ns : List ℕ) × (s ≡ accepted ns)
    → (ns : List ℕ) × (also_sent n s ≡ accepted ns)
accepted-also_sent n s (ns, e) = (n ∷ ns, rw e)

-- The loop ends with an acceptance if the node accepts one of the rounds that are left and every
-- signature up to it succeeds.
pub resubmit_accepts :
    (j left k : ℕ) (w : Network) (nonce : ℕ) (e : Error)
    → j < left
    → ((i : ℕ) → i ≤ j → w.sign_err (k + i) ≡ none)
    → w.submit_err (k + j) ≡ none
    → (ns : List ℕ) × (resubmit left k w nonce e ≡ accepted ns)
unfolding resubmit
resubmit_accepts j zero k w nonce e h signed ok = absurd (omega arith)
resubmit_accepts zero (suc left) k w nonce e h signed ok =
    let same : k + 0 ≡ k = omega arith in
    (next_nonce nonce ∷ [], rw ((rw same at (signed 0 (omega arith))), (rw same at ok), resubmit))
resubmit_accepts (suc j) (suc left) k w nonce e h signed ok = elim (Option-cases (w.submit_err k)) [
  | inl q ↦ (next_nonce nonce ∷ [], rw (now, q, resubmit))
  | inr (e', q) ↦
      rw (now, q, resubmit)
        (accepted-also_sent _ _ (
          resubmit_accepts j left (suc k) w nonce e' (omega arith)
            (λ i hi. rw (shift i) at (signed (suc i) (omega arith))) (rw (shift j) at ok)))
]
  where
    now : w.sign_err k ≡ none
    now = let p : k + 0 ≡ k = omega arith in rw p at (signed 0 (omega arith))

    shift : (i : ℕ) → k + suc i ≡ suc k + i
    shift i = omega arith
