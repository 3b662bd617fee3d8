-- ===== src/Node/Filler/Rounds.antt =====
-- The rounds of storagefiller's loop that submits (node/sub_space.go).
use cess_scheduler.Prelude.{
  ℕ, zero, suc, ◌+◌, ◌<◌, ◌≡◌, ◌≢◌, inl, inr, refl, Bytes, true, false, [], length, ◌==◌, arith,
  Bool-cases,
}
use cess_scheduler.Node.Filler.{answered, submitting, submit_fillers}

-- The first call of SubmitFillerMeta with a hash, counted from the k-th, is within the fuel.
unfoldable pub FirstHash : ℕ → ℕ → (ℕ → Bytes) → Type 0
FirstHash fuel k replies =
    (j : ℕ) × (j < fuel)
    × (length (replies (k + j)) ≢ 0)
    × ((i : ℕ) → i < j → length (replies (k + i)) ≡ 0)

pub submit_fillers-FirstHash :
    (fuel k : ℕ) (replies : ℕ → Bytes)
    → submit_fillers fuel k replies ≡ answered true
    → FirstHash fuel k replies
unfolding submit_fillers FirstHash
submit_fillers-FirstHash zero k replies e = ground arith
submit_fillers-FirstHash (suc fuel) k replies e = elim (Bool-cases (length (replies k) == 0)) [
  | inr f ↦
      let here : k + 0 ≡ k = omega arith in
      let some_hash : length (replies k) ≢ 0 = ground arith in
      (0, omega arith, rw here some_hash, λ i h. absurd (omega arith))
  | inl t ↦
      let (j, h, found, before) =
        submit_fillers-FirstHash fuel (suc k) replies (rw (t, submit_fillers) at e) in
      let none_here : length (replies k) ≡ 0 = ground arith in
      let at' : suc k + j ≡ k + suc j = omega arith in
      (suc j, omega arith, rw at' at found, earlier none_here j before)
]
  where
    earlier :
        length (replies k) ≡ 0
        → (j : ℕ) → ((i : ℕ) → i < j → length (replies (suc k + i)) ≡ 0)
        → (i : ℕ) → i < suc j
        → length (replies (k + i)) ≡ 0
    earlier none_here j before zero h = let here : k + 0 ≡ k = omega arith in rw here none_here
    earlier none_here j before (suc i) h =
        let at' : suc k + i ≡ k + suc i = omega arith in rw at' at (before i (omega arith))

pub submit_fillers-answered :
    (j fuel k : ℕ) (replies : ℕ → Bytes)
    → j < fuel
    → length (replies (k + j)) ≢ 0
    → submit_fillers fuel k replies ≡ answered true
unfolding submit_fillers
submit_fillers-answered j zero k replies h r = absurd (omega arith)
submit_fillers-answered zero (suc fuel) k replies h r =
    let same : k + 0 ≡ k = omega arith in
    let f : (length (replies k) == 0) ≡ false = (let r' = rw same at r in ground arith) in
    rw (f, submit_fillers) refl
submit_fillers-answered (suc j) (suc fuel) k replies h r =
    let same : k + suc j ≡ suc k + j = omega arith in
    let rest = submit_fillers-answered j fuel (suc k) replies (omega arith) (rw same at r) in
    elim (Bool-cases (length (replies k) == 0)) [
      | inl t ↦ rw (t, submit_fillers) rest
      | inr f ↦ rw (f, submit_fillers) refl
    ]

pub submit_fillers-waits :
    (fuel k : ℕ) (replies : ℕ → Bytes)
    → ((j : ℕ) → replies j ≡ [])
    → submit_fillers fuel k replies ≡ submitting
unfolding submit_fillers
submit_fillers-waits zero k replies h = refl
submit_fillers-waits (suc fuel) k replies h =
    rw (h k, submit_fillers) (submit_fillers-waits fuel (suc k) replies h)
