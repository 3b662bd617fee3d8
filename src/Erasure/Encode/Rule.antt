-- ===== src/Erasure/Encode/Rule.antt =====
-- The numbers of shards that reedSolomonRule chooses.
use cess_scheduler.Prelude.{
  ℕ, min, ◌+◌, ◌-◌, ◌*◌, ◌/◌, ◌≤◌, ◌<◌, ◌≡◌, ◌↔◌, Bool, true, false, arith, ltb, leb, Bool-cases,
  inl, inr, if◌then◌else◌,
}
use cess_scheduler.Erasure.Encode.{Float64, data_chunks, exceeds, rule_result, reed_solomon_rule}

-- Bounds of a rule's numbers of data and parity shards.
abbrev IsRule : ℕ → ℕ → ℕ × ℕ → Type 0
IsRule low high (d, r) = (low ≤ d) × (d ≤ high) × (r ≡ d / 2)

data_chunks-low : (fsize : ℕ) → 4 ≤ data_chunks fsize
unfolding data_chunks
data_chunks-low fsize = ground arith

rule_result-IsRule :
    (fl : Float64) (fsize n low high : ℕ)
    → low < n
    → low < 20
    → min n 20 ≤ high
    → IsRule low high (rule_result fl fsize n)
unfolding rule_result
rule_result-IsRule fl fsize n low high h k up = elim (Bool-cases (ltb 20 n)) [
  | inl many ↦ rw many (chosen 20 (exceeds fl fsize 20) k (ground arith))
  | inr few ↦ rw few (chosen n (exceeds fl fsize n) h (ground arith))
]
  where
    chosen :
        (n : ℕ) (e : Bool)
        → low < n
        → n ≤ high
        → let m = if e then n - 1 else n in IsRule low high (m, m / 2)
    chosen n true h up = (omega arith, omega arith, omega arith)
    chosen n false h up = (omega arith, up, omega arith)

-- For every file size and every rounding of the floats: at least one and at most 20 data shards, half as
-- many parity shards, so that all shards are at most one and a half times the data, and no more than three
-- shards, which is when they are made in memory, exactly if the file has at most 1 KiB.
pub reed_solomon_rule-bounds :
    (fl : Float64) (fsize : ℕ)
    → let (d, r) = reed_solomon_rule fl fsize in
      (1 ≤ d) × (d ≤ 20) × (r ≡ d / 2) × (2 * (d + r) ≤ 3 * d) × ((d + r ≤ 3) ↔ (fsize ≤ 1024))
unfolding reed_solomon_rule
reed_solomon_rule-bounds fl fsize = elim (Bool-cases (leb fsize 1024)) [
  | inl small ↦ elim (Bool-cases (leb fsize 1)) [
    | inl tiny ↦
        rw (small, tiny)
          (
            omega arith,
            omega arith,
            omega arith,
            omega arith,
            ((λ h. ground arith), (λ h. omega arith)),
          )
    | inr larger ↦
        rw (small, larger)
          (let (low, high, half) =
              rule_result-IsRule fl fsize 2 1 2 (omega arith) (omega arith) (omega arith) in
            (low, omega arith, half, omega arith, ((λ h. ground arith), (λ h. omega arith))))
  ]
  | inr large ↦ rw large (
      let n = data_chunks fsize in
      let k = data_chunks-low fsize in
      let (low, high, half) =
        rule_result-IsRule fl fsize n 3 20 (omega arith) (omega arith) (omega arith) in
      (omega arith, high, half, omega arith, ((λ h. omega arith), (λ h. ground arith))))
]
