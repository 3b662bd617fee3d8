-- ===== src/Proof/Split.antt =====
-- SplitV2 of pkg/proof/genProof.go: a file's bytes cut into pieces of `sep` bytes.
use cess_scheduler.Prelude.{
  ℕ, zero, suc, ◌+◌, ◌-◌, ◌*◌, ◌/◌, ◌%◌, ◌<◌, ◌≤◌, ◌≡◌, ◌≢◌, refl, sym, ap, ◌∙◌, Bytes, Bool, true,
  false, List, [], ◌∷◌, ◌++◌, length, take, drop, replicate, ltb, ◌==◌, if◌then◌else◌, arith, All,
  Bool-cases, inl, inr, ◌⊎◌, take-append-drop, length-take, length-drop, length-replicate,
  length-append, min, not, take_all,
}
use mathlib.Core.List.{flatten, append-nil, append_assoc}
pub mod Whole

-- data[i*sep : (i+1)*sep]
abbrev pub slice : Bytes → ℕ → ℕ → Bytes
slice data' i sep = take sep (drop (i * sep) data')

-- The last piece, with the zeros that `make` appends where it is short.
abbrev pub padded : Bytes → ℕ → Bytes
padded rest sep = rest ++ replicate (sep - length rest) 0

-- The loop from `i`; `left` pieces are left.
unfoldable pub pieces : ℕ → ℕ → ℕ → Bytes → List Bytes
pieces zero i sep data' = []
pieces (suc zero) i sep data' = padded (drop (i * sep) data') sep ∷ []
pieces (suc (suc left)) i sep data' = slice data' i sep ∷ pieces (suc left) (i + 1) sep data'

unfoldable pub count : ℕ → ℕ → ℕ
count size sep = size / sep + (if size % sep == 0 then 0 else 1)

-- `sep` is positive: the source divides by it, and panics at 0.
unfoldable pub split_v2 : Bytes → ℕ → List Bytes × ℕ
unfolding pieces count
split_v2 data' sep =
    if ltb (length data') sep
    then (data' ∷ [], 1)
    else (pieces (count (length data') sep) 0 sep data', count (length data') sep)
