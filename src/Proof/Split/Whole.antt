-- ===== src/Proof/Split/Whole.antt =====
-- The pieces of SplitV2, end to end.
use cess_scheduler.Prelude.{
  ℕ, zero, suc, ◌+◌, ◌-◌, ◌*◌, ◌/◌, ◌%◌, ◌<◌, ◌≤◌, ◌≡◌, refl, ap, Bytes, true, false, List, [], ◌∷◌,
  ◌++◌, length, take, drop, replicate, ◌==◌, arith, All, Bool-cases, inl, inr, take-append-drop,
  length-take, length-drop, length-replicate, length-append, le→ltb_false,
}
use native.Mathlib.Nat.{div-add-mod, mod-lt}
use mathlib.Core.List.{flatten, append-nil, append_assoc}
use cess_scheduler.Proof.Split.{padded, pieces, count, split_v2}

-- The same pieces, cut off the front of what is left.
cuts : ℕ → ℕ → Bytes → List Bytes
cuts zero sep r = []
cuts (suc zero) sep r = padded r sep ∷ []
cuts (suc (suc l)) sep r = take sep r ∷ cuts (suc l) sep (drop sep r)

drop-zero_mul : (sep : ℕ) (d : Bytes) → drop (0 * sep) d ≡ d
drop-zero_mul sep d = let e : 0 * sep ≡ zero = omega arith in rw e

drop-nil : (n : ℕ) → drop {A = ℕ} n [] ≡ []
drop-nil zero = refl
drop-nil (suc n) = refl

drop-drop : (m n : ℕ) (r : Bytes) → drop m (drop n r) ≡ drop (n + m) r
drop-drop m zero r = let e : zero + m ≡ m = omega arith in rw e
drop-drop m (suc n) [] = rw (drop-nil m, drop-nil (suc n + m))
drop-drop m (suc n) (x ∷ r) =
    let e : suc n + m ≡ suc (n + m) = omega arith in rw e (drop-drop m n r)

pieces-eq-cuts :
    (left i sep : ℕ) (d : Bytes) → pieces left i sep d ≡ cuts left sep (drop (i * sep) d)
unfolding pieces cuts
pieces-eq-cuts zero i sep d = refl
pieces-eq-cuts (suc zero) i sep d = refl
pieces-eq-cuts (suc (suc l)) i sep d =
    let e : (i + 1) * sep ≡ i * sep + sep = grind arith in
    rw (pieces-eq-cuts (suc l) (i + 1) sep d, e, drop-drop sep (i * sep) d)

-- What is left after one piece still spans the pieces that are left.
module _ (l sep : ℕ) (r : Bytes) (low : suc l * sep ≤ length r)
    (high : length r ≤ suc (suc l) * sep) where
  low-drop : l * sep ≤ length (drop sep r)
  low-drop = rw (length-drop sep r) (omega arith)

  high-drop : length (drop sep r) ≤ suc l * sep
  high-drop = rw (length-drop sep r) (omega arith)

  pad-drop : suc l * sep - length (drop sep r) ≡ suc (suc l) * sep - length r
  pad-drop = rw (length-drop sep r) (omega arith)

flatten-cuts :
    (l sep : ℕ) (r : Bytes)
    → l * sep ≤ length r
    → length r ≤ suc l * sep
    → flatten (cuts (suc l) sep r) ≡ r ++ replicate (suc l * sep - length r) 0
unfolding cuts flatten
flatten-cuts zero sep r low high = let e : suc zero * sep ≡ sep = omega arith in rw (append-nil, e)
flatten-cuts (suc l) sep r low high = rw (
  flatten-cuts l sep (drop sep r) (low-drop l sep r low high) (high-drop l sep r low high),
  pad-drop l sep r low high,
  ← append_assoc,
  take-append-drop sep r,
)

All-cuts :
    (l sep : ℕ) (r : Bytes)
    → l * sep ≤ length r
    → length r ≤ suc l * sep
    → All (λ p. length p ≡ sep) (cuts (suc l) sep r)
unfolding cuts
All-cuts zero sep r low high = (
  rw (length-append r (replicate (sep - length r) 0), length-replicate {A = ℕ} (sep - length r) 0)
      (omega arith),
  tt,
)
All-cuts (suc l) sep r low high = (
  rw (length-take sep r) (omega arith),
  All-cuts l sep (drop sep r) (low-drop l sep r low high) (high-drop l sep r low high),
)

length-cuts : (l sep : ℕ) (r : Bytes) → length (cuts l sep r) ≡ l
unfolding cuts
length-cuts zero sep r = refl
length-cuts (suc zero) sep r = refl
length-cuts (suc (suc l)) sep r = ap suc (length-cuts (suc l) sep (drop sep r))

-- The number of pieces is the size over `sep`, rounded up.
count-bounds :
    (size sep : ℕ)
    → 0 < sep
    → sep ≤ size
    → (l : ℕ) × (count size sep ≡ suc l) × (l * sep < size) × (size ≤ suc l * sep)
unfolding count
count-bounds size sep h k =
    let whole : sep * (size / sep) + size % sep ≡ size = div-add-mod size sep in
    let small : size % sep < sep = mod-lt size h in
    let q = size / sep in
    let some_q : 0 < q = positive q (size % sep) whole small in
    elim (Bool-cases (size % sep == 0)) [
      | inl t ↦ (
        q - 1,
        rw t (omega arith),
        below q (size % sep) t whole some_q,
        above q (size % sep) t whole some_q,
      )
      | inr f ↦ (
        q,
        rw f (omega arith),
        below' q (size % sep) f whole,
        above' q (size % sep) f whole small,
      )
    ]
  where
    positive : (q r : ℕ) → sep * q + r ≡ size → r < sep → 0 < q
    positive zero r e s = absurd (omega arith)
    positive (suc q) r e s = omega arith

    below : (q r : ℕ) → (r == 0) ≡ true → sep * q + r ≡ size → 0 < q → (q - 1) * sep < size
    below zero r t e p = absurd (omega arith)
    below (suc q) r t e p = let m : suc q - 1 ≡ q = omega arith in rw m (grind arith)

    above : (q r : ℕ) → (r == 0) ≡ true → sep * q + r ≡ size → 0 < q → size ≤ suc (q - 1) * sep
    above zero r t e p = absurd (omega arith)
    above (suc q) r t e p = let m : suc q - 1 ≡ q = omega arith in rw m (grind arith)

    below' : (q r : ℕ) → (r == 0) ≡ false → sep * q + r ≡ size → q * sep < size
    below' q r f e = grind arith

    above' : (q r : ℕ) → (r == 0) ≡ false → sep * q + r ≡ size → r < sep → size ≤ suc q * sep
    above' q r f e s = grind arith

split_v2-cuts :
    (d : Bytes) (sep l : ℕ)
    → sep ≤ length d
    → count (length d) sep ≡ suc l
    → split_v2 d sep ≡ (cuts (suc l) sep d, suc l)
unfolding split_v2
split_v2-cuts d sep l k e =
    rw (le→ltb_false (length d) sep k, split_v2)
      (let p : pieces (count (length d) sep) 0 sep d ≡ cuts (suc l) sep d =
          rw (pieces-eq-cuts (count (length d) sep) 0 sep d, e, drop-zero_mul sep d) in
        λ i. (p i, e i))

-- A file of at least `sep` bytes, for a positive `sep`: as many pieces as are counted, each of exactly
-- `sep` bytes, and together they are the file's bytes followed by fewer than `sep` zeros.
pub split_v2_whole :
    (d : Bytes) (sep : ℕ)
    → 0 < sep
    → sep ≤ length d
    → let (ps, n) = split_v2 d sep in
      (length ps ≡ n)
      × All (λ p. length p ≡ sep) ps
      × (flatten ps ≡ d ++ replicate (n * sep - length d) 0)
      × (n * sep < length d + sep)
split_v2_whole d sep h k =
    let (l, e, low, high) = count-bounds (length d) sep h k in
    rw (split_v2-cuts d sep l k e) (
      length-cuts (suc l) sep d,
      All-cuts l sep d (omega arith) high,
      flatten-cuts l sep d (omega arith) high,
      omega arith,
    )
