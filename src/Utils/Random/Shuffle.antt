-- ===== src/Utils/Random/Shuffle.antt =====
-- RandSlice (pkg/utils/common.go) keeps the elements.
use cess_scheduler.Prelude.{ℕ, zero, suc, refl, inl, inr, List, [], ◌∷◌, length, ltb, Bool-cases}
use mathlib.Core.List.{Permᴰ}
use mathlib.Core.List.Permᴰ
use cess_scheduler.Utils.Random.{exchange, swap, swaps, rand_slice}

module _ {ℓ} {A : Type ℓ} where
  exchange-Permᴰ :
      (j : ℕ) (x : A) (xs : List A) → Permᴰ (x ∷ xs) ((exchange j x xs).0 ∷ (exchange j x xs).1)
  unfolding exchange
  exchange-Permᴰ j x [] = Permᴰ.refl (x ∷ [])
  exchange-Permᴰ zero x (y ∷ ys) = Permᴰ.swap refl refl
  exchange-Permᴰ (suc j) x (y ∷ ys) =
      Permᴰ.trans (Permᴰ.swap refl refl)
        (Permᴰ.trans (Permᴰ.cons refl (exchange-Permᴰ j x ys)) (Permᴰ.swap refl refl))

  swap-Permᴰ : (i j : ℕ) (xs : List A) → Permᴰ xs (swap i j xs)
  unfolding swap
  swap-Permᴰ i j [] = Permᴰ.nil
  swap-Permᴰ zero zero (x ∷ xs) = Permᴰ.refl (x ∷ xs)
  swap-Permᴰ zero (suc j) (x ∷ xs) = exchange-Permᴰ j x xs
  swap-Permᴰ (suc i) zero (x ∷ xs) = exchange-Permᴰ i x xs
  swap-Permᴰ (suc i) (suc j) (x ∷ xs) = Permᴰ.cons refl (swap-Permᴰ i j xs)

  swaps-Permᴰ : (intn : ℕ → ℕ) (i : ℕ) (xs : List A) → Permᴰ xs (swaps intn i xs)
  unfolding swaps
  swaps-Permᴰ intn zero xs = Permᴰ.refl xs
  swaps-Permᴰ intn (suc i) xs =
      Permᴰ.trans (swap-Permᴰ i (intn i) xs) (swaps-Permᴰ intn i (swap i (intn i) xs))

  -- Whatever is drawn, RandSlice leaves the same elements, each as often as before.
  pub rand_slice-Permᴰ : (intn : ℕ → ℕ) (xs : List A) → Permᴰ xs (rand_slice intn xs)
  unfolding rand_slice
  rand_slice-Permᴰ intn xs = elim (Bool-cases (ltb (length xs) 2)) [
    | inl short ↦ rw short (Permᴰ.refl xs)
    | inr long ↦ rw long (swaps-Permᴰ intn (length xs) xs)
  ]
