-- ===== src/Utils/Random.antt =====
-- pkg/utils: RandSlice (common.go), GetRandomcode and RandStr (randomX.go). The numbers that math/rand draws are
-- functions of the number of the draw.
use cess_scheduler.Prelude.{
  ℕ, zero, suc, ◌+◌, ◌-◌, ◌/◌, ◌%◌, Bytes, Option, none, some, List, [], ◌∷◌, str, length, get_or,
  ltb, ◌==◌, if◌then◌else◌,
}
pub mod Shuffle
pub mod Text

module _ {ℓ} {A : Type ℓ} where
  -- The element at a place, and the list with another there.
  unfoldable pub exchange : ℕ → A → List A → A × List A
  exchange j x [] = (x, [])
  exchange zero x (y ∷ ys) = (y, x ∷ ys)
  exchange (suc j) x (y ∷ ys) = let (z, zs) = exchange j x ys in (z, y ∷ zs)

  -- reflect.Swapper, at two places of the list.
  unfoldable pub swap : ℕ → ℕ → List A → List A
  unfolding exchange
  swap i j [] = []
  swap zero zero (x ∷ xs) = x ∷ xs
  swap zero (suc j) (x ∷ xs) = let (y, ys) = exchange j x xs in y ∷ ys
  swap (suc i) zero (x ∷ xs) = let (y, ys) = exchange i x xs in y ∷ ys
  swap (suc i) (suc j) (x ∷ xs) = x ∷ swap i j xs

  -- The rounds `rounds - 1` to 0; `intn i` is the number below the length that round i draws.
  unfoldable pub swaps : (ℕ → ℕ) → ℕ → List A → List A
  unfolding swap
  swaps intn zero xs = xs
  swaps intn (suc i) xs = swaps intn i (swap i (intn i) xs)

  unfoldable pub rand_slice : (ℕ → ℕ) → List A → List A
  unfolding swaps
  rand_slice intn xs = if ltb (length xs) 2 then xs else swaps intn (length xs) xs

abbrev pub base_str : Bytes
base_str =
    str "abcdefghijklmnopqrstuvwxyzABCDEFGHIJKLMNOPQRSTUVWXYZ0123456789!@#$%^&*()[]{}+-*/_=.<>?:|,~"

-- `intn k` is the k-th draw below the length of the alphabet, counted from the last byte.
unfoldable pub get_randomcode : (ℕ → ℕ) → ℕ → Bytes
get_randomcode intn zero = []
get_randomcode intn (suc n) = get_or base_str (intn n) 0 ∷ get_randomcode intn n

abbrev pub letter_id_max : ℕ
letter_id_max = 63 / 6

abbrev pub push : ℕ → Option Bytes → Option Bytes
push b none = none
push b (some s) = some (b ∷ s)

-- The bits that are left, the number of letters in them and of the draws: drawn anew when none is left.
abbrev pub refill : (ℕ → ℕ) → ℕ → ℕ → ℕ → ℕ × ℕ × ℕ
refill int63 k cache zero = (suc k, int63 k, letter_id_max)
refill int63 k cache (suc remain) = (k, cache, suc remain)

-- The loop, with `left` bytes to write; `none` where the rounds end before.
unfoldable pub rand_loop : ℕ → (ℕ → ℕ) → ℕ → ℕ → ℕ → ℕ → Option Bytes
rand_loop rounds int63 k zero cache remain = some []
rand_loop zero int63 k (suc left) cache remain = none
rand_loop (suc rounds) int63 k (suc left) cache remain =
    let (k', bits, letters) = refill int63 k cache remain in
    let idx = bits % 64 in
    let taken = ltb idx (length base_str) in
    let rest =
      rand_loop rounds int63 k' (if taken then left else suc left) (bits / 64) (letters - 1) in
    if taken then push (get_or base_str idx 0) rest else rest

-- `int63` gives the draws of src.Int63. Each round writes a byte, so that n rounds are enough.
unfoldable pub rand_str : (ℕ → ℕ) → ℕ → Option Bytes
unfolding rand_loop
rand_str int63 n = rand_loop n int63 1 n (int63 0) letter_id_max
