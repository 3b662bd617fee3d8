-- ===== src/Utils/Random/Text.antt =====
-- RandStr (pkg/utils/randomX.go).
use cess_scheduler.Prelude.{
  ℕ, zero, suc, ◌-◌, ◌/◌, ◌%◌, ◌<◌, ◌≤◌, ◌≡◌, refl, ap, ◌∙◌, Bytes, true, some, [], ◌∷◌, length,
  get_or, ltb, lt→ltb, arith, All,
}
use cess_scheduler.Utils.Random.{base_str, letter_id_max, push, refill, rand_loop, rand_str}

-- A byte of the alphabet.
unfoldable pub Letter : ℕ → Type 0
Letter b = (idx : ℕ) × (idx < 64) × (b ≡ get_or base_str idx 0)

taken_lem : (bits : ℕ) → ltb (bits % 64) (length base_str) ≡ true
taken_lem bits = lt→ltb (bits % 64) 90 (omega arith)

rand_step :
    (rounds left k cache remain : ℕ) (int63 : ℕ → ℕ)
    → rand_loop (suc rounds) int63 k (suc left) cache remain
      ≡ push (get_or base_str ((refill int63 k cache remain).1 % 64) 0) (
          rand_loop rounds int63
            (refill int63 k cache remain).0
            left
            ((refill int63 k cache remain).1 / 64)
            ((refill int63 k cache remain).2 - 1))
unfolding rand_loop
rand_step rounds left k cache remain int63 =
    rw (taken_lem (refill int63 k cache remain).1, rand_loop) refl

rand_loop_lem :
    (rounds left k cache remain : ℕ) (int63 : ℕ → ℕ)
    → left ≤ rounds
    → (s : Bytes) × (rand_loop rounds int63 k left cache remain ≡ some s)
      × (length s ≡ left)
      × All Letter s
unfolding rand_loop Letter
rand_loop_lem rounds zero k cache remain int63 h = ([], refl, refl, tt)
rand_loop_lem zero (suc left) k cache remain int63 h = absurd (omega arith)
rand_loop_lem (suc rounds) (suc left) k cache remain int63 h =
    let (k', bits, letters) = refill int63 k cache remain in
    let (s, runs, long, all) =
      rand_loop_lem rounds left k' (bits / 64) (letters - 1) int63 (omega (arith, h)) in
    (
      get_or base_str (bits % 64) 0 ∷ s,
      rand_step rounds left k cache remain int63 ∙ ap (push (get_or base_str (bits % 64) 0)) runs,
      omega (arith, long),
      ((bits % 64, omega arith, refl), all),
    )

-- n rounds are enough for n bytes, whatever is drawn; each is one of the first 64 of the alphabet.
pub rand_str_lem :
    (int63 : ℕ → ℕ) (n : ℕ)
    → (s : Bytes) × (rand_str int63 n ≡ some s) × (length s ≡ n) × All Letter s
unfolding rand_str
rand_str_lem int63 n = rand_loop_lem n n 1 (int63 0) letter_id_max int63 (omega arith)
