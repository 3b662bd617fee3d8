-- ===== src/Proof/Modular.antt =====
-- Products and powers of natural numbers modulo n, as math/big's Exp and Mod compute them.
use cess_scheduler.Prelude.{
  ℕ, zero, suc, ◌+◌, ◌*◌, ◌/◌, ◌%◌, ◌^◌, ◌≡◌, refl, sym, ap, ◌∙◌, List, [], ◌∷◌, arith, ◌==◌,
  if◌then◌else◌, Bytes,
}
use native.Mathlib.Nat.{mul-add-mod_self_left, pow-suc, pow-zero, mul_comm, div-add-mod}
use mathlib.Core.List.{Permᴰ}

-- big.Int.SetBytes: big-endian.
unfoldable pub set_bytes_from : ℕ → Bytes → ℕ
set_bytes_from acc [] = acc
set_bytes_from acc (b ∷ bs) = set_bytes_from (acc * 256 + b) bs

unfoldable pub set_bytes : Bytes → ℕ
unfolding set_bytes_from
set_bytes bs = set_bytes_from 0 bs

-- big.Int.Exp(x, y, m) at y ≥ 0; no modulus where m is 0.
unfoldable pub exp : ℕ → ℕ → ℕ → ℕ
exp x y m = if m == 0 then x ^ y else x ^ y % m

unfoldable pub product : List ℕ → ℕ
product [] = 1
product (x ∷ xs) = x * product xs

pub mod-mul : (a b n : ℕ) → (a % n * b) % n ≡ (a * b) % n
mod-mul a b n =
    let e : a * b ≡ n * (a / n * b) + a % n * b =
      ap (λ (t : ℕ). t * b) (sym (div-add-mod a n)) ∙ grind arith in
    rw e (rw mul-add-mod_self_left)

pub mul-mod : (a b n : ℕ) → (a * (b % n)) % n ≡ (a * b) % n
mul-mod a b n = rw (mul_comm a (b % n), mul_comm a b) (mod-mul b a n)

-- Congruence of products.
pub mul_congr : (a a' b b' n : ℕ) → a % n ≡ a' % n → b % n ≡ b' % n → (a * b) % n ≡ (a' * b') % n
mul_congr a a' b b' n p q =
    sym (mod-mul a b n)
    ∙ ap (λ (t : ℕ). (t * b) % n) p
    ∙ mod-mul a' b n
    ∙ sym (mul-mod a' b n)
    ∙ ap (λ (t : ℕ). (a' * t) % n) q
    ∙ mul-mod a' b' n

pub pow_congr : (a b k n : ℕ) → a % n ≡ b % n → (a ^ k) % n ≡ (b ^ k) % n
pow_congr a b zero n p = rw (pow-zero, pow-zero)
pow_congr a b (suc k) n p =
    rw (pow-suc a k, pow-suc b k) (mul_congr (a ^ k) (b ^ k) a b n (pow_congr a b k n p) p)

pub pow-add : (a m n : ℕ) → a ^ (m + n) ≡ a ^ m * a ^ n
pow-add a zero n = let e : zero + n ≡ n = omega arith in rw (e, pow-zero a) (omega arith)
pow-add a (suc m) n =
    let e : suc m + n ≡ suc (m + n) = omega arith in
    rw (e, pow-suc a (m + n), pow-suc a m, pow-add a m n) (grind arith)

pub mul-pow : (a b k : ℕ) → (a * b) ^ k ≡ a ^ k * b ^ k
mul-pow a b zero = rw (pow-zero, pow-zero, pow-zero) refl
mul-pow a b (suc k) = rw (pow-suc (a * b) k, pow-suc a k, pow-suc b k, mul-pow a b k) (grind arith)

pub pow-mul : (a m n : ℕ) → a ^ (m * n) ≡ (a ^ m) ^ n
pow-mul a m zero = let e : m * zero ≡ zero = omega arith in rw (e, pow-zero, pow-zero) refl
pow-mul a m (suc n) =
    let e : m * suc n ≡ m * n + m = grind arith in
    rw (e, pow-add a (m * n) m, pow-suc (a ^ m) n, pow-mul a m n) refl

pub pow-one : (k : ℕ) → 1 ^ k ≡ 1
pow-one zero = pow-zero 1
pow-one (suc k) = rw (pow-suc 1 k, pow-one k) refl

-- The product does not depend on the order of its factors.
pub product-perm : {xs ys : List ℕ} → Permᴰ xs ys → product xs ≡ product ys
unfolding product
product-perm Permᴰ.nil = refl
product-perm (Permᴰ.cons e p) = rw (e, product-perm p)
product-perm (Permᴰ.swap {l = l} e f) = rw (e, f) (grind arith)
product-perm (Permᴰ.trans p q) = product-perm p ∙ product-perm q
