-- ===== src/Utils/Text/Decimal.antt =====
-- Decimal numbers, as fmt's %d writes them, and how strconv.Atoi and strings.Split read them back.
use cess_scheduler.Prelude.{
  ℕ, zero, suc, ◌+◌, ◌-◌, ◌*◌, ◌/◌, ◌%◌, ◌^◌, ◌≤◌, ◌<◌, ◌≡◌, ◌≢◌, refl, sym, ap, ◌∙◌, Bytes, false,
  some, [], ◌∷◌, ◌++◌, arith, All, ltb, leb, ◌==◌, ◌&&◌, if◌then◌else◌, Bool-cases, length,
  length-append, ◌⊎◌, inl, inr,
}
use cess_scheduler.Utils.Text.{split, push, digits, atoi}

-- The digits of n, with one more round than `fuel`.
unfoldable pub decimal_from : ℕ → ℕ → Bytes
decimal_from zero n = (b'0' + n % 10) ∷ []
decimal_from (suc fuel) n =
    let more = decimal_from fuel (n / 10) in
    if ltb n 10 then (b'0' + n % 10) ∷ [] else more ++ (b'0' + n % 10) ∷ []

-- A number has fewer digits than n + 1.
unfoldable pub decimal : ℕ → Bytes
unfolding decimal_from
decimal n = decimal_from n n

digits-append :
    (acc : ℕ) (s : Bytes) (m d : ℕ)
    → digits acc s ≡ some m
    → d < 10
    → digits acc (s ++ (b'0' + d) ∷ []) ≡ some (m * 10 + d)
unfolding digits
digits-append acc [] m d e h = ground arith
digits-append acc (c ∷ s) m d e h =
    let rest = digits-append (acc * 10 + (c - b'0')) s m d in
    elim (Bool-cases (leb b'0' c && leb c b'9')) [
      | inl t ↦ rw (t, digits) (rest (rw (t, digits) at e) h)
      | inr f ↦ absurd (ground arith)
    ]

digits-decimal_from : (fuel n : ℕ) → n ≤ fuel → digits 0 (decimal_from fuel n) ≡ some n
unfolding digits decimal_from
digits-decimal_from zero n h = ground arith
digits-decimal_from (suc fuel) n h = elim (Bool-cases (ltb n 10)) [
  | inl small ↦ rw small (ground arith)
  | inr large ↦
      let split' : n / 10 * 10 + n % 10 ≡ n = omega arith in
      let low : 10 ≤ n = ground arith in
      rw large (
        rw split' at (
          digits-append 0 (decimal_from fuel (n / 10)) (n / 10) (n % 10)
            (digits-decimal_from fuel (n / 10) (omega arith)) (omega arith)))
]

abbrev IsDigit : ℕ → Type 0
IsDigit c = (b'0' ≤ c) × (c ≤ b'9')

All-append : (P : ℕ → Type 0) (s t : Bytes) → All P s → All P t → All P (s ++ t)
All-append P [] t h k = k
All-append P (c ∷ s) t (p, h) k = (p, All-append P s t h k)

decimal_from-IsDigit : (fuel n : ℕ) → All IsDigit (decimal_from fuel n)
unfolding decimal_from
decimal_from-IsDigit zero n = ((omega arith, omega arith), tt)
decimal_from-IsDigit (suc fuel) n = elim (Bool-cases (ltb n 10)) [
  | inl small ↦ rw small ((omega arith, omega arith), tt)
  | inr large ↦ rw large (
      All-append IsDigit (decimal_from fuel (n / 10)) _ (decimal_from-IsDigit fuel (n / 10))
        ((omega arith, omega arith), tt))
]

-- Different numbers are written differently.
pub decimal_injective : (n m : ℕ) → decimal n ≡ decimal m → n ≡ m
unfolding decimal
decimal_injective n m e =
    let read_n = digits-decimal_from n n (omega arith) in
    let read_m = digits-decimal_from m m (omega arith) in
    let both : some n ≡ some m = sym read_n ∙ ap (digits 0) e ∙ read_m in ground (arith, both)

-- Atoi reads a number of an int back.
pub atoi-decimal : (n : ℕ) → n < 2 ^ 63 → atoi (decimal n) ≡ n
unfolding decimal atoi
atoi-decimal n h =
    go (decimal_from n n) (digits-decimal_from n n (omega arith)) (decimal_from-IsDigit n n)
  where
    go : (s : Bytes) → digits 0 s ≡ some n → All IsDigit s → atoi s ≡ n
    go [] e d = unfold digits in ground arith
    go (c ∷ s) e (d, _) =
        let a : (c == b'-') ≡ false = ground arith in
        let b : (c == b'+') ≡ false = ground arith in
        let m : 2 ^ 63 - 1 + 1 ≡ 2 ^ 63 = omega arith in
        rw (a, b) (unfold digits in ground (arith, e))

pub split-none : (sep : ℕ) (s : Bytes) → All (λ c. c ≢ sep) s → split sep s ≡ s ∷ []
unfolding split
split-none sep [] h = refl
split-none sep (c ∷ s) (p, h) = rw (split-none sep s h, push) (ground arith)

pub split-append :
    (sep : ℕ) (s t : Bytes) → All (λ c. c ≢ sep) s → split sep (s ++ sep ∷ t) ≡ s ∷ split sep t
unfolding split
split-append sep [] t h = ground arith
split-append sep (c ∷ s) t (p, h) = rw (split-append sep s t h, push) (ground arith)

-- A decimal number holds neither a dot nor a colon.
pub decimal_without : (n sep : ℕ) → ((sep < b'0') ⊎ (b'9' < sep)) → All (λ c. c ≢ sep) (decimal n)
unfolding decimal
decimal_without n sep h = go (decimal_from n n) (decimal_from-IsDigit n n)
  where
    go : (s : Bytes) → All IsDigit s → All (λ c. c ≢ sep) s
    go [] d = tt
    go (c ∷ s) (d, ds) = (omega arith, go s ds)

length-decimal_from :
    (fuel n k : ℕ)
    → (n < 10) ⊎ (length (decimal_from fuel (n / 10)) ≤ k)
    → length (decimal_from (suc fuel) n) ≤ suc k
unfolding decimal_from
length-decimal_from fuel n k h = elim (Bool-cases (ltb n 10)) [
  | inl small ↦ rw small (omega arith)
  | inr large ↦
      rw large
        (rw (length-append (decimal_from fuel (n / 10)) ((b'0' + n % 10) ∷ [])) (grind arith))
]

length-one : (fuel n : ℕ) → n < 10 → length (decimal_from fuel n) ≤ 1
length-one zero n h = unfold decimal_from in omega arith
length-one (suc fuel) n h = length-decimal_from fuel n 0 (inl h)

length-two : (fuel n : ℕ) → n < 100 → length (decimal_from fuel n) ≤ 2
length-two zero n h = unfold decimal_from in omega arith
length-two (suc fuel) n h =
    length-decimal_from fuel n 1 (inr (length-one fuel (n / 10) (omega arith)))

-- A byte has at most three digits.
pub length-decimal : (n : ℕ) → n < 256 → length (decimal n) ≤ 3
unfolding decimal
length-decimal zero h = unfold decimal_from in omega arith
length-decimal (suc n) h =
    length-decimal_from n (suc n) 2 (inr (length-two n (suc n / 10) (omega arith)))
