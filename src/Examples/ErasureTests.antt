-- ===== src/Examples/ErasureTests.antt =====
-- Erasure coding (pkg/erasure/reedsolomon.go).
use cess_scheduler.Prelude.{
  ℕ, ◌+◌, ◌-◌, ◌*◌, ◌/◌, ◌^◌, ◌≤◌, ◌<◌, ◌≡◌, ◌≢◌, ◌↔◌, ◌⊎◌, refl, sym, ap, Bytes, Bool, true, false,
  Option, none, some, List, [], ◌∷◌, ◌++◌, map, str, arith, length, take, replicate, All,
  Bool-cases, ltb, ◌==◌, bytes_eq, if◌then◌else◌, inl, inr,
}
use mathlib.Core.List.{flatten}
use cess_scheduler.Utils.Text.Decimal.{decimal, decimal_from}
use cess_scheduler.Erasure.{Coder, Env, Disk, small_name, shard_name}
use cess_scheduler.Erasure.Encode.{
  Float64, reed_solomon_rule, rule_result, data_chunks, exceeds, reed_solomon, encode_small,
  write_shards,
}
use cess_scheduler.Erasure.Encode.Rule.{reed_solomon_rule-bounds}
use cess_scheduler.Erasure.Restore.{ok, failed, read_shards, reed_solomon_restore}
use cess_scheduler.Erasure.Restore.Lost.{has_nil, restore_stream-lost}
use cess_scheduler.Erasure.Restore.RoundTrip.{IsPart, present, IsCoder, restore_after_loss}

-- Fractions.
abbrev exact : Float64
exact = record {
  Float = ℕ × ℕ;
  of_int = λ n. (n, 1);
  three_halves = (3, 2);
  mul = λ a b. (a.0 * b.0, a.1 * b.1);
  div = λ a b. (a.0 * b.1, a.1 * b.0);
  ceil = λ a. ((a.0 + a.1 - 1) / a.1, 1);
  gt = λ a b. ltb (b.0 * a.1) (a.0 * b.1);
}

reed_solomon_rule-bounds_example :
    let (d, r) = reed_solomon_rule exact (3 * 2 ^ 30 + 1) in
    (1 ≤ d)
    × (d ≤ 20)
    × (r ≡ d / 2)
    × (2 * (d + r) ≤ 3 * d)
    × ((d + r ≤ 3) ↔ (3 * 2 ^ 30 + 1 ≤ 1024))
reed_solomon_rule-bounds_example = reed_solomon_rule-bounds exact (3 * 2 ^ 30 + 1)

-- Of 6 data shards, one is given up for an odd size.
rule_even : reed_solomon_rule exact (3 * 2 ^ 30) ≡ (6, 3)
unfolding reed_solomon_rule rule_result data_chunks exceeds
rule_even = refl

rule_odd : reed_solomon_rule exact (3 * 2 ^ 30 + 1) ≡ (5, 2)
unfolding reed_solomon_rule rule_result data_chunks exceeds
rule_odd = refl

-- An encoder of files of two bytes: two data shards and their sum.
abbrev split_two : Bytes → Option (List Bytes)
split_two [] = none
split_two (x ∷ []) = none
split_two (x ∷ y ∷ []) = some ((x ∷ []) ∷ (y ∷ []) ∷ [])
split_two (x ∷ y ∷ z ∷ b) = none

abbrev sum : List Bytes → Option (List Bytes)
sum ((x ∷ []) ∷ (y ∷ []) ∷ []) = some (((x + y) ∷ []) ∷ [])
sum ss = none

abbrev check_sum : List (Option Bytes) → Option Bool
check_sum (some (x ∷ []) ∷ some (y ∷ []) ∷ some (p ∷ []) ∷ []) = some (p == x + y)
check_sum ss = none

abbrev check : List (Option Bytes) → Option Bool
check ss = elim (has_nil ss) [ true ↦ none | false ↦ check_sum ss ]

abbrev mend : List (Option Bytes) → Option (List (Option Bytes))
mend (none ∷ some (y ∷ []) ∷ some (p ∷ []) ∷ []) =
    some (some ((p - y) ∷ []) ∷ some (y ∷ []) ∷ some (p ∷ []) ∷ [])
mend (some (x ∷ []) ∷ none ∷ some (p ∷ []) ∷ []) =
    some (some (x ∷ []) ∷ some ((p - x) ∷ []) ∷ some (p ∷ []) ∷ [])
mend (some (x ∷ []) ∷ some (y ∷ []) ∷ p ∷ []) =
    some (some (x ∷ []) ∷ some (y ∷ []) ∷ some ((x + y) ∷ []) ∷ [])
mend ss = none

abbrev join_two : List (Option Bytes) → ℕ → Bytes × Bool
join_two (some (x ∷ []) ∷ some (y ∷ []) ∷ ss) n = (take n (x ∷ y ∷ []), true)
join_two ss n = ([], false)

abbrev adder : Coder
adder = record {
  make = λ d r. true;
  split = λ d r b. split_two b;
  parity = λ d r ss. sum ss;
  verify = λ d r ss. check ss;
  reconstruct = λ d r ss. mend ss;
  join = λ d r ss n. join_two ss n;
}

-- Two data shards of a byte each, and their sum.
record Summed (ss ps : List Bytes) : Type 0 where
  x : ℕ
  y : ℕ
  shards : ss ≡ (x ∷ []) ∷ (y ∷ []) ∷ []
  parities : ps ≡ ((x + y) ∷ []) ∷ []

summed : (ss ps : List Bytes) → sum ss ≡ some ps → Summed ss ps
summed [] ps e = absurd (ground arith)
summed ([] ∷ ss) ps e = absurd (ground arith)
summed ((x ∷ x' ∷ xs) ∷ ss) ps e = absurd (ground arith)
summed ((x ∷ []) ∷ []) ps e = absurd (ground arith)
summed ((x ∷ []) ∷ [] ∷ ss) ps e = absurd (ground arith)
summed ((x ∷ []) ∷ (y ∷ y' ∷ ys) ∷ ss) ps e = absurd (ground arith)
summed ((x ∷ []) ∷ (y ∷ []) ∷ s ∷ ss) ps e = absurd (ground arith)
summed ((x ∷ []) ∷ (y ∷ []) ∷ []) ps e = record {
  x = x;
  y = y;
  shards = refl;
  parities = ground arith;
}

-- The shards of two bytes.
abbrev whole : ℕ → ℕ → List Bytes
whole x y = (x ∷ []) ∷ (y ∷ []) ∷ ((x + y) ∷ []) ∷ []

mended :
    (x y : ℕ) (left : List (Option Bytes))
    → IsPart left (whole x y)
    → 2 ≤ present left
    → mend left ≡ some (map some (whole x y))
mended x y [] p h = absurd p
mended x y (none ∷ []) p h = absurd p
mended x y (some a ∷ []) p h = absurd p.1
mended x y (none ∷ none ∷ []) p h = absurd p
mended x y (none ∷ some a ∷ []) p h = absurd p.1
mended x y (some a ∷ none ∷ []) p h = absurd p.1
mended x y (some a ∷ some b ∷ []) p h = absurd p.1.1
mended x y (a ∷ b ∷ c ∷ d ∷ ss) p h = absurd (too_long a b c d ss x y p)
  where
    too_long :
        (a b c d : Option Bytes) (ss : List (Option Bytes)) (x y : ℕ)
        → IsPart (a ∷ b ∷ c ∷ d ∷ ss) (whole x y)
        → ⊥
    too_long none none none d ss x y p = p
    too_long none none (some c) d ss x y p = p.1
    too_long none (some b) none d ss x y p = p.1
    too_long none (some b) (some c) d ss x y p = p.1.1
    too_long (some a) none none d ss x y p = p.1
    too_long (some a) none (some c) d ss x y p = p.1.1
    too_long (some a) (some b) none d ss x y p = p.1.1
    too_long (some a) (some b) (some c) d ss x y p = p.1.1.1
mended x y (none ∷ none ∷ none ∷ []) p h = absurd (omega arith)
mended x y (none ∷ none ∷ some c ∷ []) p h = absurd (omega arith)
mended x y (none ∷ some b ∷ none ∷ []) p h = absurd (omega arith)
mended x y (some a ∷ none ∷ none ∷ []) p h = absurd (omega arith)
mended x y (some a ∷ some b ∷ some c ∷ []) (ea, (eb, (ec, _))) h = rw (ea, eb) refl
mended x y (some a ∷ some b ∷ none ∷ []) (ea, (eb, _)) h = rw (ea, eb) refl
mended x y (some a ∷ none ∷ some c ∷ []) (ea, (ec, _)) h =
    let e : x + y - x ≡ y = omega arith in rw (ea, ec) (rw e refl)
mended x y (none ∷ some b ∷ some c ∷ []) (eb, (ec, _)) h =
    let e : x + y - y ≡ x = omega arith in rw (eb, ec) (rw e refl)

joined :
    (ss ps : List Bytes) (n : ℕ)
    → Summed ss ps
    → join_two (map some (ss ++ ps)) n ≡ (take n (flatten ss), true)
unfolding flatten
joined ss ps n s = rw s.shards refl

checked : (ss ps : List Bytes) → Summed ss ps → check (map some (ss ++ ps)) ≡ some true
checked ss ps s =
    let same : (s.x + s.y == s.x + s.y) ≡ true = ground arith in
    rw (s.shards, s.parities) (ap some same)

split_padded :
    (b : Bytes) (ss : List Bytes)
    → split_two b ≡ some ss
    → (length ss ≡ 2)
      × ((size : ℕ) × (pad : ℕ) × All (λ (s : Bytes). length s ≡ size) ss
          × (flatten ss ≡ b ++ replicate pad 0)
          × (pad < 2))
unfolding flatten
split_padded [] ss e = absurd (ground arith)
split_padded (x ∷ []) ss e = absurd (ground arith)
split_padded (x ∷ y ∷ z ∷ b) ss e = absurd (ground arith)
split_padded (x ∷ y ∷ []) ss e =
    let same : (x ∷ []) ∷ (y ∷ []) ∷ [] ≡ ss = ground arith in
    rw (sym same) (refl, (1, 0, (refl, (refl, tt)), refl, omega arith))

refused : (ss : List (Option Bytes)) → has_nil ss ≡ true → check ss ≡ none
refused ss h = rw (check, h) refl

adder-IsCoder : IsCoder adder 2 1
adder-IsCoder = record {
  counted = record {
    split_count = λ b ss e. (split_padded b ss e).0;
    parity_count = λ ss ps e. rw ((summed ss ps e).parities) refl;
  };
  split_padded = λ b ss e. (split_padded b ss e).1;
  refuses = refused;
  accepts = λ ss ps n e. checked ss ps (summed ss ps e);
  reconstructs = λ ss ps left n e part enough. rebuilt ss ps left (summed ss ps e) part enough;
  joins = λ ss ps n m e h. joined ss ps n (summed ss ps e);
}
  where
    rebuilt :
        (ss ps : List Bytes) (left : List (Option Bytes))
        → Summed ss ps
        → IsPart left (ss ++ ps)
        → 2 ≤ present left
        → mend left ≡ some (map some (ss ++ ps))
    rebuilt ss ps left s part enough =
        let all : ss ++ ps ≡ whole s.x s.y = rw (s.shards, s.parities) refl in
        rw all (mended s.x s.y left (rw all at part) enough)

abbrev env : Env
env = record {
  can_read = λ p. true;
  can_stat = λ p. true;
  can_write = λ p. true;
  can_rename = λ p q. true;
  split_path = λ f. ([], f);
  join_path = λ dir file. dir ++ file;
}

abbrev disk : Disk
disk p = if bytes_eq p (str "/f") then some (7 ∷ 8 ∷ []) else none

-- The shards of the file, and without the first.
abbrev stored : Disk
stored = (reed_solomon exact env adder (str "/f") disk).0

abbrev left : Disk
left p = if bytes_eq p (small_name (str "/f") 0) then none else stored p

left_part :
    (j : ℕ)
    → (left (small_name (str "/f") j) ≡ none)
      ⊎ (left (small_name (str "/f") j) ≡ stored (small_name (str "/f") j))
left_part j = elim (Bool-cases (bytes_eq (small_name (str "/f") j) (small_name (str "/f") 0))) [
  | inl e ↦ inl (rw e refl)
  | inr e ↦ inr (rw e refl)
]

restore_after_loss_example :
    let (d, r) = reed_solomon_rule exact 2 in
    let (disk', e) = reed_solomon_restore env adder (str "/f") d r left in
    (e ≡ ok)
    × ((pad : ℕ) × (pad < d) × (disk' (str "/f") ≡ some ((7 ∷ 8 ∷ []) ++ replicate pad 0)))
    × ((q : Bytes) → bytes_eq (str "/f") q ≡ false → disk' q ≡ left q)
unfolding reed_solomon_rule rule_result exceeds reed_solomon encode_small write_shards read_shards
    small_name decimal decimal_from
restore_after_loss_example =
    restore_after_loss exact env adder (str "/f") (7 ∷ 8 ∷ []) disk left refl adder-IsCoder
      (λ p. refl) (λ i. refl) refl refl (omega arith) (omega arith) (λ j h. left_part j)
      (omega arith)

-- Five data shards and two of parity, none of which is there.
restore_stream-lost_example :
    let (disk', e) = reed_solomon_restore env adder (str "/f") 5 2 disk in
    (e ≡ failed) × ((a : ℕ) (q : Bytes) → a ≢ b'.' → disk' (a ∷ q) ≡ disk (a ∷ q))
unfolding shard_name small_name decimal decimal_from
restore_stream-lost_example =
    restore_stream-lost env adder b'/' (str "f") 5 2 refused refl disk 0 (λ e. omega arith)
      (omega arith) (omega arith) (omega arith) refl
