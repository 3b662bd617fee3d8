-- ===== src/Erasure/Stored.antt =====
-- The shards of a file under their names on the disk.
use cess_scheduler.Prelude.{
  ℕ, zero, suc, ◌+◌, ◌<◌, ◌≡◌, ◌≢◌, refl, sym, ap, ◌∙◌, Bytes, true, false, none, some, List, [],
  ◌∷◌, ◌++◌, map, str, arith, length, drop, ltb, bytes_eq, bytes_eq_sound, bytes_eq_self,
  Bool-cases, inl, inr, drop-append,
}
use cess_scheduler.Utils.Text.Decimal.{decimal, decimal_injective}
use cess_scheduler.Erasure.{Env, Disk, put, put_all, small_name, shard_name, content}
use cess_scheduler.Erasure.Encode.{open_all}
use cess_scheduler.Erasure.Restore.{read_shards}

-- The names of `n` shards from index `i` on.
abbrev pub names : Bytes → ℕ → ℕ → List Bytes
names f i zero = []
names f i (suc n) = small_name f i ∷ names f (suc i) n

pub length-names : (f : Bytes) (i n : ℕ) → length (names f i n) ≡ n
length-names f i zero = refl
length-names f i (suc n) = ap suc (length-names f (suc i) n)

pub names-append : (f : Bytes) (i n m : ℕ) → names f i (n + m) ≡ names f i n ++ names f (i + n) m
names-append f i zero m =
    let a : 0 + m ≡ m = omega arith in
    let b : i ≡ i + 0 = omega arith in ap (names f i) a ∙ ap (λ (k : ℕ). names f k m) b
names-append f i (suc n) m =
    let a : suc n + m ≡ suc (n + m) = omega arith in
    let b : suc i + n ≡ i + suc n = omega arith in
    ap (names f i) a
    ∙ ap (λ (ps : List Bytes). small_name f i ∷ ps) (names-append f (suc i) n m)
    ∙ ap (λ (k : ℕ). small_name f i ∷ (names f (suc i) n ++ names f k m)) b

small_name_injective : (f : Bytes) (i j : ℕ) → small_name f i ≡ small_name f j → i ≡ j
unfolding small_name
small_name_injective f i j e =
    let tails : str ".00" ++ decimal i ≡ str ".00" ++ decimal j =
      sym (drop-append f (str ".00" ++ decimal i))
      ∙ ap (drop (length f)) e
      ∙ drop-append f (str ".00" ++ decimal j) in
    decimal_injective i j (ap (λ (s : Bytes). drop 3 s) tails)

small_name_apart :
    (f : Bytes) (i j : ℕ) → i ≢ j → bytes_eq (small_name f i) (small_name f j) ≡ false
small_name_apart f i j h = elim (Bool-cases (bytes_eq (small_name f i) (small_name f j))) [
  | inl t ↦ absurd (h (small_name_injective f i j (bytes_eq_sound _ _ t)))
  | inr e ↦ e
]

pub shard_name_small : (f : Bytes) (i : ℕ) → i < 10 → shard_name f i ≡ small_name f i
unfolding shard_name
shard_name_small f i h = let few : ltb i 10 ≡ true = ground arith in rw few refl

-- Writing to shards from index `i` on keeps those before.
put_all-before :
    (f : Bytes) (ss : List Bytes) (j i n : ℕ) (disk : Disk)
    → j < i
    → put_all (names f i n) ss disk (small_name f j) ≡ disk (small_name f j)
unfolding put_all
put_all-before f ss j i zero disk h = refl
put_all-before f [] j i (suc n) disk h = refl
put_all-before f (s ∷ ss) j i (suc n) disk h =
    put_all-before f ss j (suc i) n (put (small_name f i) s disk) (omega arith)
    ∙ rw (small_name_apart f i j (λ e. omega arith)) refl

pub put_all-append :
    (ps qs ss ts : List Bytes) (disk : Disk)
    → length ps ≡ length ss
    → put_all (ps ++ qs) (ss ++ ts) disk ≡ put_all qs ts (put_all ps ss disk)
unfolding put_all
put_all-append [] qs [] ts disk h = refl
put_all-append [] qs (s ∷ ss) ts disk h = absurd (omega arith)
put_all-append (p ∷ ps) qs [] ts disk h = absurd (omega arith)
put_all-append (p ∷ ps) qs (s ∷ ss) ts disk h =
    put_all-append ps qs ss ts (put p s disk) (omega arith)

module _ (env : Env) (f : Bytes) (readable : (p : Bytes) → env.can_read p ≡ true) where
  pub content-readable : (disk : Disk) (p : Bytes) → content env disk p ≡ disk p
  content-readable disk p = rw (readable p) refl

  content-first :
      (ss : List Bytes) (s : Bytes) (i n : ℕ) (disk : Disk)
      → content env (put_all (names f (suc i) n) ss (put (small_name f i) s disk)) (small_name f i)
        ≡ some s
  content-first ss s i n disk =
      content-readable (put_all (names f (suc i) n) ss (put (small_name f i) s disk))
        (small_name f i)
      ∙ put_all-before f ss i (suc i) n (put (small_name f i) s disk) (omega arith)
      ∙ rw (bytes_eq_self (small_name f i)) refl

  -- The shards that were written are read.
  pub read_shards-put_all :
      (ss : List Bytes) (i n : ℕ) (disk : Disk)
      → length ss ≡ n
      → read_shards env f n i (put_all (names f i n) ss disk) ≡ map some ss
  unfolding read_shards put_all
  read_shards-put_all [] i zero disk h = refl
  read_shards-put_all [] i (suc n) disk h = absurd (omega arith)
  read_shards-put_all (s ∷ ss) i zero disk h = absurd (omega arith)
  read_shards-put_all (s ∷ ss) i (suc n) disk h = λ k.
      content-first ss s i n disk k
      ∷ read_shards-put_all ss (suc i) n (put (small_name f i) s disk) (omega arith) k

  pub open_all-put_all :
      (ss : List Bytes) (i n : ℕ) (disk : Disk)
      → length ss ≡ n
      → open_all env (put_all (names f i n) ss disk) (names f i n) ≡ some ss
  unfolding open_all put_all
  open_all-put_all [] i zero disk h = refl
  open_all-put_all [] i (suc n) disk h = absurd (omega arith)
  open_all-put_all (s ∷ ss) i zero disk h = absurd (omega arith)
  open_all-put_all (s ∷ ss) i (suc n) disk h =
      let first = content-first ss s i n disk in
      let later = open_all-put_all ss (suc i) n (put (small_name f i) s disk) (omega arith) in
      λ k. elim (first k) [
        | none ↦ none
        | some b ↦ elim (later k) [ none ↦ none | some bs ↦ some (b ∷ bs) ]
      ]
