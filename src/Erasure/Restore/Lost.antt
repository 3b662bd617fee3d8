-- ===== src/Erasure/Restore/Lost.antt =====
-- A shard that is lost, with more than six shards.
use cess_scheduler.Prelude.{
  ℕ, zero, suc, ◌+◌, ◌≤◌, ◌<◌, ◌≡◌, ◌≢◌, refl, sym, ap, ◌∙◌, Bytes, Bool, true, false, Option, none,
  some, List, [], ◌∷◌, arith, length, ltb, leb, ◌==◌, if◌then◌else◌, Bool-cases, inl, inr,
}
use cess_scheduler.Erasure.{Coder, Env, Disk, put, small_name, shard_name, content}
use cess_scheduler.Erasure.Restore.{
  Outcome, failed, also_opened, open_input, opened, create_missing, fill_missing, check_again,
  repair, restore_stream, reed_solomon_restore,
}

abbrev pub has_nil : List (Option Bytes) → Bool
has_nil [] = false
has_nil (none ∷ ss) = true
has_nil (some b ∷ ss) = has_nil ss

-- openInput ends with an error, or gives a nil shard.
abbrev IsShort : Option (List (Option Bytes) × ℕ) → Type 0
IsShort none = Unit
IsShort (some (ss, size)) = has_nil ss ≡ true

also_opened-nil : (o : Option (List (Option Bytes) × ℕ)) → IsShort (also_opened none o)
also_opened-nil none = tt
also_opened-nil (some (ss, size)) = refl

also_opened-IsShort :
    (s : Option Bytes) (o : Option (List (Option Bytes) × ℕ))
    → IsShort o
    → IsShort (also_opened s o)
also_opened-IsShort none none h = tt
also_opened-IsShort none (some (ss, size)) h = refl
also_opened-IsShort (some b) none h = tt
also_opened-IsShort (some b) (some (ss, size)) h = h

some-ne-none : {b : Bytes} → some b ≢ none
some-ne-none e = ground arith

open_input-IsShort :
    (env : Env) (f : Bytes) (disk : Disk) (j n i size : ℕ)
    → i ≤ j
    → j < i + n
    → content env disk (shard_name f j) ≡ none
    → IsShort (open_input env f n i size disk)
unfolding open_input
open_input-IsShort env f disk j zero i size h k lost = absurd (omega arith)
open_input-IsShort env f disk j (suc n) i size h k lost =
    go (content env disk (shard_name f i)) refl (open_input-IsShort env f disk j n (suc i))
  where
    go :
        (o : Option Bytes)
        → content env disk (shard_name f i) ≡ o
        → ((size : ℕ)
            → suc i ≤ j
            → j < suc i + n
            → content env disk (shard_name f j) ≡ none
            → IsShort (open_input env f n (suc i) size disk))
        → IsShort (open_input env f (suc n) i size disk)
    go none e ih = rw (e, open_input) (also_opened-nil (open_input env f n (suc i) size disk))
    go (some b) e ih =
        let lost_here : i ≢ j =
          λ same. some-ne-none (sym e ∙ ap (λ k. content env disk (shard_name f k)) same ∙ lost) in
        let next : suc i ≤ j = omega arith in
        rw (e, open_input)
          (elim (Bool-cases (env.can_stat (shard_name f i))) [
            | inr c ↦ rw c tt
            | inl c ↦ elim (Bool-cases (length b == 0)) [
              | inl z ↦ rw (c, z) (also_opened-nil (open_input env f n (suc i) size disk))
              | inr z ↦
                  rw (c, z)
                    (also_opened-IsShort (some b) (open_input env f n (suc i) (length b) disk)
                      (ih (length b) next (omega arith) lost))
            ]
          ])

-- The paths that do not begin with a dot hold the same.
abbrev Same : Disk → Disk → Type 0
Same disk disk' = (c : ℕ) (q : Bytes) → c ≢ b'.' → disk' (c ∷ q) ≡ disk (c ∷ q)

shard_name-dot : (i : ℕ) → (t : Bytes) × (shard_name [] i ≡ b'.' ∷ t)
unfolding shard_name small_name
shard_name-dot i = elim (Bool-cases (ltb i 10)) [ inl e ↦ rw e (_, refl) | inr e ↦ rw e (_, refl) ]

put-Same : (i : ℕ) (b : Bytes) (disk : Disk) → Same disk (put (shard_name [] i) b disk)
put-Same i b disk c q h =
    let (t, e) = shard_name-dot i in
    let differ : (b'.' == c) ≡ false = ground arith in rw (e, differ) refl

create_missing-Same :
    (env : Env) (i : ℕ) (ss : List (Option Bytes)) (disk : Disk)
    → Same disk (create_missing env i ss disk).0
unfolding create_missing
create_missing-Same env i [] disk c q h = refl
create_missing-Same env i (some b ∷ ss) disk c q h = create_missing-Same env (suc i) ss disk c q h
create_missing-Same env i (none ∷ ss) disk c q h =
    let p = shard_name [] i in
    elim (Bool-cases (env.can_write p)) [
      | inl e ↦
          rw (e, create_missing)
            (create_missing-Same env (suc i) ss (put p [] disk) c q h ∙ put-Same i [] disk c q h)
      | inr e ↦ rw (e, create_missing) refl
    ]

fill_missing-Same :
    (i : ℕ) (ss bs : List (Option Bytes)) (disk : Disk) → Same disk (fill_missing i ss bs disk)
unfolding fill_missing
fill_missing-Same i [] bs disk c q h = refl
fill_missing-Same i (none ∷ ss) [] disk c q h = refl
fill_missing-Same i (some s ∷ ss) [] disk c q h = refl
fill_missing-Same i (some s ∷ ss) (b ∷ bs) disk c q h = fill_missing-Same (suc i) ss bs disk c q h
fill_missing-Same i (none ∷ ss) (none ∷ bs) disk c q h = fill_missing-Same (suc i) ss bs disk c q h
fill_missing-Same i (none ∷ ss) (some b ∷ bs) disk c q h =
    fill_missing-Same (suc i) ss bs (put (shard_name [] i) b disk) c q h ∙ put-Same i b disk c q h

module _ (env : Env) (coder : Coder) (c : ℕ) (name : Bytes) (d r : ℕ)
    (refuses : (ss : List (Option Bytes)) → has_nil ss ≡ true → coder.verify d r ss ≡ none)
    (refuses_none : coder.verify d r [] ≡ none) where
  abbrev path_of : Bytes
  path_of = c ∷ name

  -- Shard `j` of the file is not there.
  abbrev IsLost : ℕ → Disk → Type 0
  IsLost j disk = disk (shard_name path_of j) ≡ none

  shard_name-path_of : (j : ℕ) → (t : Bytes) × (shard_name path_of j ≡ c ∷ t)
  unfolding shard_name small_name
  shard_name-path_of j = elim (Bool-cases (ltb j 10)) [
    | inl e ↦ rw e (_, refl)
    | inr e ↦ rw e (_, refl)
  ]

  IsLost-Same :
      (disk disk' : Disk) (j : ℕ) → c ≢ b'.' → Same disk disk' → IsLost j disk → IsLost j disk'
  IsLost-Same disk disk' j h same lost =
      let (t, e) = shard_name-path_of j in ap disk' e ∙ same c t h ∙ sym (ap disk e) ∙ lost

  open_input-lost :
      (disk : Disk) (j : ℕ)
      → j < d + r
      → IsLost j disk
      → IsShort (open_input env path_of (d + r) 0 0 disk)
  open_input-lost disk j h lost =
      open_input-IsShort env path_of disk j (d + r) 0 0 (omega arith) (omega arith)
        (unread (env.can_read (shard_name path_of j)) lost)
    where
      unread : (b : Bool) {o : Option Bytes} → o ≡ none → (if b then o else none) ≡ none
      unread true e = e
      unread false e = refl

  opened-refused :
      (o : Option (List (Option Bytes) × ℕ)) → IsShort o → coder.verify d r (opened o) ≡ none
  opened-refused none h = refuses_none
  opened-refused (some (ss, size)) h = refuses ss h

  check_again-failed :
      (disk : Disk) (j : ℕ)
      → j < d + r
      → IsLost j disk
      → check_again env coder path_of d r disk ≡ (disk, failed)
  unfolding check_again
  check_again-failed disk j h lost =
      rw
        (
          opened-refused (open_input env path_of (d + r) 0 0 disk) (open_input-lost disk j h lost),
          check_again,
        )
        refl

  -- An error, and at most paths that begin with a dot changed.
  abbrev IsFailed : Disk → Disk × Outcome → Type 0
  IsFailed disk (disk', e) = (e ≡ failed) × Same disk disk'

  repair-IsFailed :
      (disk : Disk) (j : ℕ) (ss : List (Option Bytes))
      → c ≢ b'.'
      → j < d + r
      → IsLost j disk
      → IsFailed disk (repair env coder path_of d r ss (create_missing env 0 ss disk))
  unfolding repair
  repair-IsFailed disk j ss dot h lost =
      go (create_missing env 0 ss disk) (create_missing-Same env 0 ss disk)
    where
      reconstructed :
          (disk' : Disk) (o : Option (List (Option Bytes)))
          → coder.reconstruct d r ss ≡ o
          → Same disk disk'
          → IsFailed disk (repair env coder path_of d r ss (disk', true))
      reconstructed disk' none e same = rw (e, repair) (refl, same)
      reconstructed disk' (some bs) e same =
          let filled = fill_missing 0 ss bs disk' in
          let still : Same disk filled =
            λ c q k. fill_missing-Same 0 ss bs disk' c q k ∙ same c q k in
          rw (e, repair)
            (rw (check_again-failed filled j h (IsLost-Same disk filled j dot still lost))
              (refl, still))

      go :
          (created : Disk × Bool)
          → Same disk created.0
          → IsFailed disk (repair env coder path_of d r ss created)
      go (disk', false) same = (refl, same)
      go (disk', true) same = reconstructed disk' (coder.reconstruct d r ss) refl same

  restore_stream-IsFailed :
      (disk : Disk) (j : ℕ)
      → c ≢ b'.'
      → j < d + r
      → IsLost j disk
      → IsFailed disk (restore_stream env coder path_of d r disk)
  unfolding restore_stream
  restore_stream-IsFailed disk j dot h lost = elim (Bool-cases (coder.make d r)) [
    | inr e ↦ rw (e, restore_stream) (refl, λ c q k. refl)
    | inl e ↦ go e (open_input env path_of (d + r) 0 0 disk) refl
  ]
    where
      go :
          coder.make d r ≡ true
          → (o : Option (List (Option Bytes) × ℕ)) → open_input env path_of (d + r) 0 0 disk ≡ o
          → IsFailed disk (restore_stream env coder path_of d r disk)
      go e none o = rw (e, o, restore_stream) (refl, λ c q k. refl)
      go e (some (ss, size)) o =
          let v = refuses ss (rw o at (open_input-lost disk j h lost)) in
          rw (e, o, v, restore_stream) (repair-IsFailed disk j ss dot h lost)

  -- With at least one parity shard, more than six shards in all, and one shard that is not there:
  -- ReedSolomon_Restore ends with an error and changes no path that does not begin with a dot, the file to
  -- restore included, however many shards are left, since it writes those that it reconstructs under names
  -- without the file's. The encoder refuses shards of which one is nil, and none at all; the file's path
  -- does not begin with a dot.
  pub restore_stream-lost :
      (disk : Disk) (j : ℕ)
      → c ≢ b'.'
      → 6 < d + r
      → 0 < r
      → j < d + r
      → disk (shard_name (c ∷ name) j) ≡ none
      → let (disk', e) = reed_solomon_restore env coder (c ∷ name) d r disk in
        (e ≡ failed) × ((a : ℕ) (q : Bytes) → a ≢ b'.' → disk' (a ∷ q) ≡ disk (a ∷ q))
  unfolding reed_solomon_restore
  restore_stream-lost disk j dot large parity h lost =
      let some_parity : (r == 0) ≡ false = ground arith in
      let many : leb (d + r) 6 ≡ false = ground arith in
      rw (some_parity, many) (restore_stream-IsFailed disk j dot h lost)
