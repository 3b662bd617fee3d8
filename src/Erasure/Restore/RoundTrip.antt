-- ===== src/Erasure/Restore/RoundTrip.antt =====
-- A file that ReedSolomon splits and ReedSolomon_Restore puts together, with at most six shards.
use cess_scheduler.Prelude.{
  ℕ, zero, suc, ◌+◌, ◌*◌, ◌≤◌, ◌<◌, ◌≡◌, refl, ap, ◌∙◌, Bytes, Bool, true, false, Option, none,
  some, List, [], ◌∷◌, ◌++◌, map, arith, length, take, replicate, leb, ◌==◌, All, bytes_eq,
  bytes_eq_self, take_all, length-append, ◌⊎◌, inl, inr,
}
use mathlib.Core.List.{flatten}
use cess_scheduler.Erasure.{Coder, Env, Disk, small_name, content}
use cess_scheduler.Erasure.Encode.{Float64, reed_solomon_rule, reed_solomon}
use cess_scheduler.Erasure.Encode.Rule.{reed_solomon_rule-bounds}
use cess_scheduler.Erasure.Encode.Written.{IsClean, IsCounted, reed_solomon-Written}
use cess_scheduler.Erasure.Restore.{
  Outcome, ok, read_shards, first_length, join_shards, restore_small, reed_solomon_restore,
}
use cess_scheduler.Erasure.Restore.Lost.{has_nil}
use cess_scheduler.Erasure.Stored.{read_shards-put_all}

-- Some of the shards, each nil or as it was.
abbrev pub IsPart : List (Option Bytes) → List Bytes → Type 0
IsPart [] [] = Unit
IsPart [] (w ∷ ws) = ⊥
IsPart (s ∷ ss) [] = ⊥
IsPart (none ∷ ss) (w ∷ ws) = IsPart ss ws
IsPart (some b ∷ ss) (w ∷ ws) = (b ≡ w) × IsPart ss ws

-- The number of shards that are not nil.
abbrev pub present : List (Option Bytes) → ℕ
present [] = 0
present (none ∷ ss) = present ss
present (some b ∷ ss) = suc (present ss)

-- What the encoder's documentation says: Split cuts the data into shards of one size, the last ones padded
-- with zeros, Verify refuses shards of which one is nil and accepts those that were encoded, Reconstruct
-- makes all of them from as many as there are data shards, and Join writes the first bytes of the data
-- shards.
pub record IsCoder (coder : Coder) (d r : ℕ) : Type 0 where
  pub counted : IsCounted coder d r
  pub split_padded :
      (b : Bytes) (ss : List Bytes)
      → coder.split d r b ≡ some ss
      → (size : ℕ) × (pad : ℕ) × All (λ (s : Bytes). length s ≡ size) ss
        × (flatten ss ≡ b ++ replicate pad 0)
        × (pad < d)
  pub refuses : (ss : List (Option Bytes)) → has_nil ss ≡ true → coder.verify d r ss ≡ none
  pub accepts :
      (ss ps : List Bytes)
      → length ss ≡ d
      → coder.parity d r ss ≡ some ps
      → coder.verify d r (map some (ss ++ ps)) ≡ some true
  pub reconstructs :
      (ss ps : List Bytes) (left : List (Option Bytes))
      → length ss ≡ d
      → coder.parity d r ss ≡ some ps
      → IsPart left (ss ++ ps)
      → d ≤ present left
      → coder.reconstruct d r left ≡ some (map some (ss ++ ps))
  pub joins :
      (ss ps : List Bytes) (n : ℕ)
      → length ss ≡ d
      → coder.parity d r ss ≡ some ps
      → n ≤ length (flatten ss)
      → coder.join d r (map some (ss ++ ps)) n ≡ (take n (flatten ss), true)

length-flatten :
    (size : ℕ) (ss : List Bytes)
    → All (λ (s : Bytes). length s ≡ size) ss
    → length (flatten ss) ≡ size * length ss
unfolding flatten
length-flatten size [] h = omega arith
length-flatten size (s ∷ ss) (e, h) =
    let rest = length-flatten size ss h in length-append s (flatten ss) ∙ grind arith

read_shards-IsPart :
    (env : Env) (f : Bytes) (n i : ℕ) (disk left : Disk) (ws : List Bytes)
    → ((p : Bytes) → env.can_read p ≡ true)
    → read_shards env f n i disk ≡ map some ws
    → ((j : ℕ)
        → j < i + n
        → (left (small_name f j) ≡ none) ⊎ (left (small_name f j) ≡ disk (small_name f j)))
    → IsPart (read_shards env f n i left) ws
unfolding read_shards
read_shards-IsPart env f zero i disk left [] readable e h = tt
read_shards-IsPart env f zero i disk left (w ∷ ws) readable e h = absurd (ground arith)
read_shards-IsPart env f (suc n) i disk left [] readable e h = absurd (ground arith)
read_shards-IsPart env f (suc n) i disk left (w ∷ ws) readable e h =
    let c = readable (small_name f i) in
    let before : content env disk (small_name f i) ≡ some w = ground arith in
    let was : disk (small_name f i) ≡ some w = rw c at before in
    let later : read_shards env f n (suc i) disk ≡ map some ws = ground arith in
    let rest =
      read_shards-IsPart env f n (suc i) disk left ws readable later (λ j k. h j (omega arith)) in
    rw c (elim (h i (omega arith)) [
      | inl lost ↦ rw lost rest
      | inr same ↦ rw (same ∙ was) (refl, rest)
    ])

part_whole :
    (ss : List (Option Bytes)) (ws : List Bytes)
    → IsPart ss ws
    → has_nil ss ≡ false
    → ss ≡ map some ws
part_whole [] [] p h = refl
part_whole [] (w ∷ ws) p h = absurd p
part_whole (none ∷ ss) [] p h = absurd p
part_whole (some b ∷ ss) [] p h = absurd p
part_whole (none ∷ ss) (w ∷ ws) p h = absurd (ground arith)
part_whole (some b ∷ ss) (w ∷ ws) (e, p) h = λ i. some (e i) ∷ part_whole ss ws p h i

module _ (env : Env) (coder : Coder) (f : Bytes) (d r : ℕ) (law : IsCoder coder d r) (b : Bytes)
    (ss ps : List Bytes) (positive : 1 ≤ d) (split : coder.split d r b ≡ some ss)
    (encoded : coder.parity d r ss ≡ some ps) (writable : env.can_write f ≡ true) where
  -- The file with its padding, and nothing else written.
  abbrev IsRestored : Disk → Disk × Outcome → Type 0
  IsRestored left (disk, e) =
      (e ≡ ok)
      × ((pad : ℕ) × (pad < d) × (disk f ≡ some (b ++ replicate pad 0)))
      × ((q : Bytes) → bytes_eq f q ≡ false → disk q ≡ left q)

  first_length-map :
      (size : ℕ) (ts : List Bytes)
      → 1 ≤ length ts
      → All (λ (s : Bytes). length s ≡ size) ts
      → first_length (map some (ts ++ ps)) ≡ size
  first_length-map size [] h k = absurd (omega arith)
  first_length-map size (t ∷ ts) h (e, k) = e

  join_shards-IsRestored :
      (left : Disk) → IsRestored left (join_shards env coder f d r (map some (ss ++ ps)) left)
  unfolding join_shards
  join_shards-IsRestored left =
      let n = law.counted.split_count b ss split in
      let (size, pad, same, whole, few) = law.split_padded b ss split in
      let first = first_length-map size ss (omega arith) same in
      let total : length (flatten ss) ≡ size * d =
        length-flatten size ss same ∙ ap (λ (k : ℕ). size * k) n in
      let join = law.joins ss ps (size * d) n encoded (omega arith) in
      let all : take (size * d) (flatten ss) ≡ flatten ss =
        take_all (size * d) (flatten ss) (omega arith) in
      rw (join_shards, writable, first, join, all)
        (refl, (pad, few, rw (bytes_eq_self f) (ap some whole)), λ q k. rw k refl)

  restore_small-IsRestored :
      (left : Disk)
      → coder.make d r ≡ true
      → IsPart (read_shards env f (d + r) 0 left) (ss ++ ps)
      → d ≤ present (read_shards env f (d + r) 0 left)
      → IsRestored left (restore_small env coder f d r left)
  unfolding restore_small
  restore_small-IsRestored left made part enough =
      go (read_shards env f (d + r) 0 left) refl (has_nil (read_shards env f (d + r) 0 left)) refl
    where
      go :
          (shards : List (Option Bytes))
          → read_shards env f (d + r) 0 left ≡ shards
          → (b : Bool) → has_nil shards ≡ b
          → IsRestored left (restore_small env coder f d r left)
      go shards e false whole =
          let all = e ∙ part_whole shards (ss ++ ps) (rw e at part) whole in
          let v =
            ap (coder.verify d r) all
            ∙ law.accepts ss ps (law.counted.split_count b ss split) encoded in
          rw (restore_small, made, v) (rw all (join_shards-IsRestored left))
      go shards e true lost =
          let n = law.counted.split_count b ss split in
          let v = law.accepts ss ps n encoded in
          let w = ap (coder.verify d r) e ∙ law.refuses shards lost in
          let again =
            ap (coder.reconstruct d r) e
            ∙ law.reconstructs ss ps shards n encoded (rw e at part) (rw e at enough) in
          rw (restore_small, made, w, again, v) (join_shards-IsRestored left)

-- A file of which ReedSolomon made at most six shards, with at least one of parity, without failing; then
-- some of them are lost and at least as many are left as there are data shards: ReedSolomon_Restore succeeds
-- and the file holds the bytes that it held, followed by fewer zeros than there are data shards, and no
-- other path has changed. The encoder keeps what its documentation says, the file's path is clean, files
-- can be read and the file to restore can be created.
pub restore_after_loss :
    (fl : Float64) (env : Env) (coder : Coder) (f b : Bytes) (disk left : Disk)
    → disk f ≡ some b
    → let (stored, out) = reed_solomon fl env coder f disk in
      let (d, r) = reed_solomon_rule fl (length b) in
      IsCoder coder d r
      → ((p : Bytes) → env.can_read p ≡ true)
      → IsClean env f
      → env.can_write f ≡ true
      → out.failed ≡ false
      → d + r ≤ 6
      → 0 < r
      → ((j : ℕ)
          → j < d + r
          → (left (small_name f j) ≡ none) ⊎ (left (small_name f j) ≡ stored (small_name f j)))
      → d ≤ present (read_shards env f (d + r) 0 left)
      → let (disk', e) = reed_solomon_restore env coder f d r left in
        (e ≡ ok)
        × ((pad : ℕ) × (pad < d) × (disk' f ≡ some (b ++ replicate pad 0)))
        × ((q : Bytes) → bytes_eq f q ≡ false → disk' q ≡ left q)
unfolding reed_solomon_restore
restore_after_loss fl env coder f b disk left e law readable clean writable good few parity part
      enough =
    let (d, r) = reed_solomon_rule fl (length b) in
    let w =
      reed_solomon-Written fl env coder f disk b e law.counted readable clean (omega arith) good in
    let (positive, _, _, _, _) = reed_solomon_rule-bounds fl (length b) in
    let stored = (reed_solomon fl env coder f disk).0 in
    let n : length (w.shards ++ w.parities) ≡ d + r =
      length-append w.shards w.parities
      ∙ ap (λ (k : ℕ). k + length w.parities) (law.counted.split_count b w.shards w.split)
      ∙ ap (λ (k : ℕ). d + k) (law.counted.parity_count w.shards w.parities w.encoded) in
    let whole : read_shards env f (d + r) 0 stored ≡ map some (w.shards ++ w.parities) =
      ap (read_shards env f (d + r) 0) w.stored
      ∙ read_shards-put_all env f readable (w.shards ++ w.parities) 0 (d + r) w.before n in
    let kept =
      read_shards-IsPart env f (d + r) 0 stored left (w.shards ++ w.parities) readable whole
        (λ j h. part j (omega arith)) in
    let some_parity : (r == 0) ≡ false = ground arith in
    let small : leb (d + r) 6 ≡ true = ground arith in
    rw (some_parity, small)
      (restore_small-IsRestored env coder f d r law b w.shards w.parities positive w.split w.encoded
        writable left w.made kept enough)
