-- ===== src/Erasure/Restore.antt =====
-- pkg/erasure/reedsolomon.go: ReedSolomon_Restore and openInput. The path of the file to restore is given
-- joined; a file that was written is taken to be closed without an error, and the second opening of the
-- shards to find what the first did.
use cess_scheduler.Prelude.{
  ℕ, zero, suc, ◌+◌, ◌*◌, Bytes, Bool, true, false, Option, none, some, List, [], ◌∷◌, ◌++◌, str,
  length,
}
use cess_scheduler.Prelude.{if◌then◌else◌, ◌==◌, leb}
use cess_scheduler.Erasure.{Coder, Env, Disk, put, remove, small_name, shard_name, content}
pub mod Lost
pub mod RoundTrip

pub data Outcome : Type 0 where
  ok failed : Outcome

-- The loop that reads the shards, `n` of them from index `i` on; a shard that cannot be read is nil.
unfoldable pub read_shards : Env → Bytes → ℕ → ℕ → Disk → List (Option Bytes)
read_shards env f zero i disk = []
read_shards env f (suc n) i disk =
    content env disk (small_name f i) ∷ read_shards env f n (suc i) disk

-- The length of the first shard.
abbrev pub first_length : List (Option Bytes) → ℕ
first_length [] = 0
first_length (none ∷ ss) = 0
first_length (some b ∷ ss) = length b

abbrev pub outcome_of : Bool → Outcome
outcome_of true = ok
outcome_of false = failed

-- Join, and what it leaves in the file.
abbrev pub joined : Bytes → Bytes × Bool → Disk → Disk × Outcome
joined f (b, success) disk = (put f b disk, outcome_of success)

-- From os.Create on, in memory.
unfoldable pub join_shards :
    Env → Coder → Bytes → ℕ → ℕ → List (Option Bytes) → Disk → Disk × Outcome
join_shards env coder f d r shards disk = elim (env.can_write f) [
  | false ↦ (disk, failed)
  | true ↦ joined f (coder.join d r shards (first_length shards * d)) (put f [] disk)
]

-- In memory: with at most six shards. A repaired family that is refused without an error is answered nil.
unfoldable pub restore_small : Env → Coder → Bytes → ℕ → ℕ → Disk → Disk × Outcome
unfolding read_shards join_shards
restore_small env coder f d r disk = elim (coder.make d r) [
  | false ↦ (disk, failed)
  | true ↦
      let shards = read_shards env f (d + r) 0 disk in
      elim (coder.verify d r shards) [
        | some true ↦ join_shards env coder f d r shards disk
        | v ↦ elim (coder.reconstruct d r shards) [
          | none ↦ (disk, failed)
          | some repaired ↦ elim (coder.verify d r repaired) [
            | none ↦ (disk, failed)
            | some false ↦ (disk, ok)
            | some true ↦ join_shards env coder f d r repaired disk
          ]
        ]
      ]
]

abbrev pub also_opened :
    Option Bytes → Option (List (Option Bytes) × ℕ) → Option (List (Option Bytes) × ℕ)
also_opened s none = none
also_opened s (some (ss, size)) = some (s ∷ ss, size)

-- openInput, from index `i` on with `n` shards to go: the shards, of which an empty one is nil, and the
-- size of the last that is not empty, `size` if there is none.
unfoldable pub open_input : Env → Bytes → ℕ → ℕ → ℕ → Disk → Option (List (Option Bytes) × ℕ)
open_input env f zero i size disk = some ([], size)
open_input env f (suc n) i size disk =
    let p = shard_name f i in
    let skipped = also_opened none (open_input env f n (suc i) size disk) in
    elim (content env disk p) [
      | none ↦ skipped
      | some b ↦
          let taken = also_opened (some b) (open_input env f n (suc i) (length b) disk) in
          if env.can_stat p then (if length b == 0 then skipped else taken) else none
    ]

-- The loop that creates a file for every shard that is nil. Its own `outfn` is the empty string when the
-- name is made. With the answers of os.Create; false is an error.
unfoldable pub create_missing : Env → ℕ → List (Option Bytes) → Disk → Disk × Bool
create_missing env i [] disk = (disk, true)
create_missing env i (some b ∷ ss) disk = create_missing env (suc i) ss disk
create_missing env i (none ∷ ss) disk =
    let p = shard_name [] i in
    let rest = create_missing env (suc i) ss (put p [] disk) in
    if env.can_write p then rest else (disk, false)

-- What Reconstruct writes to the files that were created: the shards that were nil.
unfoldable pub fill_missing : ℕ → List (Option Bytes) → List (Option Bytes) → Disk → Disk
fill_missing i (none ∷ ss) (some b ∷ bs) disk =
    fill_missing (suc i) ss bs (put (shard_name [] i) b disk)
fill_missing i (s ∷ ss) (b ∷ bs) disk = fill_missing (suc i) ss bs disk
fill_missing i ss bs disk = disk

-- The shards of a result of openInput; nil after an error.
abbrev pub opened : Option (List (Option Bytes) × ℕ) → List (Option Bytes)
opened none = []
opened (some (ss, size)) = ss

-- From os.Create on, with streams.
unfoldable pub join_stream : Env → Coder → Bytes → ℕ → ℕ → Disk → Disk × Outcome
unfolding open_input
join_stream env coder f d r disk = elim (env.can_write f) [
  | false ↦ (disk, failed)
  | true ↦
      let created = put f [] disk in
      elim (open_input env f (d + r) 0 0 created) [
        | none ↦ (created, failed)
        | some (shards, size) ↦ joined f (coder.join d r shards (d * size)) created
      ]
]

-- After a reconstruction: the shards are opened and verified again.
unfoldable pub check_again : Env → Coder → Bytes → ℕ → ℕ → Disk → Disk × Outcome
unfolding open_input join_stream
check_again env coder f d r disk =
    elim (coder.verify d r (opened (open_input env f (d + r) 0 0 disk))) [
      | none ↦ (disk, failed)
      | some false ↦ (disk, ok)
      | some true ↦ join_stream env coder f d r disk
    ]

-- From the creation of the missing shards on.
unfoldable pub repair :
    Env → Coder → Bytes → ℕ → ℕ → List (Option Bytes) → Disk × Bool → Disk × Outcome
unfolding fill_missing check_again
repair env coder f d r shards (disk, false) = (disk, failed)
repair env coder f d r shards (disk, true) = elim (coder.reconstruct d r shards) [
  | none ↦ (disk, failed)
  | some repaired ↦ check_again env coder f d r (fill_missing 0 shards repaired disk)
]

-- With streams: with more than six shards.
unfoldable pub restore_stream : Env → Coder → Bytes → ℕ → ℕ → Disk → Disk × Outcome
unfolding open_input create_missing join_stream repair
restore_stream env coder f d r disk = elim (coder.make d r) [
  | false ↦ (disk, failed)
  | true ↦ elim (open_input env f (d + r) 0 0 disk) [
    | none ↦ (disk, failed)
    | some (shards, size) ↦ elim (coder.verify d r shards) [
      | some true ↦ join_stream env coder f d r disk
      | v ↦ repair env coder f d r shards (create_missing env 0 shards disk)
    ]
  ]
]

-- os.Rename of the only shard.
abbrev pub renamed : Env → Bytes → Disk → Disk × Outcome
renamed env f disk =
    let p = f ++ str ".000" in
    if env.can_rename p f
    then elim (disk p) [ none ↦ (disk, failed) | some b ↦ (put f b (remove p disk), ok) ]
    else (disk, failed)

unfoldable pub reed_solomon_restore : Env → Coder → Bytes → ℕ → ℕ → Disk → Disk × Outcome
unfolding restore_small restore_stream
reed_solomon_restore env coder f d r disk =
    if r == 0
    then renamed env f disk
    else (if leb (d + r) 6
        then restore_small env coder f d r disk
        else restore_stream env coder f d r disk)
