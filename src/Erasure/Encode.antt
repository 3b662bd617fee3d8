-- ===== src/Erasure/Encode.antt =====
-- pkg/erasure/reedsolomon.go: ReedSolomon and reedSolomonRule. float64 is a `Float64`. A file is no
-- longer than an int64 and is not changed meanwhile. An open file is taken to have a Stat: the error of f.Stat
-- in the encoding of more than three shards is left out.
use cess_scheduler.Prelude.{
  ℕ, zero, suc, ◌+◌, ◌-◌, ◌*◌, ◌/◌, ◌%◌, Bytes, Bool, true, false, Option, none, some, List, [],
  ◌∷◌, ◌++◌, length, take, drop, ltb, leb, ◌==◌, if◌then◌else◌,
}
use cess_scheduler.Erasure.{Coder, Env, Disk, put, put_all, small_name, shard_name, content}
pub mod Rule
pub mod Written

pub record Float64 : Type 1 where
  pub Float : Type 0
  pub of_int : ℕ → Float
  -- 1.5
  pub three_halves : Float
  pub mul : Float → Float → Float
  pub div : Float → Float → Float
  pub ceil : Float → Float
  pub gt : Float → Float → Bool

abbrev pub size_1kib : ℕ
size_1kib = 1024

abbrev pub size_1gib : ℕ
size_1gib = 1024 * (1024 * 1024)

-- The number of data shards of a file of more than 1 KiB, before it is bounded.
unfoldable pub data_chunks : ℕ → ℕ
data_chunks fsize =
    let count = fsize / size_1gib in
    if leb count 1 then 4 else (if count % 2 == 0 then count + 4 else count + 3)

-- Whether the shards take more than one and a half times the file.
unfoldable pub exceeds : Float64 → ℕ → ℕ → Bool
exceeds fl fsize n =
    let size = fl.of_int fsize in
    fl.gt (fl.ceil (fl.mul (fl.div size (fl.of_int n)) (fl.of_int (n + n / 2))))
      (fl.mul size fl.three_halves)

-- From the label result on.
unfoldable pub rule_result : Float64 → ℕ → ℕ → ℕ × ℕ
unfolding exceeds
rule_result fl fsize chunks =
    let n = if ltb 20 chunks then 20 else chunks in
    let m = if exceeds fl fsize n then n - 1 else n in (m, m / 2)

unfoldable pub reed_solomon_rule : Float64 → ℕ → ℕ × ℕ
unfolding rule_result data_chunks
reed_solomon_rule fl fsize =
    if leb fsize size_1kib
    then (if leb fsize 1 then (1, 0) else rule_result fl fsize 2)
    else rule_result fl fsize (data_chunks fsize)

-- What ReedSolomon returns.
pub record Shards : Type 0 where
  pub paths : List Bytes
  pub data_count : ℕ
  pub parity_count : ℕ
  pub failed : Bool

-- The loop that writes the shards of a small file: the disk, the paths written, and whether it failed.
unfoldable pub write_shards :
    Env → Bytes → ℕ → List Bytes → Disk → List Bytes → Disk × (List Bytes × Bool)
write_shards env f i paths disk [] = (disk, (paths, false))
write_shards env f i paths disk (s ∷ ss) =
    let p = small_name f i in
    let rest = write_shards env f (suc i) (paths ++ p ∷ []) (put p s disk) ss in
    if env.can_write p then rest else (disk, (paths, true))

-- With at most three shards.
unfoldable pub encode_small :
    Env → Coder → Bytes → ℕ → ℕ → Bytes → Disk → Disk × (List Bytes × Bool)
unfolding write_shards
encode_small env coder f d r b disk = elim (coder.make d r) [
  | false ↦ (disk, ([], true))
  | true ↦ elim (env.can_read f) [
    | false ↦ (disk, ([], true))
    | true ↦ elim (coder.split d r b) [
      | none ↦ (disk, ([], true))
      | some shards ↦ elim (coder.parity d r shards) [
        | none ↦ (disk, ([], true))
        | some ps ↦ write_shards env f 0 [] disk (shards ++ ps)
      ]
    ]
  ]
]

-- The loop that creates the shards' files, `n` of them from index `i` on.
unfoldable pub create_shards :
    Env → Bytes → Bytes → ℕ → ℕ → List Bytes → Disk → Disk × (List Bytes × Bool)
create_shards env dir file zero i paths disk = (disk, (paths, false))
create_shards env dir file (suc n) i paths disk =
    let p = env.join_path dir (shard_name file i) in
    let rest = create_shards env dir file n (suc i) (paths ++ p ∷ []) (put p [] disk) in
    if env.can_write p then rest else (disk, (paths, true))

-- The loop that opens the data shards again.
unfoldable pub open_all : Env → Disk → List Bytes → Option (List Bytes)
open_all env disk [] = some []
open_all env disk (p ∷ ps) =
    let rest = open_all env disk ps in
    elim (content env disk p) [
      | none ↦ none
      | some b ↦ elim rest [ none ↦ none | some bs ↦ some (b ∷ bs) ]
    ]

-- From the split of the file over its created shards on.
unfoldable pub fill_shards :
    Env → Coder → ℕ → ℕ → Bytes → List Bytes → Disk → Disk × (List Bytes × Bool)
unfolding open_all put_all
fill_shards env coder d r b paths disk = elim (coder.split d r b) [
  | none ↦ (disk, (paths, true))
  | some shards ↦
      let split_disk = put_all (take d paths) shards disk in
      elim (open_all env split_disk (take d paths)) [
        | none ↦ (split_disk, (paths, true))
        | some input ↦ elim (coder.parity d r input) [
          | none ↦ (split_disk, (paths, true))
          | some ps ↦ (put_all (drop d paths) ps split_disk, (paths, false))
        ]
      ]
]

abbrev pub fill_created :
    Env → Coder → ℕ → ℕ → Bytes → Disk × (List Bytes × Bool) → Disk × (List Bytes × Bool)
fill_created env coder d r b (disk, (paths, true)) = (disk, (paths, true))
fill_created env coder d r b (disk, (paths, false)) = fill_shards env coder d r b paths disk

-- With more than three shards.
unfoldable pub encode_stream :
    Env → Coder → Bytes → ℕ → ℕ → Bytes → Disk → Disk × (List Bytes × Bool)
unfolding create_shards fill_shards
encode_stream env coder f d r b disk = elim (coder.make d r) [
  | false ↦ (disk, ([], true))
  | true ↦ elim (env.can_read f) [
    | false ↦ (disk, ([], true))
    | true ↦
        let (dir, file) = env.split_path f in
        fill_created env coder d r b (create_shards env dir file (d + r) 0 [] disk)
  ]
]

abbrev pub shards_of : ℕ → ℕ → Disk × (List Bytes × Bool) → Disk × Shards
shards_of d r (disk, (paths, failed)) =
    (disk, record { paths = paths; data_count = d; parity_count = r; failed = failed })

-- A file that os.Stat does not find is an error.
unfoldable pub reed_solomon : Float64 → Env → Coder → Bytes → Disk → Disk × Shards
unfolding reed_solomon_rule encode_small encode_stream
reed_solomon fl env coder f disk = elim (disk f) [
  | none ↦ shards_of 0 0 (disk, ([], true))
  | some b ↦
      let (d, r) = reed_solomon_rule fl (length b) in
      shards_of d r (
        if leb (d + r) 3
        then encode_small env coder f d r b disk
        else encode_stream env coder f d r b disk)
]
