-- ===== src/Erasure.antt =====
-- pkg/erasure/reedsolomon.go: the shards of a file on the disk. The encoders of klauspost/reedsolomon are a
-- `Coder`, whose stream variant produces the same shards; the disk's answers and path/filepath are an
-- `Env`. A write that fails is taken to write nothing.
use cess_scheduler.Prelude.{
  ℕ, zero, suc, ◌+◌, Bytes, Bool, true, false, Option, none, some, List, [], ◌∷◌, ◌++◌, map, ltb,
  bytes_eq, str, if◌then◌else◌,
}
use cess_scheduler.Utils.Text.Decimal.{decimal}
pub mod Encode
pub mod Restore
pub mod Stored

-- Every operation gets the numbers of data and parity shards. `split` gives the data shards, `parity` the
-- parity shards of them; `join` what was written and whether it succeeded. `none` is an error.
pub record Coder : Type 0 where
  pub make : ℕ → ℕ → Bool
  pub split : ℕ → ℕ → Bytes → Option (List Bytes)
  pub parity : ℕ → ℕ → List Bytes → Option (List Bytes)
  pub verify : ℕ → ℕ → List (Option Bytes) → Option Bool
  pub reconstruct : ℕ → ℕ → List (Option Bytes) → Option (List (Option Bytes))
  pub join : ℕ → ℕ → List (Option Bytes) → ℕ → Bytes × Bool

pub record Env : Type 0 where
  pub can_read : Bytes → Bool
  pub can_stat : Bytes → Bool
  pub can_write : Bytes → Bool
  pub can_rename : Bytes → Bytes → Bool
  pub split_path : Bytes → Bytes × Bytes
  pub join_path : Bytes → Bytes → Bytes

abbrev pub Disk : Type 0
Disk = Bytes → Option Bytes

-- The disk with a file written, and with one removed.
abbrev pub put : Bytes → Bytes → Disk → Disk
put p b disk q = if bytes_eq p q then some b else disk q

abbrev pub remove : Bytes → Disk → Disk
remove p disk q = if bytes_eq p q then none else disk q

-- "%s.00%d"
unfoldable pub small_name : Bytes → ℕ → Bytes
small_name f i = f ++ (str ".00" ++ decimal i)

-- The name with an index of three digits: "%s.00%d", or "%s.0%d" from 10 on.
unfoldable pub shard_name : Bytes → ℕ → Bytes
unfolding small_name
shard_name f i = if ltb i 10 then small_name f i else f ++ (str ".0" ++ decimal i)

-- What os.Open or ioutil.ReadFile finds.
abbrev pub content : Env → Disk → Bytes → Option Bytes
content env disk p = if env.can_read p then disk p else none

-- The files of a list of paths, written in order.
unfoldable pub put_all : List Bytes → List Bytes → Disk → Disk
put_all [] ss disk = disk
put_all (p ∷ ps) [] disk = disk
put_all (p ∷ ps) (s ∷ ss) disk = put_all ps ss (put p s disk)
