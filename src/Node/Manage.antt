-- ===== src/Node/Manage.antt =====
-- node/handler.go: FileBackupManagement, which backs up all shards of a file and registers it. The
-- cache's entry of the file is the list of what was put there.
use cess_scheduler.Prelude.{
  ℕ, zero, suc, ◌+◌, ◌%◌, Bytes, Bool, true, false, Option, none, some, List, [], ◌∷◌, ◌++◌, ◌||◌,
  ◌==◌, leb, if◌then◌else◌, str, bytes_eq,
}
use cess_scheduler.Chain.Types.{Error, file_state_active, file_state_pending, BlockInfo}
use cess_scheduler.Utils.Address.{Crypto, Result, ok, err, encode_public_key_as_cess_account}
use cess_scheduler.Node.Checks.{FileState}
use cess_scheduler.Node.Backup.{Market, Backed, gave, waiting, backup_file}
pub mod Registration
pub mod Progress

pub record FileStoreInfo : Type 0 where
  pub file_id : Bytes
  pub file_state : Bytes
  pub scheduler : Bytes
  pub file_size : ℕ
  pub is_upload : Bool
  pub is_check : Bool
  pub is_shard : Bool
  pub is_scheduler : Bool
  pub miners : List (ℕ × Bytes)

-- The results of the first loop: the blocks in order, the last entry, and the entries that it put.
pub record Chunks : Type 0 where
  pub blocks : List BlockInfo
  pub entry : FileStoreInfo
  pub puts : List FileStoreInfo

-- One round of the first loop: it is stuck in backupFile, tries the chunk again, or goes on.
pub data Round : Type 0 where
  stuck again : Round
  stored : BlockInfo → Round

unfoldable pub round : Backed → Round
round waiting = stuck
round (gave sent b (some e)) = again
round (gave sent b none) = if (b.miner_id == 0) || (b.block_size == 0) then again else stored b

-- The account of a key, "" where the encoding fails.
abbrev pub account : Result → Bytes
account (ok a) = a
account (err e) = []

abbrev pub with_miner : Crypto → ℕ → BlockInfo → FileStoreInfo → FileStoreInfo
with_miner c i b st = record st {
  miners = st.miners ++ (i, account (encode_public_key_as_cess_account c b.miner_acc)) ∷ [];
}

abbrev pub also_stored : BlockInfo → FileStoreInfo → Option Chunks → Option Chunks
also_stored b st none = none
also_stored b st (some r) = some (record r { blocks = b ∷ r.blocks; puts = st ∷ r.puts })

-- `market k p` is what the k-th call of backupFile meets, for the path p; `base` is filepath.Base.
module _ (c : Crypto) (parsed : Bytes → Bool) (base : Bytes → Bytes)
    (market : ℕ → Bytes → Market) where
  -- The first loop, from the k-th call and the i-th chunk on; `none` while it runs.
  unfoldable pub backup_chunks : ℕ → ℕ → ℕ → FileStoreInfo → List Bytes → Option Chunks
  unfolding round backup_file
  backup_chunks fuel k i st [] = some (record { blocks = []; entry = st; puts = [] })
  backup_chunks zero k i st (p ∷ ps) = none
  backup_chunks (suc fuel) k i st (p ∷ ps) =
      elim (round (backup_file parsed (market k p) (base p))) [
        | stuck ↦ none
        | again ↦ backup_chunks fuel (suc k) i st (p ∷ ps)
        | stored b ↦
            also_stored b (with_miner c i b st)
              (backup_chunks fuel (suc k) (suc i) (with_miner c i b st) ps)
      ]

unfoldable pub is_active : FileState → Bool
is_active (FileState.state s) = bytes_eq s file_state_active
is_active (FileState.unknown e) = false

-- The second loop, after `k` calls of SubmitFileMeta: whether the file counts as registered. `replies` and
-- `states` are what the calls of SubmitFileMeta and GetFileState give. `none` while it runs.
unfoldable pub submit_meta : ℕ → ℕ → (ℕ → Option Error) → (ℕ → FileState) → Option Bool
unfolding is_active
submit_meta zero k replies states = none
submit_meta (suc fuel) k replies states = elim (replies k) [
  | none ↦ some true
  | some e ↦ elim (leb 4 ((k + 1) % 256)) [
    | true ↦ some false
    | false ↦ elim (is_active (states k)) [
      | true ↦ some true
      | false ↦ submit_meta fuel (suc k) replies states
    ]
  ]
]

abbrev pub err_failed : Bytes
err_failed = str "Failed"

-- fileSt at the start.
unfoldable pub new_file_store_info : Bytes → ℕ → Bytes → FileStoreInfo
new_file_store_info fid fsize scheduler = record {
  file_id = fid;
  file_state = file_state_pending;
  scheduler = scheduler;
  file_size = fsize;
  is_upload = true;
  is_check = true;
  is_shard = true;
  is_scheduler = true;
  miners = [];
}

-- The blocks that were handed to SubmitFileMeta, if it was called, and the entries of the cache.
pub record Managed : Type 0 where
  pub submitted : Option (List BlockInfo)
  pub puts : List FileStoreInfo

-- The last entry, by the end of the second loop.
abbrev pub concluded : FileStoreInfo → Bool → FileStoreInfo
concluded st true = record st { file_state = file_state_active }
concluded st false = record st { file_state = err_failed }

abbrev pub registered : FileStoreInfo → Chunks → Option Bool → Option Managed
registered st r none = none
registered st r (some b) =
    some (record { submitted = some r.blocks; puts = st ∷ r.puts ++ concluded r.entry b ∷ [] })

-- From the first loop's end on. `replies bs` are the answers of SubmitFileMeta to these blocks.
unfoldable pub register_file :
    FileStoreInfo
    → (List BlockInfo → ℕ → Option Error)
    → (ℕ → FileState)
    → Option Chunks
    → Option Managed
unfolding submit_meta
register_file st replies states none = none
register_file st replies states (some r) =
    registered st r (submit_meta 4 0 (replies r.blocks) states)

-- FileBackupManagement with `fuel` calls of backupFile; `none` while it runs.
unfoldable pub file_backup_management :
    Crypto
    → (Bytes → Bool)
    → (Bytes → Bytes)
    → (ℕ → Bytes → Market)
    → (List BlockInfo → ℕ → Option Error)
    → (ℕ → FileState)
    → ℕ
    → FileStoreInfo
    → List Bytes
    → Option Managed
unfolding backup_chunks register_file
file_backup_management c parsed base market replies states fuel st [] =
    some (record { submitted = none; puts = record st { is_scheduler = false } ∷ [] })
file_backup_management c parsed base market replies states fuel st (p ∷ ps) =
    register_file st replies states (backup_chunks c parsed base market fuel 0 0 st (p ∷ ps))
