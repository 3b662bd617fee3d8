-- ===== src/Node/Filler.antt =====
-- node/sub_space.go: storagefiller, which stores one filler with a miner and registers it, and
-- combineFillerMeta of node/handler.go. Left out: the deletion of a record that json.Unmarshal refuses, and
-- of the files of a filler that was registered.
use cess_scheduler.Prelude.{
  ℕ, zero, suc, ◌+◌, ◌*◌, ◌/◌, Bytes, Bool, true, false, Option, none, some, List, [], ◌∷◌, ◌++◌,
  length, take, leb, ◌==◌, if◌then◌else◌,
}
use cess_scheduler.Chain.Types.{FillerMetaInfo, CacheMinerInfo}
use cess_scheduler.Node.Backup.{Offer, absent, garbled, cached}
pub mod Rounds
pub mod Answer

abbrev pub filler_size : ℕ
filler_size = 8 * (1024 * 1024)

abbrev pub filler_block_size : ℕ
filler_block_size = 2 * 1024

-- `none` is an index out of range: the hash has fewer than 64 bytes. The quotient of the two constants
-- is a positive integer, which Ceil keeps.
unfoldable pub combine_filler_meta : Bytes → Bytes → Option FillerMetaInfo
combine_filler_meta file_hash pubkey =
    if leb 64 (length file_hash)
    then some (record {
      size = filler_size;
      block_num = filler_size / filler_block_size;
      block_size = filler_block_size;
      acc = pubkey;
      hash = take 64 file_hash;
    })
    else none

-- What one call meets: whether the message is signed, the chain is up, the miner is dialled and SendFile
-- succeeds; the miner's record; the base of the filler's path without its suffix; and the hash, which
-- may be empty, that the k-th SubmitFillerMeta gives.
pub record Visit : Type 0 where
  pub signed : Bool
  pub chain_up : Bool
  pub offer : Offer
  pub dials : Bool
  pub sends : Bool
  pub file_hash : Bytes
  pub replies : ℕ → Bytes

-- How a call ends: with a value on the channel `ch`, in a panic that is recovered with no value on it, or
-- not yet, in the loop that submits, with workLock held.
pub data Ending : Type 0 where
  answered : Bool → Ending
  silent : Ending
  submitting : Ending

-- The miners that were put on the black list, and what was submitted.
pub record Visited : Type 0 where
  pub ending : Ending
  pub blacklisted : List ℕ
  pub submitted : Option FillerMetaInfo

abbrev pub refuses : List ℕ → Visited
refuses ids = record { ending = answered false; blacklisted = ids; submitted = none }

-- The loop of SubmitFillerMeta, from the k-th call on.
unfoldable pub submit_fillers : ℕ → ℕ → (ℕ → Bytes) → Ending
submit_fillers zero k replies = submitting
submit_fillers (suc fuel) k replies = elim (length (replies k) == 0) [
  | true ↦ submit_fillers fuel (suc k) replies
  | false ↦ answered true
]

-- After SendFile succeeded.
unfoldable pub register_filler : ℕ → Visit → Option FillerMetaInfo → Visited
unfolding submit_fillers
register_filler fuel v none = record { ending = silent; blacklisted = []; submitted = none }
register_filler fuel v (some meta) = record {
  ending = submit_fillers fuel 0 v.replies;
  blacklisted = [];
  submitted = some meta;
}

-- With the miner's record, under workLock.
unfoldable pub visit_miner : ℕ → Visit → Bytes → Offer → Visited
unfolding register_filler combine_filler_meta
visit_miner fuel v pkey absent = refuses []
visit_miner fuel v pkey garbled = refuses []
visit_miner fuel v pkey (cached info) =
    if v.dials
    then (if v.sends
        then register_filler fuel v (combine_filler_meta v.file_hash pkey)
        else refuses (info.peerid ∷ []))
    else refuses (info.peerid ∷ [])

-- With `fuel` calls of SubmitFillerMeta.
unfoldable pub storage_filler : ℕ → Visit → Bytes → Visited
unfolding visit_miner
storage_filler fuel v pkey =
    if v.signed
    then (if v.chain_up then visit_miner fuel v pkey v.offer else refuses [])
    else refuses []
