-- ===== src/Chain/Types.antt =====
-- pkg/chain/types.go: the data that goes to the chain and comes from it, and the errors.
use cess_scheduler.Prelude.{ℕ, Bytes, str, Bool, List}

-- Where an error was wrapped by errors.Wrap; the brackets of the source's texts are left out.
pub data Label : Type 0 where
  decode_public_key new_call create_storage_key get_storage_latest get_storage_raw : Label
  new_account_id encode_bytes sign submit_and_watch subscription : Label

-- `rpc` carries the text of an error that the chain node or a library reports.
pub data Error : Type 0 where
  rpc_connection rpc_timeout rpc_empty_value failed unsupported_ip invalid_address : Error
  rpc : Bytes → Error
  wrap : Label → Error → Error

-- What a Go function gives back: its results, or a panic that unwinds its caller.
pub data Return {ℓ} (A : Type ℓ) : Type ℓ where
  returned : A → Return A
  panicked : Return A

abbrev pub file_state_active : Bytes
file_state_active = str "active"

abbrev pub file_state_pending : Bytes
file_state_pending = str "pending"

abbrev pub miner_state_positive : Bytes
miner_state_positive = str "positive"

pub record Ipv4Type : Type 0 where
  pub index : ℕ
  pub value : List ℕ
  pub port : ℕ

-- storage miner info; the fields that the scheduler reads
pub record MinerInfo : Type 0 where
  pub peer_id : ℕ
  pub ip : Ipv4Type
  pub state : Bytes
  pub power : ℕ
  pub space : ℕ

-- cache storage miner
pub record CacheMinerInfo : Type 0 where
  pub peerid : ℕ
  pub ip : Bytes
  pub free : ℕ

-- file block info
pub record BlockInfo : Type 0 where
  pub miner_id : ℕ
  pub block_size : ℕ
  pub block_num : ℕ
  pub block_id : Bytes
  pub miner_ip : Ipv4Type
  pub miner_acc : Bytes

-- file meta info; the fields that the scheduler reads
pub record FileMetaInfo : Type 0 where
  pub size : ℕ
  pub state : Bytes
  pub block_info : List BlockInfo

-- filler meta info
pub record FillerMetaInfo : Type 0 where
  pub size : ℕ
  pub block_num : ℕ
  pub block_size : ℕ
  pub acc : Bytes
  pub hash : Bytes

-- scheduler info
pub record SchedulerInfo : Type 0 where
  pub ip : Ipv4Type
  pub stash_user : Bytes
  pub controller_user : Bytes

-- challenge info
pub record ChallengeInfo : Type 0 where
  pub file_size : ℕ
  pub file_type : ℕ
  pub block_list : List ℕ
  pub file_id : Bytes
  pub shard_id : Bytes
  pub random : List Bytes

-- proof type
pub record Proof : Type 0 where
  pub file_id : Bytes
  pub miner_pubkey : Bytes
  pub challenge_info : ChallengeInfo
  pub u : Bytes
  pub mu : Bytes
  pub sigma : Bytes
  pub omega_bytes : Bytes
  pub sig_root_hash : Bytes
  pub hash_mi : List Bytes

-- proof result
pub record ProofResult : Type 0 where
  pub public_key : Bytes
  pub file_id : Bytes
  pub shard_id : Bytes
  pub result : Bool
