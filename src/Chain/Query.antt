-- ===== src/Chain/Query.antt =====
-- pkg/chain/chainState.go: the queries. Each checks the connection, builds the storage key and reads
-- the storage; what the substrate library answers on the way is an argument.
use cess_scheduler.Prelude.{
  ℕ, Bytes, Bool, true, false, Option, none, some, List, [], ◌∷◌, length, ◌==◌, if◌then◌else◌,
}
use cess_scheduler.Chain.Types.{
  Error, Return, Label, rpc_connection, rpc_empty_value, failed, wrap, returned, panicked,
  create_storage_key, get_storage_latest, new_account_id, encode_bytes, MinerInfo, FileMetaInfo,
  SchedulerInfo, Proof,
}
use cess_scheduler.Chain.Client.{Client, Link, is_chain_client_ok, open_call}
pub mod Laws

-- The answer of State.GetStorageLatest: the value, no value, or an error.
pub data Storage (A : Type 0) : Type 0 where
  found : A → Storage A
  missing : Storage A
  unreadable : Error → Storage A

-- A value and an error, as Go returns them.
abbrev pub Answer : Type 0 → Type 0
Answer A = Return (A × Option Error)

module _ {A : Type 0} where
  -- The call of State.GetStorageLatest and the tests after it. `zero` is the unset `data`. Without
  -- an api the call dereferences nil.
  unfoldable pub get_storage_latest_of : Client → A → Storage A → Answer A
  get_storage_latest_of c zero' (found a) = if c.api then returned (a, none) else panicked
  get_storage_latest_of c zero' missing =
      if c.api then returned (zero', some rpc_empty_value) else panicked
  get_storage_latest_of c zero' (unreadable e) =
      if c.api then returned (zero', some (wrap get_storage_latest e)) else panicked

  -- CreateStorageKey and what follows.
  unfoldable pub read_storage : Client → A → Option Error → Storage A → Answer A
  unfolding get_storage_latest_of
  read_storage c zero' (some e) s = returned (zero', some (wrap create_storage_key e))
  read_storage c zero' none s = get_storage_latest_of c zero' s

  -- A query with no argument to encode.
  unfoldable pub query : Client → Link → A → Option Error → Storage A → Client × Answer A
  unfolding open_call read_storage
  query c l zero' key s =
      let (c', ok) = open_call c l in
      (c', if ok then read_storage c' zero' key s else returned (zero', some rpc_connection))

unfoldable pub get_storage_miner_info :
    Client → Link → MinerInfo → Option Error → Storage MinerInfo → Client × Answer MinerInfo
unfolding query
get_storage_miner_info c l unset key s = query c l unset key s

unfoldable pub get_all_storage_miner :
    Client → Link → Option Error → Storage (List Bytes) → Client × Answer (List Bytes)
unfolding query
get_all_storage_miner c l key s = query c l [] key s

abbrev pub file_hash_length : ℕ
file_hash_length = 64

-- `fid` must fill a FileHash; `enc` is the error of codec.Encode.
unfoldable pub get_file_meta_info :
    Client
    → Link
    → Bytes
    → FileMetaInfo
    → Option Error
    → Option Error
    → Storage FileMetaInfo
    → Client × Answer FileMetaInfo
unfolding open_call read_storage
get_file_meta_info c l fid unset enc key s =
    let (c', ok) = open_call c l in
    (
      c',
      if ok
          then (if length fid == file_hash_length
              then elim enc [
                | some e ↦ returned (unset, some (wrap encode_bytes e))
                | none ↦ read_storage c' unset key s
              ]
              else returned (unset, some failed))
          else returned (unset, some rpc_connection),
    )

unfoldable pub get_all_scheduler_info :
    Client
    → Link
    → Option Error
    → Storage (List SchedulerInfo)
    → Client × Answer (List SchedulerInfo)
unfolding query
get_all_scheduler_info c l key s = query c l [] key s

unfoldable pub get_proofs :
    Client → Link → Option Error → Storage (List Proof) → Client × Answer (List Proof)
unfolding query
get_proofs c l key s = query c l [] key s

-- The free balance of an account stands for its AccountInfo; `acc` and `enc` are the errors of
-- NewAccountID and codec.Encode.
unfoldable pub get_account_info :
    Client → Link → Option Error → Option Error → Option Error → Storage ℕ → Client × Answer ℕ
unfolding open_call read_storage
get_account_info c l acc enc key s =
    let (c', ok) = open_call c l in
    (
      c',
      if ok
          then elim acc [
            | some e ↦ returned (0, some (wrap new_account_id e))
            | none ↦ elim enc [
              | some e ↦ returned (0, some (wrap encode_bytes e))
              | none ↦ read_storage c' 0 key s
            ]
          ]
          else returned (0, some rpc_connection),
    )

-- GetSyncStatus does not record the chain state; the answer of System.Health is whether the node
-- is syncing.
unfoldable pub get_sync_status : Client → Link → Option Error → Bool → Client × Answer Bool
unfolding is_chain_client_ok
get_sync_status c l health syncing =
    let (c', ok) = is_chain_client_ok c l in
    (
      c',
      if ok
          then (if c'.api
              then elim health [
                | some e ↦ returned (false, some e)
                | none ↦ returned (syncing, none)
              ]
              else panicked)
          else returned (false, some rpc_connection),
    )
