-- ===== src/Node/Backup.antt =====
-- node/handler.go: backupFile, which stores one shard with a miner. Left out are the panics of a nil phi in
-- RequestAndSaveTag and of a nil keyring. The record of a miner is a fresh one in each round: the source
-- has one variable for all of them, in which a field that the JSON text does not name keeps its old value.
use cess_scheduler.Prelude.{
  ℕ, ◌-◌, ◌/◌, ◌%◌, ◌^◌, Bytes, Bool, Option, none, some, List, [], ◌∷◌, ◌++◌, length, ◌==◌, ltb,
  if◌then◌else◌, str, replicate,
}
use cess_scheduler.Chain.Types.{Error, failed, Ipv4Type, BlockInfo, CacheMinerInfo}
use cess_scheduler.Chain.Submit.{ipv4_value}
use cess_scheduler.Utils.Text.{split, atoi, is_ipv4}
pub mod Placement
pub mod Abandon

-- What the cache holds for a miner: nothing, what json.Unmarshal refuses, or its record.
pub data Offer : Type 0 where
  absent garbled : Offer
  cached : CacheMinerInfo → Offer

-- What one call of backupFile meets. `miner_replies` are the answers of GetAllStorageMiner in turn.
-- `offer`, and whether SendFile succeeds, are by a miner's key, the other two by its address. workLock,
-- which each round takes and releases, is left out, and so is the deletion of a record that json.Unmarshal
-- refuses.
pub record Market : Type 0 where
  pub stat : ℕ × Option Error
  pub has_tag : Bool
  pub tag_err : Option Error
  pub miner_replies : List (List Bytes × Option Error)
  pub shuffle : List Bytes → List Bytes
  pub sign_err : Option Error
  pub offer : Bytes → Offer
  pub resolves : Bytes → Bool
  pub dials : Bytes → Bool
  pub takes : Bytes → Bool

-- A result with the miners that took the file, or a wait for the list of miners. A panic is recovered:
-- the result is then the unset block and a nil error.
pub data Backed : Type 0 where
  gave : List Bytes → BlockInfo → Option Error → Backed
  waiting : Backed

abbrev pub no_block : BlockInfo
no_block = record {
  miner_id = 0;
  block_size = 0;
  block_num = 0;
  block_id = replicate 68 0;
  miner_ip = record { index = 0; value = replicate 4 0; port = 0 };
  miner_acc = replicate 32 0;
}

-- CalcFileBlockSizeAndScanSize, on an int64 that is not negative.
unfoldable pub calc_file_block_size_and_scan_size : ℕ → ℕ × ℕ
calc_file_block_size_and_scan_size fsize =
    if ltb fsize 1024
    then (fsize, fsize)
    else (if ltb (2 ^ 32 - 1) fsize
        then (2 ^ 32 - 1, (2 ^ 32 - 1) / 8)
        else (fsize / 16, fsize / 16 / 8))

abbrev pub file_block_id_length : ℕ
file_block_id_length = 68

-- fname once the file was sent.
abbrev pub full_name : Bytes → Bytes
full_name fname = if ltb (length fname) file_block_id_length then fname ++ str ".000" else fname

-- The address "ip:port"; `none` is an index out of range.
unfoldable pub ip_type : (Bytes → Bool) → List Bytes → Option Ipv4Type
unfolding ipv4_value split atoi is_ipv4
ip_type parsed (ip ∷ port ∷ rest) =
    let p = atoi port % 2 ^ 16 in
    if is_ipv4 parsed ip
    then elim (ipv4_value (split b'.' ip)) [
      | none ↦ none
      | some v ↦ some (record { index = 0; value = v; port = p })
    ]
    else some (record { index = 0; value = replicate 4 0; port = p })
ip_type parsed _ = none

-- What one round of the loop over the miners comes to.
pub data Turn : Type 0 where
  passes misnamed dial_panics address_panics : Turn
  stores : BlockInfo → Turn

-- After SendFile succeeded.
unfoldable pub named : (Bytes → Bool) → ℕ → ℕ → Bytes → Bytes → CacheMinerInfo → Turn
unfolding ip_type split
named parsed size blocknum name key info =
    if length name == file_block_id_length
    then elim (ip_type parsed (split b':' info.ip)) [
      | none ↦ address_panics
      | some ip ↦ stores (record {
        miner_id = info.peerid;
        block_size = size;
        block_num = blocknum % 2 ^ 32;
        block_id = name;
        miner_ip = ip;
        miner_acc = key;
      })
    ]
    else misnamed

-- A dial that fails closes the nil connection, which panics.
unfoldable pub turn : (Bytes → Bool) → Market → ℕ → ℕ → Bytes → Bytes → Offer → Turn
unfolding named
turn parsed mk size blocknum fname key absent = passes
turn parsed mk size blocknum fname key garbled = passes
turn parsed mk size blocknum fname key (cached info) =
    if ltb info.free size
    then passes
    else (if mk.resolves info.ip
        then (if mk.dials info.ip
            then (if mk.takes key
                then named parsed size blocknum (full_name fname) key info
                else passes)
            else dial_panics)
        else passes)

-- The loop over the miners. `sent` are those that took the file.
unfoldable pub place : (Bytes → Bool) → Market → ℕ → ℕ → List Bytes → Bytes → List Bytes → Backed
unfolding turn
place parsed mk size blocknum sent fname [] = gave sent no_block (some failed)
place parsed mk size blocknum sent fname (key ∷ keys) =
    elim (turn parsed mk size blocknum fname key (mk.offer key)) [
      | passes ↦ place parsed mk size blocknum sent fname keys
      | misnamed ↦ place parsed mk size blocknum (sent ++ key ∷ []) (full_name fname) keys
      | dial_panics ↦ gave sent no_block none
      | address_panics ↦ gave (sent ++ key ∷ []) no_block none
      | stores b ↦ gave (sent ++ key ∷ []) b (if b.miner_id == 0 then some failed else none)
    ]

-- The loop that asks for the miners until there is no error.
unfoldable pub first_ok : List (List Bytes × Option Error) → Option (List Bytes)
first_ok [] = none
first_ok ((keys, none) ∷ rest) = some keys
first_ok ((keys, some e) ∷ rest) = first_ok rest

-- From the list of miners on.
unfoldable pub offer_around : (Bytes → Bool) → Market → ℕ → ℕ → Bytes → Option (List Bytes) → Backed
unfolding place
offer_around parsed mk size blocknum fname none = waiting
offer_around parsed mk size blocknum fname (some keys) = elim (mk.sign_err) [
  | some e ↦ gave [] no_block (some e)
  | none ↦ place parsed mk size blocknum [] fname (mk.shuffle keys)
]

-- The tag of the file, which is asked for where there is none.
abbrev tag_outcome : Market → Option Error
tag_outcome mk = if mk.has_tag then none else mk.tag_err

-- With the size of the file and its block size, by which it divides: 0 panics.
unfoldable pub backup_sized : (Bytes → Bool) → Market → Bytes → ℕ → ℕ → Backed
unfolding offer_around first_ok
backup_sized parsed mk fname size blocksize =
    if blocksize == 0 then gave [] no_block none else elim (tag_outcome mk) [
      | some e ↦ gave [] no_block (some e)
      | none ↦ offer_around parsed mk size (size / blocksize) fname (first_ok mk.miner_replies)
    ]

-- `fname` is the base of the path; `parsed` is net.ParseIP.
unfoldable pub backup_file : (Bytes → Bool) → Market → Bytes → Backed
unfolding backup_sized calc_file_block_size_and_scan_size
backup_file parsed mk fname =
    let (size, e) = mk.stat in
    elim e [
      | some x ↦ gave [] no_block (some x)
      | none ↦ backup_sized parsed mk fname size (calc_file_block_size_and_scan_size size).0
    ]
