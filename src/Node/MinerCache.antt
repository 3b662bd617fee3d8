-- ===== src/Node/MinerCache.antt =====
-- node/sub_minerCache.go: the task that copies the miners' information from the chain to the cache.
use cess_scheduler.Prelude.{
  ℕ, ◌-◌, ◌^◌, Bytes, Bool, true, false, Option, none, some, List, [], ◌∷◌, ◌++◌, ◌&&◌, get_or, leb,
  ltb, if◌then◌else◌, bytes_eq,
}
use cess_scheduler.Chain.Types.{Error, miner_state_positive, Ipv4Type, MinerInfo, CacheMinerInfo}
use cess_scheduler.Utils.Text.Decimal.{decimal}
use cess_scheduler.Utils.Address.{Crypto, ok, err, encode_public_key_as_cess_account}
use cess_scheduler.Node.Backup.{Offer, absent, garbled, cached}
pub mod Refresh
pub mod Address

-- What is stored under each key. An empty value is `garbled`: json.Unmarshal refuses it.
abbrev pub Cache : Type 0
Cache = Bytes → Offer

-- The answers of GetStorageMinerInfo, whether Put, and Has with Delete, succeed for a key, and what
-- Uint64 gives for a difference that is no uint64.
pub record MinerSource : Type 0 where
  pub crypto : Crypto
  pub miner_info : Bytes → MinerInfo × Option Error
  pub puts : Bytes → Bool
  pub deletes : Bytes → Bool
  pub undefined : ℕ → ℕ → ℕ

abbrev pub put : Bytes → Offer → Cache → Cache
put key value cache = λ q. if bytes_eq key q then value else cache q

-- "%d.%d.%d.%d"
unfoldable pub ipv4_text : List ℕ → Bytes
unfolding decimal
ipv4_text v =
    let last = decimal (get_or v 2 0) ++ b'.' ∷ decimal (get_or v 3 0) in
    let rest = decimal (get_or v 1 0) ++ b'.' ∷ last in decimal (get_or v 0 0) ++ b'.' ∷ rest

-- "%v:%d"
unfoldable pub address_text : Ipv4Type → Bytes
unfolding ipv4_text
address_text ip = ipv4_text ip.value ++ b':' ∷ decimal ip.port

-- Uint64 of power less space.
unfoldable pub free_of : MinerSource → MinerInfo → ℕ
free_of node info =
    if leb info.space info.power && ltb (info.power - info.space) (2 ^ 64)
    then info.power - info.space
    else node.undefined info.power info.space

unfoldable pub miner_cache : MinerSource → MinerInfo → CacheMinerInfo
unfolding address_text free_of
miner_cache node info = record {
  peerid = info.peer_id;
  ip = address_text info.ip;
  free = free_of node info;
}

-- Save or update cache. json.Marshal does not fail on this record.
unfoldable pub save_miner : MinerSource → Cache → Bytes → MinerInfo → Cache
unfolding miner_cache
save_miner node cache acc info =
    let text = ipv4_text info.ip.value in
    let saved = put acc (cached (miner_cache node info)) cache in
    if node.puts acc then (if node.puts text then put text garbled saved else saved) else cache

unfoldable pub update_miner : MinerSource → Cache → Bytes → MinerInfo → Cache
unfolding save_miner
update_miner node cache acc info =
    if bytes_eq info.state miner_state_positive
    then save_miner node cache acc info
    else (if node.deletes acc then put acc absent cache else cache)

-- One round of the loop over the miners.
unfoldable pub cache_miner : MinerSource → Cache → Bytes → Cache
unfolding update_miner
cache_miner node cache acc = elim (encode_public_key_as_cess_account node.crypto acc) [
  | err e ↦ cache
  | ok addr ↦ elim ((node.miner_info acc).1) [
    | some e ↦ cache
    | none ↦ update_miner node cache acc (node.miner_info acc).0
  ]
]

-- One pass over all miners.
unfoldable pub cache_miners : MinerSource → Cache → List Bytes → Cache
unfolding cache_miner
cache_miners node cache [] = cache
cache_miners node cache (acc ∷ accs) = cache_miners node (cache_miner node cache acc) accs
