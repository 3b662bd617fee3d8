-- ===== src/Examples/CacheTests.antt =====
-- The cache of the miners (node).
use cess_scheduler.Prelude.{
  ◌≡◌, refl, Bytes, true, none, some, [], ◌∷◌, arith, replicate, str, bytes_eq, if◌then◌else◌,
}
use cess_scheduler.Chain.Types.{Ipv4Type, miner_state_positive}
use cess_scheduler.Utils.Address.{Crypto, encode_public_key_as_cess_account}
use cess_scheduler.Utils.Text.{split}
use cess_scheduler.Node.Backup.{absent, garbled, cached, ip_type}
use cess_scheduler.Node.MinerCache.{Cache, MinerSource, cache_miners, address_text}
use cess_scheduler.Node.MinerCache.Refresh.{pass_refreshes, refreshed, listed}
use cess_scheduler.Node.MinerCache.Address.{address_round_trip}

abbrev plain : Crypto
plain = record { base58_encode = λ b. b; base58_decode = λ b. b; sum512 = λ b. replicate 64 0 }

abbrev active : Bytes
active = replicate 32 7

abbrev gone : Bytes
gone = replicate 32 8

abbrev address : Ipv4Type
address = record { index = 0; value = 10 ∷ 0 ∷ 200 ∷ 1 ∷ []; port = 15001 }

abbrev node : MinerSource
node = record {
  crypto = plain;
  miner_info = λ acc. (
    record {
      peer_id = 5;
      ip = address;
      state = if bytes_eq acc active then miner_state_positive else str "exit";
      power = 4096;
      space = 1096;
    },
    none,
  );
  puts = λ key. true;
  deletes = λ key. true;
  undefined = λ a b. 0;
}

abbrev before : Cache
before q = garbled

text : address_text address ≡ str "10.0.200.1:15001"
unfolding address_text
text = refl

deleted : cache_miners node before (active ∷ gone ∷ []) gone ≡ absent
unfolding cache_miners encode_public_key_as_cess_account
deleted = refl

written :
    cache_miners node before (active ∷ gone ∷ []) active
    ≡ cached (record { peerid = 5; ip = str "10.0.200.1:15001"; free = 3000 })
unfolding cache_miners encode_public_key_as_cess_account
written = refl

pass_refreshes_example :
    cache_miners node before (active ∷ gone ∷ []) active
    ≡ (if listed active (active ∷ gone ∷ []) then refreshed node active garbled else garbled)
pass_refreshes_example =
    pass_refreshes node before (active ∷ gone ∷ []) active
      (λ acc. (omega arith, (omega arith, (omega arith, (omega arith, tt))))) refl

address_round_trip_example : ip_type (λ ip. true) (split b':' (address_text address)) ≡ some address
address_round_trip_example =
    address_round_trip (λ ip. true) 10 0 200 1 15001 (omega arith) (omega arith) (omega arith)
      (omega arith) (omega arith) refl
