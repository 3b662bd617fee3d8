-- ===== src/Node/MinerCache/Refresh.antt =====
-- What one pass of task_MinerCache leaves in the cache.
use cess_scheduler.Prelude.{
  ℕ, zero, suc, ◌≤◌, ◌<◌, ◌≡◌, refl, ap, ◌∙◌, Bytes, Bool, true, false, Option, none, some, List,
  [], ◌∷◌, ◌++◌, length, get_or, arith, All, bytes_eq, ◌||◌, if◌then◌else◌, bytes_eq_sound,
  bytes_eq_self, Bool-cases, inl, inr, length-append,
}
use cess_scheduler.Chain.Types.{Error, miner_state_positive, MinerInfo}
use cess_scheduler.Utils.Text.Decimal.{decimal, length-decimal}
use cess_scheduler.Utils.Address.{Result, ok, err, encode_public_key_as_cess_account}
use cess_scheduler.Node.Backup.{Offer, absent, cached}
use cess_scheduler.Node.MinerCache.{
  Cache, MinerSource, ipv4_text, miner_cache, update_miner, cache_miner, cache_miners,
}

get_or-byte : (v : List ℕ) (i : ℕ) → All (λ x. x < 256) v → get_or v i 0 < 256
get_or-byte [] i h = omega arith
get_or-byte (x ∷ v) zero (p, h) = p
get_or-byte (x ∷ v) (suc i) (p, h) = get_or-byte v i h

-- The text of an IPv4 address has at most fifteen bytes, so it is no account's key.
length-ipv4_text : (v : List ℕ) → All (λ x. x < 256) v → length (ipv4_text v) ≤ 15
unfolding ipv4_text
length-ipv4_text v h =
    let a = decimal (get_or v 0 0) in
    let b = decimal (get_or v 1 0) in
    let c = decimal (get_or v 2 0) in
    let d = decimal (get_or v 3 0) in
    let la : length a ≤ 3 = length-decimal _ (get_or-byte v 0 h) in
    let lb : length b ≤ 3 = length-decimal _ (get_or-byte v 1 h) in
    let lc : length c ≤ 3 = length-decimal _ (get_or-byte v 2 h) in
    let ld : length d ≤ 3 = length-decimal _ (get_or-byte v 3 h) in
    let e1 = length-append c (b'.' ∷ d) in
    let e2 = length-append b (b'.' ∷ (c ++ b'.' ∷ d)) in
    let e3 = length-append a (b'.' ∷ (b ++ b'.' ∷ (c ++ b'.' ∷ d))) in omega arith

text_differs :
    (v : List ℕ) (acc : Bytes)
    → All (λ x. x < 256) v
    → length acc ≡ 32
    → bytes_eq (ipv4_text v) acc ≡ false
text_differs v acc h l = elim (Bool-cases (bytes_eq (ipv4_text v) acc)) [
  | inr f ↦ f
  | inl t ↦
      let e : length (ipv4_text v) ≡ length acc = ap length (bytes_eq_sound (ipv4_text v) acc t) in
      let s = length-ipv4_text v h in absurd (omega arith)
]

-- What the pass leaves under the key of a miner: `old` is what was there.
abbrev pub outcome : MinerSource → Bytes → Offer → Result → MinerInfo × Option Error → Offer
outcome node acc old (err e) got = old
outcome node acc old (ok addr) (info, some e) = old
outcome node acc old (ok addr) (info, none) = elim (bytes_eq info.state miner_state_positive) [
  | true ↦ elim (node.puts acc) [ true ↦ cached (miner_cache node info) | false ↦ old ]
  | false ↦ elim (node.deletes acc) [ true ↦ absent | false ↦ old ]
]

-- The same, by what the chain says of the miner.
abbrev pub refreshed : MinerSource → Bytes → Offer → Offer
refreshed node acc old =
    outcome node acc old (encode_public_key_as_cess_account node.crypto acc) (node.miner_info acc)

update_miner_self :
    (node : MinerSource) (cache : Cache) (acc : Bytes) (info : MinerInfo) (addr : Bytes)
    → All (λ x. x < 256) info.ip.value
    → length acc ≡ 32
    → update_miner node cache acc info acc ≡ outcome node acc (cache acc) (ok addr) (info, none)
unfolding update_miner
update_miner_self node cache acc info addr h l =
    let t = text_differs info.ip.value acc h l in let s = bytes_eq_self acc in ground arith

update_miner_other :
    (node : MinerSource) (cache : Cache) (acc key : Bytes) (info : MinerInfo)
    → All (λ x. x < 256) info.ip.value
    → length key ≡ 32
    → bytes_eq acc key ≡ false
    → update_miner node cache acc info key ≡ cache key
unfolding update_miner
update_miner_other node cache acc key info h l d =
    let t = text_differs info.ip.value key h l in ground arith

outcome_idempotent :
    (node : MinerSource) (acc : Bytes) (old : Offer) (r : Result) (got : MinerInfo × Option Error)
    → outcome node acc (outcome node acc old r got) r got ≡ outcome node acc old r got
outcome_idempotent node acc old (err e) got = refl
outcome_idempotent node acc old (ok addr) (info, some e) = refl
outcome_idempotent node acc old (ok addr) (info, none) = ground arith

-- Among the keys.
abbrev pub listed : Bytes → List Bytes → Bool
listed key [] = false
listed key (acc ∷ accs) = bytes_eq acc key || listed key accs

-- The addresses that the chain gives are four bytes each.
abbrev pub HasBytes : MinerSource → Type 0
HasBytes node = (acc : Bytes) → All (λ x. x < 256) (node.miner_info acc).0.ip.value

cache_miner_other :
    (node : MinerSource) (cache : Cache) (acc key : Bytes)
    → HasBytes node
    → length key ≡ 32
    → bytes_eq acc key ≡ false
    → cache_miner node cache acc key ≡ cache key
unfolding cache_miner
cache_miner_other node cache acc key h l d =
    go (encode_public_key_as_cess_account node.crypto acc) refl (node.miner_info acc).1 refl
  where
    go :
        (r : Result)
        → encode_public_key_as_cess_account node.crypto acc ≡ r
        → (e : Option Error) → (node.miner_info acc).1 ≡ e
        → cache_miner node cache acc key ≡ cache key
    go (err x) p e q = rw (p, cache_miner) refl
    go (ok addr) p (some e) q = rw (p, q, cache_miner) refl
    go (ok addr) p none q =
        rw (p, q, cache_miner)
          (update_miner_other node cache acc key (node.miner_info acc).0 (h acc) l d)

cache_miner_self :
    (node : MinerSource) (cache : Cache) (key : Bytes)
    → HasBytes node
    → length key ≡ 32
    → cache_miner node cache key key ≡ refreshed node key (cache key)
unfolding cache_miner
cache_miner_self node cache key h l =
    go (encode_public_key_as_cess_account node.crypto key) refl (node.miner_info key).1 refl
  where
    go :
        (r : Result)
        → encode_public_key_as_cess_account node.crypto key ≡ r
        → (e : Option Error) → (node.miner_info key).1 ≡ e
        → cache_miner node cache key key ≡ refreshed node key (cache key)
    go (err x) p e q = rw (p, cache_miner) refl
    go (ok addr) p (some e) q = rw (p, q, cache_miner) refl
    go (ok addr) p none q =
        rw (p, q, cache_miner)
          (update_miner_self node cache key (node.miner_info key).0 addr (h key) l)

-- One pass over the miners of the chain, whose addresses are bytes: under every key of 32 bytes the cache
-- then holds what the chain says of that miner, if the miner is listed, however often, and what it held
-- before, if it is not. What the chain says: the record of an active miner that can be put, nothing for
-- one that is not active and can be deleted, and else what was there before.
pub pass_refreshes :
    (node : MinerSource) (cache : Cache) (accs : List Bytes) (key : Bytes)
    → HasBytes node
    → length key ≡ 32
    → cache_miners node cache accs key
      ≡ (if listed key accs then refreshed node key (cache key) else cache key)
unfolding cache_miners
pass_refreshes node cache [] key h l = refl
pass_refreshes node cache (acc ∷ accs) key h l =
    let ih = pass_refreshes node (cache_miner node cache acc) accs key h l in
    elim (Bool-cases (bytes_eq acc key)) [
      | inr d ↦
          let o : cache_miner node cache acc key ≡ cache key =
            cache_miner_other node cache acc key h l d in
          rw d (rw o at ih)
      | inl t ↦
          let same = bytes_eq_sound acc key t in
          let s : cache_miner node cache acc key ≡ refreshed node key (cache key) =
            ap (λ (a : Bytes). cache_miner node cache a key) same
            ∙ cache_miner_self node cache key h l in
          rw t (twice (listed key accs) _ s ih)
    ]
  where
    twice :
        (b : Bool) (now : Offer)
        → now ≡ refreshed node key (cache key)
        → cache_miners node (cache_miner node cache acc) accs key
          ≡ (if b then refreshed node key now else now)
        → cache_miners node (cache_miner node cache acc) accs key ≡ refreshed node key (cache key)
    twice false now s ih = ih ∙ s
    twice true now s ih =
        ih
        ∙ ap (refreshed node key) s
        ∙ outcome_idempotent node key (cache key)
            (encode_public_key_as_cess_account node.crypto key) (node.miner_info key)
