-- ===== src/Chain/Submit/Results.antt =====
-- What the transactions return: when there is no error, and what a connection that was lost does.
use cess_scheduler.Prelude.{
  ℕ, ◌<◌, ◌≡◌, refl, Bool, true, false, Option, none, some, List, [], ◌∷◌, arith, ◌⊎◌, inl, inr,
  Bytes, ltb, Bool-cases, ltb→lt, ◌≢◌, length, ◌==◌,
}
use mathlib.Core.List.{Memᴰ}
use cess_scheduler.Chain.Types.{Error, returned, panicked, rpc_connection, FileMetaInfo}
use cess_scheduler.Chain.Client.{Client, Link, open_call, get_chain_state}
use cess_scheduler.Chain.Client.Laws.{open_call_nil, open_call_down, open_calls, open_calls_nil}
use cess_scheduler.Chain.Query.{
  Storage, found, missing, unreadable, read_storage, query, get_file_meta_info, get_account_info,
  get_sync_status, file_hash_length,
}
use cess_scheduler.Chain.Query.Laws.{
  query_nil, get_file_meta_info_nil, get_account_info_nil, get_sync_status_nil,
}
use cess_scheduler.Chain.Submit.{
  EventRecords, Arrival, in_block, in_block_unread, not_in_block, sub_err, Network, Call, Arguments,
  call, invalid, out_of_range, Sent, accepted, refused, watch, finish, with_account, transact,
  checked, after_check, submit_extrinsic,
}

module _ (hex : Bytes → Bytes) (count : EventRecords → ℕ) where
  -- Where a nil error comes from.
  abbrev pub IsConfirmed : Bytes → List Arrival → Type 0
  IsConfirmed h as' =
      ((hash : Bytes) × (ev : EventRecords) × Memᴰ (in_block hash ev) as'
        × (h ≡ hex hash)
        × (0 < count ev))
      ⊎ ((h ≡ []) × Memᴰ (sub_err none) as')

  pub IsConfirmed-cons :
      (h : Bytes) (a : Arrival) (as' : List Arrival) → IsConfirmed h as' → IsConfirmed h (a ∷ as')
  IsConfirmed-cons h a as' (inl (hash, ev, m, e, c)) = inl (hash, ev, Memᴰ.tail m, e, c)
  IsConfirmed-cons h a as' (inr (e, m)) = inr (e, Memᴰ.tail m)

  pub watch_ok :
      (as' : List Arrival) (h : Bytes) → watch hex count as' ≡ (h, none) → IsConfirmed h as'
  unfolding watch
  watch_ok [] h e = cc
  watch_ok (not_in_block ∷ as') h e = IsConfirmed-cons h not_in_block as' (watch_ok as' h e)
  watch_ok (in_block hash ev ∷ as') h e = elim (Bool-cases (ltb 0 (count ev))) [
    | inl t ↦ inl (hash, ev, Memᴰ.head refl, ground arith, ltb→lt _ _ t)
    | inr f ↦ ground arith
  ]
  watch_ok (in_block_unread hash x ∷ as') h e = ground arith
  watch_ok (sub_err none ∷ as') h e = inr (ground arith, Memᴰ.head refl)
  watch_ok (sub_err (some x) ∷ as') h e = ground arith

  IsConfirmed-finish :
      (retries : Bool) (w : Network) (c : Client) (x : Call) (s : Sent) (h : Bytes)
      → (finish hex count w c x s).result ≡ returned (h, none)
      → IsConfirmed h w.arrivals × ((finish hex count w c x s).carried ≡ some x)
  IsConfirmed-finish retries w c x (accepted ns) h e = (watch_ok w.arrivals h (ground arith), refl)
  IsConfirmed-finish retries w c x (refused ns at e') h e = ground arith

  with_account_ok :
      (retries : Bool) (w : Network) (c : Client) (x : Call) (h : Bytes)
      → (with_account retries hex count w c x).result ≡ returned (h, none)
      → IsConfirmed h w.arrivals × ((with_account retries hex count w c x).carried ≡ some x)
  unfolding with_account
  with_account_ok retries w c x h e = go c.api w.account refl refl
    where
      go :
          (api : Bool) (a : Storage ℕ)
          → c.api ≡ api
          → w.account ≡ a
          → IsConfirmed h w.arrivals × ((with_account retries hex count w c x).carried ≡ some x)
      go false a p q = ground arith
      go true missing p q = ground arith
      go true (unreadable y) p q = ground arith
      go true (found n) p q =
          rw (p, q, with_account)
            (IsConfirmed-finish retries w c x (submit_extrinsic retries w n) h
              (rw (p, q, with_account) at e))

  transact_ok :
      (retries : Bool) (w : Network) (c : Client) (x : Call) (h : Bytes)
      → (transact retries hex count w c x).result ≡ returned (h, none)
      → IsConfirmed h w.arrivals × ((transact retries hex count w c x).carried ≡ some x)
  unfolding transact
  transact_ok retries w c x h e = ground (arith, with_account_ok retries w c x h)

  -- If a transaction returns a nil error, then its arguments came to a call, that call was carried by
  -- an extrinsic, and either the block that took it holds an event of the transaction's kind, and the
  -- hash that is returned is that block's, or the subscription ended with a nil error, and the hash
  -- is empty.
  pub checked_ok :
      (args : Arguments) (retries : Bool) (w : Network) (c : Client) (l : Link) (h : Bytes)
      → (checked args retries hex count w c l).result ≡ returned (h, none)
      → (x : Call) × (args ≡ call x)
        × ((checked args retries hex count w c l).carried ≡ some x)
        × IsConfirmed h w.arrivals
  unfolding checked
  checked_ok args retries w c l h e = go args (open_call c l).1 e
    where
      go :
          (args : Arguments) (ok : Bool)
          → (after_check args retries hex count w (open_call c l).0 ok).result ≡ returned (h, none)
          → (x : Call) × (args ≡ call x)
            × ((after_check args retries hex count w (open_call c l).0 ok).carried ≡ some x)
            × IsConfirmed h w.arrivals
      go args false e = ground arith
      go (invalid y) true e = ground arith
      go out_of_range true e = ground arith
      go (call x) true e =
          let (sure, it) = transact_ok retries w (open_call c l).0 x h e in (x, refl, it, sure)

  transact_nil :
      (retries : Bool) (w : Network) (c : Client) (x : Call)
      → c.api ≡ false
      → w.new_call_err ≡ none
      → w.storage_key_err ≡ none
      → (transact retries hex count w c x).result ≡ panicked
  unfolding transact
  transact_nil retries w c x h p q = rw (p, q, h) refl

-- A query has returned "rpc connection failed": these are all the queries, each of whose bodies is one of
-- three. It leaves this client.
pub data Unreachable (c : Client) (l : Link) : Client → Type 1 where
  query_lost :
      {A : Type 0} (unset : A) (key : Option Error) (s : Storage A)
      → (query c l unset key s).1 ≡ returned (unset, some rpc_connection)
      → Unreachable c l (query c l unset key s).0
  file_lost :
      (fid : Bytes) (unset : FileMetaInfo) (enc key : Option Error) (s : Storage FileMetaInfo)
      → (get_file_meta_info c l fid unset enc key s).1 ≡ returned (unset, some rpc_connection)
      → Unreachable c l (get_file_meta_info c l fid unset enc key s).0
  account_lost :
      (acc enc key : Option Error) (s : Storage ℕ)
      → (get_account_info c l acc enc key s).1 ≡ returned (0, some rpc_connection)
      → Unreachable c l (get_account_info c l acc enc key s).0

read_storage-connected :
    {A : Type 0} (c : Client) (unset : A) (key : Option Error) (s : Storage A)
    → read_storage c unset key s ≢ returned (unset, some rpc_connection)
unfolding read_storage
read_storage-connected c unset none (found a) e = ground arith
read_storage-connected c unset none missing e = ground arith
read_storage-connected c unset none (unreadable x) e = ground arith
read_storage-connected c unset (some x) s e = ground arith

Unreachable-nil : (c : Client) (l : Link) (d : Client) → Unreachable c l d → d.api ≡ false
unfolding query get_file_meta_info get_account_info
Unreachable-nil c l _ (query_lost unset key s e) = elim (Bool-cases (open_call c l).1) [
  | inr down ↦ (open_call_down c l down).0
  | inl up ↦ absurd (read_storage-connected (open_call c l).0 unset key s (rw up at e))
]
Unreachable-nil c l _ (file_lost fid unset none key s e) = elim (Bool-cases (open_call c l).1) [
  | inr down ↦ (open_call_down c l down).0
  | inl up ↦ elim (Bool-cases (length fid == file_hash_length)) [
    | inr short ↦ absurd (let x = rw (up, short) at e in ground arith)
    | inl full ↦ absurd (read_storage-connected (open_call c l).0 unset key s (rw (up, full) at e))
  ]
]
Unreachable-nil c l _ (file_lost fid unset (some y) key s e) = elim (Bool-cases (open_call c l).1) [
  | inr down ↦ (open_call_down c l down).0
  | inl up ↦ absurd (let x = rw up at e in ground arith)
]
Unreachable-nil c l _ (account_lost none none key s e) = elim (Bool-cases (open_call c l).1) [
  | inr down ↦ (open_call_down c l down).0
  | inl up ↦ absurd (read_storage-connected (open_call c l).0 0 key s (rw up at e))
]
Unreachable-nil c l _ (account_lost none (some y) key s e) = elim (Bool-cases (open_call c l).1) [
  | inr down ↦ (open_call_down c l down).0
  | inl up ↦ absurd (let x = rw up at e in ground arith)
]
Unreachable-nil c l _ (account_lost (some y) enc key s e) = elim (Bool-cases (open_call c l).1) [
  | inr down ↦ (open_call_down c l down).0
  | inl up ↦ absurd (let x = rw up at e in ground arith)
]

-- Once a query, GetFileMetaInfo and GetAccountInfo included, has returned "rpc connection failed", then
-- after any further calls `ls` the client reports its chain as up, and these panic, whatever the node
-- answers: every query of a storage key that is built; GetFileMetaInfo with a fid of 64 bytes and
-- GetAccountInfo, where the argument and the key are built; GetSyncStatus; and every transaction whose
-- arguments, call and storage key are built.
pub lost_connection :
    {B : Type 0} (c : Client) (l : Link) (lost : Client) (ls : List Link) (l' : Link) (unset : B)
    (s : Storage B) (fid : Bytes) (no_file : FileMetaInfo) (files : Storage FileMetaInfo)
    (balance : Storage ℕ) (health : Option Error) (syncing retries : Bool) (hex : Bytes → Bytes)
    (count : EventRecords → ℕ) (w : Network) (x : Call)
    → Unreachable c l lost
    → length fid ≡ file_hash_length
    → w.new_call_err ≡ none
    → w.storage_key_err ≡ none
    → let d = open_calls lost ls in
      (get_chain_state (open_call d l').0 ≡ true)
      × ((query d l' unset none s).1 ≡ panicked)
      × ((get_file_meta_info d l' fid no_file none none files).1 ≡ panicked)
      × ((get_account_info d l' none none none balance).1 ≡ panicked)
      × ((get_sync_status d l' health syncing).1 ≡ panicked)
      × ((checked (call x) retries hex count w d l').result ≡ panicked)
unfolding checked get_chain_state
lost_connection c l lost ls l' unset s fid no_file files balance health syncing retries hex count w
      x gone long p q =
    let d = open_calls lost ls in
    let nil : d.api ≡ false = open_calls_nil lost ls (Unreachable-nil c l lost gone) in
    let (up, api, state) = open_call_nil d l' nil in
    (
      state,
      query_nil d l' unset s nil,
      get_file_meta_info_nil d l' fid no_file files nil long,
      get_account_info_nil d l' balance nil,
      get_sync_status_nil d l' health syncing nil,
      rw (up, checked) (transact_nil hex count retries w _ x api p q),
    )
