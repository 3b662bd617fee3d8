-- ===== src/Chain/Query/Laws.antt =====
-- What the queries of pkg/chain/chainState.go return, and what a lost connection does to them.
use cess_scheduler.Prelude.{
  ℕ, ◌≡◌, ◌↔◌, ◌⊎◌, Bytes, Bool, true, false, Option, none, some, arith, length, ◌==◌,
}
use cess_scheduler.Chain.Types.{Error, returned, panicked, FileMetaInfo}
use cess_scheduler.Chain.Client.{Client, Link, open_call}
use cess_scheduler.Chain.Client.Laws.{open_call_nil}
use cess_scheduler.Chain.Query.{
  Storage, found, missing, unreadable, read_storage, query, get_file_meta_info, get_account_info,
  get_sync_status, file_hash_length,
}

module _ {A : Type 0} where
  pub query_nil :
      (c : Client) (l : Link) (unset : A) (s : Storage A)
      → c.api ≡ false
      → (query c l unset none s).1 ≡ panicked
  unfolding query
  query_nil c l unset (found a) h = ground (arith, open_call_nil c l h)
  query_nil c l unset missing h = ground (arith, open_call_nil c l h)
  query_nil c l unset (unreadable e) h = ground (arith, open_call_nil c l h)

  read_storage_nil :
      (c : Client) (unset : A) (s : Storage A)
      → c.api ≡ false
      → read_storage c unset none s ≡ panicked
  unfolding read_storage
  read_storage_nil c unset (found a) h = ground arith
  read_storage_nil c unset missing h = ground arith
  read_storage_nil c unset (unreadable e) h = ground arith

  -- A query of a client with an api gives a value with a nil error exactly when the connection is up or
  -- comes back, its key is built and the storage holds that value.
  pub query_ok :
      (c : Client) (l : Link) (unset : A) (key : Option Error) (s : Storage A) (a : A)
      → c.api ≡ true
      → ((query c l unset key s).1 ≡ returned (a, none))
        ↔ (((l.health ≡ true) ⊎ (l.reconnect ≡ true)) × (key ≡ none) × (s ≡ found a))
  unfolding query
  query_ok c l unset (some e) s a h = (λ p. ground arith, λ p. ground arith)
  query_ok c l unset none missing a h = (λ p. ground arith, λ p. ground arith)
  query_ok c l unset none (unreadable e) a h = (λ p. ground arith, λ p. ground arith)
  query_ok c l unset none (found b) a h = (λ p. ground arith, λ p. ground arith)

pub get_file_meta_info_nil :
    (c : Client) (l : Link) (fid : Bytes) (unset : FileMetaInfo) (s : Storage FileMetaInfo)
    → c.api ≡ false
    → length fid ≡ file_hash_length
    → (get_file_meta_info c l fid unset none none s).1 ≡ panicked
unfolding get_file_meta_info
get_file_meta_info_nil c l fid unset s h long =
    let (up, nil, _) = open_call_nil c l h in
    let full : (length fid == file_hash_length) ≡ true = ground arith in
    rw (up, full) (read_storage_nil (open_call c l).0 unset s nil)

pub get_account_info_nil :
    (c : Client) (l : Link) (s : Storage ℕ)
    → c.api ≡ false
    → (get_account_info c l none none none s).1 ≡ panicked
unfolding get_account_info
get_account_info_nil c l s h =
    let (up, nil, _) = open_call_nil c l h in rw up (read_storage_nil (open_call c l).0 0 s nil)

pub get_sync_status_nil :
    (c : Client) (l : Link) (health : Option Error) (syncing : Bool)
    → c.api ≡ false
    → (get_sync_status c l health syncing).1 ≡ panicked
unfolding get_sync_status
get_sync_status_nil c l health syncing h = ground arith
