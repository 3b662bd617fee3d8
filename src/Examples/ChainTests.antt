-- ===== src/Examples/ChainTests.antt =====
-- The chain client: a lost connection, queries and transactions (pkg/chain).
use cess_scheduler.Prelude.{
  ℕ, zero, suc, ◌<◌, ◌≤◌, ◌≡◌, refl, ◌⊎◌, ◌↔◌, Bytes, Bool, true, false, Option, none, some, List,
  [], ◌∷◌, arith, replicate, str,
}
use cess_scheduler.Chain.Types.{Error, rpc, returned, panicked, FileMetaInfo}
use cess_scheduler.Chain.Client.{Client, Link, get_chain_state, open_call}
use cess_scheduler.Chain.Client.Laws.{open_calls}
use cess_scheduler.Chain.Query.{
  found, missing, query, get_file_meta_info, get_account_info, get_sync_status,
}
use cess_scheduler.Chain.Query.Laws.{query_ok}
use cess_scheduler.Chain.Submit.{
  EventRecords, in_block, not_in_block, Network, Call, verify_proof, call, accepted, nonces,
  next_nonce, resubmit, submit_extrinsic, checked, transact, submit_proof_results, max_try_count,
}
use cess_scheduler.Chain.Submit.Retry.{submit_extrinsic-nonces, resubmit_accepts, MayRetry}
use cess_scheduler.Chain.Submit.Results.{IsConfirmed, checked_ok, query_lost, lost_connection}

abbrev pub up : Client
up = record { api = true; chain_state = true }

abbrev pub healthy : Link
healthy = record { health = true; reconnect = true }

abbrev dead : Link
dead = record { health = false; reconnect = false }

abbrev pub hash : Bytes
hash = 0xab ∷ 0xcd ∷ []

abbrev pub verified : EventRecords
verified = record {
  tee_worker_registration_scheduler = 0;
  tee_worker_update_scheduler = 0;
  file_bank_file_upload = 0;
  file_bank_filler_upload = 0;
  segment_book_verify_proof = 1;
}

abbrev pub accepting : Network
accepting = record {
  new_call_err = none;
  storage_key_err = none;
  account = found 7;
  sign_err = λ k. none;
  submit_err = λ k. none;
  arrivals = not_in_block ∷ in_block hash verified ∷ [];
}

abbrev low_priority : Error
low_priority = rpc (str "1014: Priority is too low: (1 vs 1)")

-- The node refuses the first two submissions because of their priority.
busy_reply : ℕ → Option Error
busy_reply zero = some low_priority
busy_reply (suc zero) = some low_priority
busy_reply _ = none

abbrev busy : Network
busy = record accepting { submit_err = busy_reply }

abbrev pub text : Bytes → Bytes
text b = b

abbrev proof_events : EventRecords → ℕ
proof_events ev = ev.segment_book_verify_proof

submits_results : (submit_proof_results text accepting up healthy []).result ≡ returned (hash, none)
unfolding submit_proof_results open_call transact
submits_results = refl

checked_ok_example :
    (x : Call) × (call (verify_proof []) ≡ call x)
    × ((checked (call (verify_proof [])) false text proof_events accepting up healthy).carried
        ≡ some x)
    × IsConfirmed text proof_events hash accepting.arrivals
unfolding checked open_call transact
checked_ok_example =
    checked_ok text proof_events (call (verify_proof [])) false accepting up healthy hash refl

retries : nonces (submit_extrinsic true busy 7) ≡ 7 ∷ 8 ∷ 8 ∷ []
unfolding submit_extrinsic busy_reply
retries = refl

submit_extrinsic-nonces_example :
    (nonces (submit_extrinsic true busy 7) ≡ [])
    ⊎ ((m : ℕ) × (nonces (submit_extrinsic true busy 7) ≡ 7 ∷ replicate m (next_nonce 7))
        × (m ≤ max_try_count)
        × (0 < m → MayRetry true busy))
submit_extrinsic-nonces_example = submit_extrinsic-nonces true busy 7

third_try_accepted : (ns : List ℕ) × (resubmit 20 1 busy 7 low_priority ≡ accepted ns)
unfolding busy_reply
third_try_accepted = resubmit_accepts 1 20 1 busy 7 low_priority (omega arith) (λ i h. refl) refl

query_finds : ((query up healthy [] none (found hash)).1 ≡ returned (hash, none)) ↔ (
    (◌≡◌ {A = Bool} true true ⊎ ◌≡◌ {A = Bool} true true)
    × ◌≡◌ {A = Option Error} none none
    × (found hash ≡ found hash))
query_finds = query_ok up healthy [] none (found hash) hash refl

abbrev file : Bytes
file = replicate 64 b'f'

abbrev no_file : FileMetaInfo
no_file = record { size = 0; state = []; block_info = [] }

lost_connection_example :
    let d = open_calls (query up dead [] none (found hash)).0 (healthy ∷ []) in
    (get_chain_state (open_call d healthy).0 ≡ true)
    × ((query d healthy [] none (found hash)).1 ≡ panicked)
    × ((get_file_meta_info d healthy file no_file none none missing).1 ≡ panicked)
    × ((get_account_info d healthy none none none (found 5)).1 ≡ panicked)
    × ((get_sync_status d healthy none false).1 ≡ panicked)
    × ((checked (call (verify_proof [])) true text proof_events accepting d healthy).result
        ≡ panicked)
unfolding query
lost_connection_example =
    lost_connection up dead (query up dead [] none (found hash)).0 (healthy ∷ []) healthy []
      (found hash) file no_file missing (found 5) none false true text proof_events accepting
      (verify_proof []) (query_lost [] none (found hash) refl) refl refl refl
