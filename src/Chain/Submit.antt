-- ===== src/Chain/Submit.antt =====
-- pkg/chain/transaction.go: the five transactions. Each checks its arguments and the connection,
-- signs an extrinsic with the account's nonce, submits it, retries where the source does, and waits
-- for its block. What the node and the substrate library answer is a `Network`.
use cess_scheduler.Prelude.{
  ℕ, zero, suc, ◌+◌, ◌%◌, ◌^◌, Bytes, Bool, true, false, Option, none, some, List, [], ◌∷◌, length,
  ◌==◌, ltb, if◌then◌else◌, str, contains,
}
use cess_scheduler.Chain.Types.{
  Error, Label, Return, rpc_connection, rpc_empty_value, rpc_timeout, failed, unsupported_ip,
  invalid_address, rpc, wrap, returned, panicked, decode_public_key, new_call, create_storage_key,
  get_storage_latest, get_storage_raw, sign, submit_and_watch, subscription, Ipv4Type, BlockInfo,
  FillerMetaInfo, ProofResult,
}
use cess_scheduler.Utils.Text.{split, atoi, is_ipv4, hex_encode}
use cess_scheduler.Chain.Client.{Client, Link, open_call}
use cess_scheduler.Chain.Query.{Storage, found, missing, unreadable, file_hash_length}
pub mod Retry
pub mod Results

-- The lengths of the event lists that the transactions look at.
pub record EventRecords : Type 0 where
  pub tee_worker_registration_scheduler : ℕ
  pub tee_worker_update_scheduler : ℕ
  pub file_bank_file_upload : ℕ
  pub file_bank_filler_upload : ℕ
  pub segment_book_verify_proof : ℕ

-- What the final `select` receives before its timer fires.
pub data Arrival : Type 0 where
  not_in_block : Arrival
  in_block : Bytes → EventRecords → Arrival
  in_block_unread : Bytes → Error → Arrival
  sub_err : Option Error → Arrival

-- `sign_err k` and `submit_err k` belong to the k-th attempt, from 0.
pub record Network : Type 0 where
  pub new_call_err : Option Error
  pub storage_key_err : Option Error
  pub account : Storage ℕ
  pub sign_err : ℕ → Option Error
  pub submit_err : ℕ → Option Error
  pub arrivals : List Arrival

-- errors.Wrap gives nil for a nil error.
abbrev pub wrap_err : Label → Option Error → Option Error
wrap_err at none = none
wrap_err at (some e) = some (wrap at e)

-- The text of an error that the node reports.
unfoldable pub is_low_priority : Error → Bool
is_low_priority (rpc text) = contains text (str "Priority is too low")
is_low_priority _ = false

abbrev pub max_try_count : ℕ
max_try_count = 20

-- What an extrinsic carries: the arguments of NewCall after the metadata and the call's name.
pub data Call : Type 0 where
  registration_scheduler : Bytes → Ipv4Type → Call
  upload : Bytes → ℕ → List BlockInfo → Call
  upload_filler : Bytes → List FillerMetaInfo → Call
  verify_proof : List ProofResult → Call
  update_scheduler : Ipv4Type → Call

-- What the checks of the arguments come to: a call, an error, or an index out of range.
pub data Arguments : Type 0 where
  call : Call → Arguments
  invalid : Error → Arguments
  out_of_range : Arguments

-- How the submission ended, and the nonces of the extrinsics that were sent, in order.
pub data Sent : Type 0 where
  accepted : List ℕ → Sent
  refused : List ℕ → Label → Error → Sent

abbrev pub nonces : Sent → List ℕ
nonces (accepted ns) = ns
nonces (refused ns _ _) = ns

abbrev pub also_sent : ℕ → Sent → Sent
also_sent n (accepted ns) = accepted (n ∷ ns)
also_sent n (refused ns at e) = refused (n ∷ ns) at e

-- accountInfo.Nonce + types.NewU32(1), on uint32.
abbrev pub next_nonce : ℕ → ℕ
next_nonce nonce = (nonce + 1) % 2 ^ 32

-- The loop over tryCount: `left` rounds are left, `k` attempts were made, `e` is the last error.
unfoldable pub resubmit : ℕ → ℕ → Network → ℕ → Error → Sent
resubmit zero k w nonce e = refused [] submit_and_watch e
resubmit (suc left) k w nonce e = elim (w.sign_err k) [
  | some s ↦ refused [] sign s
  | none ↦ elim (w.submit_err k) [
    | none ↦ accepted (next_nonce nonce ∷ [])
    | some e' ↦ also_sent (next_nonce nonce) (resubmit left (suc k) w nonce e')
  ]
]

-- The first submission, and the loop where the transaction has one and the priority was too low.
unfoldable pub submit_extrinsic : Bool → Network → ℕ → Sent
unfolding resubmit is_low_priority
submit_extrinsic retries w nonce = elim (w.sign_err 0) [
  | some s ↦ refused [] sign s
  | none ↦ elim (w.submit_err 0) [
    | none ↦ accepted (nonce ∷ [])
    | some e ↦
        if retries
        then (if is_low_priority e
            then also_sent nonce (resubmit max_try_count 1 w nonce e)
            else refused (nonce ∷ []) submit_and_watch e)
        else refused (nonce ∷ []) submit_and_watch e
  ]
]

-- txhash and err, as the transactions return them.
abbrev pub Result : Type 0
Result = Bytes × Option Error

-- The final loop. The timer fires after all that `arrivals` lists.
unfoldable pub watch : (Bytes → Bytes) → (EventRecords → ℕ) → List Arrival → Result
watch hex count [] = ([], some rpc_timeout)
watch hex count (not_in_block ∷ rest) = watch hex count rest
watch hex count (in_block hash events ∷ rest) =
    (hex hash, if ltb 0 (count events) then none else some failed)
watch hex count (in_block_unread hash e ∷ rest) = (hex hash, some (wrap get_storage_raw e))
watch hex count (sub_err e ∷ rest) = ([], wrap_err subscription e)

-- A whole transaction: the client after it, the nonces of the extrinsics that were sent, what they
-- carried, and what the method returned.
pub record Outcome : Type 0 where
  pub client : Client
  pub sent : List ℕ
  pub carried : Option Call
  pub result : Return Result

abbrev pub fails : Client → Error → Outcome
fails c e = record { client = c; sent = []; carried = none; result = returned ([], some e) }

abbrev pub panics : Client → Outcome
panics c = record { client = c; sent = []; carried = none; result = panicked }

abbrev pub finish : (Bytes → Bytes) → (EventRecords → ℕ) → Network → Client → Call → Sent → Outcome
finish hex count w c x (refused ns at e) = record {
  client = c;
  sent = ns;
  carried = some x;
  result = returned ([], some (wrap at e));
}
finish hex count w c x (accepted ns) = record {
  client = c;
  sent = ns;
  carried = some x;
  result = returned (watch hex count w.arrivals);
}

-- From GetStorageLatest on: the account's nonce is read, which dereferences the api.
unfoldable pub with_account :
    Bool → (Bytes → Bytes) → (EventRecords → ℕ) → Network → Client → Call → Outcome
unfolding submit_extrinsic watch
with_account retries hex count w c x =
    if c.api
    then elim (w.account) [
      | unreadable e ↦ fails c (wrap get_storage_latest e)
      | missing ↦ fails c rpc_empty_value
      | found nonce ↦ finish hex count w c x (submit_extrinsic retries w nonce)
    ]
    else panics c

-- From NewCall on, which all five transactions have in common.
unfoldable pub transact :
    Bool → (Bytes → Bytes) → (EventRecords → ℕ) → Network → Client → Call → Outcome
unfolding with_account
transact retries hex count w c x = elim (w.new_call_err) [
  | some e ↦ fails c (wrap new_call e)
  | none ↦ elim (w.storage_key_err) [
    | some e ↦ fails c (wrap create_storage_key e)
    | none ↦ with_account retries hex count w c x
  ]
]

-- The tests after the connection is looked at: `ok` is what the check found.
unfoldable pub after_check :
    Arguments → Bool → (Bytes → Bytes) → (EventRecords → ℕ) → Network → Client → Bool → Outcome
after_check args retries hex count w c false = fails c rpc_connection
after_check (invalid e) retries hex count w c true = fails c e
after_check out_of_range retries hex count w c true = panics c
after_check (call x) retries hex count w c true = transact retries hex count w c x

-- A transaction whose arguments come to `args`, which the source looks at once the connection is
-- known to be up.
unfoldable pub checked :
    Arguments → Bool → (Bytes → Bytes) → (EventRecords → ℕ) → Network → Client → Link → Outcome
unfolding after_check
checked args retries hex count w c l =
    after_check args retries hex count w (open_call c l).0 (open_call c l).1

-- The four numbers of an address: types.U8 of Atoi of each of the first four parts.
unfoldable pub ipv4_value : List Bytes → Option (List ℕ)
unfolding atoi
ipv4_value (a ∷ b ∷ c ∷ d ∷ rest) =
    some (atoi a % 256 ∷ atoi b % 256 ∷ atoi c % 256 ∷ atoi d % 256 ∷ [])
ipv4_value _ = none

-- The address of Register and Update. `parsed` is net.ParseIP; the port is a types.U16.
unfoldable pub ipv4_arguments : (Bytes → Bool) → Bytes → ℕ → (Ipv4Type → Call) → Arguments
unfolding ipv4_value split is_ipv4
ipv4_arguments parsed ip port f =
    if is_ipv4 parsed ip
    then elim (ipv4_value (split b'.' ip)) [
      | none ↦ out_of_range
      | some v ↦ call (f (record { index = 0; value = v; port = port % 2 ^ 16 }))
    ]
    else invalid unsupported_ip

-- `stash` is the answer of DecodePublicKeyOfCessAccount. `hex` is codec.EncodeToHex of the library.
unfoldable pub register :
    (Bytes → Bytes) → (Bytes → Bool) → Network → Client → Link → Option Bytes → Bytes → ℕ → Outcome
unfolding checked ipv4_arguments
register hex parsed w c l stash ip port =
    checked
      (elim stash [
        | none ↦ invalid (wrap decode_public_key invalid_address)
        | some puk ↦ ipv4_arguments parsed ip port (registration_scheduler puk)
      ])
      true hex (λ ev. ev.tee_worker_registration_scheduler) w c l

unfoldable pub submit_file_meta : Network → Client → Link → Bytes → ℕ → List BlockInfo → Outcome
unfolding checked hex_encode
submit_file_meta w c l fid fsize block =
    checked
      (if length fid == file_hash_length then call (upload fid fsize block) else invalid failed)
      true hex_encode (λ ev. ev.file_bank_file_upload) w c l

unfoldable pub submit_filler_meta :
    (Bytes → Bytes) → Network → Client → Link → Bytes → List FillerMetaInfo → Outcome
unfolding checked
submit_filler_meta hex w c l miner_acc info =
    checked (call (upload_filler miner_acc info)) true hex (λ ev. ev.file_bank_filler_upload) w c l

unfoldable pub submit_proof_results :
    (Bytes → Bytes) → Network → Client → Link → List ProofResult → Outcome
unfolding checked
submit_proof_results hex w c l results =
    checked (call (verify_proof results)) false hex (λ ev. ev.segment_book_verify_proof) w c l

unfoldable pub update :
    (Bytes → Bytes) → (Bytes → Bool) → Network → Client → Link → Bytes → Bytes → Outcome
unfolding checked ipv4_arguments atoi
update hex parsed w c l ip port =
    checked (ipv4_arguments parsed ip (atoi port) update_scheduler) true hex
      (λ ev. ev.tee_worker_update_scheduler) w c l
