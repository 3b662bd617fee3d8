-- ===== src/Examples/BackupTests.antt =====
-- The backup of a file to the miners (node).
use cess_scheduler.Prelude.{
  ℕ, zero, suc, ◌≡◌, refl, ap, ◌∙◌, Bytes, Bool, true, false, Option, none, some, [], ◌∷◌, ◌++◌,
  arith, replicate, str, bytes_eq, is_some, not, ◌||◌, if◌then◌else◌,
}
use mathlib.Core.List.{Memᴰ}
use cess_scheduler.Chain.Types.{Error, rpc_timeout, BlockInfo, CacheMinerInfo}
use cess_scheduler.Utils.Address.{Crypto}
use cess_scheduler.Node.Checks.{FileState}
use cess_scheduler.Node.Backup.{absent, cached, Market, gave, no_block, backup_file, first_ok, turn}
use cess_scheduler.Node.Backup.Placement.{IsBackedUp, backup_file-IsBackedUp}
use cess_scheduler.Node.Backup.Abandon.{dial_failure_abandons}
use cess_scheduler.Node.Manage.{
  FileStoreInfo, new_file_store_info, round, stored, is_active, submit_meta, Managed,
  file_backup_management,
}
use cess_scheduler.Node.Manage.Registration.{
  submit_meta_lem, EachStored, backup_registers, IsConcluded,
}
use cess_scheduler.Node.Manage.Progress.{empty_shard_forever, backup_ends}

abbrev plain : Crypto
plain = record { base58_encode = λ b. b; base58_decode = λ b. b; sum512 = λ b. replicate 64 0 }

abbrev key : Bytes
key = replicate 32 7

abbrev other : Bytes
other = replicate 32 8

abbrev shard : Bytes
shard = replicate 64 b'a'

abbrev info : CacheMinerInfo
info = record { peerid = 5; ip = str "10.0.0.1:15001"; free = 4096 }

-- The first miner of the list is not in the cache, the second takes files.
abbrev market : Bool → ℕ → Market
market up size = record {
  stat = (size, none);
  has_tag = true;
  tag_err = none;
  miner_replies = ([], some rpc_timeout) ∷ (other ∷ key ∷ [], none) ∷ [];
  shuffle = λ keys. keys;
  sign_err = none;
  offer = λ k. if bytes_eq k key then cached info else absent;
  resolves = λ a. true;
  dials = λ a. up;
  takes = λ k. true;
}

abbrev parsed : Bytes → Bool
parsed ip = true

abbrev base : Bytes → Bytes
base p = p

abbrev block : BlockInfo
block = record {
  miner_id = 5;
  block_size = 1000;
  block_num = 1;
  block_id = shard ++ str ".000";
  miner_ip = record { index = 0; value = 10 ∷ 0 ∷ 0 ∷ 1 ∷ []; port = 15001 };
  miner_acc = key;
}

backed : backup_file parsed (market true 1000) shard ≡ gave (key ∷ []) block none
unfolding backup_file
backed = refl

backup_file-IsBackedUp_example : IsBackedUp (market true 1000) block
backup_file-IsBackedUp_example =
    backup_file-IsBackedUp parsed (market true 1000) shard (key ∷ []) block backed
      (λ e. absurd (omega arith))

first_dial_abandons : backup_file parsed (market false 1000) shard ≡ gave [] no_block none
first_dial_abandons =
    dial_failure_abandons parsed (market false 1000) 1000 shard (other ∷ key ∷ []) (other ∷ []) []
      key info refl (omega arith) refl (unfold first_ok in refl) refl refl (unfold turn in refl, tt)
      refl (omega arith) refl refl

abbrev two_failures : ℕ → Option Error
two_failures zero = some rpc_timeout
two_failures (suc zero) = some rpc_timeout
two_failures _ = none

abbrev pending : ℕ → FileState
pending k = FileState.state (str "pending")

submitted : submit_meta 4 0 two_failures pending ≡ some true
unfolding submit_meta
submitted = refl

second_failure_tried_again :
    submit_meta 4 0 two_failures pending
    ≡ some (
        not (is_some (two_failures 0))
        || (is_active (pending 0)
            || (not (is_some (two_failures 1))
                || (is_active (pending 1)
                    || (not (is_some (two_failures 2))
                        || (is_active (pending 2) || not (is_some (two_failures 3))))))))
second_failure_tried_again = submit_meta_lem two_failures pending

-- The first call for a shard fails to dial, the second works.
abbrev second_call : ℕ → Bytes → Market
second_call zero p = market false 1000
second_call _ p = market true 1000

abbrev start : FileStoreInfo
start = new_file_store_info (str "fid") 2000 (str "1.2.3.4:15000")

hundred_calls :
    file_backup_management plain parsed base
      (λ k p. market true 0)
      (λ bs. two_failures)
      pending
      50
      start
      (shard ∷ [])
    ≡ none
hundred_calls =
    empty_shard_forever plain parsed base (λ k p. market true 0) (λ bs. two_failures) pending 50
      start shard (shard ∷ []) (λ k. refl) (Memᴰ.head refl)

stores_again : round (backup_file parsed (market true 1000) shard) ≡ stored block
unfolding round
stores_again = ap round backed ∙ refl

backup_ends_example :
    is_some (
      file_backup_management plain parsed base
        (λ k p. market true 1000)
        (λ bs. two_failures)
        pending
        2
        start
        (shard ∷ shard ∷ []))
    ≡ true
backup_ends_example =
    backup_ends plain parsed base (λ k p. market true 1000) (λ bs. two_failures) pending 0 2 start
      (shard ∷ shard ∷ [])
      (
        (λ k. (0, omega arith, (block, stores_again), λ i h. absurd (omega arith))),
        ((λ k. (0, omega arith, (block, stores_again), λ i h. absurd (omega arith))), tt),
      )
      (omega arith)

managed :
    (m : Managed) × (file_backup_management plain parsed base second_call
        (λ bs. two_failures)
        pending
        3
        start
        (shard ∷ shard ∷ [])
      ≡ some m)
    × (m.submitted ≡ some (block ∷ block ∷ []))
unfolding file_backup_management
managed = (_, refl, refl)

backup_registers_example :
    EachStored parsed base second_call 0 (shard ∷ shard ∷ []) (block ∷ block ∷ [])
    × IsConcluded plain parsed base second_call
        (λ bs. two_failures)
        pending
        start
        (block ∷ block ∷ [])
        managed.0
backup_registers_example =
    backup_registers plain parsed base second_call (λ bs. two_failures) pending 3 start
      (shard ∷ shard ∷ []) managed.0 (block ∷ block ∷ []) managed.1 managed.2
