-- ===== src/Examples/FillerTests.antt =====
-- Storing fillers with the miners (node).
use cess_scheduler.Prelude.{
  ℕ, zero, suc, ◌≡◌, ◌↔◌, ◌⊎◌, refl, Bytes, Bool, true, false, List, [], ◌∷◌, arith, replicate, str,
}
use cess_scheduler.Chain.Types.{CacheMinerInfo}
use cess_scheduler.Node.Backup.{cached}
use cess_scheduler.Node.Filler.{Visit, answered, silent, submitting, refuses, storage_filler}
use cess_scheduler.Node.Filler.Answer.{
  IsRegistered, filler_registered, filler_holds_lock, unsent_refused,
}

abbrev miner : CacheMinerInfo
miner = record { peerid = 5; ip = str "10.0.0.1:15001"; free = 4096 }

abbrev pub third : ℕ → Bytes
third zero = []
third (suc zero) = []
third _ = str "0xab"

abbrev pub visit : Bool → (ℕ → Bytes) → Bytes → Visit
visit up replies hash = record {
  signed = true;
  chain_up = true;
  offer = cached miner;
  dials = up;
  sends = true;
  file_hash = hash;
  replies = replies;
}

abbrev pub name : Bytes
name = replicate 64 b'f'

abbrev pub key : Bytes
key = replicate 32 7

short_name : (storage_filler 9 (visit true third (str "abc")) key).ending ≡ silent
unfolding storage_filler
short_name = refl

filler_registered_example :
    ((storage_filler 3 (visit true third name) key).ending ≡ answered true)
    ↔ IsRegistered 3 (visit true third name) key
filler_registered_example = filler_registered 3 (visit true third name) key

third_call : IsRegistered 3 (visit true third name) key
unfolding storage_filler
third_call = filler_registered_example.0 refl

fifty_rounds : (storage_filler 50 (visit true (λ k. []) name) key).ending ≡ submitting
fifty_rounds =
    filler_holds_lock 50 (visit true (λ k. []) name) key (refl, refl, (miner, refl), refl, refl)
      (omega arith) (λ j. refl)

unsent :
    (ids : List ℕ) × (storage_filler 3 (visit false third name) key ≡ refuses ids)
    × ((ids ≡ [])
        ⊎ ((info : CacheMinerInfo) × (cached miner ≡ cached info) × (ids ≡ info.peerid ∷ [])))
unsent = unsent_refused 3 (visit false third name) key (λ s. ground arith)
