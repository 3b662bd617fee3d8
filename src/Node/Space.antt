-- ===== src/Node/Space.antt =====
-- task_Space of node/sub_space.go, which hands fillers to the miners. What happens while storagefiller visits a miner with
-- a filler is a `Visit`, and how it ends is Node/Filler.antt's.
use cess_scheduler.Prelude.{ℕ, Bytes, Bool, true, false, Option, none, some, List, [], ◌∷◌, ◌++◌}
use cess_scheduler.Chain.Types.{Return, returned, panicked, Error}
use cess_scheduler.Chain.Query.{Answer}
use cess_scheduler.Utils.Random.{rand_slice}
use cess_scheduler.Node.Filler.{Visit, Ending, answered, silent, submitting, storage_filler}
use cess_scheduler.Node.Tags.{Filler}
pub mod Handed

-- Why a pass over the miners stops: they are all visited; it waits for a filler; storagefiller ended and will never
-- answer on `chal`; or storagefiller is still in its loop that submits.
pub data PassEnd : Type 0 where
  all_visited waits_filler waits_forever in_submission : PassEnd

-- Of a pass: the fillers that a miner took, the one that is still held, and those in C_Filler.
pub record Pass : Type 0 where
  pub stored : List (Filler × Bytes)
  pub held : Option Filler
  pub queue : List Filler
  pub stops : PassEnd

abbrev pub stopped : Option Filler → List Filler → PassEnd → Pass
stopped held queue e = record { stored = []; held = held; queue = queue; stops = e }

abbrev pub took : Filler → Bytes → Pass → Pass
took f pk p = record p { stored = (f, pk) ∷ p.stored }

-- A filler is received from C_Filler where none is held; `none` waits for one.
abbrev pub take_filler : Option Filler → List Filler → Option (Filler × List Filler)
take_filler (some f) queue = some (f, queue)
take_filler none [] = none
take_filler none (f ∷ queue) = some (f, queue)

-- The loop over the miners; `fuel` bounds the calls of SubmitFillerMeta of a visit.
unfoldable pub space_pass :
    ℕ → (Filler → Bytes → Visit) → List Bytes → Option Filler → List Filler → Pass
unfolding storage_filler
space_pass fuel visits [] held queue = stopped held queue all_visited
space_pass fuel visits (pk ∷ pks) held queue = elim (take_filler held queue) [
  | none ↦ stopped none [] waits_filler
  | some (f, rest) ↦ elim (storage_filler fuel (visits f pk) pk).ending [
    | answered b ↦ elim b [
      | true ↦ took f pk (space_pass fuel visits pks none rest)
      | false ↦ space_pass fuel visits pks (some f) rest
    ]
    | silent ↦ stopped (some f) rest waits_forever
    | submitting ↦ stopped (some f) rest in_submission
  ]
]

-- One round of the task, from GetAllStorageMiner's answer; a panic ends the task.
unfoldable pub space_round :
    ℕ
    → (Filler → Bytes → Visit)
    → (ℕ → ℕ)
    → Answer (List Bytes)
    → Option Filler
    → List Filler
    → Option Pass
unfolding space_pass rand_slice
space_round fuel visits intn panicked held queue = none
space_round fuel visits intn (returned (keys, some e)) held queue =
    some (stopped held queue all_visited)
space_round fuel visits intn (returned (keys, none)) held queue =
    some (space_pass fuel visits (rand_slice intn keys) held queue)
