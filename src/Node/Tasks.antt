-- ===== src/Node/Tasks.antt =====
-- node/sub_main.go, node/sub_common.go: the manager of the tasks, which starts a task again when it has ended, and
-- the rounds of task_Common.
use cess_scheduler.Prelude.{
  ℕ, suc, ◌≡◌, ◌≢◌, refl, Bool, true, false, Option, none, some, List, [], ◌∷◌, ltb, ◌==◌,
  if◌then◌else◌,
}
use cess_scheduler.Chain.Query.{Answer}
use cess_scheduler.Chain.Types.{returned, panicked}
use cess_scheduler.Chain.Client.{Client}
use cess_scheduler.Console.Run.{minimum_balance}
pub mod Supervised

pub data Task : Type 0 where
  miner_cache validate_proof generate_filler common space : Task

abbrev pub number : Task → ℕ
number miner_cache = 1
number validate_proof = 2
number generate_filler = 3
number common = 4
number space = 5

-- Of one task: the goroutines in its body, those at the send on its channel, and the values in the channel, which
-- has room for one.
pub record Slot : Type 0 where
  pub running : ℕ
  pub ending : ℕ
  pub channel : ℕ

abbrev pub Slots : Type 0
Slots = Task → Slot

-- CoroutineMgr before its loop.
abbrev pub started : Slots
started t = record { running = 1; ending = 0; channel = 0 }

abbrev pub set_slot : Task → Slot → Slots → Slots
set_slot t s w u = if number t == number u then s else w u

-- A body returns or panics and its deferred function runs; the function sends; the manager receives, in a case of its
-- select, and starts the task.
pub data Step : Slots → Slots → Type 0 where
  ends :
      {w : Slots} (t : Task) (n : ℕ)
      → (w t).running ≡ suc n
      → Step w (
          set_slot t (record { running = n; ending = suc (w t).ending; channel = (w t).channel }) w)
  sends :
      {w : Slots} (t : Task) (n : ℕ)
      → (w t).ending ≡ suc n
      → (w t).channel ≡ 0
      → Step w (set_slot t (record { running = (w t).running; ending = n; channel = 1 }) w)
  starts :
      {w : Slots} (t : Task) (n : ℕ)
      → (w t).channel ≡ suc n
      → Step w (
          set_slot t (record { running = suc (w t).running; ending = (w t).ending; channel = n }) w)

pub data Run : Slots → Slots → Type 0 where
  stop : {w : Slots} → Run w w
  more : {w v u : Slots} → Step w v → Run v u → Run w u

-- A tick of task_Common: whether the process goes on. A panic is one of the task.
pub data Tick : Type 0 where
  goes_on : Tick
  process_exits : Tick
  task_panics : Tick

unfoldable pub common_tick : Client × Answer ℕ → Client × Tick
common_tick (c, panicked) = (c, task_panics)
common_tick (c, returned (free, some e)) = (c, goes_on)
common_tick (c, returned (free, none)) =
    (c, if ltb free minimum_balance then process_exits else goes_on)
