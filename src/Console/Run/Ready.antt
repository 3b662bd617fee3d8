-- ===== src/Console/Run/Ready.antt =====
-- What runCmd (cmd/console/run.go) has seen when it comes to node.Run.
use cess_scheduler.Prelude.{ℕ, ◌≤◌, ◌≡◌, ◌⊎◌, Bytes, false, none, List}
use mathlib.Core.List.{Memᴰ}
use cess_scheduler.Chain.Types.{SchedulerInfo}
use cess_scheduler.Chain.Client.{Client, Link}
use cess_scheduler.Chain.Query.{found}
use cess_scheduler.Config.{System, Confile}
use cess_scheduler.Console.Run.Admission.{Listed, RegisteredNow}
use cess_scheduler.Console.Run.{Boot, minimum_balance}

-- What a chain that accepts the service looks like: the balance, the end of the synchronization, and the
-- registration, which is old or new.
pub Accepted : System → Boot → Confile → Bytes → Type 0
Accepted sys boot cfg pk =
    ((free : ℕ) × (boot.balance ≡ found free) × (minimum_balance ≤ free))
    × ((l : Link) × Memᴰ (l, none, false) boot.syncs)
    × (((list : List SchedulerInfo) × (boot.schedulers ≡ found list) × Listed pk list)
        ⊎ RegisteredNow sys boot cfg)
