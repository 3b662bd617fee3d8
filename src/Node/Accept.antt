-- ===== src/Node/Accept.antt =====
-- The loop of Node.Run (node/node.go), which accepts connections, and the black list of node/param.go.
use cess_scheduler.Prelude.{
  ℕ, ◌+◌, ◌-◌, ◌*◌, ◌/◌, Bytes, Bool, true, false, Option, none, some, List, [], ◌∷◌, ltb, ◌==◌,
  if◌then◌else◌,
}
use cess_scheduler.Node.Wire.{connection_filtering}
pub mod Served

-- What AcceptTCP gives: a connection, by a number, with the chain state when it is looked at and the bytes that come
-- on it; an error; or that the listener is closed.
pub data Incoming : Type 0 where
  connection : ℕ → Bool → Bytes → Incoming
  accept_error : Incoming
  listener_closed : Incoming

-- What becomes of a connection; `served` carries what a server finds on it.
pub data Fate : Type 0 where
  no_chain : Fate
  filtered_out : Fate
  served : Bytes → Fate

abbrev pub filtered : Bool × Bytes → Fate
filtered (true, rest) = served rest
filtered (false, rest) = filtered_out

unfoldable pub fate_of : Bool → Bytes → Fate
unfolding connection_filtering
fate_of false s = no_chain
fate_of true s = filtered (connection_filtering s)

-- The connections with what became of them, and whether the process exits.
unfoldable pub run_loop : List Incoming → List (ℕ × Fate) × Bool
unfolding fate_of
run_loop [] = ([], false)
run_loop (connection c up s ∷ rest) =
    let (fates, exits) = run_loop rest in ((c, fate_of up s) ∷ fates, exits)
run_loop (accept_error ∷ rest) = run_loop rest
run_loop (listener_closed ∷ rest) = ([], true)

-- The black list: the second at which a miner was put on it.
abbrev pub BlacklistMiner : Type 0
BlacklistMiner = ℕ → Option ℕ

abbrev set_entry : ℕ → Option ℕ → BlacklistMiner → BlacklistMiner
set_entry id e b other = if id == other then e else b other

abbrev pub second : ℕ
second = 1000000000

-- At a time in nanoseconds.
unfoldable pub add : ℕ → ℕ → BlacklistMiner → BlacklistMiner
add now id b = set_entry id (some (now / second)) b

unfoldable pub delete : ℕ → BlacklistMiner → BlacklistMiner
delete id b = set_entry id none b

-- The entry is deleted once it is older than ten seconds.
unfoldable pub is_exist : ℕ → ℕ → BlacklistMiner → BlacklistMiner × Bool
unfolding delete
is_exist now id b = elim (b id) [
  | none ↦ (b, false)
  | some v ↦ if ltb (10 * second) (now - v * second) then (delete id b, false) else (b, true)
]
