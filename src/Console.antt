-- ===== src/Console.antt =====
-- cmd/console/update.go: updateCmd, which changes the address of the scheduler on the chain. What is printed
-- is left out.
use cess_scheduler.Prelude.{
  ℕ, ◌+◌, ◌-◌, ◌^◌, Bytes, Bool, true, false, Option, none, some, List, [], ◌∷◌, ◌||◌, ltb, leb,
  ◌==◌, if◌then◌else◌,
}
use cess_scheduler.Utils.Text.{magnitude, atoi, is_ipv4}
use cess_scheduler.Chain.Client.{Client, Link}
use cess_scheduler.Chain.Submit.{Network, Outcome, update}
pub mod Port
pub mod Startup
pub mod Directories
pub mod Run

abbrev fits : ℕ → Option ℕ → Bool
fits bound none = false
fits bound (some n) = leb n bound

-- Whether strconv.Atoi has no error.
unfoldable pub is_int : Bytes → Bool
unfolding magnitude
is_int [] = false
is_int (c ∷ s) =
    if c == b'-'
    then fits (2 ^ 63) (magnitude s)
    else (if c == b'+'
        then fits (2 ^ 63 - 1) (magnitude s)
        else fits (2 ^ 63 - 1) (magnitude (c ∷ s)))

-- Why the command exits, or what Update did.
pub data Command : Type 0 where
  usage bad_address bad_number bad_range bad_config no_client : Command
  updated : Outcome → Command

-- From the address and the port on. A port below 0 is a number above 65535.
unfoldable pub update_address :
    (Bytes → Bytes)
    → (Bytes → Bool)
    → Network
    → Option Client
    → Link
    → Bool
    → Bytes
    → Bytes
    → Command
unfolding is_int is_ipv4 atoi update
update_address hex parsed w client l configured ip port =
    if is_ipv4 parsed ip
    then (if is_int port
        then (if ltb (atoi port) 1025 || ltb 65535 (atoi port)
            then bad_range
            else (if configured
                then elim client [
                  | none ↦ no_client
                  | some c ↦ updated (update hex parsed w c l ip port)
                ]
                else bad_config))
        else bad_number)
    else bad_address

-- `args` is os.Args, `configured` says that Parse has no error, `client` is what NewChainClient gives.
unfoldable pub update_cmd :
    (Bytes → Bytes) → (Bytes → Bool) → Network → Option Client → Link → Bool → List Bytes → Command
unfolding update_address
update_cmd hex parsed w client l configured (a ∷ b ∷ ip ∷ port ∷ rest) =
    update_address hex parsed w client l configured ip port
update_cmd hex parsed w client l configured _ = usage
