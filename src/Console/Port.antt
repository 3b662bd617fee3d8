-- ===== src/Console/Port.antt =====
-- The port that the command update puts on the chain.
use cess_scheduler.Prelude.{◌≤◌, ◌≡◌, Bytes, Bool, true, Option, some}
use cess_scheduler.Utils.Text.{atoi, is_ipv4}
use cess_scheduler.Chain.Client.{Client, Link}
use cess_scheduler.Chain.Submit.{Network, Outcome, update}

-- What the command does to the chain: Update, of these two arguments.
record Updates (hex : Bytes → Bytes) (parsed : Bytes → Bool) (w : Network) (client : Option Client)
    (l : Link) (ip port : Bytes) (o : Outcome) : Type 0 where
  c : Client
  connected : client ≡ some c
  outcome : o ≡ update hex parsed w c l ip port
  address : is_ipv4 parsed ip ≡ true
  low : 1025 ≤ atoi port
  high : atoi port ≤ 65535
