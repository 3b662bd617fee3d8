-- ===== src/Chain/Client.antt =====
-- pkg/chain/client.go: the connection of the client. `api` says whether the field of that name is
-- set; the connection itself is the library's. Its answers to one call are a `Link`, those to NewChainClient a
-- `Connection`.
use cess_scheduler.Prelude.{
  Bytes, Bool, true, false, Option, none, some, [], ◌∷◌, ◌&&◌, if◌then◌else◌,
}
pub mod Laws

pub record Client : Type 0 where
  pub api : Bool
  pub chain_state : Bool

-- What the library answers while one method runs: System.Health succeeds; NewSubstrateAPI succeeds.
pub record Link : Type 0 where
  pub health : Bool
  pub reconnect : Bool

-- healthchek: with no api the call panics, the deferred recover stops the panic, and the error
-- that is returned is nil.
unfoldable pub healthchek : Client → Link → Bool
healthchek c l = if c.api then l.health else true

unfoldable pub is_chain_client_ok : Client → Link → Client × Bool
unfolding healthchek
is_chain_client_ok c l =
    if healthchek c l
    then (c, true)
    else (if l.reconnect
        then (record c { api = true }, true)
        else (record c { api = false }, false))

unfoldable pub set_chain_state : Client → Bool → Client
set_chain_state c state = record c { chain_state = state }

unfoldable pub get_chain_state : Client → Bool
get_chain_state c = c.chain_state

-- The opening lines of every query and transaction: the connection is checked and its state kept.
unfoldable pub open_call : Client → Link → Client × Bool
unfolding is_chain_client_ok set_chain_state
open_call c l = let (c', ok) = is_chain_client_ok c l in (set_chain_state c' ok, ok)

-- What the library answers while NewChainClient runs: the calls that succeed, and the public key of a secret.
pub record Connection : Type 0 where
  pub api : Bool
  pub metadata : Bool
  pub genesis_hash : Bool
  pub runtime_version : Bool
  pub key_events : Bool
  pub keyring : Bytes → Option Bytes

-- A client and its public key.
abbrev pub OwnClient : Type 0
OwnClient = Client × Bytes

abbrev connected : Client
connected = record { api = true; chain_state = true }

-- An empty secret leaves the keyring, and with it the public key, empty.
unfoldable pub new_chain_client : Connection → Bytes → Option OwnClient
new_chain_client conn secret =
    if conn.api
      && (conn.metadata && (conn.genesis_hash && (conn.runtime_version && conn.key_events)))
    then elim secret [
      | [] ↦ some (connected, [])
      | c ∷ s ↦ elim (conn.keyring (c ∷ s)) [ none ↦ none | some pk ↦ some (connected, pk) ]
    ]
    else none

-- NewAccountId dereferences what types.NewAccountID gives, which is nil with an error (`failed`).
unfoldable pub own_account_id : Bool → Bytes → Option Bytes
own_account_id failed pubkey = if failed then none else some pubkey
