-- ===== src/Chain/Client/Laws.antt =====
-- The state that a call leaves in the client.
use cess_scheduler.Prelude.{◌≡◌, true, false, List, [], ◌∷◌, arith}
use cess_scheduler.Chain.Client.{Client, Link, open_call}

-- A failed check leaves the client with no api, and marks the chain as down.
pub open_call_down :
    (c : Client) (l : Link)
    → (open_call c l).1 ≡ false
    → ((open_call c l).0.api ≡ false) × ((open_call c l).0.chain_state ≡ false)
unfolding open_call
open_call_down c l h = ground arith

-- With no api the check passes, whatever the link could do.
pub open_call_nil :
    (c : Client) (l : Link)
    → c.api ≡ false
    → ((open_call c l).1 ≡ true)
      × ((open_call c l).0.api ≡ false)
      × ((open_call c l).0.chain_state ≡ true)
unfolding open_call
open_call_nil c l h = ground arith

-- The calls of a client, one after the other.
unfoldable pub open_calls : Client → List Link → Client
open_calls c [] = c
open_calls c (l ∷ ls) = open_calls (open_call c l).0 ls

-- A client with an api that reaches its node keeps the api and is marked as up.
pub open_call_up :
    (c : Client) (l : Link)
    → c.api ≡ true
    → l.health ≡ true
    → ((open_call c l).1 ≡ true)
      × ((open_call c l).0.api ≡ true)
      × ((open_call c l).0.chain_state ≡ true)
unfolding open_call
open_call_up c l h g = ground arith

pub open_calls_nil : (c : Client) (ls : List Link) → c.api ≡ false → (open_calls c ls).api ≡ false
unfolding open_calls
open_calls_nil c [] h = h
open_calls_nil c (l ∷ ls) h = open_calls_nil (open_call c l).0 ls (open_call_nil c l h).1
