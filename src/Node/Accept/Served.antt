-- ===== src/Node/Accept/Served.antt =====
-- The connections that Node.Run (node/node.go) hands to a server.
use cess_scheduler.Prelude.{
  ℕ, ◌≡◌, refl, sym, ap, inl, inr, Bytes, Bool, true, false, List, [], ◌∷◌,
}
use mathlib.Core.Path.{subst}
use mathlib.Core.List.{Memᴰ}
use mathlib.Core.List.Memᴰ
use cess_scheduler.Node.Wire.{Codec, read_msgs, connection_filtering}
use cess_scheduler.Node.Wire.Filter.{filtered_stream_same}
use cess_scheduler.Node.Accept.{
  Incoming, connection, accept_error, listener_closed, Fate, served, fate_of, filtered, run_loop,
}

served-inj : {a b : Bytes} → served a ≡ served b → a ≡ b
served-inj h = cc

filtered_lem : (r : Bool × Bytes) (rest : Bytes) → filtered r ≡ served rest → r ≡ (true, rest)
filtered_lem (true, left) rest h = ap (λ t. (true, t)) (served-inj h)
filtered_lem (false, left) rest h = cc

fate_served :
    (up : Bool) (s rest : Bytes)
    → fate_of up s ≡ served rest
    → (up ≡ true) × (connection_filtering s ≡ (true, rest))
unfolding fate_of
fate_served false s rest h = cc
fate_served true s rest h = (refl, filtered_lem (connection_filtering s) rest h)

served_from :
    (incoming : List Incoming) (c : ℕ) (rest : Bytes)
    → Memᴰ (c, served rest) (run_loop incoming).0
    → (up : Bool) × (s : Bytes) × Memᴰ (connection c up s) incoming × (fate_of up s ≡ served rest)
unfolding run_loop
served_from [] c rest m = absurd (Memᴰ.not-nil m)
served_from (connection d up s ∷ more) c rest m = elim (Memᴰ.cases_cons m) [
  | inl e ↦ (
    up,
    s,
    Memᴰ.head (ap (λ t. connection t up s) (ap (λ (r : ℕ × Fate). r.0) e)),
    sym (ap (λ (r : ℕ × Fate). r.1) e),
  )
  | inr later ↦ let (up', s', m', e) = served_from more c rest later in (up', s', Memᴰ.tail m', e)
]
served_from (accept_error ∷ more) c rest m =
    let (up', s', m', e) = served_from more c rest m in (up', s', Memᴰ.tail m', e)
served_from (listener_closed ∷ more) c rest m = absurd (Memᴰ.not-nil m)

-- A connection that Node.Run hands to a server was accepted while the chain state was up, and the server,
-- whose readMsg is told that the first magic is gone, reads on it the same messages and ends for the same reason as
-- a readMsg that reads all the bytes of the connection from their start, in as many rounds.
pub served_reads_all :
    (codec : Codec) (is_close : ℕ → Bool) (fuel : ℕ) (incoming : List Incoming) (c : ℕ)
    (rest : Bytes)
    → Memᴰ (c, served rest) (run_loop incoming).0
    → (s : Bytes) × Memᴰ (connection c true s) incoming
      × (read_msgs codec is_close fuel 0 true 0 rest ≡ read_msgs codec is_close fuel 0 false 0 s)
served_reads_all codec is_close fuel incoming c rest m =
    let (up, s, m', e) = served_from incoming c rest m in
    let (is_up, passes) = fate_served up s rest e in
    (
      s,
      subst (λ u. Memᴰ (connection c u s) incoming) is_up m',
      filtered_stream_same codec is_close fuel s rest passes,
    )
