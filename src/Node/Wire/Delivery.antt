-- ===== src/Node/Wire/Delivery.antt =====
-- A file from sendSingleFile over the bytes of a connection to the handler.
use cess_scheduler.Prelude.{
  ℕ, ◌+◌, ◌^◌, ◌<◌, ◌≡◌, sym, ap, ◌∙◌, Bytes, Bool, true, false, none, some, List, [], ◌++◌, map,
  length, bytes_eq, All,
}
use mathlib.Core.List.{append-nil}
use cess_scheduler.Node.Message.{Message, build_head_msg}
use cess_scheduler.Node.Receive.{Env, Conn, Arrival, message, handler}
use cess_scheduler.Node.Receive.Guard.{IsAdmitted}
use cess_scheduler.Node.Send.{Peer, send_single_file}
use cess_scheduler.Node.Send.Transfer.{IsSteady, deliver, transfer_whole}
use cess_scheduler.Node.Wire.{Codec, Line, open_line, ReadEnd, send_msgs, read_msgs}
use cess_scheduler.Node.Wire.Frames.{Carries, read_msgs-send}
use cess_scheduler.Node.Wire.Cut.{read_msgs-nil}

-- A connection that nobody closes, whose writes succeed.
pub record IsUp (line : ℕ → Line) (is_close : ℕ → Bool) : Type 0 where
  pub opened : (k : ℕ) → line k ≡ open_line
  pub stays : (k : ℕ) → is_close k ≡ false

-- What sendMsg writes of messages that can be framed is read as these messages.
pub read-send :
    (codec : Codec) (spare : Message → Bytes) (line : ℕ → Line) (is_close : ℕ → Bool)
    (ms : List Message) (fuel : ℕ)
    → IsUp line is_close
    → All (Carries codec spare) ms
    → (read_msgs codec is_close (length ms + fuel) 0 false 0 (send_msgs codec line 0 ms)).0
      ≡ map (deliver spare) ms
read-send codec spare line is_close ms fuel up h =
    let bytes = send_msgs codec line 0 ms in
    let n = length ms + fuel in
    ap (λ (b : Bytes). (read_msgs codec is_close n 0 false 0 b).0) (sym (append-nil bytes))
    ∙ ap (λ (r : List Message × ReadEnd). r.0)
        (read_msgs-send codec spare line is_close up.opened up.stays ms fuel 0 0 0 [] h)
    ∙ ap (λ (more : List Message). map (deliver spare) ms ++ more)
        (read_msgs-nil codec is_close fuel (0 + length ms) false 0)
    ∙ append-nil (map (deliver spare) ms)

-- A file that can be opened, sent without the last mark by a peer that stays up, in messages that can be
-- framed, over a connection that stays up: what readMsg takes off the bytes that sendMsg wrote lets a
-- handler that admits the head and can write go on with what comes after, and then the file under the
-- sent name holds exactly the sender's content, no other path has changed and no file is open.
pub wire_transfer :
    (peer : Peer) (env : Env) (codec : Codec) (spare : Message → Bytes) (line : ℕ → Line)
    (is_close : ℕ → Bool) (name : Bytes) (filetype : ℕ) (content fid pkey signmsg sign : Bytes)
    (c : Conn) (rest : List Arrival) (fuel : ℕ)
    → IsUp line is_close
    → All (Carries codec spare) (send_single_file peer name fid filetype false pkey signmsg sign).0
    → IsSteady peer
    → peer.content ≡ some content
    → peer.head_notice ≡ some true
    → IsAdmitted env (build_head_msg name fid filetype false pkey signmsg sign)
    → env.can_open (env.path name) ≡ true
    → ((d : Bytes) → env.can_write (env.path name) d ≡ true)
    → env.can_stat (env.path name) ≡ true
    → length content < 2 ^ 63
    → let ms = (send_single_file peer name fid filetype false pkey signmsg sign).0 in
      let bytes = send_msgs codec line 0 ms in
      let read = (read_msgs codec is_close (length ms + fuel) 0 false 0 bytes).0 in
      let p = env.path name in
      (c' : Conn) × (handler env c (map message read ++ rest) ≡ handler env c' rest)
      × (c'.disk p ≡ content)
      × ((q : Bytes) → bytes_eq p q ≡ false → c'.disk q ≡ c.disk q)
      × (c'.fs ≡ none)
wire_transfer peer env codec spare line is_close name filetype content fid pkey signmsg sign c rest
      fuel up framed steady hc hn adm can w stat small =
    let ms = (send_single_file peer name fid filetype false pkey signmsg sign).0 in
    let (c', run, disk, others, fs) =
      transfer_whole peer env spare name filetype content fid pkey signmsg sign c rest steady hc hn
        adm can w stat small in
    let same = read-send codec spare line is_close ms fuel up framed in
    (
      c',
      ap (λ (l : List Message). handler env c (map message l ++ rest)) same ∙ run,
      disk,
      others,
      fs,
    )
