-- ===== src/Node/Wire.antt =====
-- node/transfer.go: TcpCon.sendMsg and TcpCon.readMsg, which put messages on a connection and take them
-- off; ConnectionFiltering of node/node.go. encoding/json is a `Codec`. What a connection carries one way
-- is a byte string; behind its last byte every read gives io.EOF. A write that fails is taken to write
-- nothing. Left out are the JSON text null, which leaves a nil message, and a message without the field of
-- its bytes, which keeps the buffer that it had from the pool.
use cess_scheduler.Prelude.{
  ℕ, zero, suc, ◌+◌, ◌*◌, ◌/◌, ◌%◌, ◌^◌, Bytes, Bool, true, false, Option, none, some, List, [],
  ◌∷◌, ◌++◌, ◌||◌, length, take, drop, leb, ltb, ◌==◌, if◌then◌else◌, str, bytes_eq,
}
use cess_scheduler.Proof.Modular.{set_bytes}
use cess_scheduler.Node.Message.{Message}
pub mod Frames
pub mod Cut
pub mod Filter
pub mod Delivery

pub record Codec : Type 0 where
  pub marshal : Message → Option Bytes
  pub unmarshal : Bytes → Option Message

abbrev pub head_file : Bytes
head_file = str "c100"

abbrev pub head_filler : Bytes
head_filler = str "c101"

abbrev pub tcp_read_buffer : ℕ
tcp_read_buffer = 12000

-- binary.BigEndian.PutUint32
abbrev pub put_uint32 : ℕ → Bytes
put_uint32 n = (n / 2 ^ 24 % 256) ∷ (n / 2 ^ 16 % 256) ∷ (n / 256 % 256) ∷ (n % 256) ∷ []

-- What one round of sendMsg writes. The slice of the buffer panics where the data does not fit into it.
unfoldable pub frame : Codec → Message → Option Bytes
frame codec m = elim (codec.marshal m) [
  | none ↦ none
  | some d ↦
      if leb (8 + length d) tcp_read_buffer
      then some (head_filler ++ (put_uint32 (length d % 2 ^ 32) ++ d))
      else none
]

-- The loop of sendMsg over the messages that are sent, and how each round finds the connection: closed,
-- or open to a write that succeeds or fails. The bytes that were written.
pub data Line : Type 0 where
  open_line broken_line closed_line : Line

abbrev pub written : Option Bytes → Bytes → Bytes
written none rest = []
written (some b) rest = b ++ rest

unfoldable pub send_msgs : Codec → (ℕ → Line) → ℕ → List Message → Bytes
unfolding frame
send_msgs codec line k [] = []
send_msgs codec line k (m ∷ ms) = elim (line k) [
  | closed_line ↦ []
  | broken_line ↦ []
  | open_line ↦ written (frame codec m) (send_msgs codec line (suc k) ms)
]

-- Why readMsg returns.
pub data ReadEnd : Type 0 where
  closed cut bad_magic too_large not_json idle running : ReadEnd

-- One step of a round: on to the rest of the bytes, a message and the rest, or the end.
pub data Piece : Type 0 where
  onward : Bytes → Piece
  wait : Piece
  got : Message → Bytes → Piece
  ends : ReadEnd → Piece

-- The magic, where it is still to be read: io.EOF means that not one byte came.
unfoldable pub read_magic : Bytes → Piece
read_magic s =
    if length s == 0
    then wait
    else (if ltb (length s) 4
        then ends cut
        else (if bytes_eq (take 4 s) head_filler || bytes_eq (take 4 s) head_file
            then onward (drop 4 s)
            else ends bad_magic))

abbrev pub parsed : Option Message → Bytes → Piece
parsed none rest = ends not_json
parsed (some m) rest = got m rest

-- The data, once its size is known.
unfoldable pub read_data : Codec → ℕ → Bytes → Piece
read_data codec size s =
    if ltb tcp_read_buffer size
    then ends too_large
    else (if ltb (length s) size
        then ends cut
        else parsed (codec.unmarshal (take size s)) (drop size s))

-- From the size on.
unfoldable pub read_size : Codec → Bytes → Piece
unfolding read_data set_bytes
read_size codec s =
    if ltb (length s) 4 then ends cut else read_data codec (set_bytes (take 4 s)) (drop 4 s)

abbrev pub after_magic : Codec → Piece → Piece
after_magic codec (onward s) = read_size codec s
after_magic codec p = p

-- One round; with the flag the magic was read before.
unfoldable pub read_round : Codec → Bool → Bytes → Piece
unfolding read_magic read_size
read_round codec true s = read_size codec s
read_round codec false s = after_magic codec (read_magic s)

abbrev pub also_read : Message → List Message × ReadEnd → List Message × ReadEnd
also_read m (ms, e) = (m ∷ ms, e)

-- The loop of readMsg: the messages that it hands over, in order, and why it returned; `running` if the
-- fuel ran out. `is_close k` is what IsClose answers in round k.
unfoldable pub read_msgs : Codec → (ℕ → Bool) → ℕ → ℕ → Bool → ℕ → Bytes → List Message × ReadEnd
unfolding read_round
read_msgs codec is_close zero k flag waittime s = ([], running)
read_msgs codec is_close (suc fuel) k flag waittime s = elim (is_close k) [
  | true ↦ ([], closed)
  | false ↦ elim (read_round codec flag s) [
    | ends e ↦ ([], e)
    | wait ↦ elim (leb 10 (waittime + 1)) [
      | true ↦ ([], idle)
      | false ↦ read_msgs codec is_close fuel (suc k) false (waittime + 1) s
    ]
    | got m rest ↦ also_read m (read_msgs codec is_close fuel (suc k) false waittime rest)
    | onward rest ↦ ([], running)
  ]
]

-- ConnectionFiltering, and what it leaves on the connection.
unfoldable pub connection_filtering : Bytes → Bool × Bytes
connection_filtering s =
    if ltb (length s) 4 then (false, []) else (bytes_eq (take 4 s) head_file, drop 4 s)
