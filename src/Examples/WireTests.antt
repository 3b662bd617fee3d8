-- ===== src/Examples/WireTests.antt =====
-- The bytes of a connection (node/transfer.go).
use cess_scheduler.Prelude.{
  List, ℕ, ◌+◌, if◌then◌else◌, ◌≡◌, refl, Bytes, true, false, Option, none, some, [], ◌∷◌, ◌++◌,
  map, arith, str, bytes_eq, All, length,
}
use cess_scheduler.Node.Message.{
  Message, MsgType, head, file, end, build_head_msg, build_file_msg, build_end_msg,
}
use cess_scheduler.Node.Receive.{Conn, handler, message}
use cess_scheduler.Node.Send.{send_single_file, send_chunks, send_body, send_opened}
use cess_scheduler.Node.Send.Transfer.{deliver}
use cess_scheduler.Node.Wire.{
  Codec, Line, open_line, cut, send_msgs, read_magic, read_size, read_data, read_round, read_msgs,
  connection_filtering,
}
use cess_scheduler.Proof.Modular.{set_bytes}
use cess_scheduler.Node.Wire.Frames.{Carries}
use cess_scheduler.Node.Wire.Cut.{IsPrefix, cut_stream_prefix}
use cess_scheduler.Node.Wire.Filter.{filtered_stream_same}
use cess_scheduler.Node.Wire.Delivery.{wire_transfer}
use mathlib.Core.List.{Memᴰ}
use cess_scheduler.Node.Accept.{
  Incoming, connection, accept_error, listener_closed, no_chain, filtered_out, served, run_loop,
  add, is_exist,
}
use cess_scheduler.Node.Accept.Served.{served_reads_all}
use cess_scheduler.Examples.NodeTests.{
  env, conn, key32, signature, peer, peer-IsSteady, IsAdmitted-peer,
}

-- The messages of a file that holds "hello".
abbrev head_of : Message
head_of = build_head_msg (str "f") (str "h") 1 false key32 (1 ∷ []) signature

abbrev piece_of : Message
piece_of = build_file_msg (str "f") 1 5 (str "hello") (peer.send_buf 0) (peer.tag_buf 0)

abbrev end_of : Message
end_of = build_end_msg 1 (str "f") (str "h") 5 false

abbrev spare : Message → Bytes
spare m = 5 ∷ []

abbrev text_of : MsgType → Option Bytes
text_of head = some (1 ∷ [])
text_of file = some (2 ∷ 2 ∷ [])
text_of end = some (3 ∷ [])
text_of t = none

abbrev message_of : Bytes → Option Message
message_of t =
    if bytes_eq t (1 ∷ [])
    then some (deliver spare head_of)
    else (if bytes_eq t (2 ∷ 2 ∷ [])
        then some (deliver spare piece_of)
        else (if bytes_eq t (3 ∷ []) then some (deliver spare end_of) else none))

abbrev short : Codec
short = record { marshal = λ m. text_of m.msg_type; unmarshal = message_of }

abbrev up : ℕ → Line
up k = open_line

hello-Carries :
    All
      (Carries short spare)
      (send_single_file peer (str "f") (str "h") 1 false key32 (1 ∷ []) signature).0
unfolding send_single_file send_opened send_body send_chunks build_head_msg build_file_msg
    build_end_msg
hello-Carries = (
  record { text = 1 ∷ []; marshalled = refl; fits = omega arith; unmarshalled = refl },
  (
    record { text = 2 ∷ 2 ∷ []; marshalled = refl; fits = omega arith; unmarshalled = refl },
    (record { text = 3 ∷ []; marshalled = refl; fits = omega arith; unmarshalled = refl }, tt),
  ),
)

wire_transfer_example :
    let ms = (send_single_file peer (str "f") (str "h") 1 false key32 (1 ∷ []) signature).0 in
    let bytes = send_msgs short up 0 ms in
    let read = (read_msgs short (λ k. false) (length ms + 0) 0 false 0 bytes).0 in
    let p = str "dir/f" in
    (c' : Conn) × (handler env conn (map message read ++ []) ≡ handler env c' [])
    × (c'.disk p ≡ str "hello")
    × ((q : Bytes) → bytes_eq p q ≡ false → c'.disk q ≡ conn.disk q)
    × (c'.fs ≡ none)
wire_transfer_example =
    wire_transfer peer env short spare up (λ k. false) (str "f") 1 (str "hello") (str "h") key32
      (1 ∷ []) signature conn [] 0 (record { opened = λ k. refl; stays = λ k. refl }) hello-Carries
      peer-IsSteady refl refl IsAdmitted-peer refl (λ d. refl) refl (omega arith)

-- A head and the first three bytes of an end.
abbrev some_bytes : Bytes
some_bytes = str "c101" ++ (0 ∷ 0 ∷ 0 ∷ 1 ∷ 1 ∷ []) ++ str "c10"

cut_stream_prefix_example :
    IsPrefix
      (read_msgs short (λ k. false) 9 0 false 0 some_bytes).0
      (read_msgs short (λ k. false) 9 0 false 0 (some_bytes ++ str "1")).0
cut_stream_prefix_example = cut_stream_prefix short (λ k. false) 9 0 false 0 some_bytes (str "1")

read_cut : read_msgs short (λ k. false) 9 0 false 0 some_bytes ≡ (deliver spare head_of ∷ [], cut)
unfolding read_msgs read_round read_magic read_size read_data set_bytes
read_cut = refl

filtered : connection_filtering (str "c100rest") ≡ (true, str "rest")
unfolding connection_filtering
filtered = refl

-- A head, behind the magic of a file.
abbrev file_bytes : Bytes
file_bytes = 0 ∷ 0 ∷ 0 ∷ 1 ∷ 1 ∷ []

same_stream :
    read_msgs short (λ k. false) 2 0 true 0 file_bytes
    ≡ read_msgs short (λ k. false) 2 0 false 0 (str "c100" ++ file_bytes)
unfolding connection_filtering
same_stream = filtered_stream_same short (λ k. false) 2 (str "c100" ++ file_bytes) file_bytes refl

abbrev arrivals : List Incoming
arrivals =
    connection 1 false (str "c100")
    ∷ accept_error
    ∷ connection 2 true (str "c101")
    ∷ connection 3 true (str "c100" ++ file_bytes)
    ∷ listener_closed
    ∷ connection 4 true (str "c100")
    ∷ []

accepted_one :
    run_loop arrivals ≡ ((1, no_chain) ∷ (2, filtered_out) ∷ (3, served file_bytes) ∷ [], true)
unfolding run_loop connection_filtering
accepted_one = refl

served_reads_all_example :
    (s : Bytes) × Memᴰ (connection 3 true s) arrivals
    × (read_msgs short (λ k. false) 2 0 true 0 file_bytes
        ≡ read_msgs short (λ k. false) 2 0 false 0 s)
unfolding run_loop connection_filtering
served_reads_all_example =
    served_reads_all short (λ k. false) 2 arrivals 3 file_bytes
      (Memᴰ.tail (Memᴰ.tail (Memᴰ.head refl)))

-- The black list forgets after ten seconds.
black_list :
    ((is_exist 12500000000 7 (add 2500000000 7 (λ id. none))).1 ≡ false)
    × ((is_exist 11500000000 7 (add 2500000000 7 (λ id. none))).1 ≡ true)
unfolding is_exist add
black_list = (refl, refl)
