-- ===== src/Node/Send.antt =====
-- node/handler.go: ConMgr.sendSingleFile, which sends one file and waits for two notifications. The
-- file, the notifications and the buffers of the pools are a `Peer`.
use cess_scheduler.Prelude.{
  ℕ, zero, suc, ◌+◌, Bytes, Bool, true, false, Option, none, some, List, [], ◌∷◌, ◌++◌, length,
  take, drop, ◌==◌, if◌then◌else◌,
}
use cess_scheduler.Node.Message.{
  Message, build_head_msg, build_file_msg, build_end_msg, tcp_send_buffer,
}
pub mod Transfer

-- `content` is `none` if the file cannot be opened. A notification is `none` if its timer fires first.
-- `closed k` and `read_err k` are what IsClose and Read answer in round k.
pub record Peer : Type 0 where
  pub content : Option Bytes
  pub head_notice : Option Bool
  pub end_notice : Option Bool
  pub closed : ℕ → Bool
  pub read_err : ℕ → Bool
  pub send_buf : ℕ → Bytes
  pub tag_buf : ℕ → Bytes

pub data SendError : Type 0 where
  open_failed head_failed head_timeout read_failed end_failed end_timeout : SendError

-- The loop that reads the file: the messages, and whether a read failed. `rest` is what is unread;
-- each round reads a buffer full or what is left.
unfoldable pub send_chunks : ℕ → ℕ → Peer → Bytes → ℕ → Bytes → List Message × Bool
send_chunks zero k peer name filetype rest = ([], false)
send_chunks (suc fuel) k peer name filetype rest =
    let n = length (take tcp_send_buffer rest) in
    let m =
      build_file_msg name filetype n (take tcp_send_buffer rest) (peer.send_buf k)
        (peer.tag_buf k) in
    let later = send_chunks fuel (suc k) peer name filetype (drop tcp_send_buffer rest) in
    elim (peer.closed k) [
      | true ↦ ([], false)
      | false ↦ elim (peer.read_err k) [
        | true ↦ ([], true)
        | false ↦ elim (n == 0) [ true ↦ ([], false) | false ↦ (m ∷ later.0, later.1) ]
      ]
    ]

-- What the select on the last notification returns.
abbrev end_result : Option Bool → Option SendError
end_result none = some end_timeout
end_result (some false) = some end_failed
end_result (some true) = none

-- From the head's notification on. The fuel is one round more than the file has bytes.
unfoldable pub send_body : Peer → Bytes → Bytes → ℕ → Bool → Bytes → List Message × Option SendError
unfolding send_chunks
send_body peer name fid filetype lastmark content =
    let (ms, failed) = send_chunks (suc (length content)) 0 peer name filetype content in
    if failed
    then (ms, some read_failed)
    else ((
      ms ++ build_end_msg filetype name fid (length content) lastmark ∷ [],
      end_result peer.end_notice,
    ))

-- From the opening of the file on, by its content and the head's notification.
unfoldable pub send_opened :
    Peer
    → Bytes
    → Bytes
    → ℕ
    → Bool
    → Message
    → Option Bytes
    → Option Bool
    → List Message × Option SendError
unfolding send_body
send_opened peer name fid filetype lastmark h none notice = ([], some open_failed)
send_opened peer name fid filetype lastmark h (some content) none = (h ∷ [], some head_timeout)
send_opened peer name fid filetype lastmark h (some content) (some false) =
    (h ∷ [], some head_failed)
send_opened peer name fid filetype lastmark h (some content) (some true) =
    let (ms, e) = send_body peer name fid filetype lastmark content in (h ∷ ms, e)

-- The messages that were sent, in order, and the error. `name` is the name of the file on the disk.
unfoldable pub send_single_file :
    Peer → Bytes → Bytes → ℕ → Bool → Bytes → Bytes → Bytes → List Message × Option SendError
unfolding send_opened
send_single_file peer name fid filetype lastmark pkey signmsg sign =
    send_opened peer name fid filetype lastmark
      (build_head_msg name fid filetype lastmark pkey signmsg sign) peer.content peer.head_notice
