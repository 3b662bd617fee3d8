-- ===== src/Node/Receive.antt =====
-- node/handler.go: ConMgr.handler, the loop that serves one connection. What the handler asks of the
-- chain, the disk, the cache and the libraries is an `Env`; what it does is in a `Conn`. The buffers that
-- go back to a pool are left out.
use cess_scheduler.Prelude.{
  ℕ, zero, suc, ◌+◌, ◌^◌, Bytes, Bool, true, false, Option, none, some, List, [], ◌∷◌, ◌++◌, ◌&&◌,
  length, take, ◌==◌, leb, ltb, if◌then◌else◌, bytes_eq, str,
}
use cess_scheduler.Chain.Types.{file_state_active}
use cess_scheduler.Proof.Modular.{set_bytes}
use cess_scheduler.Utils.Address.{Crypto}
use cess_scheduler.Node.Message.{
  MsgType, Message, invalid, head, file, end, notify, close, recv_head, recv_file, file_st, version,
  unknown, status_ok, status_err, build_notify_msg, build_close_msg, build_file_st_msg,
  build_version_msg,
}
use cess_scheduler.Node.Checks.{Metas, FileState, get_file_state, verify_sign}
pub mod Guard
pub mod Upload
pub mod Protocol
pub mod Refinement

-- `metas fid` are the answers of the chain about a file, `path` joins the directory and a name,
-- `can_open`, `can_write` and `can_stat` say whether the calls succeed, and `cached` is the value of a
-- key, empty where there is none.
pub record Env : Type 0 where
  pub crypto : Crypto
  pub keyring : Bytes → Bytes → Bytes → Bool
  pub metas : Bytes → Metas
  pub path : Bytes → Bytes
  pub can_open : Bytes → Bool
  pub can_write : Bytes → Bytes → Bool
  pub can_stat : Bytes → Bool
  pub cached : Bytes → Bytes
  pub glob : Bytes → List Bytes

-- A call of FileBackupManagement in a goroutine of its own; the size is a 64-bit pattern.
pub record Backup : Type 0 where
  pub fid : Bytes
  pub fsize : ℕ
  pub chunks : List Bytes

-- `fs` is the path of the open file. `wait_notify` is the channel of that name, which holds one
-- value. `sent` and `backups` grow at the end.
pub record Conn : Type 0 where
  pub file_name : Bytes
  pub fs : Option Bytes
  pub wait_notify : Option Bool
  pub disk : Bytes → Bytes
  pub sent : List Message
  pub backups : List Backup

pub data HandlerError : Type 0 where
  signature_error get_file_state_error file_uploaded open_error file_not_open : HandlerError
  file_write_failed invalid_file size_mismatch close_message invalid_msg_type get_msg_failed :
      HandlerError

-- One message goes on to the next, ends the handler, panics, or blocks on a full channel.
pub data Step : Type 0 where
  next : Conn → Step
  exit : Conn → HandlerError → Step
  panics : Conn → Step
  blocks : Conn → Step

abbrev pub send : Message → Conn → Conn
send m c = record c { sent = c.sent ++ m ∷ [] }

abbrev pub write_file : Bytes → Bytes → Conn → Conn
write_file p content c = record c { disk = λ q. if bytes_eq p q then content else c.disk q }

abbrev pub refuse : Conn → HandlerError → Step
refuse c e = exit (send (build_notify_msg [] status_err []) c) e

-- The file is created and truncated.
unfoldable pub create_file : Env → Conn → Message → Step
create_file env c m =
    let c' = record c { file_name = m.file_name } in
    let p = env.path m.file_name in
    if env.can_open p
    then (next (
        send (build_notify_msg m.file_name status_ok [])
          (record (write_file p [] c') { fs = some p })))
    else refuse (record c' { fs = none }) open_error

-- GetFileState, and the refusal of a file that is active.
unfoldable pub check_state : Env → Conn → Message → FileState → Step
unfolding create_file
check_state env c m (FileState.unknown e) = refuse c get_file_state_error
check_state env c m (FileState.state s) =
    if bytes_eq s file_state_active then refuse c file_uploaded else create_file env c m

unfoldable pub handle_head : Env → Conn → Message → Step
unfolding check_state
handle_head env c m = elim (verify_sign env.crypto env.keyring m.pubkey m.signmsg m.sign) [
  | none ↦ refuse c signature_error
  | some false ↦ refuse c signature_error
  | some true ↦ check_state env c m (get_file_state (env.metas m.file_hash))
]

-- m.Bytes[:m.FileSize] may reach up to the capacity; beyond it the slice panics. A write that fails is
-- taken to leave the file alone.
unfoldable pub write_chunk : Env → Conn → Message → Option Bytes → Step
write_chunk env c m none = exit (send (build_close_msg status_err) c) file_not_open
write_chunk env c m (some p) =
    if leb m.file_size (length m.bytes + length m.slack)
    then (let piece = take m.file_size (m.bytes ++ m.slack) in
        if env.can_write p piece
        then next (write_file p (c.disk p ++ piece) c)
        else exit (send (build_close_msg status_err) c) file_write_failed)
    else panics c

unfoldable pub handle_file : Env → Conn → Message → Step
unfolding write_chunk
handle_file env c m = write_chunk env c m c.fs

-- After the last file: BigEndian.Uint64 panics on fewer than eight bytes.
unfoldable pub start_backup : Env → Conn → Message → Step
unfolding set_bytes
start_backup env c m =
    if m.last_mark
    then (if leb 8 (length m.signmsg)
        then (next (record c {
          backups =
              c.backups
              ++ record {
                fid = m.file_hash;
                fsize = set_bytes (take 8 m.signmsg);
                chunks = env.glob m.file_hash;
              }
                ∷ [];
        }))
        else panics c)
    else next c

-- The size on the disk against int64(m.FileSize). Stat of a nil file is an error.
unfoldable pub close_file : Env → Conn → Message → Option Bytes → Step
unfolding start_backup
close_file env c m none = refuse c invalid_file
close_file env c m (some p) =
    if env.can_stat p
    then (if ltb m.file_size (2 ^ 63) && (length (c.disk p) == m.file_size)
        then (start_backup env
            (record (send (build_notify_msg c.file_name status_ok []) c) { fs = none }) m)
        else refuse c size_mismatch)
    else refuse c invalid_file

unfoldable pub handle_end : Env → Conn → Message → Step
unfolding close_file
handle_end env c m = close_file env c m c.fs

-- c.waitNotify <- m.Bytes[0] == byte(Status_Ok)
unfoldable pub notify_waiting : Conn → Bytes → Option Bool → Step
notify_waiting c [] waiting = panics c
notify_waiting c (b ∷ bs) (some v) = blocks c
notify_waiting c (b ∷ bs) none = next (record c { wait_notify = some (b == 0) })

unfoldable pub handle_file_st : Env → Conn → Message → Step
handle_file_st env c m = next (
    send (build_notify_msg [] status_ok [])
      (send (build_file_st_msg m.file_hash (env.cached m.file_hash)) c))

abbrev pub program_version : Bytes
program_version = str "v0.5.4 230213.1138 dev"

-- The switch.
unfoldable pub dispatch : MsgType → Env → Conn → Message → Step
unfolding handle_head handle_file handle_end notify_waiting handle_file_st
dispatch head env c m = handle_head env c m
dispatch file_st env c m = handle_file_st env c m
dispatch file env c m = handle_file env c m
dispatch end env c m = handle_end env c m
dispatch notify env c m = notify_waiting c m.bytes c.wait_notify
dispatch close env c m = exit c close_message
dispatch version env c m = next (send (build_version_msg program_version) c)
dispatch _ env c m = exit c invalid_msg_type

unfoldable pub handle : Env → Conn → Message → Step
unfolding dispatch
handle env c m = dispatch m.msg_type env c m

-- What GetMsg gives: a message, nothing within its time, or a closed channel.
pub data Arrival : Type 0 where
  message : Message → Arrival
  nothing : Arrival
  closed : Arrival

-- How the handler ended; `finished` where the connection was found closed.
pub data Ended : Type 0 where
  finished : Conn → Ended
  failed : Conn → HandlerError → Ended
  panicked : Conn → Ended
  blocked : Conn → Ended

abbrev pub final : Ended → Conn
final (finished c) = c
final (failed c e) = c
final (panicked c) = c
final (blocked c) = c

-- The loop `for !c.conn.IsClose()`; the connection is closed after all that is listed.
unfoldable pub handler : Env → Conn → List Arrival → Ended
handler env c [] = finished c
handler env c (message m ∷ rest) = elim (handle env c m) [
  | next c' ↦ handler env c' rest
  | exit c' e ↦ failed c' e
  | panics c' ↦ panicked c'
  | blocks c' ↦ blocked c'
]
handler env c (nothing ∷ rest) = handler env c rest
handler env c (closed ∷ rest) = failed c get_msg_failed
