-- ===== src/Node/Receive/Protocol.antt =====
-- The upload protocol behind ConMgr.handler (node/handler.go), without notifications, buffers, errors and
-- panics: which file is open, what the files hold, and which backups were started.
use cess_scheduler.Prelude.{
  ◌+◌, ◌≤◌, ◌≡◌, Bytes, false, Option, none, some, List, [], ◌∷◌, ◌++◌, length, take, leb, bytes_eq,
  if◌then◌else◌,
}
use cess_scheduler.Proof.Modular.{set_bytes}
use cess_scheduler.Node.Message.{Message, head, file, end}
use cess_scheduler.Node.Receive.{Env, Backup, Conn, Arrival, message, nothing}
use cess_scheduler.Node.Receive.Guard.{IsAdmitted}

pub record View : Type 0 where
  pub open_path : Option Bytes
  pub store : Bytes → Bytes
  pub backups : List Backup

-- What a connection shows of itself.
abbrev pub view : Conn → View
view c = record { open_path = c.fs; store = c.disk; backups = c.backups }

-- The files, one of them replaced.
abbrev pub replaced : Bytes → Bytes → (Bytes → Bytes) → Bytes → Bytes
replaced p content store q = if bytes_eq p q then content else store q

-- The backups after a file was completed: one more for a last file that carries a size.
abbrev pub launched : Env → Message → List Backup → List Backup
launched env m bs =
    if m.last_mark
    then (if leb 8 (length m.signmsg)
        then bs
          ++ record {
            fid = m.file_hash;
            fsize = set_bytes (take 8 m.signmsg);
            chunks = env.glob m.file_hash;
          }
            ∷ []
        else bs)
    else bs

-- One message of the protocol: it empties and opens a file, fails to, appends to the open file, completes
-- it, or is passed over.
pub data Upload (env : Env) (m : Message) : View → View → Type 0 where
  begins :
      {v : View}
      → m.msg_type ≡ head
      → IsAdmitted env m
      → Upload env m v (record v {
        open_path = some (env.path m.file_name);
        store = replaced (env.path m.file_name) [] v.store;
      })
  fails :
      {v : View}
      → m.msg_type ≡ head
      → IsAdmitted env m
      → env.can_open (env.path m.file_name) ≡ false
      → Upload env m v (record v { open_path = none })
  appends :
      {v : View} (p : Bytes)
      → m.msg_type ≡ file
      → v.open_path ≡ some p
      → m.file_size ≤ length m.bytes + length m.slack
      → Upload env m v (record v {
        store = replaced p (v.store p ++ take m.file_size (m.bytes ++ m.slack)) v.store;
      })
  completes :
      {v : View} (p : Bytes)
      → m.msg_type ≡ end
      → v.open_path ≡ some p
      → length (v.store p) ≡ m.file_size
      → Upload env m v (record v { open_path = none; backups = launched env m v.backups })
  passes : {v : View} → Upload env m v v

-- The messages of a connection in turn, until the other side or the handler ends it.
pub data Session (env : Env) : List Arrival → View → View → Type 0 where
  over : {as' : List Arrival} {v : View} → Session env as' v v
  takes :
      {m : Message} {rest : List Arrival} {v u w : View}
      → Upload env m v u
      → Session env rest u w
      → Session env (message m ∷ rest) v w
  waits :
      {rest : List Arrival} {v w : View} → Session env rest v w → Session env (nothing ∷ rest) v w
