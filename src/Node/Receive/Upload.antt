-- ===== src/Node/Receive/Upload.antt =====
-- An upload from its head to its end, as the handler receives it.
use cess_scheduler.Prelude.{
  ◌+◌, ◌^◌, ◌<◌, ◌≤◌, ◌≡◌, refl, ap, ◌∙◌, Bytes, true, false, none, some, List, [], ◌∷◌, ◌++◌, map,
  arith, length, take, bytes_eq, bytes_eq_self, leb, ltb, ◌==◌, ◌&&◌, lt→ltb, ==_self, All,
}
use mathlib.Core.List.{flatten, append-nil, append_assoc}
use cess_scheduler.Node.Message.{Message, head, file, end, status_ok, build_notify_msg}
use cess_scheduler.Node.Receive.{
  Env, Conn, next, Arrival, message, send, write_file, dispatch, handle, handler, handle_head,
  check_state, create_file, handle_file, write_chunk, handle_end, close_file, start_backup,
}
use cess_scheduler.Node.Receive.Guard.{IsAdmitted}

-- The connection after an admitted head, whose file has the path `p`.
abbrev pub opened : Bytes → Message → Conn → Conn
opened p m c =
    send (build_notify_msg m.file_name status_ok [])
      (record (write_file p [] (record c { file_name = m.file_name })) { fs = some p })

pub handle-head :
    (env : Env) (c : Conn) (m : Message)
    → m.msg_type ≡ head
    → IsAdmitted env m
    → env.can_open (env.path m.file_name) ≡ true
    → handle env c m ≡ next (opened (env.path m.file_name) m c)
unfolding handle
handle-head env c m t (v, (s, e, f)) o =
    rw (t, handle, dispatch)
      (rw (v, handle_head) (rw (e, check_state) (rw (f, check_state) (rw (o, create_file) refl))))

-- The bytes that a file message carries.
abbrev pub piece : Message → Bytes
piece m = take m.file_size (m.bytes ++ m.slack)

-- A file message that can be written.
abbrev pub IsPiece : Env → Bytes → Message → Type 0
IsPiece env p m =
    (m.msg_type ≡ file)
    × (m.file_size ≤ length m.bytes + length m.slack)
    × (env.can_write p (piece m) ≡ true)

pub handle-file :
    (env : Env) (c : Conn) (m : Message) (p : Bytes)
    → c.fs ≡ some p
    → IsPiece env p m
    → handle env c m ≡ next (write_file p (c.disk p ++ piece m) c)
unfolding handle
handle-file env c m p o (t, fits, w) =
    let l : leb m.file_size (length m.bytes + length m.slack) ≡ true = ground arith in
    rw (t, handle, dispatch) (rw (o, handle_file) (rw (l, write_chunk) (rw (w, write_chunk) refl)))

-- All the file messages of an upload.
abbrev pub receive_all : Bytes → List Message → Conn → Conn
receive_all p [] c = c
receive_all p (m ∷ ms) c = receive_all p ms (write_file p (c.disk p ++ piece m) c)

handler-files :
    (env : Env) (p : Bytes) (ms : List Message) (c : Conn) (rest : List Arrival)
    → c.fs ≡ some p
    → All (IsPiece env p) ms
    → handler env c (map message ms ++ rest) ≡ handler env (receive_all p ms c) rest
unfolding handler
handler-files env p [] c rest o h = refl
handler-files env p (m ∷ ms) c rest o h =
    rw (handle-file env c m p o h.0, handler)
      (handler-files env p ms (write_file p (c.disk p ++ piece m) c) rest o h.1)

-- What the file messages leave in the connection.
receive_all-disk :
    (p : Bytes) (ms : List Message) (c : Conn)
    → (receive_all p ms c).disk p ≡ c.disk p ++ flatten (map piece ms)
unfolding flatten
receive_all-disk p [] c = rw append-nil
receive_all-disk p (m ∷ ms) c =
    receive_all-disk p ms (write_file p (c.disk p ++ piece m) c)
    ∙ (rw (bytes_eq_self p) (append_assoc (c.disk p) (piece m) (flatten (map piece ms))))

receive_all-frame :
    (p : Bytes) (ms : List Message) (c : Conn)
    → let d = receive_all p ms c in
      (d.fs ≡ c.fs)
      × (d.sent ≡ c.sent)
      × (d.file_name ≡ c.file_name)
      × (d.backups ≡ c.backups)
      × ((q : Bytes) → bytes_eq p q ≡ false → d.disk q ≡ c.disk q)
receive_all-frame p [] c = (refl, refl, refl, refl, λ q h. refl)
receive_all-frame p (m ∷ ms) c =
    let (a, b, d, e, f) = receive_all-frame p ms (write_file p (c.disk p ++ piece m) c) in
    (a, b, d, e, λ q h. f q h ∙ rw h)

-- An end message whose size is the file's, on a connection whose file has the path `p`.
abbrev ended : Conn → Conn
ended c = record (send (build_notify_msg c.file_name status_ok []) c) { fs = none }

handle-end :
    (env : Env) (c : Conn) (m : Message) (p : Bytes)
    → c.fs ≡ some p
    → m.msg_type ≡ end
    → m.last_mark ≡ false
    → env.can_stat p ≡ true
    → length (c.disk p) ≡ m.file_size
    → m.file_size < 2 ^ 63
    → handle env c m ≡ next (ended c)
unfolding handle
handle-end env c m p o t l s same small =
    let same' : (ltb m.file_size (2 ^ 63) && (length (c.disk p) == m.file_size)) ≡ true =
      rw (lt→ltb m.file_size (2 ^ 63) small, same) (==_self m.file_size) in
    rw (t, handle, dispatch)
      (rw (o, handle_end) (rw (s, close_file) (rw (same', close_file) (rw (l, start_backup) refl))))

-- An upload: after an admitted head whose file can be created, file messages that can be written and
-- an end message without the last mark whose size is the number of bytes sent, the handler goes on with
-- the rest of the messages; the file then holds exactly the bytes that were sent, no other path has
-- changed, the file is closed, the two notifications say ok, and no backup was started.
pub upload_stores :
    (env : Env) (c : Conn) (h e : Message) (ms : List Message) (rest : List Arrival)
    → h.msg_type ≡ head
    → IsAdmitted env h
    → env.can_open (env.path h.file_name) ≡ true
    → All (IsPiece env (env.path h.file_name)) ms
    → e.msg_type ≡ end
    → e.last_mark ≡ false
    → env.can_stat (env.path h.file_name) ≡ true
    → length (flatten (map piece ms)) ≡ e.file_size
    → e.file_size < 2 ^ 63
    → let p = env.path h.file_name in
      let ok = build_notify_msg h.file_name status_ok [] in
      (c' : Conn) × (handler env c (message h ∷ (map message ms ++ message e ∷ rest))
        ≡ handler env c' rest)
      × (c'.disk p ≡ flatten (map piece ms))
      × ((q : Bytes) → bytes_eq p q ≡ false → c'.disk q ≡ c.disk q)
      × (c'.fs ≡ none)
      × (c'.sent ≡ (c.sent ++ ok ∷ []) ++ ok ∷ [])
      × (c'.backups ≡ c.backups)
unfolding handler
upload_stores env c h e ms rest th adm can pieces te last stat size small =
    let p = env.path h.file_name in
    let c₁ = opened p h c in
    let c₂ = receive_all p ms c₁ in
    let (fs, sent, name, backups, others) = receive_all-frame p ms c₁ in
    let content : c₂.disk p ≡ flatten (map piece ms) =
      receive_all-disk p ms c₁ ∙ rw (bytes_eq_self p) refl in
    let stop : handle env c₂ e ≡ next (ended c₂) =
      handle-end env c₂ e p fs te last stat (ap length content ∙ size) small in
    (
      ended c₂,
      rw (handle-head env c h th adm can, handler)
          (handler-files env p ms c₁ (message e ∷ rest) refl pieces ∙ rw (stop, handler) refl),
      content,
      λ q d. others q d ∙ rw d refl,
      refl,
      rw (sent, name) refl,
      backups,
    )
