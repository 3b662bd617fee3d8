-- ===== src/Node/Receive/Refinement.antt =====
-- The handler and the upload protocol.
use cess_scheduler.Prelude.{
  ◌+◌, ◌^◌, ◌≡◌, refl, Bytes, Bool, true, false, Option, none, some, List, [], ◌∷◌, ◌++◌, ◌&&◌,
  arith, length, take, bytes_eq, Bool-cases, inl, inr, leb, ltb, ◌==◌,
}
use cess_scheduler.Chain.Types.{file_state_active}
use cess_scheduler.Node.Message.{
  build_notify_msg, status_ok, MsgType, Message, head, file, end, notify, close, file_st, version,
}
use cess_scheduler.Node.Checks.{FileState, get_file_state, verify_sign}
use cess_scheduler.Node.Receive.{
  Env, Conn, Step, next, exit, panics, blocks, final, Arrival, message, nothing, closed, send,
  dispatch, handle, handler, handle_head, check_state, create_file, handle_file, handle_file_st,
  write_chunk, handle_end, close_file, start_backup, notify_waiting,
}
use cess_scheduler.Node.Receive.Guard.{IsAdmitted}
use cess_scheduler.Node.Receive.Protocol.{
  view, launched, Upload, begins, fails, appends, completes, passes, Session, over, takes, waits,
}

abbrev state_of : Step → Conn
state_of (next c) = c
state_of (exit c e) = c
state_of (panics c) = c
state_of (blocks c) = c

module _ (env : Env) (c : Conn) (m : Message) where
  abbrev IsUpload : Step → Type 0
  IsUpload s = Upload env m (view c) (view (state_of s))

  create_file-IsUpload : m.msg_type ≡ head → IsAdmitted env m → IsUpload (create_file env c m)
  unfolding create_file
  create_file-IsUpload t a = elim (Bool-cases (env.can_open (env.path m.file_name))) [
    | inl e ↦ rw (e, create_file) (begins t a)
    | inr e ↦ rw (e, create_file) (fails t a e)
  ]

  check_state-IsUpload :
      m.msg_type ≡ head
      → verify_sign env.crypto env.keyring m.pubkey m.signmsg m.sign ≡ some true
      → (st : FileState) → get_file_state (env.metas m.file_hash) ≡ st
      → IsUpload (check_state env c m st)
  unfolding check_state
  check_state-IsUpload t v (FileState.unknown x) e = passes
  check_state-IsUpload t v (FileState.state s) e =
      elim (Bool-cases (bytes_eq s file_state_active)) [
        | inl f ↦ rw (f, check_state) passes
        | inr f ↦ rw (f, check_state) (create_file-IsUpload t (v, (s, e, f)))
      ]

  handle_head-IsUpload : m.msg_type ≡ head → IsUpload (handle_head env c m)
  unfolding handle_head
  handle_head-IsUpload t = go (verify_sign env.crypto env.keyring m.pubkey m.signmsg m.sign) refl
    where
      go :
          (v : Option Bool)
          → verify_sign env.crypto env.keyring m.pubkey m.signmsg m.sign ≡ v
          → IsUpload (handle_head env c m)
      go none e = rw (e, handle_head) passes
      go (some false) e = rw (e, handle_head) passes
      go (some true) e =
          rw (e, handle_head)
            (check_state-IsUpload t e (get_file_state (env.metas m.file_hash)) refl)

  write_chunk-IsUpload :
      m.msg_type ≡ file → (o : Option Bytes) → c.fs ≡ o → IsUpload (write_chunk env c m o)
  unfolding write_chunk
  write_chunk-IsUpload t none e = passes
  write_chunk-IsUpload t (some p) e =
      elim (Bool-cases (leb m.file_size (length m.bytes + length m.slack))) [
        | inr f ↦ rw (f, write_chunk) passes
        | inl f ↦
            let piece = take m.file_size (m.bytes ++ m.slack) in
            elim (Bool-cases (env.can_write p piece)) [
              | inr g ↦ rw (f, g, write_chunk) passes
              | inl g ↦ rw (f, g, write_chunk) (appends p t e (ground arith))
            ]
      ]

  start_backup-view :
      (d : Conn)
      → view (state_of (start_backup env d m))
        ≡ record { open_path = d.fs; store = d.disk; backups = launched env m d.backups }
  unfolding start_backup
  start_backup-view d = elim (Bool-cases m.last_mark) [
    | inr e ↦ rw (e, start_backup, launched) refl
    | inl e ↦ elim (Bool-cases (leb 8 (length m.signmsg))) [
      | inl f ↦ rw (e, f, start_backup, launched) refl
      | inr f ↦ rw (e, f, start_backup, launched) refl
    ]
  ]

  close_file-IsUpload :
      m.msg_type ≡ end → (o : Option Bytes) → c.fs ≡ o → IsUpload (close_file env c m o)
  unfolding close_file
  close_file-IsUpload t none e = passes
  close_file-IsUpload t (some p) e = elim (Bool-cases (env.can_stat p)) [
    | inr f ↦ rw (f, close_file) passes
    | inl f ↦ elim (Bool-cases (ltb m.file_size (2 ^ 63) && (length (c.disk p) == m.file_size))) [
      | inr g ↦ rw (f, g, close_file) passes
      | inl g ↦
          let d = record (send (build_notify_msg c.file_name status_ok []) c) { fs = none } in
          rw (f, g, close_file) (rw (start_backup-view d) (completes p t e (ground arith)))
    ]
  ]

  dispatch-IsUpload : (t : MsgType) → m.msg_type ≡ t → IsUpload (dispatch t env c m)
  unfolding dispatch
  dispatch-IsUpload head e = handle_head-IsUpload e
  dispatch-IsUpload file_st e = unfold handle_file_st in passes
  dispatch-IsUpload file e = unfold handle_file in write_chunk-IsUpload e c.fs refl
  dispatch-IsUpload end e = unfold handle_end in close_file-IsUpload e c.fs refl
  dispatch-IsUpload notify e = waiting m.bytes c.wait_notify
    where
      waiting : (bs : Bytes) (w : Option Bool) → IsUpload (notify_waiting c bs w)
      waiting [] w = unfold notify_waiting in passes
      waiting (b ∷ bs) (some v) = unfold notify_waiting in passes
      waiting (b ∷ bs) none = unfold notify_waiting in passes
  dispatch-IsUpload close e = passes
  dispatch-IsUpload version e = passes
  dispatch-IsUpload _ e = passes

-- Whatever arrives, and however the handler ends: what it does to the open file, to the files and to the
-- backups is a session of the upload protocol over the arrivals, in which each message makes one step.
pub handler_refines :
    (env : Env) (c : Conn) (as' : List Arrival)
    → Session env as' (view c) (view (final (handler env c as')))
unfolding handler
handler_refines env c [] = over
handler_refines env c (nothing ∷ rest) = waits (handler_refines env c rest)
handler_refines env c (closed ∷ rest) = over
handler_refines env c (message m ∷ rest) =
    go (handle env c m) refl (unfold handle in dispatch-IsUpload env c m m.msg_type refl)
      (λ c'. handler_refines env c' rest)
  where
    go :
        (s : Step)
        → handle env c m ≡ s
        → Upload env m (view c) (view (state_of s))
        → ((c' : Conn) → Session env rest (view c') (view (final (handler env c' rest))))
        → Session env (message m ∷ rest) (view c) (view (final (handler env c (message m ∷ rest))))
    go (next c') e u ih = rw (e, handler) (takes u (ih c'))
    go (exit c' x) e u ih = rw (e, handler) (takes u over)
    go (panics c') e u ih = rw (e, handler) (takes u over)
    go (blocks c') e u ih = rw (e, handler) (takes u over)
