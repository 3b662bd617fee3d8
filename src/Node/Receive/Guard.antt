-- ===== src/Node/Receive/Guard.antt =====
-- What the handler refuses, and what it needs for a backup.
use cess_scheduler.Prelude.{
  ◌+◌, ◌^◌, ◌≡◌, refl, ◌∙◌, ◌⊎◌, inl, inr, Bytes, Bool, true, false, Option, none, some, List, [],
  ◌∷◌, ◌++◌, arith, length, take, bytes_eq, Bool-cases, leb, ltb, ◌==◌, ◌&&◌,
}
use cess_scheduler.Chain.Types.{file_state_active}
use cess_scheduler.Proof.Modular.{set_bytes}
use cess_scheduler.Node.Message.{
  MsgType, Message, invalid, head, file, end, notify, close, recv_head, recv_file, file_st, version,
  unknown,
}
use cess_scheduler.Node.Checks.{FileState, get_file_state, verify_sign}
use cess_scheduler.Node.Receive.{
  Env, Conn, Step, next, exit, panics, blocks, final, Arrival, message, nothing, closed, dispatch,
  handle, handler, handle_head, check_state, create_file, handle_file, write_chunk, handle_end,
  close_file, start_backup, notify_waiting,
}

-- A head that the handler has to admit: the signature holds, and the chain gave a state of the file
-- that is not active.
abbrev pub IsAdmitted : Env → Message → Type 0
IsAdmitted env m =
    (verify_sign env.crypto env.keyring m.pubkey m.signmsg m.sign ≡ some true)
    × ((s : Bytes) × (get_file_state (env.metas m.file_hash) ≡ FileState.state s)
        × (bytes_eq s file_state_active ≡ false))

-- No head among the messages is admitted.
abbrev pub NoneAdmitted : Env → List Arrival → Type 0
NoneAdmitted env [] = Unit
NoneAdmitted env (message m ∷ rest) =
    (m.msg_type ≡ head → ¬ IsAdmitted env m) × NoneAdmitted env rest
NoneAdmitted env (nothing ∷ rest) = NoneAdmitted env rest
NoneAdmitted env (closed ∷ rest) = NoneAdmitted env rest

abbrev pub Same : Conn → Conn → Type 0
Same c c' = (c'.disk ≡ c.disk) × (c'.backups ≡ c.backups)

-- A step leaves the disk and the backups alone, and no file open if the handler goes on.
abbrev IsQuiet : Conn → Step → Type 0
IsQuiet c (next c') = (c'.fs ≡ none) × Same c c'
IsQuiet c (exit c' e) = Same c c'
IsQuiet c (panics c') = Same c c'
IsQuiet c (blocks c') = Same c c'

check_state-IsQuiet :
    (env : Env) (c : Conn) (m : Message) (st : FileState)
    → ((s : Bytes) → st ≡ FileState.state s → bytes_eq s file_state_active ≡ true)
    → IsQuiet c (check_state env c m st)
unfolding check_state
check_state-IsQuiet env c m (FileState.unknown e) h = (refl, refl)
check_state-IsQuiet env c m (FileState.state s) h = rw (h s refl) (refl, refl)

handle_head-IsQuiet :
    (env : Env) (c : Conn) (m : Message) → ¬ IsAdmitted env m → IsQuiet c (handle_head env c m)
unfolding handle_head
handle_head-IsQuiet env c m deny =
    go (verify_sign env.crypto env.keyring m.pubkey m.signmsg m.sign) refl
  where
    active :
        verify_sign env.crypto env.keyring m.pubkey m.signmsg m.sign ≡ some true
        → (s : Bytes) → get_file_state (env.metas m.file_hash) ≡ FileState.state s
        → bytes_eq s file_state_active ≡ true
    active v s e = elim (Bool-cases (bytes_eq s file_state_active)) [
      | inl t ↦ t
      | inr f ↦ absurd (deny (v, (s, e, f)))
    ]

    go :
        (v : Option Bool)
        → verify_sign env.crypto env.keyring m.pubkey m.signmsg m.sign ≡ v
        → IsQuiet c (handle_head env c m)
    go none e = rw (e, handle_head) (refl, refl)
    go (some false) e = rw (e, handle_head) (refl, refl)
    go (some true) e = rw (e, handle_head) (check_state-IsQuiet env c m _ (active e))

dispatch-IsQuiet :
    (t : MsgType) (env : Env) (c : Conn) (m : Message)
    → c.fs ≡ none
    → (t ≡ head → ¬ IsAdmitted env m)
    → IsQuiet c (dispatch t env c m)
unfolding dispatch
dispatch-IsQuiet head env c m closed_fs deny = handle_head-IsQuiet env c m (deny refl)
dispatch-IsQuiet file_st env c m closed_fs deny = (closed_fs, (refl, refl))
dispatch-IsQuiet file env c m closed_fs deny = rw (closed_fs, handle_file) (refl, refl)
dispatch-IsQuiet end env c m closed_fs deny = rw (closed_fs, handle_end) (refl, refl)
dispatch-IsQuiet notify env c m closed_fs deny = waiting m.bytes c.wait_notify
  where
    waiting : (bs : Bytes) (w : Option Bool) → IsQuiet c (notify_waiting c bs w)
    waiting [] w = (refl, refl)
    waiting (b ∷ bs) (some v) = (refl, refl)
    waiting (b ∷ bs) none = (closed_fs, (refl, refl))
dispatch-IsQuiet close env c m closed_fs deny = (refl, refl)
dispatch-IsQuiet version env c m closed_fs deny = (closed_fs, (refl, refl))
dispatch-IsQuiet _ env c m closed_fs deny = (refl, refl)

-- A connection on which no head is admitted leaves every file as it was and starts no backup,
-- whatever messages come and however the handler ends.
pub unadmitted_changes_nothing :
    (env : Env) (c : Conn) (as' : List Arrival)
    → c.fs ≡ none
    → NoneAdmitted env as'
    → Same c (final (handler env c as'))
unfolding handler
unadmitted_changes_nothing env c [] h k = (refl, refl)
unadmitted_changes_nothing env c (nothing ∷ rest) h k = unadmitted_changes_nothing env c rest h k
unadmitted_changes_nothing env c (closed ∷ rest) h k = (refl, refl)
unadmitted_changes_nothing env c (message m ∷ rest) h k =
    go (handle env c m) (unfold handle in dispatch-IsQuiet m.msg_type env c m h k.0)
      (λ c' h'. unadmitted_changes_nothing env c' rest h' k.1) refl
  where
    go :
        (s : Step)
        → IsQuiet c s
        → ((c' : Conn) → c'.fs ≡ none → Same c' (final (handler env c' rest)))
        → handle env c m ≡ s
        → Same c (final (handler env c (message m ∷ rest)))
    go (next c') q ih e = rw (e, handler) (let r = ih c' q.0 in (r.0 ∙ q.1.0, r.1 ∙ q.1.1))
    go (exit c' x) q ih e = rw (e, handler) q
    go (panics c') q ih e = rw (e, handler) q
    go (blocks c') q ih e = rw (e, handler) q

-- A step that goes on keeps the backups, or adds the one of a complete last file.
abbrev pub IsAccounted : Conn → Message → MsgType → Step → Type 0
IsAccounted c m t (next c') =
    (c'.backups ≡ c.backups)
    ⊎ ((p : Bytes) × (c.fs ≡ some p)
        × (t ≡ end)
        × (m.last_mark ≡ true)
        × (length (c.disk p) ≡ m.file_size)
        × ((files : List Bytes) × (c'.backups
              ≡ c.backups
                ++ record {
                  fid = m.file_hash;
                  fsize = set_bytes (take 8 m.signmsg);
                  chunks = files;
                }
                  ∷ [])))
IsAccounted c m t (exit c' e) = c'.backups ≡ c.backups
IsAccounted c m t (panics c') = c'.backups ≡ c.backups
IsAccounted c m t (blocks c') = c'.backups ≡ c.backups

head-IsAccounted : (env : Env) (c : Conn) (m : Message) → IsAccounted c m head (handle_head env c m)
unfolding handle_head
head-IsAccounted env c m = go (verify_sign env.crypto env.keyring m.pubkey m.signmsg m.sign) refl
  where
    created :
        (b : Bool)
        → env.can_open (env.path m.file_name) ≡ b
        → IsAccounted c m head (create_file env c m)
    created true e = rw (e, create_file) (inl refl)
    created false e = rw (e, create_file) refl

    checked : (st : FileState) → IsAccounted c m head (check_state env c m st)
    checked (FileState.unknown e) = refl
    checked (FileState.state s) = elim (Bool-cases (bytes_eq s file_state_active)) [
      | inl t ↦ rw (t, check_state) refl
      | inr f ↦ rw (f, check_state) (created (env.can_open (env.path m.file_name)) refl)
    ]

    go :
        (v : Option Bool)
        → verify_sign env.crypto env.keyring m.pubkey m.signmsg m.sign ≡ v
        → IsAccounted c m head (handle_head env c m)
    go none e = rw (e, handle_head) refl
    go (some false) e = rw (e, handle_head) refl
    go (some true) e = rw (e, handle_head) (checked (get_file_state (env.metas m.file_hash)))

file-IsAccounted :
    (env : Env) (c : Conn) (m : Message) (o : Option Bytes)
    → IsAccounted c m file (write_chunk env c m o)
unfolding write_chunk
file-IsAccounted env c m none = refl
file-IsAccounted env c m (some p) =
    elim (Bool-cases (leb m.file_size (length m.bytes + length m.slack))) [
      | inr f ↦ rw (f, write_chunk) refl
      | inl t ↦ elim (Bool-cases (env.can_write p (take m.file_size (m.bytes ++ m.slack)))) [
        | inl w ↦ rw (t, w, write_chunk) (inl refl)
        | inr w ↦ rw (t, w, write_chunk) refl
      ]
    ]

end-IsAccounted :
    (env : Env) (c : Conn) (m : Message) (o : Option Bytes)
    → c.fs ≡ o
    → IsAccounted c m end (close_file env c m o)
unfolding close_file
end-IsAccounted env c m none e = refl
end-IsAccounted env c m (some p) e = elim (Bool-cases (env.can_stat p)) [
  | inr f ↦ rw (f, close_file) refl
  | inl t ↦ elim (Bool-cases (ltb m.file_size (2 ^ 63) && (length (c.disk p) == m.file_size))) [
    | inr f ↦ rw (t, f, close_file) refl
    | inl same ↦
        rw (t, same, close_file)
          (elim (Bool-cases m.last_mark) [
            | inr f ↦ rw (f, start_backup) (inl refl)
            | inl l ↦ elim (Bool-cases (leb 8 (length m.signmsg))) [
              | inr f ↦ rw (l, f, start_backup) refl
              | inl g ↦
                  rw (l, g, start_backup)
                    (inr (p, e, refl, refl, ground arith, (env.glob m.file_hash, refl)))
            ]
          ])
  ]
]

-- Every step keeps the list of started backups, or adds one, for the file hash and the size that an
-- end message with the last mark carries, and then a file is open whose content is exactly as long as
-- the message says.
pub backup_needs_complete_file :
    (env : Env) (c : Conn) (m : Message) → IsAccounted c m m.msg_type (handle env c m)
unfolding handle
backup_needs_complete_file env c m = go m.msg_type
  where
    waiting : (bs : Bytes) (w : Option Bool) → IsAccounted c m notify (notify_waiting c bs w)
    waiting [] w = refl
    waiting (b ∷ bs) (some v) = refl
    waiting (b ∷ bs) none = inl refl

    go : (t : MsgType) → IsAccounted c m t (dispatch t env c m)
    go head = head-IsAccounted env c m
    go file_st = inl refl
    go file = file-IsAccounted env c m c.fs
    go end = end-IsAccounted env c m c.fs refl
    go notify = waiting m.bytes c.wait_notify
    go close = refl
    go version = inl refl
    go invalid = refl
    go recv_head = refl
    go recv_file = refl
    go (unknown n) = refl
