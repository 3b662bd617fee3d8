-- ===== src/Examples/NodeTests.antt =====
-- Uploads and transfers (node).
use cess_scheduler.Prelude.{
  ℕ, zero, ◌≡◌, refl, Bytes, true, false, none, some, [], ◌∷◌, ◌++◌, map, arith, replicate, str,
  bytes_eq, length-replicate,
}
use mathlib.Core.List.{flatten}
use cess_scheduler.Chain.Types.{rpc_timeout, FileMetaInfo}
use cess_scheduler.Utils.Address.{Crypto, encode_public_key_as_substrate_account}
use cess_scheduler.Node.Message.{
  Message, head, file, end, status_ok, build_notify_msg, build_head_msg,
}
use cess_scheduler.Node.Checks.{FileState, Metas, get_file_state, get_file_state_lem, verify_sign}
use cess_scheduler.Node.Receive.{Env, Conn, message, nothing, final, handle, handler}
use cess_scheduler.Node.Receive.Guard.{
  Same, IsAccounted, IsAdmitted, unadmitted_changes_nothing, backup_needs_complete_file,
}
use cess_scheduler.Node.Receive.Upload.{piece, upload_stores}
use cess_scheduler.Node.Send.{Peer, send_single_file}
use cess_scheduler.Node.Send.Transfer.{IsSteady, deliver, transfer_whole}

abbrev pub plain : Crypto
plain = record { base58_encode = λ b. b; base58_decode = λ b. b; sum512 = λ b. replicate 64 0 }

abbrev pub pending : FileMetaInfo
pending = record { size = 0; state = str "pending"; block_info = [] }

-- The chain answers on the second call.
abbrev pub second_time : Metas
second_time zero = (pending, some rpc_timeout)
second_time _ = (pending, none)

abbrev pub env : Env
env = record {
  crypto = plain;
  keyring = λ address text sign. true;
  metas = λ fid. second_time;
  path = λ name. str "dir/" ++ name;
  can_open = λ p. true;
  can_write = λ p d. true;
  can_stat = λ p. true;
  cached = λ k. [];
  glob = λ fid. [];
}

abbrev pub conn : Conn
conn = record {
  file_name = [];
  fs = none;
  wait_notify = none;
  disk = λ p. [];
  sent = [];
  backups = [];
}

abbrev pub key32 : Bytes
key32 = replicate 32 7

abbrev pub signature : Bytes
signature = replicate 64 1

abbrev pub head_msg : Message
head_msg = record {
  pubkey = key32;
  signmsg = 1 ∷ [];
  sign = signature;
  bytes = [];
  slack = [];
  file_name = str "f";
  file_hash = str "h";
  file_size = 0;
  msg_type = head;
  last_mark = false;
  file_type = 1;
}

-- Three bytes of a longer buffer.
abbrev pub file_msg : Message
file_msg = record head_msg { msg_type = file; bytes = 1 ∷ 2 ∷ 3 ∷ 9 ∷ []; file_size = 3 }

abbrev pub end_msg : Message
end_msg = record head_msg { msg_type = end; file_size = 3 }

second_state : get_file_state second_time ≡ elim ((second_time 0).1) [
  | none ↦ FileState.state (second_time 0).0.state
  | some x ↦ elim ((second_time 1).1) [
    | none ↦ FileState.state (second_time 1).0.state
    | some y ↦ elim ((second_time 2).1) [
      | none ↦ FileState.state (second_time 2).0.state
      | some z ↦ FileState.unknown z
    ]
  ]
]
second_state = get_file_state_lem second_time

admitted : IsAdmitted env head_msg
unfolding verify_sign get_file_state second_time encode_public_key_as_substrate_account
admitted = (refl, (str "pending", refl, refl))

upload_stores_example :
    let ok = build_notify_msg (str "f") status_ok [] in
    let p = str "dir/f" in
    (c' : Conn) × (handler env conn
        (message head_msg ∷ (map message (file_msg ∷ []) ++ message end_msg ∷ []))
      ≡ handler env c' [])
    × (c'.disk p ≡ flatten (map piece (file_msg ∷ [])))
    × ((q : Bytes) → bytes_eq p q ≡ false → c'.disk q ≡ conn.disk q)
    × (c'.fs ≡ none)
    × (c'.sent ≡ (conn.sent ++ ok ∷ []) ++ ok ∷ [])
    × (c'.backups ≡ conn.backups)
unfolding flatten
upload_stores_example =
    upload_stores env conn head_msg end_msg (file_msg ∷ []) [] refl admitted refl
      ((refl, omega arith, refl), tt) refl refl refl refl (omega arith)

abbrev pub peer : Peer
peer = record {
  content = some (str "hello");
  head_notice = some true;
  end_notice = some true;
  closed = λ k. false;
  read_err = λ k. false;
  send_buf = λ k. replicate 8192 0;
  tag_buf = λ k. replicate 2012 0;
}

pub peer-IsSteady : IsSteady peer
peer-IsSteady = record {
  stays_open = λ k. refl;
  reads = λ k. refl;
  send_size = λ k. length-replicate {A = ℕ} 8192 0;
  tag_size = λ k. length-replicate {A = ℕ} 2012 0;
}

pub IsAdmitted-peer :
    IsAdmitted env (build_head_msg (str "f") (str "h") 1 false key32 (1 ∷ []) signature)
unfolding verify_sign get_file_state second_time encode_public_key_as_substrate_account
    build_head_msg
IsAdmitted-peer = (refl, (str "pending", refl, refl))

transfer_whole_example :
    let ms = (send_single_file peer (str "f") (str "h") 1 false key32 (1 ∷ []) signature).0 in
    let p = str "dir/f" in
    (c' : Conn) × (handler env conn (map message (map (deliver (λ m. 5 ∷ [])) ms) ++ [])
      ≡ handler env c' [])
    × (c'.disk p ≡ str "hello")
    × ((q : Bytes) → bytes_eq p q ≡ false → c'.disk q ≡ conn.disk q)
    × (c'.fs ≡ none)
transfer_whole_example =
    transfer_whole peer env (λ m. 5 ∷ []) (str "f") 1 (str "hello") (str "h") key32 (1 ∷ [])
      signature conn [] peer-IsSteady refl refl IsAdmitted-peer refl (λ d. refl) refl (omega arith)

-- A head with a short signature, data and an end: all refused.
unadmitted_changes_nothing_example : Same conn (
    final (
      handler env conn (
        nothing
        ∷ message (record head_msg { sign = [] })
        ∷ message file_msg
        ∷ message end_msg
        ∷ [])))
unfolding verify_sign
unadmitted_changes_nothing_example =
    unadmitted_changes_nothing env conn
      (nothing ∷ message (record head_msg { sign = [] }) ∷ message file_msg ∷ message end_msg ∷ [])
      refl (denied, ((λ e a. cc), ((λ e a. cc), tt)))
  where
    denied : head ≡ head → ¬ IsAdmitted env (record head_msg { sign = [] })
    denied e a = cc (a.0)

abbrev last_msg : Message
last_msg = record end_msg { last_mark = true; signmsg = 0 ∷ 0 ∷ 0 ∷ 0 ∷ 0 ∷ 0 ∷ 1 ∷ 2 ∷ [] }

abbrev stored : Conn
stored = record conn { fs = some (str "dir/f"); disk = λ p. 1 ∷ 2 ∷ 3 ∷ [] }

backup_needs_complete_file_example : IsAccounted stored last_msg end (handle env stored last_msg)
backup_needs_complete_file_example = backup_needs_complete_file env stored last_msg
