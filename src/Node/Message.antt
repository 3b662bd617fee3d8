-- ===== src/Node/Message.antt =====
-- node/msg.go: the messages of the transfer protocol and their builders. A []byte is its bytes; for
-- `bytes`, `slack` holds what lies between its length and its capacity.
use cess_scheduler.Prelude.{
  ℕ, Bytes, Bool, false, [], ◌∷◌, ◌++◌, length, take, drop, ◌==◌, ◌&&◌, if◌then◌else◌,
}

-- The constants of MsgType, and a byte that is none of them.
pub data MsgType : Type 0 where
  invalid head file end notify close recv_head recv_file file_st version : MsgType
  unknown : ℕ → MsgType

pub data Status : Type 0 where
  status_ok status_err : Status

abbrev pub status_byte : Status → ℕ
status_byte status_ok = 0
status_byte status_err = 1

abbrev pub file_type_file : ℕ
file_type_file = 1

abbrev pub file_type_filler : ℕ
file_type_filler = 2

abbrev pub tcp_send_buffer : ℕ
tcp_send_buffer = 8192

abbrev pub tcp_tag_buffer : ℕ
tcp_tag_buffer = 2012

pub record Message : Type 0 where
  pub pubkey : Bytes
  pub signmsg : Bytes
  pub sign : Bytes
  pub bytes : Bytes
  pub slack : Bytes
  pub file_name : Bytes
  pub file_hash : Bytes
  pub file_size : ℕ
  pub msg_type : MsgType
  pub last_mark : Bool
  pub file_type : ℕ

-- &Message{} of a type.
abbrev pub empty_msg : MsgType → Message
empty_msg t = record {
  pubkey = [];
  signmsg = [];
  sign = [];
  bytes = [];
  slack = [];
  file_name = [];
  file_hash = [];
  file_size = 0;
  msg_type = t;
  last_mark = false;
  file_type = 0;
}

unfoldable pub build_notify_msg : Bytes → Status → Bytes → Message
build_notify_msg file_name status ver = record (empty_msg notify) {
  bytes = status_byte status ∷ [];
  file_name = if length file_name == 0 then ver else file_name;
}

unfoldable pub build_head_msg : Bytes → Bytes → ℕ → Bool → Bytes → Bytes → Bytes → Message
build_head_msg filename fid filetype lastmark pkey signmsg sign = record {
  pubkey = pkey;
  signmsg = signmsg;
  sign = sign;
  bytes = [];
  slack = [];
  file_name = filename;
  file_hash = fid;
  file_size = 0;
  msg_type = head;
  last_mark = lastmark;
  file_type = filetype;
}

-- copy(dst, src)
abbrev pub copy : Bytes → Bytes → Bytes
copy dst src = take (length dst) src ++ drop (length src) dst

-- `send_buf` and `tag_buf` are what the two pools hand out, with whatever they last held.
unfoldable pub build_file_msg : Bytes → ℕ → ℕ → Bytes → Bytes → Bytes → Message
build_file_msg file_name filetype buflen buf send_buf tag_buf = record (empty_msg file) {
  bytes =
      copy
        (if (filetype == file_type_filler) && (buflen == tcp_tag_buffer) then tag_buf else send_buf)
        buf;
  file_name = file_name;
  file_size = buflen;
  file_type = filetype;
}

unfoldable pub build_end_msg : ℕ → Bytes → Bytes → ℕ → Bool → Message
build_end_msg filetype file_name file_hash size lastmark = record (empty_msg end) {
  file_name = file_name;
  file_hash = file_hash;
  file_size = size;
  last_mark = lastmark;
  file_type = filetype;
}

unfoldable pub build_close_msg : Status → Message
build_close_msg status = record (empty_msg close) { bytes = status_byte status ∷ [] }

unfoldable pub build_file_st_msg : Bytes → Bytes → Message
build_file_st_msg fid val = record (empty_msg file_st) {
  bytes = val;
  file_hash = fid;
  file_size = length val;
}

unfoldable pub build_version_msg : Bytes → Message
build_version_msg ver = record (empty_msg version) {
  bytes = status_byte status_ok ∷ [];
  file_name = ver;
}
