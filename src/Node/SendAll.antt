-- ===== src/Node/SendAll.antt =====
-- node/handler.go: ConMgr.sendFile, which sends a list of files over one connection.
use cess_scheduler.Prelude.{
  ℕ, suc, Bytes, Bool, true, false, Option, none, some, List, [], ◌∷◌, ◌++◌,
}
use cess_scheduler.Node.Message.{Message, status_ok, build_close_msg}
use cess_scheduler.Node.Send.{Peer, SendError, send_single_file}
pub mod Order

-- A file to send: its name on the disk, and GetFileNameWithoutSuffix of its path.
pub record Outgoing : Type 0 where
  pub name : Bytes
  pub file_hash : Bytes

-- What all files of one call share.
pub record Credentials : Type 0 where
  pub filetype : ℕ
  pub pkey : Bytes
  pub signmsg : Bytes
  pub sign : Bytes

abbrev pub is_last : List Outgoing → Bool
is_last [] = true
is_last (f ∷ fs) = false

-- One file, the k-th, by what its transfer meets.
unfoldable pub send_one :
    (ℕ → Peer) → Credentials → ℕ → Outgoing → Bool → List Message × Option SendError
unfolding send_single_file
send_one peers cr k f lastmark =
    send_single_file (peers k) f.name f.file_hash cr.filetype lastmark cr.pkey cr.signmsg cr.sign

-- The loop over the files, which an error leaves.
unfoldable pub send_files :
    (ℕ → Peer) → Credentials → ℕ → List Outgoing → List Message × Option SendError
unfolding send_one
send_files peers cr k [] = ([], none)
send_files peers cr k (f ∷ fs) =
    let (ms, e) = send_one peers cr k f (is_last fs) in
    let rest = send_files peers cr (suc k) fs in
    elim e [ some x ↦ (ms, some x) | none ↦ (ms ++ rest.0, rest.1) ]

-- sendFile: a close message follows in every case.
unfoldable pub send_file :
    (ℕ → Peer) → Credentials → List Outgoing → List Message × Option SendError
unfolding send_files
send_file peers cr files =
    let (ms, e) = send_files peers cr 0 files in (ms ++ build_close_msg status_ok ∷ [], e)
