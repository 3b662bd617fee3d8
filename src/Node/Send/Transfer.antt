-- ===== src/Node/Send/Transfer.antt =====
-- A file that sendSingleFile sends, as the handler receives it.
use cess_scheduler.Prelude.{
  ℕ, zero, suc, ◌+◌, ◌^◌, ◌<◌, ◌≤◌, ◌≡◌, refl, sym, ap, ◌∙◌, Bytes, true, false, none, some, List,
  [], ◌∷◌, ◌++◌, map, arith, length, take, drop, bytes_eq, Bool-cases, ◌==◌, ◌&&◌, min, All, inl,
  inr, take_all, take-append, take-append-drop, length-append, length-take, length-drop,
}
use mathlib.Core.List.{flatten, append_assoc, map-append}
use cess_scheduler.Node.Message.{
  Message, file, build_head_msg, build_file_msg, build_end_msg, copy, file_type_filler,
  tcp_send_buffer, tcp_tag_buffer,
}
use cess_scheduler.Node.Receive.{Env, Conn, Arrival, message, handler}
use cess_scheduler.Node.Receive.Guard.{IsAdmitted}
use cess_scheduler.Node.Receive.Upload.{IsPiece, piece, upload_stores}
use cess_scheduler.Node.Send.{Peer, send_chunks, send_body, send_opened, send_single_file}

-- A message as the other side decodes it: the same fields, in a buffer with some capacity to spare.
abbrev pub deliver : (Message → Bytes) → Message → Message
deliver spare m = record m { slack = spare m }

length-nil : (xs : Bytes) → (length xs == 0) ≡ true → xs ≡ []
length-nil [] h = refl
length-nil (x ∷ xs) h = ground arith

-- The bytes of a file message that fits its buffer.
copy-fits :
    (dst src : Bytes) → length src ≤ length dst → copy dst src ≡ src ++ drop (length src) dst
copy-fits dst src h = rw (take_all (length dst) src h)

module _ (env : Env) (p : Bytes) (spare : Message → Bytes) (name : Bytes) (filetype : ℕ) where
  chunk_piece :
      (chunk sb tb : Bytes)
      → length chunk ≤ tcp_send_buffer
      → length sb ≡ tcp_send_buffer
      → length tb ≡ tcp_tag_buffer
      → ((d : Bytes) → env.can_write p d ≡ true)
      → let m = deliver spare (build_file_msg name filetype (length chunk) chunk sb tb) in
        (piece m ≡ chunk) × IsPiece env p m
  unfolding build_file_msg
  chunk_piece chunk sb tb small ls lt w =
      elim (Bool-cases ((filetype == file_type_filler) && (length chunk == tcp_tag_buffer))) [
        | inl t ↦ rw t (fits tb (ground arith) (spare _))
        | inr f ↦ rw f (fits sb (omega arith) (spare _))
      ]
    where
      fits :
          (buf : Bytes)
          → length chunk ≤ length buf
          → (s : Bytes)
          → (take (length chunk) (copy buf chunk ++ s) ≡ chunk)
            × ((file ≡ file)
                × (length chunk ≤ length (copy buf chunk) + length s)
                × (env.can_write p (take (length chunk) (copy buf chunk ++ s)) ≡ true))
      fits buf h s = rw (copy-fits buf chunk h) (
        rw (append_assoc chunk (drop (length chunk) buf) s)
            (take-append chunk (drop (length chunk) buf ++ s)),
        (refl, rw (length-append chunk (drop (length chunk) buf)) (omega arith), w _),
      )

-- A peer whose connection stays open and whose file can be read, with buffers of the pools' sizes.
pub record IsSteady (peer : Peer) : Type 0 where
  pub stays_open : (k : ℕ) → peer.closed k ≡ false
  pub reads : (k : ℕ) → peer.read_err k ≡ false
  pub send_size : (k : ℕ) → length (peer.send_buf k) ≡ tcp_send_buffer
  pub tag_size : (k : ℕ) → length (peer.tag_buf k) ≡ tcp_tag_buffer

module _ (peer : Peer) (steady : IsSteady peer) (env : Env) (p : Bytes) (spare : Message → Bytes)
    (name : Bytes) (filetype : ℕ) (w : (d : Bytes) → env.can_write p d ≡ true) where
  send_chunks_whole :
      (fuel k : ℕ) (rest : Bytes)
      → length rest < fuel
      → let (ms, failed) = send_chunks fuel k peer name filetype rest in
        (failed ≡ false)
        × (flatten (map piece (map (deliver spare) ms)) ≡ rest)
        × All (IsPiece env p) (map (deliver spare) ms)
  unfolding send_chunks flatten
  send_chunks_whole zero k rest h = absurd (omega arith)
  send_chunks_whole (suc fuel) k rest h =
      elim (Bool-cases (length (take tcp_send_buffer rest) == 0)) [
        | inl done ↦
            rw (steady.stays_open k, send_chunks)
              (rw (steady.reads k, send_chunks)
                (rw (done, send_chunks) (refl, sym (empty done), tt)))
        | inr more ↦
            let (good, whole, pieces) =
              send_chunks_whole fuel (suc k) (drop tcp_send_buffer rest) (shorter more) in
            let (same, is) =
              chunk_piece env p spare name filetype (take tcp_send_buffer rest) (peer.send_buf k)
                (peer.tag_buf k) (rw length-take (omega arith)) (steady.send_size k)
                (steady.tag_size k) w in
            rw (steady.stays_open k, send_chunks)
              (rw (steady.reads k, send_chunks)
                (rw (more, send_chunks)
                  (good, rw (same, whole) (take-append-drop tcp_send_buffer rest), (is, pieces))))
      ]
    where
      empty : (length (take tcp_send_buffer rest) == 0) ≡ true → rest ≡ []
      empty e = length-nil rest (
          let q : min tcp_send_buffer (length rest) ≡ 0 =
            rw (← length-take tcp_send_buffer rest) (ground arith) in
          ground arith)

      shorter :
          (length (take tcp_send_buffer rest) == 0) ≡ false
          → length (drop tcp_send_buffer rest) < fuel
      shorter e =
          let q : (min tcp_send_buffer (length rest) == 0) ≡ false =
            rw (← length-take tcp_send_buffer rest) e in
          rw (length-drop tcp_send_buffer rest) (ground arith)

-- What a peer that stays up sends of a file that opens.
send_single_file-messages :
    (peer : Peer) (name fid : Bytes) (filetype : ℕ) (pkey signmsg sign content : Bytes)
    → peer.content ≡ some content
    → peer.head_notice ≡ some true
    → (send_chunks (suc (length content)) 0 peer name filetype content).1 ≡ false
    → (send_single_file peer name fid filetype false pkey signmsg sign).0
      ≡ build_head_msg name fid filetype false pkey signmsg sign
        ∷ ((send_chunks (suc (length content)) 0 peer name filetype content).0
            ++ build_end_msg filetype name fid (length content) false ∷ [])
unfolding send_single_file
send_single_file-messages peer name fid filetype pkey signmsg sign content hc hn good =
    let h = build_head_msg name fid filetype false pkey signmsg sign in
    ap (λ o. (send_opened peer name fid filetype false h o peer.head_notice).0) hc
    ∙ ap (λ n. (send_opened peer name fid filetype false h (some content) n).0) hn
    ∙ rw (good, send_body) refl

delivered :
    (f : Message → Message) (h e : Message) (ms : List Message) (rest : List Arrival)
    → map message (map f (h ∷ (ms ++ e ∷ []))) ++ rest
      ≡ message (f h) ∷ (map message (map f ms) ++ message (f e) ∷ rest)
delivered f h e ms rest = simp (map-append, append_assoc)

-- A file that can be opened, sent without the last mark by a peer that stays up, to a handler that
-- admits its head and can write: the handler goes on with what comes after, and the file that it has
-- stored under the sent name holds exactly the sender's content, with no other path changed and no
-- file left open.
pub transfer_whole :
    (peer : Peer) (env : Env) (spare : Message → Bytes) (name : Bytes) (filetype : ℕ)
    (content fid pkey signmsg sign : Bytes) (c : Conn) (rest : List Arrival)
    → IsSteady peer
    → peer.content ≡ some content
    → peer.head_notice ≡ some true
    → IsAdmitted env (build_head_msg name fid filetype false pkey signmsg sign)
    → env.can_open (env.path name) ≡ true
    → ((d : Bytes) → env.can_write (env.path name) d ≡ true)
    → env.can_stat (env.path name) ≡ true
    → length content < 2 ^ 63
    → let ms = (send_single_file peer name fid filetype false pkey signmsg sign).0 in
      let p = env.path name in
      (c' : Conn) × (handler env c (map message (map (deliver spare) ms) ++ rest)
        ≡ handler env c' rest)
      × (c'.disk p ≡ content)
      × ((q : Bytes) → bytes_eq p q ≡ false → c'.disk q ≡ c.disk q)
      × (c'.fs ≡ none)
unfolding build_head_msg build_end_msg
transfer_whole peer env spare name filetype content fid pkey signmsg sign c rest steady hc hn adm
      can w stat small =
    let p = env.path name in
    let sent = send_chunks (suc (length content)) 0 peer name filetype content in
    let (good, whole, pieces) =
      send_chunks_whole peer steady env p spare name filetype w (suc (length content)) 0 content
        (omega arith) in
    let h = build_head_msg name fid filetype false pkey signmsg sign in
    let e = build_end_msg filetype name fid (length content) false in
    let (c', run, disk, others, fs, _, _) =
      upload_stores env c (deliver spare h) (deliver spare e) (map (deliver spare) sent.0) rest refl
        adm can pieces refl refl stat (ap length whole) small in
    (
      c',
      rw
          (
            send_single_file-messages peer name fid filetype pkey signmsg sign content hc hn good,
            delivered (deliver spare) h e sent.0 rest,
          )
          run,
      disk ∙ whole,
      others,
      fs,
    )
