-- ===== src/Node/SendAll/Order.antt =====
-- Which files sendFile sends, in which order, and with which marks.
use cess_scheduler.Prelude.{
  ℕ, suc, ◌+◌, ◌≡◌, refl, sym, ap, ◌∙◌, Option, none, some, List, [], ◌∷◌, ◌++◌, length, arith,
}
use mathlib.Core.List.{append_assoc, append-nil}
use cess_scheduler.Node.Message.{Message, build_close_msg, status_ok}
use cess_scheduler.Node.Send.{Peer, SendError}
use cess_scheduler.Node.SendAll.{Outgoing, Credentials, is_last, send_one, send_files, send_file}

-- A run over files, of which `more` come after them: each is sent without an error, and only the last of
-- all has the mark. The messages are those of the files, one after the other.
pub data Sent (peers : ℕ → Peer) (cr : Credentials) (more : List Outgoing)
    : ℕ → List Outgoing → List Message → Type 0 where
  nil : {k : ℕ} → Sent peers cr more k [] []
  cons :
      {k : ℕ} {f : Outgoing} {fs : List Outgoing} {ms rest : List Message}
      → send_one peers cr k f (is_last (fs ++ more)) ≡ (ms, none)
      → Sent peers cr more (suc k) fs rest
      → Sent peers cr more k (f ∷ fs) (ms ++ rest)

-- The run of all files, or up to the first that fails.
abbrev pub IsRun :
    (ℕ → Peer) → Credentials → ℕ → List Outgoing → List Message → Option SendError → Type 0
IsRun peers cr k files ms none = Sent peers cr [] k files ms
IsRun peers cr k files ms (some e) =
    (done : List Outgoing) × (f : Outgoing) × (left : List Outgoing) × (sent : List Message)
    × (part : List Message) × (files ≡ done ++ f ∷ left)
    × (ms ≡ sent ++ part)
    × Sent peers cr (f ∷ left) k done sent
    × (send_one peers cr (k + length done) f (is_last left) ≡ (part, some e))

extend :
    (peers : ℕ → Peer) (cr : Credentials) (k : ℕ) (f : Outgoing) (fs : List Outgoing)
    (ms more : List Message) (e : Option SendError)
    → send_one peers cr k f (is_last fs) ≡ (ms, none)
    → IsRun peers cr (suc k) fs more e
    → IsRun peers cr k (f ∷ fs) (ms ++ more) e
extend peers cr k f fs ms more none q run = cons (rw (append-nil fs) q) run
extend peers cr k f fs ms more (some e) q (done, g, left, sent, part, files, ms', ok, bad) =
    let same : is_last fs ≡ is_last (done ++ g ∷ left) = ap is_last files in
    let at_k : suc k + length done ≡ k + length (f ∷ done) = omega arith in
    (
      f ∷ done,
      g,
      left,
      ms ++ sent,
      part,
      ap (λ (l : List Outgoing). f ∷ l) files,
      ap (λ (l : List Message). ms ++ l) ms' ∙ sym (append_assoc ms sent part),
      cons (ap (send_one peers cr k f) (sym same) ∙ q) ok,
      ap (λ (n : ℕ). send_one peers cr n g (is_last left)) (sym at_k) ∙ bad,
    )

send_files-IsRun :
    (peers : ℕ → Peer) (cr : Credentials) (k : ℕ) (files : List Outgoing)
    → IsRun peers cr k files (send_files peers cr k files).0 (send_files peers cr k files).1
unfolding send_files
send_files-IsRun peers cr k [] = nil
send_files-IsRun peers cr k (f ∷ fs) =
    go (send_one peers cr k f (is_last fs)).1 refl (send_files-IsRun peers cr (suc k) fs)
  where
    go :
        (e : Option SendError)
        → (send_one peers cr k f (is_last fs)).1 ≡ e
        → IsRun peers cr
            (suc k)
            fs
            (send_files peers cr (suc k) fs).0
            (send_files peers cr (suc k) fs).1
        → IsRun peers cr k
            (f ∷ fs)
            (send_files peers cr k (f ∷ fs)).0
            (send_files peers cr k (f ∷ fs)).1
    go none q run =
        rw (q, send_files)
          (extend peers cr k f fs (send_one peers cr k f (is_last fs)).0 _ _
            (λ i. ((send_one peers cr k f (is_last fs)).0, q i)) run)
    go (some e) q run =
        let here : k + 0 ≡ k = omega arith in
        rw (q, send_files)
          (
            [],
            f,
            fs,
            [],
            (send_one peers cr k f (is_last fs)).0,
            refl,
            refl,
            nil,
            ap (λ (n : ℕ). send_one peers cr n f (is_last fs)) here
                ∙ (λ i. ((send_one peers cr k f (is_last fs)).0, q i)),
          )

-- Whatever happens to the files, sendFile sends them in order, each with the messages of its own transfer,
-- stops at the first that fails, with its error, gives the mark to no file but the last of the list, and
-- ends with a close message that says ok.
pub send_file-IsRun :
    (peers : ℕ → Peer) (cr : Credentials) (files : List Outgoing)
    → (ms : List Message) × (e : Option SendError) × (send_file peers cr files
        ≡ (ms ++ build_close_msg status_ok ∷ [], e))
      × IsRun peers cr 0 files ms e
unfolding send_file
send_file-IsRun peers cr files = (
  (send_files peers cr 0 files).0,
  (send_files peers cr 0 files).1,
  refl,
  send_files-IsRun peers cr 0 files,
)
