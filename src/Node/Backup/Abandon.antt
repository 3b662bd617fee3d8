-- ===== src/Node/Backup/Abandon.antt =====
-- Where backupFile gives up: the panics that it recovers from.
use cess_scheduler.Prelude.{
  ℕ, ◌≤◌, ◌<◌, ◌/◌, ◌≡◌, refl, ◌∙◌, ap, Bytes, Bool, true, false, Option, none, some, List, [], ◌∷◌,
  ◌++◌, arith, ◌==◌, All,
}
use cess_scheduler.Chain.Types.{Error, CacheMinerInfo}
use cess_scheduler.Node.Backup.{
  cached, Market, gave, no_block, passes, dial_panics, turn, place, first_ok, offer_around,
  backup_sized, backup_file, calc_file_block_size_and_scan_size,
}

-- An empty file has the block size 0.
pub backup_file-empty :
    (parsed : Bytes → Bool) (mk : Market) (fname : Bytes)
    → mk.stat ≡ (0, none)
    → backup_file parsed mk fname ≡ gave [] no_block none
unfolding backup_file
backup_file-empty parsed mk fname h =
    let p : mk.stat.0 ≡ 0 = ap (λ (s : ℕ × Option Error). s.0) h in
    let q : mk.stat.1 ≡ none = ap (λ (s : ℕ × Option Error). s.1) h in
    rw (q, backup_file) (rw (p, backup_sized) refl)

block_size_positive : (n : ℕ) → 0 < n → (calc_file_block_size_and_scan_size n).0 == 0 ≡ false
unfolding calc_file_block_size_and_scan_size
block_size_positive n h =
    let few : 1024 ≤ n → n / 16 == 0 ≡ false =
      λ k. let p : 0 < n / 16 = omega arith in ground arith in
    ground arith

-- The miners that a round passes over.
abbrev pub IsPassed : (Bytes → Bool) → Market → ℕ → ℕ → Bytes → Bytes → Type 0
IsPassed parsed mk size n fname k = turn parsed mk size n fname k (mk.offer k) ≡ passes

place-dial :
    (parsed : Bytes → Bool) (mk : Market) (size n : ℕ) (sent : List Bytes) (fname : Bytes)
    (pre rest : List Bytes) (key : Bytes)
    → All (IsPassed parsed mk size n fname) pre
    → turn parsed mk size n fname key (mk.offer key) ≡ dial_panics
    → place parsed mk size n sent fname (pre ++ key ∷ rest) ≡ gave sent no_block none
unfolding place
place-dial parsed mk size n sent fname [] rest key h e = rw (e, place) refl
place-dial parsed mk size n sent fname (p ∷ pre) rest key (q, h) e =
    rw (q, place) (place-dial parsed mk size n sent fname pre rest key h e)

turn-dial :
    (parsed : Bytes → Bool) (mk : Market) (size n : ℕ) (fname key : Bytes) (info : CacheMinerInfo)
    → mk.offer key ≡ cached info
    → size ≤ info.free
    → mk.resolves info.ip ≡ true
    → mk.dials info.ip ≡ false
    → turn parsed mk size n fname key (mk.offer key) ≡ dial_panics
unfolding turn
turn-dial parsed mk size n fname key info o f r d = rw (o, turn) (ground arith)

-- A file with bytes and a tag, a list of miners that was read, and a signature: if the first miner that the
-- loop does not pass over cannot be dialled, then backupFile gives the unset block with a nil error, and
-- asks no miner behind it.
pub dial_failure_abandons :
    (parsed : Bytes → Bool) (mk : Market) (size : ℕ) (fname : Bytes) (keys pre rest : List Bytes)
    (key : Bytes) (info : CacheMinerInfo)
    → mk.stat ≡ (size, none)
    → 0 < size
    → mk.has_tag ≡ true
    → first_ok mk.miner_replies ≡ some keys
    → mk.sign_err ≡ none
    → mk.shuffle keys ≡ pre ++ key ∷ rest
    → All (IsPassed parsed mk size (size / (calc_file_block_size_and_scan_size size).0) fname) pre
    → mk.offer key ≡ cached info
    → size ≤ info.free
    → mk.resolves info.ip ≡ true
    → mk.dials info.ip ≡ false
    → backup_file parsed mk fname ≡ gave [] no_block none
unfolding backup_file
dial_failure_abandons parsed mk size fname keys pre rest key info st pos tag ks si sh passed o f r
      d =
    let p : mk.stat.0 ≡ size = ap (λ (s : ℕ × Option Error). s.0) st in
    let q : mk.stat.1 ≡ none = ap (λ (s : ℕ × Option Error). s.1) st in
    let n = size / (calc_file_block_size_and_scan_size size).0 in
    let last =
      place-dial parsed mk size n [] fname pre rest key passed
        (turn-dial parsed mk size n fname key info o f r d) in
    let sized : backup_sized parsed mk fname size (calc_file_block_size_and_scan_size size).0
        ≡ gave [] no_block none =
      rw (block_size_positive size pos, tag, ks, backup_sized) (rw (si, sh, offer_around) last) in
    rw (q, backup_file)
      (ap (λ (s : ℕ). backup_sized parsed mk fname s (calc_file_block_size_and_scan_size s).0) p
        ∙ sized)
