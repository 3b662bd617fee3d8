-- ===== src/Node/Manage/Registration.antt =====
-- FileBackupManagement: what it registers, and when it ends.
use cess_scheduler.Prelude.{
  ℕ, zero, suc, ◌≤◌, ◌≡◌, ◌≢◌, refl, sym, ap, ◌∙◌, Bytes, Bool, false, Option, none, some, List, [],
  ◌∷◌, ◌++◌, arith, ◌==◌, ◌||◌, is_some, not,
}
use mathlib.Core.Path.{subst}
use mathlib.Core.List.{append_assoc, append-nil}
use cess_scheduler.Chain.Types.{Error, BlockInfo}
use cess_scheduler.Utils.Address.{Crypto, encode_public_key_as_cess_account}
use cess_scheduler.Node.Checks.{FileState}
use cess_scheduler.Node.Backup.{Market, Backed, gave, waiting, backup_file}
use cess_scheduler.Node.Backup.Placement.{IsBackedUp, backup_file-IsBackedUp}
use cess_scheduler.Node.Manage.{
  account, FileStoreInfo, Chunks, Round, stuck, again, stored, round, with_miner, also_stored,
  backup_chunks, is_active, submit_meta, Managed, registered, register_file, file_backup_management,
  concluded,
}

-- Four rounds of the second loop are enough. The file counts as registered if one of the four calls of
-- SubmitFileMeta has no error, or if the chain calls it active after one of the first three.
pub submit_meta_lem :
    (replies : ℕ → Option Error) (states : ℕ → FileState)
    → let ok : ℕ → Bool = λ k. not (is_some (replies k)) in
      let active : ℕ → Bool = λ k. is_active (states k) in
      submit_meta 4 0 replies states
      ≡ some (ok 0 || (active 0 || (ok 1 || (active 1 || (ok 2 || (active 2 || ok 3))))))
unfolding submit_meta
submit_meta_lem replies states = ground arith

-- The blocks of the chunks, in order: each is what a call of backupFile gave for the base of its chunk's
-- path, the n-th call or a later one; the next chunk's call comes after it.
pub data EachStored (parsed : Bytes → Bool) (base : Bytes → Bytes) (market : ℕ → Bytes → Market)
    : ℕ → List Bytes → List BlockInfo → Type 0 where
  nil : {n : ℕ} → EachStored parsed base market n [] []
  cons :
      {n : ℕ} {p : Bytes} {ps : List Bytes} {b : BlockInfo} {bs : List BlockInfo} (k : ℕ)
      (sent : List Bytes)
      → n ≤ k
      → backup_file parsed (market k p) (base p) ≡ gave sent b none
      → IsBackedUp (market k p) b
      → b.miner_id ≢ 0
      → b.block_size ≢ 0
      → EachStored parsed base market (suc k) ps bs
      → EachStored parsed base market n (p ∷ ps) (b ∷ bs)

EachStored-later :
    {parsed : Bytes → Bool} {base : Bytes → Bytes} {market : ℕ → Bytes → Market} {n : ℕ}
    {ps : List Bytes} {bs : List BlockInfo}
    → EachStored parsed base market (suc n) ps bs
    → EachStored parsed base market n ps bs
EachStored-later nil = nil
EachStored-later (cons k sent late given back id size more) =
    cons k sent (omega arith) given back id size more

round-stored :
    (r : Backed) (b : BlockInfo)
    → round r ≡ stored b
    → (sent : List Bytes) × (r ≡ gave sent b none) × (b.miner_id ≢ 0) × (b.block_size ≢ 0)
unfolding round
round-stored waiting b e = ground arith
round-stored (gave sent x (some y)) b e = ground arith
round-stored (gave sent x none) b e =
    let no : ((x.miner_id == 0) || (x.block_size == 0)) ≡ false = ground arith in
    let same : x ≡ b = ground arith in
    (sent, ap (λ (y : BlockInfo). gave sent y none) same, ground arith, ground arith)

-- The miners that the blocks name, numbered from `i`.
unfoldable pub miners_of : Crypto → ℕ → List BlockInfo → List (ℕ × Bytes)
miners_of c i [] = []
miners_of c i (b ∷ bs) =
    (i, account (encode_public_key_as_cess_account c b.miner_acc)) ∷ miners_of c (suc i) bs

module _ (c : Crypto) (parsed : Bytes → Bool) (base : Bytes → Bytes)
    (market : ℕ → Bytes → Market) where
  -- What the first loop leaves: the chunks' blocks, and their miners in the last entry.
  abbrev pub IsFilled : ℕ → ℕ → FileStoreInfo → List Bytes → Chunks → Type 0
  IsFilled k i st ps r =
      EachStored parsed base market k ps r.blocks
      × (r.entry.miners ≡ st.miners ++ miners_of c i r.blocks)

  also_stored-IsFilled :
      (k i : ℕ) (st : FileStoreInfo) (p : Bytes) (ps : List Bytes) (b : BlockInfo)
      (o : Option Chunks) (r : Chunks)
      → round (backup_file parsed (market k p) (base p)) ≡ stored b
      → ((r' : Chunks) → o ≡ some r' → IsFilled (suc k) (suc i) (with_miner c i b st) ps r')
      → also_stored b (with_miner c i b st) o ≡ some r
      → IsFilled k i st (p ∷ ps) r
  unfolding miners_of
  also_stored-IsFilled k i st p ps b none r q ih e = ground arith
  also_stored-IsFilled k i st p ps b (some r') r q ih e =
      let (sent, given, id, size) = round-stored _ b q in
      let (each, ms) = ih r' refl in
      let same : record r' { blocks = b ∷ r'.blocks; puts = with_miner c i b st ∷ r'.puts } ≡ r =
        ground arith in
      let back = backup_file-IsBackedUp parsed (market k p) (base p) sent b given id in
      subst (IsFilled k i st (p ∷ ps)) same (
        cons k sent (omega arith) given back id size each,
        ms ∙ append_assoc st.miners _ (miners_of c (suc i) r'.blocks),
      )

  pub backup_chunks-IsFilled :
      (fuel k i : ℕ) (st : FileStoreInfo) (ps : List Bytes) (r : Chunks)
      → backup_chunks c parsed base market fuel k i st ps ≡ some r
      → IsFilled k i st ps r
  unfolding backup_chunks miners_of
  backup_chunks-IsFilled fuel k i st [] r e =
      let same : record { blocks = []; entry = st; puts = [] } ≡ r = ground arith in
      subst (IsFilled k i st []) same (nil, sym (append-nil st.miners))
  backup_chunks-IsFilled zero k i st (p ∷ ps) r e = ground arith
  backup_chunks-IsFilled (suc fuel) k i st (p ∷ ps) r e =
      go (round (backup_file parsed (market k p) (base p))) refl
        (λ r' e'. backup_chunks-IsFilled fuel (suc k) i st (p ∷ ps) r' e')
        (λ b r' e'. backup_chunks-IsFilled fuel (suc k) (suc i) (with_miner c i b st) ps r' e')
    where
      go :
          (o : Round)
          → round (backup_file parsed (market k p) (base p)) ≡ o
          → ((r' : Chunks)
              → backup_chunks c parsed base market fuel (suc k) i st (p ∷ ps) ≡ some r'
              → IsFilled (suc k) i st (p ∷ ps) r')
          → ((b : BlockInfo) (r' : Chunks)
              → backup_chunks c parsed base market fuel (suc k) (suc i) (with_miner c i b st) ps
                ≡ some r'
              → IsFilled (suc k) (suc i) (with_miner c i b st) ps r')
          → IsFilled k i st (p ∷ ps) r
      go stuck q ih ih' = ground arith
      go again q ih ih' =
          let (each, ms) = ih r (rw (q, backup_chunks) at e) in (EachStored-later each, ms)
      go (stored b) q ih ih' =
          also_stored-IsFilled k i st p ps b _ r q (ih' b) (rw (q, backup_chunks) at e)

  -- The last entry that is put names the miners of these blocks, and says whether they count as registered.
  abbrev pub IsConcluded :
      (List BlockInfo → ℕ → Option Error)
      → (ℕ → FileState)
      → FileStoreInfo
      → List BlockInfo
      → Managed
      → Type 0
  IsConcluded replies states st bs m =
      (entry : FileStoreInfo) × (front : List FileStoreInfo) × (b : Bool) × (m.puts
        ≡ front ++ concluded entry b ∷ [])
      × (entry.miners ≡ st.miners ++ miners_of c 0 bs)
      × (submit_meta 4 0 (replies bs) states ≡ some b)

  registered-IsConcluded :
      (replies : List BlockInfo → ℕ → Option Error) (states : ℕ → FileState) (st : FileStoreInfo)
      (ps : List Bytes) (r : Chunks) (m : Managed) (bs : List BlockInfo) (o : Option Bool)
      → submit_meta 4 0 (replies r.blocks) states ≡ o
      → registered st r o ≡ some m
      → m.submitted ≡ some bs
      → IsFilled 0 0 st ps r
      → EachStored parsed base market 0 ps bs × IsConcluded replies states st bs m
  registered-IsConcluded replies states st ps r m bs none q e s (each, ms) = ground arith
  registered-IsConcluded replies states st ps r m bs (some b) q e s (each, ms) =
      let sub : r.blocks ≡ bs = ground arith in
      let puts : st ∷ r.puts ++ concluded r.entry b ∷ [] ≡ m.puts = ground arith in
      subst
        (λ (x : List BlockInfo).
          EachStored parsed base market 0 ps x × IsConcluded replies states st x m)
        sub (each, (r.entry, st ∷ r.puts, b, sym puts, ms, q))

  -- If FileBackupManagement ends after it has called SubmitFileMeta, then the blocks that it submitted are
  -- one for each shard, in order; each is the very block that a call of backupFile gave with no error for
  -- the base of its shard's path, each call after that of the shard before; some miner took the shard,
  -- as the block says; its miner's number and its size are not zero; the last entry in the cache names
  -- their miners, and is active or failed as the calls of SubmitFileMeta came out.
  pub backup_registers :
      (replies : List BlockInfo → ℕ → Option Error) (states : ℕ → FileState) (fuel : ℕ)
      (st : FileStoreInfo) (ps : List Bytes) (m : Managed) (bs : List BlockInfo)
      → file_backup_management c parsed base market replies states fuel st ps ≡ some m
      → m.submitted ≡ some bs
      → EachStored parsed base market 0 ps bs × IsConcluded replies states st bs m
  unfolding file_backup_management
  backup_registers replies states fuel st [] m bs e s = ground arith
  backup_registers replies states fuel st (p ∷ ps) m bs e s =
      go (backup_chunks c parsed base market fuel 0 0 st (p ∷ ps)) refl e
    where
      go :
          (o : Option Chunks)
          → backup_chunks c parsed base market fuel 0 0 st (p ∷ ps) ≡ o
          → register_file st replies states o ≡ some m
          → EachStored parsed base market 0 (p ∷ ps) bs × IsConcluded replies states st bs m
      go none q e = unfold register_file in ground arith
      go (some r) q e =
          registered-IsConcluded replies states st (p ∷ ps) r m bs _ refl
            (unfold register_file in e) s (backup_chunks-IsFilled fuel 0 0 st (p ∷ ps) r q)
