-- ===== src/Node/Manage/Progress.antt =====
-- FileBackupManagement: when it ends, and when it does not.
use cess_scheduler.Prelude.{
  ℕ, zero, suc, ◌+◌, ◌*◌, ◌≤◌, ◌<◌, ◌≡◌, ◌≢◌, refl, sym, ap, ◌∙◌, Bytes, Bool, true, Option, none,
  some, List, [], ◌∷◌, length, arith, All, is_some,
}
use mathlib.Core.List.{Memᴰ}
use cess_scheduler.Chain.Types.{Error, BlockInfo}
use cess_scheduler.Utils.Address.{Crypto}
use cess_scheduler.Node.Checks.{FileState}
use cess_scheduler.Node.Backup.{Market, gave, no_block, backup_file}
use cess_scheduler.Node.Backup.Abandon.{backup_file-empty}
use cess_scheduler.Node.Manage.{
  FileStoreInfo, Chunks, Round, stuck, again, stored, round, with_miner, also_stored, backup_chunks,
  register_file, file_backup_management,
}
use cess_scheduler.Node.Manage.Registration.{submit_meta_lem}

round-no_block : round (gave [] no_block none) ≡ again
unfolding round
round-no_block = refl

module _ (c : Crypto) (parsed : Bytes → Bool) (base : Bytes → Bytes)
    (market : ℕ → Bytes → Market) where
  backup_chunks-empty :
      (fuel k i : ℕ) (st : FileStoreInfo) (p : Bytes) (ps : List Bytes)
      → ((k : ℕ) → (market k p).stat ≡ (0, none))
      → Memᴰ p ps
      → backup_chunks c parsed base market fuel k i st ps ≡ none
  unfolding backup_chunks
  backup_chunks-empty fuel k i st p [] h m = elim m [ ]
  backup_chunks-empty zero k i st p (x ∷ ps) h m = refl
  backup_chunks-empty (suc fuel) k i st p (x ∷ ps) h (Memᴰ.head e) =
      let here : (market k x).stat ≡ (0, none) =
        ap (λ (y : Bytes). (market k y).stat) (sym e) ∙ h k in
      let again' : round (backup_file parsed (market k x) (base x)) ≡ again =
        ap round (backup_file-empty parsed (market k x) (base x) here) ∙ round-no_block in
      rw (again', backup_chunks) (backup_chunks-empty fuel (suc k) i st p (x ∷ ps) h (Memᴰ.head e))
  backup_chunks-empty (suc fuel) k i st p (x ∷ ps) h (Memᴰ.tail m) =
      go (round (backup_file parsed (market k x) (base x))) refl
        (backup_chunks-empty fuel (suc k) i st p (x ∷ ps) h (Memᴰ.tail m))
        (λ b. backup_chunks-empty fuel (suc k) (suc i) (with_miner c i b st) p ps h m)
    where
      go :
          (o : Round)
          → round (backup_file parsed (market k x) (base x)) ≡ o
          → backup_chunks c parsed base market fuel (suc k) i st (x ∷ ps) ≡ none
          → ((b : BlockInfo)
              → backup_chunks c parsed base market fuel (suc k) (suc i) (with_miner c i b st) ps
                ≡ none)
          → backup_chunks c parsed base market (suc fuel) k i st (x ∷ ps) ≡ none
      go stuck q ih ih' = rw (q, backup_chunks) refl
      go again q ih ih' = rw (q, backup_chunks) ih
      go (stored b) q ih ih' = rw (q, backup_chunks, ih' b) refl

  -- With a shard that is an empty file, FileBackupManagement has not ended after any number of calls of
  -- backupFile.
  pub empty_shard_forever :
      (replies : List BlockInfo → ℕ → Option Error) (states : ℕ → FileState) (fuel : ℕ)
      (st : FileStoreInfo) (p : Bytes) (ps : List Bytes)
      → ((k : ℕ) → (market k p).stat ≡ (0, none))
      → Memᴰ p ps
      → file_backup_management c parsed base market replies states fuel st ps ≡ none
  unfolding file_backup_management
  empty_shard_forever replies states fuel st p [] h m = elim m [ ]
  empty_shard_forever replies states fuel st p (x ∷ ps) h m =
      rw (backup_chunks-empty fuel 0 0 st p (x ∷ ps) h m, register_file) refl

  -- The chunk is stored by one of the calls k to k + bound, and no call before it is stuck.
  abbrev pub IsSoon : ℕ → Bytes → Type 0
  IsSoon bound p =
      (k : ℕ)
      → (j : ℕ) × (j ≤ bound)
        × ((b : BlockInfo) × (round (backup_file parsed (market (k + j) p) (base p)) ≡ stored b))
        × ((i : ℕ) → i < j → round (backup_file parsed (market (k + i) p) (base p)) ≢ stuck)

  also_stored-is_some :
      (b : BlockInfo) (st : FileStoreInfo) (o : Option Chunks)
      → is_some o ≡ true
      → is_some (also_stored b st o) ≡ true
  also_stored-is_some b st none e = e
  also_stored-is_some b st (some r) e = refl

  -- One chunk: from the call k on, within j + 1 calls, the loop goes on to the next chunk.
  advances :
      (j need fuel k i : ℕ) (st : FileStoreInfo) (p : Bytes) (ps : List Bytes) (b : BlockInfo)
      → round (backup_file parsed (market (k + j) p) (base p)) ≡ stored b
      → ((i : ℕ) → i < j → round (backup_file parsed (market (k + i) p) (base p)) ≢ stuck)
      → ((fuel k : ℕ) (st : FileStoreInfo)
          → need ≤ fuel
          → is_some (backup_chunks c parsed base market fuel k (suc i) st ps) ≡ true)
      → suc j + need ≤ fuel
      → is_some (backup_chunks c parsed base market fuel k i st (p ∷ ps)) ≡ true
  unfolding backup_chunks
  advances j need zero k i st p ps b s free later h = absurd (omega arith)
  advances zero need (suc fuel) k i st p ps b s free later h =
      let same : k + 0 ≡ k = omega arith in
      rw ((rw same at s), backup_chunks)
        (also_stored-is_some b _ _ (later fuel (suc k) (with_miner c i b st) (omega arith)))
  advances (suc j) need (suc fuel) k i st p ps b s free later h =
      go (round (backup_file parsed (market k p) (base p))) refl (
        advances j need fuel (suc k) i st p ps b (rw (shift j) at s)
          (λ i hi. rw (shift i) at (free (suc i) (omega arith))) later (omega arith))
    where
      shift : (n : ℕ) → k + suc n ≡ suc k + n
      shift n = omega arith

      go :
          (o : Round)
          → round (backup_file parsed (market k p) (base p)) ≡ o
          → is_some (backup_chunks c parsed base market fuel (suc k) i st (p ∷ ps)) ≡ true
          → is_some (backup_chunks c parsed base market (suc fuel) k i st (p ∷ ps)) ≡ true
      go stuck q ih =
          let same : k + 0 ≡ k = omega arith in absurd ((rw same at (free 0 (omega arith))) q)
      go again q ih = rw (q, backup_chunks) ih
      go (stored x) q ih =
          rw (q, backup_chunks)
            (also_stored-is_some x _ _ (later fuel (suc k) (with_miner c i x st) (omega arith)))

  backup_chunks-ends :
      (bound : ℕ) (ps : List Bytes)
      → All (IsSoon bound) ps
      → (i fuel k : ℕ) (st : FileStoreInfo) → length ps * suc bound ≤ fuel
      → is_some (backup_chunks c parsed base market fuel k i st ps) ≡ true
  unfolding backup_chunks
  backup_chunks-ends bound [] h i fuel k st f = refl
  backup_chunks-ends bound (p ∷ ps) (soon, h) i fuel k st f =
      let (j, hj, (b, s), free) = soon k in
      let cost : suc (length ps) * suc bound ≡ suc bound + length ps * suc bound = grind arith in
      advances j (length ps * suc bound) fuel k i st p ps b s free
        (λ fuel' k' st' g. backup_chunks-ends bound ps h (suc i) fuel' k' st' g) (omega arith)

  -- If each shard, from every call on, is stored within bound + 1 calls of backupFile, none of which
  -- waits for the miners for ever, then bound + 1 calls for each shard are enough: FileBackupManagement ends.
  pub backup_ends :
      (replies : List BlockInfo → ℕ → Option Error) (states : ℕ → FileState) (bound fuel : ℕ)
      (st : FileStoreInfo) (ps : List Bytes)
      → All (IsSoon bound) ps
      → length ps * suc bound ≤ fuel
      → is_some (file_backup_management c parsed base market replies states fuel st ps) ≡ true
  unfolding file_backup_management
  backup_ends replies states bound fuel st [] h f = refl
  backup_ends replies states bound fuel st (p ∷ ps) h f =
      go (backup_chunks c parsed base market fuel 0 0 st (p ∷ ps))
        (backup_chunks-ends bound (p ∷ ps) h 0 fuel 0 st f)
    where
      go :
          (o : Option Chunks)
          → is_some o ≡ true
          → is_some (register_file st replies states o) ≡ true
      go none e = unfold register_file in e
      go (some r) e = unfold register_file in rw (submit_meta_lem (replies r.blocks) states) refl
