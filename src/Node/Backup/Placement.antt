-- ===== src/Node/Backup/Placement.antt =====
-- What backupFile has done when it gives a block.
use cess_scheduler.Prelude.{
  ℕ, ◌≤◌, ◌/◌, ◌≡◌, ◌≢◌, refl, ◌∙◌, ap, Bytes, Bool, true, false, Option, none, some, List, [], ◌∷◌,
  length, arith, ltb, inl, inr, Option-cases,
}
use mathlib.Core.List.{Memᴰ}
use cess_scheduler.Chain.Types.{BlockInfo, CacheMinerInfo}
use cess_scheduler.Node.Backup.{
  Offer, absent, garbled, cached, Market, gave, Turn, passes, misnamed, dial_panics, address_panics,
  stores, named, turn, place, full_name, first_ok, offer_around, backup_sized, backup_file,
  file_block_id_length, calc_file_block_size_and_scan_size,
}

-- The miner of the key took the file of this size, and the block says so.
pub record IsStored (mk : Market) (size : ℕ) (key : Bytes) (b : BlockInfo) : Type 0 where
  pub info : CacheMinerInfo
  pub offered : mk.offer key ≡ cached info
  pub fits : size ≤ info.free
  pub resolved : mk.resolves info.ip ≡ true
  pub dialled : mk.dials info.ip ≡ true
  pub taken : mk.takes key ≡ true
  pub miner : b.miner_id ≡ info.peerid
  pub account : b.miner_acc ≡ key
  pub sized : b.block_size ≡ size
  pub identified : length b.block_id ≡ file_block_id_length

named-stores :
    (parsed : Bytes → Bool) (size n : ℕ) (name key : Bytes) (info : CacheMinerInfo) (b : BlockInfo)
    → named parsed size n name key info ≡ stores b
    → (b.miner_id ≡ info.peerid)
      × (b.miner_acc ≡ key)
      × (b.block_size ≡ size)
      × (length b.block_id ≡ file_block_id_length)
unfolding named
named-stores parsed size n name key info b e = ground arith

turn-gates :
    (parsed : Bytes → Bool) (mk : Market) (size n : ℕ) (fname key : Bytes) (info : CacheMinerInfo)
    (b : BlockInfo)
    → turn parsed mk size n fname key (cached info) ≡ stores b
    → (ltb info.free size ≡ false)
      × (mk.resolves info.ip ≡ true)
      × (mk.dials info.ip ≡ true)
      × (mk.takes key ≡ true)
      × (named parsed size n (full_name fname) key info ≡ stores b)
unfolding turn
turn-gates parsed mk size n fname key info b e = ground arith

turn-stores :
    (parsed : Bytes → Bool) (mk : Market) (size n : ℕ) (fname key : Bytes) (o : Offer)
    (b : BlockInfo)
    → mk.offer key ≡ o
    → turn parsed mk size n fname key o ≡ stores b
    → IsStored mk size key b
turn-stores parsed mk size n fname key absent b o e = unfold turn in ground arith
turn-stores parsed mk size n fname key garbled b o e = unfold turn in ground arith
turn-stores parsed mk size n fname key (cached info) b o e =
    let (free, resolved, dialled, taken, last) = turn-gates parsed mk size n fname key info b e in
    let (miner, acc, sized, long) = named-stores parsed size n (full_name fname) key info b last in
    record {
      info = info;
      offered = o;
      fits = ground arith;
      resolved = resolved;
      dialled = dialled;
      taken = taken;
      miner = miner;
      account = acc;
      sized = sized;
      identified = long;
    }

-- One of these miners took the file.
abbrev pub IsPlaced : Market → ℕ → List Bytes → BlockInfo → Type 0
IsPlaced mk size keys b = (key : Bytes) × Memᴰ key keys × IsStored mk size key b

pub place-IsPlaced :
    (parsed : Bytes → Bool) (mk : Market) (size n : ℕ) (sent : List Bytes) (fname : Bytes)
    (keys sent' : List Bytes) (b : BlockInfo)
    → place parsed mk size n sent fname keys ≡ gave sent' b none
    → b.miner_id ≢ 0
    → IsPlaced mk size keys b
unfolding place
place-IsPlaced parsed mk size n sent fname [] sent' b e h = ground arith
place-IsPlaced parsed mk size n sent fname (key ∷ keys) sent' b e h =
    go (turn parsed mk size n fname key (mk.offer key)) refl
      (λ sent1 fname1 e1. place-IsPlaced parsed mk size n sent1 fname1 keys sent' b e1 h)
  where
    later : IsPlaced mk size keys b → IsPlaced mk size (key ∷ keys) b
    later (k, m, s) = (k, Memᴰ.tail m, s)

    go :
        (t : Turn)
        → turn parsed mk size n fname key (mk.offer key) ≡ t
        → ((sent1 : List Bytes) (fname1 : Bytes)
            → place parsed mk size n sent1 fname1 keys ≡ gave sent' b none
            → IsPlaced mk size keys b)
        → IsPlaced mk size (key ∷ keys) b
    go passes q ih = later (ih _ _ (rw (q, place) at e))
    go misnamed q ih = later (ih _ _ (rw (q, place) at e))
    go dial_panics q ih = ground arith
    go address_panics q ih = ground arith
    go (stores x) q ih =
        let same : x ≡ b = ground arith in
        (
          key,
          Memᴰ.head refl,
          turn-stores parsed mk size n fname key (mk.offer key) b refl (q ∙ ap stores same),
        )

-- One of the miners of the first answer without an error took the file.
abbrev pub IsBackedUp : Market → BlockInfo → Type 0
IsBackedUp mk b =
    (keys : List Bytes) × (first_ok mk.miner_replies ≡ some keys)
    × IsPlaced mk mk.stat.0 (mk.shuffle keys) b

offer_around-IsPlaced :
    (parsed : Bytes → Bool) (mk : Market) (size n : ℕ) (fname : Bytes) (keys : Option (List Bytes))
    (sent : List Bytes) (b : BlockInfo)
    → offer_around parsed mk size n fname keys ≡ gave sent b none
    → b.miner_id ≢ 0
    → (ks : List Bytes) × (keys ≡ some ks) × IsPlaced mk size (mk.shuffle ks) b
unfolding offer_around
offer_around-IsPlaced parsed mk size n fname none sent b e h = ground arith
offer_around-IsPlaced parsed mk size n fname (some ks) sent b e h =
    elim (Option-cases mk.sign_err) [
      | inl q ↦ (
        ks,
        refl,
        place-IsPlaced parsed mk size n [] fname (mk.shuffle ks) sent b (rw (q, offer_around) at e)
            h,
      )
      | inr (x, q) ↦ ground arith
    ]

backup_sized-IsPlaced :
    (parsed : Bytes → Bool) (mk : Market) (fname : Bytes) (size bs : ℕ) (sent : List Bytes)
    (b : BlockInfo)
    → backup_sized parsed mk fname size bs ≡ gave sent b none
    → b.miner_id ≢ 0
    → (ks : List Bytes) × (first_ok mk.miner_replies ≡ some ks) × IsPlaced mk size (mk.shuffle ks) b
unfolding backup_sized
backup_sized-IsPlaced parsed mk fname size bs sent b e h =
    offer_around-IsPlaced parsed mk size (size / bs) fname (first_ok mk.miner_replies) sent b
      (ground arith) h

-- A block that backupFile gives with a nil error and a miner's number: the list of miners was read, and
-- one of them, whose cached record has room for the file, was resolved and dialled and took the file; the
-- block names that miner, its key, the size of the file, and an id of 68 bytes.
pub backup_file-IsBackedUp :
    (parsed : Bytes → Bool) (mk : Market) (fname : Bytes) (sent : List Bytes) (b : BlockInfo)
    → backup_file parsed mk fname ≡ gave sent b none
    → b.miner_id ≢ 0
    → IsBackedUp mk b
unfolding backup_file
backup_file-IsBackedUp parsed mk fname sent b e h =
    let size = mk.stat.0 in
    backup_sized-IsPlaced parsed mk fname size (calc_file_block_size_and_scan_size size).0 sent b
      (ground arith) h
