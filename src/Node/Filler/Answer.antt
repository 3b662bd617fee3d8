-- ===== src/Node/Filler/Answer.antt =====
-- What storagefiller tells the task that waits for it.
use cess_scheduler.Prelude.{
  ℕ, ◌/◌, ◌≤◌, ◌≡◌, ◌≢◌, ◌↔◌, ◌⊎◌, inl, inr, refl, ap, ◌∙◌, Bytes, true, some, List, [], ◌∷◌,
  length, take, leb, arith, Bool-cases,
}
use cess_scheduler.Chain.Types.{FillerMetaInfo, CacheMinerInfo}
use cess_scheduler.Node.Backup.{Offer, absent, garbled, cached}
use cess_scheduler.Node.Filler.{
  Visit, answered, submitting, Visited, refuses, register_filler, storage_filler,
  combine_filler_meta, filler_size, filler_block_size,
}
use cess_scheduler.Node.Filler.Rounds.{
  FirstHash, submit_fillers-FirstHash, submit_fillers-answered, submit_fillers-waits,
}

-- The conditions up to the submission.
abbrev pub IsSent : Visit → Type 0
IsSent v =
    (v.signed ≡ true)
    × (v.chain_up ≡ true)
    × ((info : CacheMinerInfo) × (v.offer ≡ cached info))
    × (v.dials ≡ true)
    × (v.sends ≡ true)

storage_filler-sent :
    (fuel : ℕ) (v : Visit) (pkey : Bytes)
    → IsSent v
    → storage_filler fuel v pkey ≡ register_filler fuel v (combine_filler_meta v.file_hash pkey)
unfolding storage_filler
storage_filler-sent fuel v pkey (s, u, (info, o), d, t) =
    rw (s, u, o, storage_filler) (rw (d, t) refl)

combined :
    (hash pkey : Bytes)
    → 64 ≤ length hash
    → (meta : FillerMetaInfo) × (combine_filler_meta hash pkey ≡ some meta)
      × (meta.acc ≡ pkey)
      × (meta.hash ≡ take 64 hash)
unfolding combine_filler_meta
combined hash pkey h =
    let l : leb 64 (length hash) ≡ true = ground arith in
    let meta : FillerMetaInfo = record {
      size = filler_size;
      block_num = filler_size / filler_block_size;
      block_size = filler_block_size;
      acc = pkey;
      hash = take 64 hash;
    } in
    (meta, rw l refl, refl, refl)

-- With an empty hash from every call of SubmitFillerMeta, a filler that was sent, with a name of at least
-- 64 bytes, has the call submitting after any number of rounds, with workLock held and no value on the
-- channel.
pub filler_holds_lock :
    (fuel : ℕ) (v : Visit) (pkey : Bytes)
    → IsSent v
    → 64 ≤ length v.file_hash
    → ((j : ℕ) → v.replies j ≡ [])
    → (storage_filler fuel v pkey).ending ≡ submitting
unfolding register_filler
filler_holds_lock fuel v pkey sent long h =
    let (meta, c, a, b) = combined v.file_hash pkey long in
    ap (λ (x : Visited). x.ending)
      (storage_filler-sent fuel v pkey sent ∙ ap (register_filler fuel v) c)
    ∙ submit_fillers-waits fuel 0 v.replies h

-- A call that does not get to the end of SendFile puts false on the channel and submits nothing; it puts
-- at most one miner on the black list, the one of the cached record.
pub unsent_refused :
    (fuel : ℕ) (v : Visit) (pkey : Bytes)
    → ¬ IsSent v
    → (ids : List ℕ) × (storage_filler fuel v pkey ≡ refuses ids)
      × ((ids ≡ [])
          ⊎ ((info : CacheMinerInfo) × (v.offer ≡ cached info) × (ids ≡ info.peerid ∷ [])))
unfolding storage_filler
unsent_refused fuel v pkey n = elim (Bool-cases v.signed) [
  | inr s ↦ ([], rw (s, storage_filler) refl, inl refl)
  | inl s ↦ elim (Bool-cases v.chain_up) [
    | inr u ↦ ([], rw (s, u, storage_filler) refl, inl refl)
    | inl u ↦ at_miner v.offer refl s u
  ]
]
  where
    at_miner :
        (o : Offer)
        → v.offer ≡ o
        → v.signed ≡ true
        → v.chain_up ≡ true
        → (ids : List ℕ) × (storage_filler fuel v pkey ≡ refuses ids)
          × ((ids ≡ [])
              ⊎ ((info : CacheMinerInfo) × (v.offer ≡ cached info) × (ids ≡ info.peerid ∷ [])))
    at_miner absent q s u = ([], rw (s, u, q, storage_filler) refl, inl refl)
    at_miner garbled q s u = ([], rw (s, u, q, storage_filler) refl, inl refl)
    at_miner (cached info) q s u = elim (Bool-cases v.dials) [
      | inr d ↦ (info.peerid ∷ [], rw (s, u, q, storage_filler) (rw d refl), inr (info, q, refl))
      | inl d ↦ elim (Bool-cases v.sends) [
        | inr t ↦
            (info.peerid ∷ [], rw (s, u, q, storage_filler) (rw (d, t) refl), inr (info, q, refl))
        | inl t ↦ absurd (n (s, u, (info, q), d, t))
      ]
    ]

no_answer :
    (fuel : ℕ) (v : Visit) (pkey : Bytes)
    → ¬ IsSent v
    → (storage_filler fuel v pkey).ending ≢ answered true
no_answer fuel v pkey n e =
    let (ids, out, _) = unsent_refused fuel v pkey n in let x = rw out at e in ground arith

IsSent-cases : (v : Visit) → IsSent v ⊎ (¬ IsSent v)
IsSent-cases v = elim (Bool-cases v.signed) [
  | inr s ↦ inr (λ t. ground arith)
  | inl s ↦ elim (Bool-cases v.chain_up) [
    | inr u ↦ inr (λ t. ground arith)
    | inl u ↦ elim (Bool-cases v.dials) [
      | inr d ↦ inr (λ t. ground arith)
      | inl d ↦ elim (Bool-cases v.sends) [
        | inr t ↦ inr (λ t'. ground arith)
        | inl t ↦ offered v.offer refl s u d t
      ]
    ]
  ]
]
  where
    offered :
        (o : Offer)
        → v.offer ≡ o
        → v.signed ≡ true
        → v.chain_up ≡ true
        → v.dials ≡ true
        → v.sends ≡ true
        → IsSent v ⊎ (¬ IsSent v)
    offered absent q s u d t = inr (λ x. let c = x.2.1 in ground arith)
    offered garbled q s u d t = inr (λ x. let c = x.2.1 in ground arith)
    offered (cached info) q s u d t = inl (s, u, (info, q), d, t)

-- What one call met and did, if it put true on the channel.
pub record IsRegistered (fuel : ℕ) (v : Visit) (pkey : Bytes) : Type 0 where
  sent : IsSent v
  long : 64 ≤ length v.file_hash
  first : FirstHash fuel 0 v.replies
  meta : FillerMetaInfo
  owner : meta.acc ≡ pkey
  filler : meta.hash ≡ take 64 v.file_hash
  submits : (storage_filler fuel v pkey).submitted ≡ some meta
  spared : (storage_filler fuel v pkey).blacklisted ≡ []

long_enough :
    (fuel : ℕ) (v : Visit) (pkey : Bytes)
    → IsSent v
    → (storage_filler fuel v pkey).ending ≡ answered true
    → 64 ≤ length v.file_hash
unfolding combine_filler_meta register_filler
long_enough fuel v pkey sent e = elim (Bool-cases (leb 64 (length v.file_hash))) [
  | inl t ↦ ground arith
  | inr f ↦ absurd (let x = rw (storage_filler-sent fuel v pkey sent, f) at e in ground arith)
]

registered :
    (fuel : ℕ) (v : Visit) (pkey : Bytes)
    → (storage_filler fuel v pkey).ending ≡ answered true
    → IsRegistered fuel v pkey
unfolding register_filler
registered fuel v pkey e = elim (IsSent-cases v) [
  | inr n ↦ absurd (no_answer fuel v pkey n e)
  | inl sent ↦
      let long = long_enough fuel v pkey sent e in
      let (meta, c, a, b) = combined v.file_hash pkey long in
      let out = storage_filler-sent fuel v pkey sent ∙ ap (register_filler fuel v) c in
      record {
        sent = sent;
        long = long;
        first = submit_fillers-FirstHash fuel 0 v.replies (rw out at e);
        meta = meta;
        owner = a;
        filler = b;
        submits = rw out refl;
        spared = rw out refl;
      }
]

answers_true :
    (fuel : ℕ) (v : Visit) (pkey : Bytes)
    → IsRegistered fuel v pkey
    → (storage_filler fuel v pkey).ending ≡ answered true
unfolding register_filler FirstHash
answers_true fuel v pkey r =
    let (meta, c, a, b) = combined v.file_hash pkey r.long in
    let (j, h, found, before) = r.first in
    ap (λ (x : Visited). x.ending)
      (storage_filler-sent fuel v pkey r.sent ∙ ap (register_filler fuel v) c)
    ∙ submit_fillers-answered j fuel 0 v.replies h found

-- storagefiller, with `fuel` calls of SubmitFillerMeta, puts true on its channel exactly when the message was
-- signed, the chain was up, the cache held the miner's record, its server was dialled and took the filler,
-- the filler's name has at least 64 bytes, and one of these calls gave a hash, all before it an empty one.
-- What was submitted is then of the miner's key and the first 64 bytes of the name, and no miner was put on
-- the black list.
pub filler_registered :
    (fuel : ℕ) (v : Visit) (pkey : Bytes)
    → ((storage_filler fuel v pkey).ending ≡ answered true) ↔ IsRegistered fuel v pkey
filler_registered fuel v pkey = (registered fuel v pkey, answers_true fuel v pkey)
